-- ===== src/Bdk/Values.antt =====
-- Blocks of bitcoin, and the outputs, balances, checkpoints and change sets of bdk_wallet.
use bdk_wasm.Base.{ℕ, String, Bool, Option, List, Result}
use bdk_wasm.Bdk.Kinds.{BdkKeychainKind}
use bdk_wasm.Bdk.Opaque.{BdkTypes, BdkOutPoint, BdkBlockId}

-- The parts of a block that the crate reads.
pub record BlockLib (T : BdkTypes) : Type 1 where
  pub Block : Type 0
  pub deserialize : List ℕ → Result String Block
  pub block_hash : Block → T.BlockHash
  pub prev_blockhash : Block → T.BlockHash
  pub time : Block → ℕ
  pub txdata : Block → List T.Transaction

pub record BdkLocalOutput (T : BdkTypes) (TxOut : Type 0) : Type 0 where
  pub outpoint : BdkOutPoint T
  pub txout : TxOut
  pub keychain : BdkKeychainKind
  pub derivation_index : ℕ

pub record BdkBalance (T : BdkTypes) : Type 0 where
  pub immature : T.Amount
  pub trusted_pending : T.Amount
  pub untrusted_pending : T.Amount
  pub confirmed : T.Amount

pub record BalanceLib (T : BdkTypes) : Type 0 where
  pub trusted_spendable : BdkBalance T → T.Amount
  pub total : BdkBalance T → T.Amount

pub record CheckPointLib (T : BdkTypes) : Type 1 where
  pub CheckPoint : Type 0
  pub block_id : CheckPoint → BdkBlockId T
  pub height : CheckPoint → ℕ
  pub hash : CheckPoint → T.BlockHash
  pub prev : CheckPoint → Option CheckPoint
  pub get : CheckPoint → ℕ → Option CheckPoint

-- `merge` takes `&mut self`, and gives what it leaves there.
pub record ChangeSetLib : Type 1 where
  pub ChangeSet : Type 0
  pub merge : ChangeSet → ChangeSet → ChangeSet
  pub is_empty : ChangeSet → Bool
  pub to_json : ChangeSet → Result String String
  pub from_json : String → Result String ChangeSet
