-- ===== src/Wallet/Program.antt =====
-- A program that uses the crate: JavaScript makes wallets, calls their methods in any order, and
-- holds any number of builders, also several of one wallet, which it configures and finishes. A
-- method that is called on an object that does not exist, or on a builder that was finished, throws
-- in the generated bindings and does nothing.
pub mod Frame
pub mod Invariant
pub mod Calm
mod Steps
pub mod Safety
mod Builders
pub mod Finishing
use bdk_wasm.Base.{
  ℕ, zero, suc, ◌≡◌, String, Option, none, some, List, [], ◌∷◌, ok, err, Outcome, returned,
  panicked, ltb, if◌then◌else◌, get_elem?,
}
use bdk_wasm.Base.Results.{JsResult}
use bdk_wasm.Base.RefCell.{Borrow, Heap}
use bdk_wasm.Bdk.Opaque.{BdkTypes}
use bdk_wasm.Bdk.Builder.{BuilderLib}
use bdk_wasm.Bdk.Wallet.{WalletLib}
use bdk_wasm.Types.Wrapper.{Wrapper}
use bdk_wasm.Types.Error.{Host}
use bdk_wasm.Types.Network.{Network}
use bdk_wasm.Types.Output.{Txid}
use bdk_wasm.TxBuilder.{TxBuilder}
use bdk_wasm.TxBuilder.Finish.{finish}
use bdk_wasm.TxBuilder.History.{Setter, apply_setter}
use bdk_wasm.Wallet.Create
use bdk_wasm.Wallet.Change
use bdk_wasm.Wallet.Session.{Query, Command}
use bdk_wasm.Wallet.Session.Perform.{ask, command_on}

-- The wallets made so far have the handles below `handles`.
pub record Program {T : BdkTypes} (L : BuilderLib T) : Type 0 where
  pub heap : Heap L.Wallet
  pub handles : ℕ
  pub builders : List (TxBuilder T)

-- What JavaScript does next. The numbers are the handle of a wallet and the place of a builder.
pub data Op {T : BdkTypes} {L : BuilderLib T} (V : WalletLib L) : Type 0 where
  create_single : Network → String → Op V
  create : Network → String → String → Op V
  create_from_two_path_descriptor : Network → String → Op V
  load : Wrapper V.ChangeSet → Option String → Option String → Op V
  asks : ℕ → Query V → Op V
  commands : ℕ → Command V → Op V
  build_tx : ℕ → Op V
  build_fee_bump : ℕ → Txid T → Op V
  sets : ℕ → Setter T → Op V
  finishes : ℕ → Op V

-- The list with one place changed, or left out.
abbrev pub modify {ℓ} : {A : Type ℓ} → (A → A) → List A → ℕ → List A
modify f [] i = []
modify f (a ∷ l) zero = f a ∷ l
modify f (a ∷ l) (suc i) = a ∷ modify f l i

abbrev pub remove {ℓ} : {A : Type ℓ} → List A → ℕ → List A
remove [] i = []
remove (a ∷ l) zero = l
remove (a ∷ l) (suc i) = a ∷ remove l i

module _ {T : BdkTypes} {L : BuilderLib T} where
  -- The program after a call that gives an outcome and a heap.
  abbrev pub resume : {A : Type 0} → Program L → Outcome A × Heap L.Wallet → Outcome (Program L)
  resume p (returned _, heap) = returned (record p { heap = heap })
  resume p (panicked message, _) = panicked message

  -- The program after a constructor: a handle that is given out is counted.
  abbrev pub adopt : Program L → JsResult ℕ × Heap L.Wallet → Program L
  adopt p (ok _, heap) = record p { heap = heap; handles = suc p.handles }
  adopt p (err _, heap) = record p { heap = heap }

  -- The program after a builder is given out.
  abbrev pub hold : Program L → Outcome (TxBuilder T) → Outcome (Program L)
  hold p (returned b) = returned (record p { builders = b ∷ p.builders })
  hold p (panicked message) = panicked message

  abbrev pub hold_result : Program L → Outcome (JsResult (TxBuilder T)) → Outcome (Program L)
  hold_result p (returned (ok b)) = returned (record p { builders = b ∷ p.builders })
  hold_result p (returned (err _)) = returned p
  hold_result p (panicked message) = panicked message

module _ {T : BdkTypes} (H : Host T) {L : BuilderLib T} (V : WalletLib L) where
  -- One step of the program.
  unfoldable pub advance : Op V → Program L → Outcome (Program L)
  advance (Op.create_single network descriptor) p =
      returned (adopt p (Create.create_single V p.handles network descriptor p.heap))
  advance (Op.create network external internal) p =
      returned (adopt p (Create.create V p.handles network external internal p.heap))
  advance (Op.create_from_two_path_descriptor network descriptor) p =
      returned
        (adopt p (Create.create_from_two_path_descriptor V p.handles network descriptor p.heap))
  advance (Op.load changeset external internal) p =
      returned (adopt p (Create.load V p.handles changeset external internal p.heap))
  advance (Op.asks h q) p = if ltb h p.handles then resume p (ask V h q p.heap) else returned p
  advance (Op.commands h c) p =
      if ltb h p.handles then resume p (command_on H V h c p.heap) else returned p
  advance (Op.build_tx h) p = if ltb h p.handles then hold p (Change.build_tx L h) else returned p
  advance (Op.build_fee_bump h txid) p =
      if ltb h p.handles then hold_result p (Change.build_fee_bump L h txid) else returned p
  advance (Op.sets i s) p =
      returned (record p { builders = modify (λ b. apply_setter b s) p.builders i })
  advance (Op.finishes i) p = elim (get_elem? p.builders i) [
    | none ↦ returned p
    | some b ↦ resume (record p { builders = remove p.builders i }) (finish H L b p.heap)
  ]

  -- What a program can come to. It starts without wallets and builders.
  pub data Reachable : Program L → Type 0 where
    starts :
        (p : Program L)
        → ((i : ℕ) → (p.heap i).state ≡ Borrow.unused)
        → p.handles ≡ 0
        → p.builders ≡ []
        → Reachable p
    goes_on : (p q : Program L) (op : Op V) → Reachable p → advance op p ≡ returned q → Reachable q
