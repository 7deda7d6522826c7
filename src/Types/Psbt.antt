-- ===== src/Types/Psbt.antt =====
-- src/types/psbt.rs: recipients of a transaction, and the partially signed transaction.
pub mod Methods
use bdk_wasm.Bdk.Opaque.{BdkTypes}
use bdk_wasm.Types.Wrapper.{Wrapper, into_inner}
use bdk_wasm.Types.Amount.{Amount, ScriptBuf}

abbrev pub Psbt : BdkTypes → Type 0
Psbt T = Wrapper T.Psbt

pub record Recipient (T : BdkTypes) : Type 0 where
  pub script_pubkey : T.Script
  pub amount : T.Amount

module _ {T : BdkTypes} where
  -- `Recipient::new`
  unfoldable pub recipient_new : ScriptBuf T → Amount T → Recipient T
  recipient_new script amount = record {
    script_pubkey = into_inner script;
    amount = into_inner amount;
  }

  -- `From<Recipient> for (BdkScriptBuf, BdkAmount)`
  abbrev pub recipient_into_pair : Recipient T → T.Script × T.Amount
  recipient_into_pair r = (r.script_pubkey, r.amount)
