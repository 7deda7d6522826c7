-- ===== src/TxBuilder/History/Canonical.antt =====
-- One short history of setter calls for every builder, read off its fields.
pub mod Steps
pub mod Once
pub mod Laws
use bdk_wasm.Base.{Bool, true, false, Option, none, some, List, [], ◌∷◌}
use bdk_wasm.Bdk.Opaque.{BdkTypes}
use bdk_wasm.TxBuilder.{TxBuilder, FeePolicy}
use bdk_wasm.TxBuilder.History.{Setter}

module _ {T : BdkTypes} where
  abbrev pub fee_setter : FeePolicy T → Setter T
  fee_setter (FeePolicy.rate r) = Setter.fee_rate r
  fee_setter (FeePolicy.absolute a) = Setter.fee_absolute a

  abbrev pub then_some :
      {A : Type 0} → Option A → (A → Setter T) → List (Setter T) → List (Setter T)
  then_some none s rest = rest
  then_some (some a) s rest = s a ∷ rest

  abbrev pub then_if : Bool → Setter T → List (Setter T) → List (Setter T)
  then_if false s rest = rest
  then_if true s rest = s ∷ rest

  -- The settings that are unset in a new builder.
  abbrev pub choices_of : TxBuilder T → List (Setter T)
  choices_of b = then_some b.drain_to Setter.drain_to (
      then_some b.min_confirmations Setter.exclude_below_confirmations (
        then_some b.change_policy Setter.change_policy (
          then_some b.nlocktime Setter.nlocktime (
            then_some b.version Setter.version (
              then_some b.current_height Setter.current_height (
                then_some b.exact_sequence Setter.set_exact_sequence (
                  then_some b.data_bytes Setter.add_data (
                    then_if b.drain_wallet Setter.drain_wallet (
                      then_if b.only_spend_from Setter.only_spend_from (
                        then_if b.only_witness_utxo Setter.only_witness_utxo (
                          then_if b.include_output_redeem_witness_script
                            Setter.include_output_redeem_witness_script
                            (then_if b.add_global_xpubs Setter.add_global_xpubs []))))))))))))

  -- One call for each setting, in the order of the fields, where a new builder may differ.
  abbrev pub canonical : TxBuilder T → List (Setter T)
  canonical b =
      Setter.set_recipients b.recipients
      ∷ Setter.add_utxos b.utxos
      ∷ Setter.unspendable b.unspendable
      ∷ fee_setter b.fee_policy
      ∷ Setter.allow_dust b.allow_dust
      ∷ Setter.ordering b.ordering
      ∷ choices_of b
