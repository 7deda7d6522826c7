-- ===== src/TxBuilder/Finish/FeeBump.antt =====
-- The settings that a fee bump does not look at.
use bdk_wasm.Base.{◌≡◌, refl, ◌∙◌, true, List, [], ◌∷◌, All}
use bdk_wasm.Bdk.Opaque.{BdkTypes}
use bdk_wasm.Bdk.Builder.{BuilderLib}
use bdk_wasm.Types.Error.{Host}
use bdk_wasm.TxBuilder.{TxBuilder}
use bdk_wasm.TxBuilder.Finish.{finish_on, finish_fee_bump, configure_fee_bump}
use bdk_wasm.TxBuilder.History.{Setter, apply_setter, build}

-- All setters but those of the fee, the ordering, the dust check and the three PSBT flags.
abbrev pub IsIgnored : {T : BdkTypes} → Setter T → Type 0
IsIgnored (Setter.fee_rate _) = ⊥
IsIgnored (Setter.fee_absolute _) = ⊥
IsIgnored (Setter.ordering _) = ⊥
IsIgnored (Setter.allow_dust _) = ⊥
IsIgnored Setter.only_witness_utxo = ⊥
IsIgnored Setter.include_output_redeem_witness_script = ⊥
IsIgnored Setter.add_global_xpubs = ⊥
IsIgnored _ = Unit

module _ {T : BdkTypes} (H : Host T) (L : BuilderLib T) where
  open L use {Wallet}

  keeps_fee_bump_mode :
      (b : TxBuilder T) (s : Setter T)
      → b.is_fee_bump ≡ true
      → (apply_setter b s).is_fee_bump ≡ true
  unfolding apply_setter
  keeps_fee_bump_mode b (Setter.fee_rate _) bump = bump
  keeps_fee_bump_mode b _ bump = bump

  ignores_call :
      (b : TxBuilder T) (s : Setter T) (w : Wallet)
      → b.is_fee_bump ≡ true
      → IsIgnored s
      → finish_on H L (apply_setter b s) w ≡ finish_on H L b w
  unfolding apply_setter finish_on finish_fee_bump configure_fee_bump
  ignores_call b (Setter.fee_rate _) w bump i = absurd i
  ignores_call b (Setter.fee_absolute _) w bump i = absurd i
  ignores_call b (Setter.ordering _) w bump i = absurd i
  ignores_call b (Setter.allow_dust _) w bump i = absurd i
  ignores_call b Setter.only_witness_utxo w bump i = absurd i
  ignores_call b Setter.include_output_redeem_witness_script w bump i = absurd i
  ignores_call b Setter.add_global_xpubs w bump i = absurd i
  ignores_call b _ w bump i = simp bump

  -- A fee bump finishes as if no recipient, outpoint, drain, confirmation, change-policy, locktime,
  -- version, height, sequence or data setting had been made on it: no history of such calls changes
  -- what `finish` reports or what it does to the wallet.
  pub finish_on-ignored :
      (hs : List (Setter T)) (b : TxBuilder T) (w : Wallet)
      → b.is_fee_bump ≡ true
      → All IsIgnored hs
      → finish_on H L (build hs b) w ≡ finish_on H L b w
  unfolding build
  finish_on-ignored [] b w bump i = refl
  finish_on-ignored (s ∷ hs) b w bump (now, later) =
      finish_on-ignored hs (apply_setter b s) w (keeps_fee_bump_mode b s bump) later
      ∙ ignores_call b s w bump now
