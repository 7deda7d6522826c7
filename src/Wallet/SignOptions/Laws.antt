-- ===== src/Wallet/SignOptions/Laws.antt =====
-- Each option reads as what was last assigned to it.
use bdk_wasm.Base.{◌≡◌, refl, List, unwrap_or}
use bdk_wasm.Histories.{latest, latest_lem}
use bdk_wasm.Bdk.Signing.{BdkSignOptions}
use bdk_wasm.Types.Wrapper.{wrap}
use bdk_wasm.Wallet.SignOptions.{
  SignOptions, OptionSetter, sign_options_new, assign, assign_all, trust_witness_utxo,
  assume_height, allow_all_sighashes, try_finalize, sign_with_tap_internal_key, allow_grinding,
  chosen_trust_witness_utxo, chosen_assume_height, chosen_allow_all_sighashes, chosen_try_finalize,
  chosen_sign_with_tap_internal_key, chosen_allow_grinding,
}

trust_witness_utxo_step :
    (o : SignOptions) (s : OptionSetter)
    → trust_witness_utxo (assign o s)
      ≡ unwrap_or (chosen_trust_witness_utxo s) (trust_witness_utxo o)
unfolding assign trust_witness_utxo
trust_witness_utxo_step (wrap o) (OptionSetter.allow_grinding_to _) = refl
trust_witness_utxo_step (wrap o) _ = refl

assume_height_step :
    (o : SignOptions) (s : OptionSetter)
    → assume_height (assign o s) ≡ unwrap_or (chosen_assume_height s) (assume_height o)
unfolding assign assume_height
assume_height_step (wrap o) (OptionSetter.allow_grinding_to _) = refl
assume_height_step (wrap o) _ = refl

allow_all_sighashes_step :
    (o : SignOptions) (s : OptionSetter)
    → allow_all_sighashes (assign o s)
      ≡ unwrap_or (chosen_allow_all_sighashes s) (allow_all_sighashes o)
unfolding assign allow_all_sighashes
allow_all_sighashes_step (wrap o) (OptionSetter.allow_grinding_to _) = refl
allow_all_sighashes_step (wrap o) _ = refl

try_finalize_step :
    (o : SignOptions) (s : OptionSetter)
    → try_finalize (assign o s) ≡ unwrap_or (chosen_try_finalize s) (try_finalize o)
unfolding assign try_finalize
try_finalize_step (wrap o) (OptionSetter.allow_grinding_to _) = refl
try_finalize_step (wrap o) _ = refl

sign_with_tap_internal_key_step :
    (o : SignOptions) (s : OptionSetter)
    → sign_with_tap_internal_key (assign o s)
      ≡ unwrap_or (chosen_sign_with_tap_internal_key s) (sign_with_tap_internal_key o)
unfolding assign sign_with_tap_internal_key
sign_with_tap_internal_key_step (wrap o) (OptionSetter.allow_grinding_to _) = refl
sign_with_tap_internal_key_step (wrap o) _ = refl

allow_grinding_step :
    (o : SignOptions) (s : OptionSetter)
    → allow_grinding (assign o s) ≡ unwrap_or (chosen_allow_grinding s) (allow_grinding o)
unfolding assign allow_grinding
allow_grinding_step (wrap o) (OptionSetter.allow_grinding_to _) = refl
allow_grinding_step (wrap o) _ = refl

-- New options, after any assignments: each getter gives the last value that was assigned to its
-- option, or bdk_wallet's default if there was none, so that no two options share a place.
pub assign_all_reads_back :
    (default : BdkSignOptions) (hs : List OptionSetter)
    → let o = assign_all hs (sign_options_new default) in
      (trust_witness_utxo o
        ≡ unwrap_or (latest chosen_trust_witness_utxo hs) default.trust_witness_utxo)
      × (assume_height o ≡ unwrap_or (latest chosen_assume_height hs) default.assume_height)
      × (allow_all_sighashes o
          ≡ unwrap_or (latest chosen_allow_all_sighashes hs) default.allow_all_sighashes)
      × (try_finalize o ≡ unwrap_or (latest chosen_try_finalize hs) default.try_finalize)
      × (sign_with_tap_internal_key o
          ≡ unwrap_or
              (latest chosen_sign_with_tap_internal_key hs)
              default.sign_with_tap_internal_key)
      × (allow_grinding o ≡ unwrap_or (latest chosen_allow_grinding hs) default.allow_grinding)
unfolding assign_all sign_options_new assign trust_witness_utxo assume_height allow_all_sighashes
    try_finalize sign_with_tap_internal_key allow_grinding
assign_all_reads_back default hs = (
  latest_lem assign trust_witness_utxo chosen_trust_witness_utxo trust_witness_utxo_step hs
      (wrap default),
  latest_lem assign assume_height chosen_assume_height assume_height_step hs (wrap default),
  latest_lem assign allow_all_sighashes chosen_allow_all_sighashes allow_all_sighashes_step hs
      (wrap default),
  latest_lem assign try_finalize chosen_try_finalize try_finalize_step hs (wrap default),
  latest_lem assign sign_with_tap_internal_key chosen_sign_with_tap_internal_key
      sign_with_tap_internal_key_step hs (wrap default),
  latest_lem assign allow_grinding chosen_allow_grinding allow_grinding_step hs (wrap default),
)
