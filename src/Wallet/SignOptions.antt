-- ===== src/Wallet/SignOptions.antt =====
-- The options for signing, of src/bitcoin/wallet.rs: a wrapper whose six fields JavaScript reads and
-- writes.
pub mod Laws
use bdk_wasm.Base.{ℕ, Bool, Option, none, some, List, foldl}
use bdk_wasm.Bdk.Signing.{BdkSignOptions}
use bdk_wasm.Types.Wrapper.{Wrapper, wrap}

abbrev pub SignOptions : Type 0
SignOptions = Wrapper BdkSignOptions

-- `SignOptions::new`, over bdk_wallet's default.
unfoldable pub sign_options_new : BdkSignOptions → SignOptions
sign_options_new default = wrap default

-- `SignOptions::trust_witness_utxo`
unfoldable pub trust_witness_utxo : SignOptions → Bool
trust_witness_utxo (wrap o) = o.trust_witness_utxo

-- `SignOptions::set_trust_witness_utxo`
unfoldable pub set_trust_witness_utxo : SignOptions → Bool → SignOptions
set_trust_witness_utxo (wrap o) value = wrap (record o { trust_witness_utxo = value })

-- `SignOptions::assume_height`
unfoldable pub assume_height : SignOptions → Option ℕ
assume_height (wrap o) = o.assume_height

-- `SignOptions::set_assume_height`
unfoldable pub set_assume_height : SignOptions → Option ℕ → SignOptions
set_assume_height (wrap o) value = wrap (record o { assume_height = value })

-- `SignOptions::allow_all_sighashes`
unfoldable pub allow_all_sighashes : SignOptions → Bool
allow_all_sighashes (wrap o) = o.allow_all_sighashes

-- `SignOptions::set_allow_all_sighashes`
unfoldable pub set_allow_all_sighashes : SignOptions → Bool → SignOptions
set_allow_all_sighashes (wrap o) value = wrap (record o { allow_all_sighashes = value })

-- `SignOptions::try_finalize`
unfoldable pub try_finalize : SignOptions → Bool
try_finalize (wrap o) = o.try_finalize

-- `SignOptions::set_try_finalize`
unfoldable pub set_try_finalize : SignOptions → Bool → SignOptions
set_try_finalize (wrap o) value = wrap (record o { try_finalize = value })

-- `SignOptions::sign_with_tap_internal_key`
unfoldable pub sign_with_tap_internal_key : SignOptions → Bool
sign_with_tap_internal_key (wrap o) = o.sign_with_tap_internal_key

-- `SignOptions::set_sign_with_tap_internal_key`
unfoldable pub set_sign_with_tap_internal_key : SignOptions → Bool → SignOptions
set_sign_with_tap_internal_key (wrap o) value =
    wrap (record o { sign_with_tap_internal_key = value })

-- `SignOptions::allow_grinding`
unfoldable pub allow_grinding : SignOptions → Bool
allow_grinding (wrap o) = o.allow_grinding

-- `SignOptions::set_allow_grinding`
unfoldable pub set_allow_grinding : SignOptions → Bool → SignOptions
set_allow_grinding (wrap o) value = wrap (record o { allow_grinding = value })

-- One assignment.
pub data OptionSetter : Type 0 where
  trust_witness_utxo_to : Bool → OptionSetter
  assume_height_to : Option ℕ → OptionSetter
  allow_all_sighashes_to : Bool → OptionSetter
  try_finalize_to : Bool → OptionSetter
  sign_with_tap_internal_key_to : Bool → OptionSetter
  allow_grinding_to : Bool → OptionSetter

unfoldable pub assign : SignOptions → OptionSetter → SignOptions
unfolding set_trust_witness_utxo set_assume_height set_allow_all_sighashes set_try_finalize
    set_sign_with_tap_internal_key set_allow_grinding
assign o (OptionSetter.trust_witness_utxo_to value) = set_trust_witness_utxo o value
assign o (OptionSetter.assume_height_to value) = set_assume_height o value
assign o (OptionSetter.allow_all_sighashes_to value) = set_allow_all_sighashes o value
assign o (OptionSetter.try_finalize_to value) = set_try_finalize o value
assign o (OptionSetter.sign_with_tap_internal_key_to value) = set_sign_with_tap_internal_key o value
assign o (OptionSetter.allow_grinding_to value) = set_allow_grinding o value

-- The assignments of a program, one after the other.
unfoldable pub assign_all : List OptionSetter → SignOptions → SignOptions
assign_all hs o = foldl assign o hs

-- `trust_witness_utxo`
abbrev pub chosen_trust_witness_utxo : OptionSetter → Option Bool
chosen_trust_witness_utxo (OptionSetter.trust_witness_utxo_to value) = some value
chosen_trust_witness_utxo _ = none

-- `assume_height`
abbrev pub chosen_assume_height : OptionSetter → Option (Option ℕ)
chosen_assume_height (OptionSetter.assume_height_to value) = some value
chosen_assume_height _ = none

-- `allow_all_sighashes`
abbrev pub chosen_allow_all_sighashes : OptionSetter → Option Bool
chosen_allow_all_sighashes (OptionSetter.allow_all_sighashes_to value) = some value
chosen_allow_all_sighashes _ = none

-- `try_finalize`
abbrev pub chosen_try_finalize : OptionSetter → Option Bool
chosen_try_finalize (OptionSetter.try_finalize_to value) = some value
chosen_try_finalize _ = none

-- `sign_with_tap_internal_key`
abbrev pub chosen_sign_with_tap_internal_key : OptionSetter → Option Bool
chosen_sign_with_tap_internal_key (OptionSetter.sign_with_tap_internal_key_to value) = some value
chosen_sign_with_tap_internal_key _ = none

-- `allow_grinding`
abbrev pub chosen_allow_grinding : OptionSetter → Option Bool
chosen_allow_grinding (OptionSetter.allow_grinding_to value) = some value
chosen_allow_grinding _ = none
