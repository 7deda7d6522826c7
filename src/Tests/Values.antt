-- ===== src/Tests/Values.antt =====
-- Errors and values of the stand-in.
use bdk_wasm.Base.{
  List, [], ◌∷◌, ◌≤◌, ◌<◌, ◌^◌, ◌≡◌, ◌≢◌, ◌↔◌, ◌⊎◌, refl, not, ◌&&◌, Bool, false, none, some,
  is_some, map_option,
}
use bdk_wasm.Bdk.Errors.{ParseAmountError, ParseError, BuildFeeBumpError, CreateTxError}
use bdk_wasm.Bdk.Errors.{ApplyHeaderError}
use bdk_wasm.Bdk.Chain.{BdkChainPosition, BdkWalletEvent, ChainLib, IsLawful}
use bdk_wasm.Types.Wrapper.{wrap, deref}
use bdk_wasm.Types.Network.{Network, kind_into_bdk, kind_of_bdk_network, network_into_bdk}
use bdk_wasm.Types.Network.{bdk_kind_of_network}
use bdk_wasm.Types.Network.Laws.{network-kind_agrees}
use bdk_wasm.Types.Block.{confirmation_block_id, block_id_height}
use bdk_wasm.Types.Chain.{ChainPosition, is_confirmed, confirmation_height_upper_bound}
use bdk_wasm.Types.Chain.{last_seen, first_seen, anchor, transitively}
use bdk_wasm.Types.Chain.Laws.{position_of, chain_position_getters}
use bdk_wasm.Types.Event.{
  WalletEvent, event_kind, event_txid, event_tx, event_old_tip, event_new_tip, event_block_time,
  event_old_block_time,
}
use bdk_wasm.Types.Event.Laws.{is_tx_kind, is_confirmed_kind, may_have_old_time, is_unknown}
use bdk_wasm.Types.Event.Laws.{event_kind_getters}
use bdk_wasm.Types.Error.{BdkErrorCode}
use bdk_wasm.Types.Error.Codes.{IsTransactionCode, IsFeeBumpCode, IsAddressCode, IsAmountCode}
use bdk_wasm.Types.Error.Codes.{IsBlockCode}
use bdk_wasm.Types.Amount.{from_parse_amount_error}
use bdk_wasm.Types.Address.{from_parse_error}
use bdk_wasm.TxBuilder.Errors.{from_build_fee_bump_error, from_create_tx_error}
use bdk_wasm.Wallet.Errors.{from_apply_header_error}
use bdk_wasm.ErrorCodes.Sections.{codes_by_section}
use bdk_wasm.ErrorCodes.Distinct.{
  create_tx_variant, fee_bump_variant, address_variant, amount_variant, header_variant,
  create_tx_of_code, fee_bump_of_code, address_of_code, amount_of_code, header_of_code,
  codes_determine_variant,
}
use bdk_wasm.Bdk.Signing.{BdkSignOptions}
use bdk_wasm.Wallet.SignOptions.{
  OptionSetter, assign_all, sign_options_new, trust_witness_utxo, assume_height,
  allow_all_sighashes, try_finalize, sign_with_tap_internal_key, allow_grinding,
}
use bdk_wasm.Wallet.SignOptions.Laws.{assign_all_reads_back}
use bdk_wasm.Esplora.Delay.{Duration, as_millis, sleep_delay, waits, sleep_delay-exact}
use bdk_wasm.Tests.Samples.{types, host}

codes_by_section_example :
    ((e : CreateTxError types) → IsTransactionCode (from_create_tx_error host e).code)
    × ((e : BuildFeeBumpError types)
        → ((from_build_fee_bump_error host e).code ≡ BdkErrorCode.unknown_utxo)
          ⊎ IsFeeBumpCode (from_build_fee_bump_error host e).code)
    × ((e : ParseError types)
        → IsAddressCode (from_parse_error host e).code
          ⊎ ((from_parse_error host e).code ≡ BdkErrorCode.unexpected)
            × ((d : types.Detail) × (e ≡ ParseError.other d)))
    × ((e : ParseAmountError types)
        → IsAmountCode (from_parse_amount_error host e).code
          ⊎ ((from_parse_amount_error host e).code ≡ BdkErrorCode.unexpected)
            × ((d : types.Detail) × (e ≡ ParseAmountError.other d)))
    × ((e : ApplyHeaderError types) → IsBlockCode (from_apply_header_error host e).code)
codes_by_section_example = codes_by_section host

codes_determine_variant_example :
    ((e : CreateTxError types)
      → create_tx_of_code (from_create_tx_error host e).code ≡ create_tx_variant e)
    × ((e : BuildFeeBumpError types)
        → fee_bump_of_code (from_build_fee_bump_error host e).code ≡ fee_bump_variant e)
    × ((e : ParseError types) → address_of_code (from_parse_error host e).code ≡ address_variant e)
    × ((e : ParseAmountError types)
        → amount_of_code (from_parse_amount_error host e).code ≡ amount_variant e)
    × ((e : ApplyHeaderError types)
        → header_of_code (from_apply_header_error host e).code ≡ header_variant e)
codes_determine_variant_example = codes_determine_variant host

-- A transaction that lost its confirmation.
abbrev lost : WalletEvent types
lost = wrap (
    BdkWalletEvent.tx_unconfirmed 3 "tx"
      (some (record { block_id = record { height = 9; hash = "h" }; confirmation_time = 60 })))

event_kind_getters_example :
    (is_some (event_txid lost) ≡ is_tx_kind (event_kind lost))
    × (is_some (event_tx lost) ≡ is_tx_kind (event_kind lost))
    × (is_some (event_block_time lost) ≡ is_confirmed_kind (event_kind lost))
    × ((is_some (event_old_block_time lost) && not (may_have_old_time (event_kind lost))) ≡ false)
    × (is_some (event_old_tip lost) ≡ (not (is_tx_kind (event_kind lost)) && not (is_unknown lost)))
    × (is_some (event_new_tip lost) ≡ is_some (event_old_tip lost))
event_kind_getters_example = event_kind_getters lost

abbrev chain_lib : ChainLib types
chain_lib = record {
  is_confirmed = λ p. elim p [
    | BdkChainPosition.confirmed _ _ ↦ Bool.true
    | BdkChainPosition.unconfirmed _ _ ↦ false
  ];
  confirmation_height_upper_bound = λ p. elim p [
    | BdkChainPosition.confirmed a _ ↦ some a.block_id.height
    | BdkChainPosition.unconfirmed _ _ ↦ none
  ];
}

chain_lib-IsLawful : IsLawful chain_lib
chain_lib-IsLawful = record {
  is_confirmed_confirmed = λ a t. refl;
  is_confirmed_unconfirmed = λ f l. refl;
  upper_bound_confirmed = λ a t. refl;
  upper_bound_unconfirmed = λ f l. refl;
}

abbrev position : ChainPosition types
position = wrap (
    BdkChainPosition.confirmed
      (record { block_id = record { height = 9; hash = "h" }; confirmation_time = 60 }) (some 4))

chain_position_getters_example :
    (is_confirmed chain_lib position ≡ is_some (anchor position))
    × (confirmation_height_upper_bound chain_lib position
        ≡ map_option (λ a. block_id_height (confirmation_block_id a)) (anchor position))
    × (position_of
          (anchor position)
          (transitively position)
          (first_seen position)
          (last_seen position)
        ≡ deref position)
chain_position_getters_example = chain_position_getters chain_lib chain_lib-IsLawful position

network-kind_agrees_example :
    (kind_into_bdk (kind_of_bdk_network (network_into_bdk Network.invalid))
      ≡ bdk_kind_of_network Network.invalid)
    ↔ (Network.invalid ≢ Network.invalid)
network-kind_agrees_example = network-kind_agrees Network.invalid

abbrev defaults : BdkSignOptions
defaults = record {
  trust_witness_utxo = false;
  assume_height = none;
  allow_all_sighashes = false;
  try_finalize = Bool.true;
  sign_with_tap_internal_key = Bool.true;
  allow_grinding = Bool.true;
}

abbrev assignments : List OptionSetter
assignments =
    OptionSetter.assume_height_to (some 7)
    ∷ OptionSetter.try_finalize_to false
    ∷ OptionSetter.assume_height_to none
    ∷ []

assign_all_reads_back_example :
    let o = assign_all assignments (sign_options_new defaults) in
    (trust_witness_utxo o ≡ false)
    × (assume_height o ≡ none)
    × (allow_all_sighashes o ≡ false)
    × (try_finalize o ≡ false)
    × (sign_with_tap_internal_key o ≡ Bool.true)
    × (allow_grinding o ≡ Bool.true)
assign_all_reads_back_example = assign_all_reads_back defaults assignments

-- Half a second more than 30 days.
abbrev month : Duration
month = record { secs = 2592000; nanos = 500000000 }

sleep_delay-exact_example :
    (waits (sleep_delay month) ≤ as_millis month)
    × ((waits (sleep_delay month) ≡ as_millis month) ↔ (as_millis month < 2 ^ 31))
sleep_delay-exact_example = sleep_delay-exact month
