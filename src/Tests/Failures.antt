-- ===== src/Tests/Failures.antt =====
-- Errors and panics of the stand-in.
use bdk_wasm.Base.{ℕ, ◌≡◌, ◌↔◌, String, true, some, none, ok, err, []}
use bdk_wasm.Bdk.Addresses.{BdkAddressInfo}
use bdk_wasm.Bdk.Bitcoin.{PsbtLib}
use bdk_wasm.Bdk.Errors.{
  ParseAmountError, ParseError, AddUtxoError, BuildFeeBumpError, CreateTxError, CannotConnectError,
  ApplyHeaderError,
}
use bdk_wasm.Bdk.Kinds.{BdkTxOrdering, BdkAddressType, BdkKeychainKind}
use bdk_wasm.Bdk.Values.{ChangeSetLib}
use bdk_wasm.Types.Wrapper.{wrap}
use bdk_wasm.Types.Amount.{AmountLib, Denomination, amount_to_float_in, from_parse_amount_error}
use bdk_wasm.Types.Address.{from_parse_error}
use bdk_wasm.Types.Address.Methods.{info_address_type}
use bdk_wasm.Types.Psbt.Methods.{psbt_to_json}
use bdk_wasm.Types.ChangeSet.{changeset_to_json}
use bdk_wasm.Types.Panics.{IsPanic, panics_exactly}
use bdk_wasm.TxBuilder.{builder_new}
use bdk_wasm.TxBuilder.Errors.{from_add_utxo_error, from_build_fee_bump_error, from_create_tx_error}
use bdk_wasm.Wallet.Errors.{from_cannot_connect_error, from_apply_header_error}
use bdk_wasm.ErrorCodes.Shapes.{Describes, header_message, errors_described}
use bdk_wasm.Tests.Records.{addresses}
use bdk_wasm.Tests.Samples.{types, host, lib}

errors_described_example :
    ((e : CreateTxError types) → Describes host "create tx" (from_create_tx_error host e))
    × ((e : BuildFeeBumpError types) → Describes host "fee bump" (from_build_fee_bump_error host e))
    × ((e : AddUtxoError types) → Describes host "unknown utxo" (from_add_utxo_error host e))
    × ((e : ParseError types) → Describes host "address" (from_parse_error host e))
    × ((e : ParseAmountError types) → Describes host "amount" (from_parse_amount_error host e))
    × ((e : CannotConnectError types) → Describes host "connect" (from_cannot_connect_error host e))
    × ((e : ApplyHeaderError types)
        → Describes host (header_message host e) (from_apply_header_error host e))
errors_described_example = errors_described host

abbrev amounts : AmountLib types
amounts = record {
  Float = ℕ;
  from_btc = λ n. ok n;
  from_sat = λ n. n;
  to_sat = λ n. n;
  to_btc = λ n. n;
  to_float_in = λ n _. n;
  is_dust = λ _ _. true;
}

abbrev psbts : PsbtLib types
psbts = record {
  extract_tx_fee_rate_limit = λ _. ok "tx";
  extract_tx = λ _. ok "tx";
  extract_tx_with_fee_rate_limit = λ _ _. ok "tx";
  fee = λ _. ok 1;
  fee_amount = λ _. some 1;
  fee_rate = λ _. none;
  version = λ _. 0;
  combine = λ _ p. (ok tt, p);
  unsigned_tx = λ _. "tx";
  to_string = λ _. "psbt";
  from_str = λ _. err "psbt";
  to_json = λ _. ok "{}";
}

abbrev changes : ChangeSetLib
changes = record {
  ChangeSet = String;
  merge = λ a b. a;
  is_empty = λ _. true;
  to_json = λ _. err "no json";
  from_json = λ t. ok t;
}

abbrev info : BdkAddressInfo addresses
info = record { index = 4; address = "bc1"; keychain = BdkKeychainKind.internal }

panics_exactly_example :
    (IsPanic (amount_to_float_in amounts (wrap 5) Denomination.invalid)
      ↔ (Denomination.invalid ≡ Denomination.invalid))
    × (IsPanic (info_address_type addresses (wrap info))
        ↔ (addresses.address_type info.address ≡ some BdkAddressType.other))
    × (IsPanic (psbt_to_json psbts (wrap [])) ↔ ((e : String) × (psbts.to_json [] ≡ err e)))
    × (IsPanic (changeset_to_json changes (wrap "c"))
        ↔ ((e : String) × (changes.to_json "c" ≡ err e)))
    × (IsPanic (builder_new lib 0) ↔ (lib.default_ordering ≡ BdkTxOrdering.other))
panics_exactly_example =
    panics_exactly amounts addresses psbts changes lib (wrap 5) Denomination.invalid (wrap info)
      (wrap []) (wrap "c") 0
