-- ===== src/Tests/Builders.antt =====
-- Builders of the stand-in.
use bdk_wasm.Base.{
  ℕ, zero, suc, ◌≡◌, ◌≢◌, ◌⊎◌, refl, inl, ◌==◌, if◌then◌else◌, true, false, some, List, [], ◌∷◌,
}
use bdk_wasm.Base.{Result, err, returned, panicked, arith}
use bdk_wasm.Base.RefCell.{Borrow, Heap}
use bdk_wasm.Bdk.Errors.{AddUtxoError, CreateTxError}
use bdk_wasm.Types.Wrapper.{wrap}
use bdk_wasm.Types.Error.{BdkErrorCode, BdkError}
use bdk_wasm.Types.Psbt.{Psbt}
use bdk_wasm.TxBuilder.{TxBuilder, TxOrdering, fresh, builder_new}
use bdk_wasm.TxBuilder.Errors.{from_add_utxo_error, from_create_tx_error}
use bdk_wasm.TxBuilder.History.{Setter, apply_setter, build}
use bdk_wasm.TxBuilder.History.Laws.{Reflects, build-Reflects}
use bdk_wasm.TxBuilder.Finish.{
  finish, finish_on, finish_utxos, finish_data, finish_builder, configure_first, configure_rest,
  configure_last, finish_rest, too_long_error,
}
use bdk_wasm.TxBuilder.Finish.Refusals.{
  HeightPanics, CallEndsWell, finish_on_ends, finish_on_long_data,
}
use bdk_wasm.TxBuilder.Finish.FeeBump.{finish_on-ignored}
use bdk_wasm.TxBuilder.Finish.Panics.{MadeFrom, FitsHeight, finish_returns}
use bdk_wasm.TxBuilder.Finish.Codes.{IsBuildingCode, IsLong, finish_on_codes}
use bdk_wasm.Tests.Samples.{types, host, lib, lib-IsLawful, lib-TakesHeights}

abbrev pub start : TxBuilder types
start = fresh lib 3 TxOrdering.shuffle

abbrev bump : TxBuilder types
bump = record start { is_fee_bump = true; fee_bump_txid = some 5 }

abbrev pub setters : List (Setter types)
setters =
    Setter.add_recipient (record { script_pubkey = "script"; amount = 1000 })
    ∷ Setter.add_utxo (wrap (record { txid = 1; vout = 0 }))
    ∷ Setter.exclude_unconfirmed
    ∷ Setter.fee_absolute (wrap 20)
    ∷ Setter.set_recipients []
    ∷ []

abbrev heap : Heap ℕ
heap i = record { value = 0; state = if i == 4 then Borrow.writing else Borrow.unused }

-- A height below the limit, and one at it.
abbrev tall : List (Setter types)
tall = Setter.current_height 499999999 ∷ setters

start_made : MadeFrom lib 3 start
unfolding builder_new
start_made = inl refl

tall_fits : FitsHeight (build tall start)
unfolding build apply_setter fresh
tall_fits n normal given = ground arith

too_tall_panics :
    finish_on host lib (build (Setter.current_height 500000000 ∷ []) start) 7
    ≡ (panicked "Invalid height", 7)
unfolding build apply_setter finish_on finish_utxos finish_rest configure_rest configure_first fresh
too_tall_panics = refl

-- The builder is finished on the wallet behind its handle while another wallet is borrowed.
finish_returns_example :
    let (r, after) = finish host lib (build tall start) heap in
    ((f : Result (BdkError types) (Psbt types)) × (r ≡ returned f))
    × (r ≡ (finish_on host lib (build tall start) 0).0)
    × ((after 3).value ≡ (finish_on host lib (build tall start) 0).1)
    × ((after 3).state ≡ Borrow.unused)
    × ((i : ℕ) → after i ≡ (if i == 3 then after 3 else heap i))
finish_returns_example =
    finish_returns host lib lib-TakesHeights 3 start tall heap start_made tall_fits refl

finish_on_ends_example :
    CallEndsWell host lib lib-IsLawful 7 (finish_on host lib (build setters start) 7)
finish_on_ends_example = finish_on_ends host lib lib-IsLawful (build setters start) 7

build-Reflects_example : Reflects setters start (build setters start)
build-Reflects_example = build-Reflects setters start

abbrev zeros : ℕ → List ℕ
zeros zero = []
zeros (suc n) = 0 ∷ zeros n

-- Data of 81 bytes, on a builder that spends an unknown outpoint.
abbrev long : TxBuilder types
long = record start {
  data_bytes = some (zeros 81);
  utxos = wrap (record { txid = 1; vout = 2000 }) ∷ [];
}

finish_on_long_data_example :
    (finish_on host lib long 7 ≡ (returned (err (too_long_error host lib (zeros 81))), 7))
    ⊎ HeightPanics host lib lib-IsLawful long 7 (finish_on host lib long 7)
    ⊎ ((e : AddUtxoError types) × (long.utxos ≢ [])
        × (finish_on host lib long 7 ≡ (returned (err (from_add_utxo_error host e)), 7)))
unfolding fresh
finish_on_long_data_example =
    finish_on_long_data host lib lib-IsLawful long (zeros 81) 7 refl refl (omega arith)

finish_on-ignored_example :
    finish_on host lib (build (Setter.add_data (zeros 81) ∷ Setter.drain_wallet ∷ []) bump) 7
    ≡ finish_on host lib bump 7
finish_on-ignored_example =
    finish_on-ignored host lib (Setter.add_data (zeros 81) ∷ Setter.drain_wallet ∷ []) bump 7 refl
      (tt, (tt, tt))

-- The stand-in refuses to make more than ten transactions.
abbrev refused : BdkError types
refused = from_create_tx_error host CreateTxError.no_utxos_selected

tenth_gives_error : (finish_on host lib start 10).0 ≡ returned (err refused)
unfolding finish_on finish_utxos finish_rest finish_data finish_builder fresh configure_rest
    configure_last configure_first
tenth_gives_error = refl

finish_on_codes_example :
    IsBuildingCode refused
    ⊎ (refused.code ≡ BdkErrorCode.unexpected)
      × (start.is_fee_bump ≡ false)
      × IsLong start.data_bytes
finish_on_codes_example = finish_on_codes host lib lib-IsLawful start 10 refused tenth_gives_error
