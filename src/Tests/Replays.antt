-- ===== src/Tests/Replays.antt =====
-- A history of setters on the stand-in, replayed.
use bdk_wasm.Base.{◌≤◌, ◌≡◌, refl, inl, List, [], ◌∷◌, length, arith}
use bdk_wasm.TxBuilder.{fresh, builder_new}
use bdk_wasm.TxBuilder.Finish.Panics.{MadeFrom}
use bdk_wasm.TxBuilder.History.Canonical.{canonical}
use bdk_wasm.TxBuilder.History.Canonical.Laws.{canonical-reaches}
use bdk_wasm.Types.Wrapper.{wrap}
use bdk_wasm.TxBuilder.History.Settings.{Setting, calls_about}
use bdk_wasm.TxBuilder.History.Determined.{build-determined}
use bdk_wasm.TxBuilder.Finish.{finish_on}
use bdk_wasm.TxBuilder.History.{Setter, apply_setter, build}
use bdk_wasm.TxBuilder.Replay.Settled.{settled}
use bdk_wasm.TxBuilder.Replay.Laws.{replay_on, finish_on-replays}
use bdk_wasm.Tests.Builders.{start, setters}
use bdk_wasm.Tests.Samples.{types, host, lib}

finish_on-replays_example :
    finish_on host lib (build setters start) 7 ≡ replay_on host lib (settled setters start) 7
finish_on-replays_example = finish_on-replays host lib setters start 7

-- The same setters with the calls about different settings moved past each other.
abbrev shuffled : List (Setter types)
shuffled =
    Setter.enable_rbf
    ∷ Setter.fee_absolute (wrap 20)
    ∷ Setter.exclude_unconfirmed
    ∷ Setter.add_recipient (record { script_pubkey = "script"; amount = 1000 })
    ∷ Setter.set_recipients []
    ∷ Setter.add_utxo (wrap (record { txid = 1; vout = 0 }))
    ∷ []

same_calls : (x : Setting) → calls_about x setters ≡ calls_about x shuffled
same_calls x = ground arith

build-determined_example : build setters start ≡ build shuffled start
build-determined_example = build-determined setters shuffled start same_calls

start_made : MadeFrom lib 3 start
unfolding builder_new
start_made = inl refl

-- What the history above makes, by the calls that are read off it.
canonical-reaches_example :
    (build (canonical (build setters start)) start ≡ build setters start)
    × (length (canonical (build setters start)) ≤ 19)
    × ((x : Setting) → length (calls_about x (canonical (build setters start))) ≤ 1)
unfolding build apply_setter fresh
canonical-reaches_example =
    canonical-reaches lib 3 start (build setters start) start_made refl refl refl
