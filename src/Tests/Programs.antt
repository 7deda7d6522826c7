-- ===== src/Tests/Programs.antt =====
-- A program on the stand-in.
use bdk_wasm.Base.{List}
use bdk_wasm.TxBuilder.{TxBuilder}
use bdk_wasm.TxBuilder.Finish.{finish}
use bdk_wasm.TxBuilder.Finish.Panics.{MadeFrom}
use bdk_wasm.TxBuilder.History.{Setter, build}
use bdk_wasm.TxBuilder.Replay.Settled.{settled}
use bdk_wasm.TxBuilder.Replay.Laws.{replay_on}
use bdk_wasm.Wallet.Program.Finishing.{finishes_replay}
use bdk_wasm.Tests.Samples.{types}
use bdk_wasm.Base.{◌⊎◌}
use bdk_wasm.Base.{arith, ℕ, ◌≡◌, refl, some, [], ◌∷◌, returned, ◌==◌, if◌then◌else◌}
use bdk_wasm.Base.RefCell.{Borrow}
use bdk_wasm.Types.Network.{Network, network_into_bdk}
use bdk_wasm.TxBuilder.{TxOrdering, fresh, builder_new}
use bdk_wasm.Wallet.Create
use bdk_wasm.Wallet.Change
use bdk_wasm.Wallet.Program.{Program, Op, advance, Reachable}
use bdk_wasm.Wallet.Program.Frame.{target}
use bdk_wasm.Wallet.Program.Invariant.{Inv}
use bdk_wasm.Wallet.Program.Safety.{Reachable-Goes}
use bdk_wasm.Tests.Samples.{host, lib, lib-TakesHeights}
use bdk_wasm.Tests.Sessions.{wallets, wallets-PeeksIndices}
use bdk_wasm.Wallet.Program.Calm.{IsAllowed}

-- Nothing yet, then a wallet, then a builder of it.
abbrev blank : Program lib
blank = record {
  heap = λ _. record { value = 0; state = Borrow.unused };
  handles = 0;
  builders = [];
}

abbrev one_wallet : Program lib
one_wallet = record blank {
  heap = λ i. if i == 0 then record { value = 0; state = Borrow.unused } else blank.heap i;
  handles = 1;
}

abbrev one_builder : Program lib
one_builder = record one_wallet { builders = fresh lib 0 TxOrdering.shuffle ∷ [] }

makes_wallet : advance host wallets (Op.create Network.signet "d" "c") blank ≡ returned one_wallet
unfolding advance Create.create network_into_bdk
makes_wallet = refl

makes_builder : advance host wallets (Op.build_tx 0) one_wallet ≡ returned one_builder
unfolding advance Change.build_tx builder_new
makes_builder = refl

one_builder-Reachable : Reachable host wallets one_builder
one_builder-Reachable =
    Reachable.goes_on one_wallet one_builder (Op.build_tx 0)
      (Reachable.goes_on blank one_wallet (Op.create Network.signet "d" "c")
        (Reachable.starts blank (λ _. refl) refl refl) makes_wallet)
      makes_builder

held-IsAllowed : IsAllowed {V = wallets} (Op.finishes 0) one_builder
unfolding fresh
held-IsAllowed b e n normal given = ground arith

Reachable-Goes_example :
    (q : Program lib) × (advance host wallets (Op.finishes 0) one_builder ≡ returned q)
    × Inv lib q
    × ((i : ℕ)
        → (target {V = wallets} (Op.finishes 0) one_builder ≡ some i)
          ⊎ ((q.heap i).value ≡ (one_builder.heap i).value))
Reachable-Goes_example =
    Reachable-Goes host wallets refl lib-TakesHeights wallets-PeeksIndices one_builder
      (Op.finishes 0) one_builder-Reachable held-IsAllowed

abbrev held : TxBuilder types
held = fresh lib 0 TxOrdering.shuffle

finishes_replay_example :
    (start : TxBuilder types) × (hs : List (Setter types)) × MadeFrom lib 0 start
    × (held ≡ build hs start)
    × (let (r, heap) = finish host lib held one_builder.heap in
        let out = replay_on host lib (settled hs start) 0 in (r ≡ out.0) × ((heap 0).value ≡ out.1))
unfolding fresh
finishes_replay_example =
    finishes_replay host wallets refl one_builder 0 held one_builder-Reachable refl
