-- ===== src/Wallet/Program/Finishing.antt =====
-- What a builder is finished as, in the middle of a program.
use bdk_wasm.Base.{ℕ, ◌≡◌, refl, ap, ◌∙◌, some, List, get_elem?}
use bdk_wasm.Bdk.Kinds.{BdkTxOrdering}
use bdk_wasm.Bdk.Opaque.{BdkTypes}
use bdk_wasm.Bdk.Builder.{BuilderLib}
use bdk_wasm.Bdk.Wallet.{WalletLib}
use bdk_wasm.Types.Error.{Host}
use bdk_wasm.TxBuilder.{TxBuilder}
use bdk_wasm.TxBuilder.Finish.{finish, finish_on}
use bdk_wasm.TxBuilder.Finish.Panics.{MadeFrom, finish-FinishesOn}
use bdk_wasm.TxBuilder.History.{Setter, build}
use bdk_wasm.TxBuilder.Replay.Settled.{settled}
use bdk_wasm.TxBuilder.Replay.Laws.{replay_on, finish_on-replays}
use bdk_wasm.Wallet.Program.{Program, Reachable}
use bdk_wasm.Wallet.Program.Frame.{get_elem?-All}
use bdk_wasm.Wallet.Program.Safety.{Reachable-Inv}
use bdk_wasm.Wallet.Program.Builders.{IsBuilt, Reachable-AllBuilt}

module _ {T : BdkTypes} (H : Host T) {L : BuilderLib T} (V : WalletLib L)
    (shuffles : L.default_ordering ≡ BdkTxOrdering.shuffle) where
  -- Whatever a program has done, with other builders of the same wallet or not, each builder it
  -- holds was given out by its wallet and has had some history of setters called on it since, if
  -- bdk_wallet's default ordering is to shuffle. If it is finished now, then `finish` returns what
  -- the replay of that history's calls returns on the wallet as it is now, and leaves the wallet
  -- that the replay leaves.
  pub finishes_replay :
      (p : Program L) (i : ℕ) (b : TxBuilder T)
      → Reachable H V p
      → get_elem? p.builders i ≡ some b
      → (start : TxBuilder T) × (hs : List (Setter T)) × MadeFrom L b.wallet start
        × (b ≡ build hs start)
        × (let (r, heap) = finish H L b p.heap in
            let out = replay_on H L (settled hs start) (p.heap b.wallet).value in
            (r ≡ out.0) × ((heap b.wallet).value ≡ out.1))
  finishes_replay p i b reached held =
      let inv = Reachable-Inv H V shuffles p reached in
      let (start, hs, made, e) =
        get_elem?-All (IsBuilt L) p.builders i b (Reachable-AllBuilt H V p reached) held in
      let (result, value, _) = finish-FinishesOn H L b.wallet b p.heap refl (inv.free b.wallet) in
      let w = (p.heap b.wallet).value in
      let same : finish_on H L b w ≡ replay_on H L (settled hs start) w =
        ap (λ c. finish_on H L c w) e ∙ finish_on-replays H L hs start w in
      (start, hs, made, e, (result ∙ ap (λ out. out.0) same, value ∙ ap (λ out. out.1) same))
