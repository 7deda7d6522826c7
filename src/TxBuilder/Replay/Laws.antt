-- ===== src/TxBuilder/Replay/Laws.antt =====
-- A transaction that is built by setters is one that bdk_wallet builds from the read-off calls.
use bdk_wasm.Base.Results.{Result-cases}
use bdk_wasm.Base.{
  inl, inr, none, panicked, if◌then◌else◌, Bool-cases, Option-cases, ◌≡◌, ◌∙◌, sym, some, List, ok,
  err, returned,
}
use bdk_wasm.Bdk.Opaque.{BdkTypes}
use bdk_wasm.Bdk.Builder.{BuilderLib}
use bdk_wasm.Types.Error.{Host}
use bdk_wasm.TxBuilder.{TxBuilder}
use bdk_wasm.TxBuilder.Errors.{from_build_fee_bump_error}
use bdk_wasm.TxBuilder.Finish.{Finished, finish_on, finish_fee_bump}
use bdk_wasm.TxBuilder.Finish.Steps.{
  finish_on_missing, finish_on_normal, finish_on_bump, finish_fee_bump_accepted,
  finish_fee_bump_refused,
}
use bdk_wasm.TxBuilder.History.{Setter, build}
use bdk_wasm.TxBuilder.Replay.{replay, normal_calls, bump_calls}
use bdk_wasm.TxBuilder.Replay.Settled.{settled, build-settled}
use bdk_wasm.TxBuilder.Replay.Steps.{replay-normal_calls, replay-bump_calls}

module _ {T : BdkTypes} (H : Host T) (L : BuilderLib T) where
  -- A new transaction, and a fee bump of `t`, from the calls of the builder `b`.
  abbrev pub replay_normal : TxBuilder T → L.Wallet → Finished H L
  replay_normal b w = replay H L (normal_calls b) (L.build_tx w)

  abbrev pub replay_bump : TxBuilder T → T.Txid → L.Wallet → Finished H L
  replay_bump b t w = elim (L.build_fee_bump w t) [
    | ok x ↦ replay H L (bump_calls b) x
    | err (e, v) ↦ (returned (err (from_build_fee_bump_error H e)), v)
  ]

  -- The mode decides; a fee bump without its transaction panics.
  abbrev pub replay_on : TxBuilder T → L.Wallet → Finished H L
  replay_on b w =
      if b.is_fee_bump
      then elim b.fee_bump_txid [
        | none ↦ (panicked "fee bump txid must be set", w)
        | some t ↦ replay_bump b t w
      ]
      else replay_normal b w

  finish_fee_bump_lem :
      (b : TxBuilder T) (t : T.Txid) (w : L.Wallet) → finish_fee_bump H L b t w ≡ replay_bump b t w
  finish_fee_bump_lem b t w = elim (Result-cases (L.build_fee_bump w t)) [
    | inl (x, e) ↦
        finish_fee_bump_accepted H L b t w x e
        ∙ sym (replay-bump_calls H L b x)
        ∙ rw (e, replay_bump)
    | inr ((u, v), e) ↦ finish_fee_bump_refused H L b t w v u e ∙ rw (e, replay_bump)
  ]

  finish_on_lem : (b : TxBuilder T) (w : L.Wallet) → finish_on H L b w ≡ replay_on b w
  finish_on_lem b w = elim (Bool-cases b.is_fee_bump) [
    | inl bump ↦ elim (Option-cases b.fee_bump_txid) [
      | inl missing ↦ finish_on_missing H L b w bump missing ∙ rw (bump, missing, replay_on)
      | inr (t, e) ↦
          finish_on_bump H L b w t bump e ∙ finish_fee_bump_lem b t w ∙ rw (bump, e, replay_on)
    ]
    | inr normal ↦
        finish_on_normal H L b w normal
        ∙ sym (replay-normal_calls H L b (L.build_tx w))
        ∙ rw (normal, replay_on)
  ]

  -- Whatever setters are called on a builder and in whatever order, `finish` makes of a wallet just
  -- what bdk_wallet's builder makes of it when the calls are made on it that can be read off the
  -- history: the last choice of each setting, the raised flags and the collected lists, each by one
  -- call and in a fixed order, up to the first call that is refused or that panics. An outpoint that
  -- the wallet does not know and data of more than 80 bytes are such refusals, a height that
  -- bdk_wallet does not take is such a panic, and a fee bump makes only the calls of the fee, the
  -- ordering, the dust check and the three PSBT flags.
  pub finish_on-replays :
      (hs : List (Setter T)) (start : TxBuilder T) (w : L.Wallet)
      → finish_on H L (build hs start) w ≡ replay_on (settled hs start) w
  finish_on-replays hs start w = rw (build-settled hs start) (finish_on_lem (settled hs start) w)
