-- ===== src/Wallet/Program/Invariant.antt =====
-- The invariant of a program, and what is asked of a step.
use bdk_wasm.Base.{◌⊎◌}
use bdk_wasm.Base.{ℕ, ◌≡◌, ◌<◌, refl, true, some, [], ◌∷◌, All, ok, Outcome, returned, arith}
use bdk_wasm.Base.RefCell.{Borrow}
use bdk_wasm.Bdk.Kinds.{BdkTxOrdering}
use bdk_wasm.Bdk.Opaque.{BdkTypes}
use bdk_wasm.Bdk.Builder.{BuilderLib}
use bdk_wasm.Bdk.Wallet.{WalletLib}
use bdk_wasm.Types.Error.{Host}
use bdk_wasm.TxBuilder.{
  TxBuilder, TxOrdering, fresh, ordering_from_bdk, builder_new, builder_new_fee_bump,
}
use bdk_wasm.Types.Wrapper.{into_inner}
use bdk_wasm.Types.Output.{Txid}
use bdk_wasm.TxBuilder.History.{Setter, apply_setter, build}
use bdk_wasm.TxBuilder.Finish.Panics.{HasMode, build-HasMode}
use bdk_wasm.Wallet.Change
use bdk_wasm.Wallet.Program.{Program, Op}
use bdk_wasm.Wallet.Program.Frame.{target}

-- The builder belongs to a wallet that was made, and knows its mode.
abbrev pub IsRooted : {T : BdkTypes} → BuilderLib T → ℕ → TxBuilder T → Type 0
IsRooted L handles b = (b.wallet < handles) × HasMode L b.wallet b

-- No cell is borrowed between two steps, and every builder belongs to a wallet and knows its mode.
pub record Inv {T : BdkTypes} (L : BuilderLib T) (p : Program L) : Type 0 where
  pub free : (i : ℕ) → (p.heap i).state ≡ Borrow.unused
  pub rooted : All (IsRooted L p.handles) p.builders

-- The step returns, keeps the invariant, and changes at most the wallet of its target.
abbrev pub Goes :
    {T : BdkTypes} {L : BuilderLib T} {V : WalletLib L}
    → Op V
    → Program L
    → Outcome (Program L)
    → Type 0
Goes {L = L} op p r =
    (q : Program L) × (r ≡ returned q)
    × Inv L q
    × ((i : ℕ) → (target op p ≡ some i) ⊎ ((q.heap i).value ≡ (p.heap i).value))

-- How builders come to be rooted.
module _ {T : BdkTypes} (L : BuilderLib T)
    (shuffles : L.default_ordering ≡ BdkTxOrdering.shuffle) where
  pub new_made : (h : ℕ) → (b : TxBuilder T) × (builder_new L h ≡ returned b)
  unfolding builder_new ordering_from_bdk
  new_made h = (fresh L h TxOrdering.shuffle, rw (shuffles, builder_new))

  pub bump_made :
      (h : ℕ) (txid : T.Txid) → (b : TxBuilder T) × (builder_new_fee_bump L h txid ≡ returned b)
  unfolding builder_new_fee_bump
  bump_made h txid =
      let (b, e) = new_made h in
      (record b { is_fee_bump = true; fee_bump_txid = some txid }, rw (e, builder_new_fee_bump))

pub build_fee_bump_returned :
    {T : BdkTypes} (L : BuilderLib T) (h : ℕ) (txid : Txid T) (b : TxBuilder T)
    → builder_new_fee_bump L h (into_inner txid) ≡ returned b
    → Change.build_fee_bump L h txid ≡ returned (ok b)
unfolding Change.build_fee_bump
build_fee_bump_returned L h txid b e = rw (e, Change.build_fee_bump)

pub HasMode-IsRooted :
    {T : BdkTypes} (L : BuilderLib T) (handles h : ℕ) (b : TxBuilder T)
    → h < handles
    → HasMode L h b
    → IsRooted L handles b
HasMode-IsRooted L handles h b below m = (omega (arith, m.0), (refl, m.1))

pub set-IsRooted :
    {T : BdkTypes} (H : Host T) (L : BuilderLib T) (handles : ℕ) (s : Setter T) (b : TxBuilder T)
    → IsRooted L handles b
    → IsRooted L handles (apply_setter b s)
unfolding build
set-IsRooted H L handles s b (below, m) =
    HasMode-IsRooted L handles b.wallet (apply_setter b s) below
      (build-HasMode H L b.wallet (s ∷ []) b m)
