-- ===== src/Wallet/Program/Frame.antt =====
-- The lists of builders, and the wallet that a step may change.
use bdk_wasm.Base.{
  ℕ, zero, suc, ◌≡◌, Option, none, some, List, [], ◌∷◌, All, get_elem?, map_option, arith,
}
use bdk_wasm.Bdk.Opaque.{BdkTypes}
use bdk_wasm.Bdk.Builder.{BuilderLib}
use bdk_wasm.Bdk.Wallet.{WalletLib}
use bdk_wasm.Wallet.Program.{Program, Op, modify, remove}

module _ {ℓ κ} {A : Type ℓ} (P : A → Type κ) where
  pub modify-All :
      (f : A → A)
      → ((a : A) → P a → P (f a))
      → (l : List A) (i : ℕ) → All P l
      → All P (modify f l i)
  modify-All f keeps [] i all = tt
  modify-All f keeps (a ∷ l) zero (p, all) = (keeps a p, all)
  modify-All f keeps (a ∷ l) (suc i) (p, all) = (p, modify-All f keeps l i all)

  pub remove-All : (l : List A) (i : ℕ) → All P l → All P (remove l i)
  remove-All [] i all = tt
  remove-All (a ∷ l) zero (p, all) = all
  remove-All (a ∷ l) (suc i) (p, all) = (p, remove-All l i all)

  pub get_elem?-All : (l : List A) (i : ℕ) (a : A) → All P l → get_elem? l i ≡ some a → P a
  get_elem?-All [] i a all e = cc
  get_elem?-All (x ∷ l) zero a (p, all) e = ground (arith, p)
  get_elem?-All (x ∷ l) (suc i) a (p, all) e = get_elem?-All l i a all e

  pub All-map {μ} : {Q : A → Type μ} → ((a : A) → P a → Q a) → (l : List A) → All P l → All Q l
  All-map f [] all = tt
  All-map f (a ∷ l) (p, all) = (f a p, All-map f l all)

-- The handle of the wallet that a step may change, or that it makes.
abbrev pub target :
    {T : BdkTypes} {L : BuilderLib T} {V : WalletLib L} → Op V → Program L → Option ℕ
target (Op.asks _ _) p = none
target (Op.commands h _) p = some h
target (Op.build_tx _) p = none
target (Op.build_fee_bump _ _) p = none
target (Op.sets _ _) p = none
target (Op.finishes i) p = map_option (λ b. b.wallet) (get_elem? p.builders i)
target _ p = some p.handles
