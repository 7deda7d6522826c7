-- ===== src/Base/Results.antt =====
-- Fallible results (Rust's `Result`), and calls that may also panic.
use Prim.Native.String.{String}
use mathlib.Core.Path.{◌≡◌, refl}
use mathlib.Core.Option.{Option, none, some}
use mathlib.Core.Logic.{◌⊎◌, inl, inr}

pub data Result {ℓ κ} (E : Type ℓ) (A : Type κ) : Type (ℓ ⊔ κ) where
  ok : A → Result E A
  err : E → Result E A

-- A call that returns, or that panics with a message. A panic of the compiled module aborts it.
pub data Outcome {ℓ} (A : Type ℓ) : Type ℓ where
  returned : A → Outcome A
  panicked : String → Outcome A

abbrev pub map_outcome {ℓ κ} : {A : Type ℓ} {B : Type κ} → (A → B) → Outcome A → Outcome B
map_outcome f (returned a) = returned (f a)
map_outcome f (panicked message) = panicked message

-- The `?` operator.
infixl 5 ◌>>=◌
abbrev pub ◌>>=◌ {ℓ κ μ} :
    {E : Type ℓ} {A : Type κ} {B : Type μ} → Result E A → (A → Result E B) → Result E B
ok a >>= f = f a
err e >>= f = err e

-- `Result::map`
abbrev pub map_ok {ℓ κ μ} :
    {E : Type ℓ} {A : Type κ} {B : Type μ} → (A → B) → Result E A → Result E B
map_ok f (ok a) = ok (f a)
map_ok f (err e) = err e

-- `Result::map_err`
abbrev pub map_err {ℓ κ μ} :
    {D : Type ℓ} {E : Type κ} {A : Type μ} → (D → E) → Result D A → Result E A
map_err f (ok a) = ok a
map_err f (err e) = err (f e)

-- `Result::ok`
abbrev pub to_option {ℓ κ} : {E : Type ℓ} {A : Type κ} → Result E A → Option A
to_option (ok a) = some a
to_option (err _) = none

pub Result-cases {ℓ κ} :
    {E : Type ℓ} {A : Type κ} (r : Result E A) → ((a : A) × (r ≡ ok a)) ⊎ ((e : E) × (r ≡ err e))
Result-cases (ok a) = inl (a, refl)
Result-cases (err e) = inr (e, refl)

pub Outcome-cases {ℓ} :
    {A : Type ℓ} (r : Outcome A) → ((a : A) × (r ≡ returned a)) ⊎ ((m : String) × (r ≡ panicked m))
Outcome-cases (returned a) = inl (a, refl)
Outcome-cases (panicked m) = inr (m, refl)

-- `JsError`, of which JavaScript sees the message. The `?` operator makes one from the text of
-- another error.
pub record JsError : Type 0 where
  pub text : String

abbrev pub JsResult {ℓ} : Type ℓ → Type ℓ
JsResult A = Result JsError A

-- `?` on a result whose error is given by its text.
abbrev pub js_error {ℓ} : {A : Type ℓ} → Result String A → JsResult A
js_error (ok a) = ok a
js_error (err message) = err (record { text = message })
