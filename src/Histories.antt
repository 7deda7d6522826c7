-- ===== src/Histories.antt =====
-- Reading a value off a history of calls, for any type of calls; and what a fold of the calls
-- leaves in one field.
use bdk_wasm.Base.{Bool, false, ◌||◌, Option, none, some, List, [], ◌∷◌, ◌++◌, foldl}
use bdk_wasm.Base.{◌≡◌, refl, ◌∙◌, is_some, unwrap_or, or_else, if◌then◌else◌, arith}
use mathlib.Core.List.{append-nil, append_assoc}

-- The choice of the last call that makes one.
abbrev pub latest {ℓ κ} : {S : Type ℓ} {A : Type κ} → (S → Option A) → List S → Option A
latest choice [] = none
latest choice (s ∷ hs) = or_else (latest choice hs) (choice s)

-- Whether some call raises a flag.
abbrev pub raised {ℓ} : {S : Type ℓ} → (S → Bool) → List S → Bool
raised raises [] = false
raised raises (s ∷ hs) = raises s || raised raises hs

-- What the calls after the last replacement add.
abbrev pub added_since {ℓ κ} :
    {S : Type ℓ} {A : Type κ} → (S → Option (List A)) → (S → List A) → List S → List A
added_since replaces adds [] = []
added_since replaces adds (s ∷ hs) =
    if is_some (latest replaces hs)
    then added_since replaces adds hs
    else adds s ++ added_since replaces adds hs

-- One call in front of the others.
grow {ℓ} :
    {A : Type ℓ} (later now : Option (List A)) {new : List A} (old more rest : List A)
    → new ≡ unwrap_or now old ++ more
    → unwrap_or later new ++ rest
      ≡ unwrap_or (or_else later now) old ++ (if is_some later then rest else more ++ rest)
grow none now old more rest e = rw (e, append_assoc)
grow (some _) now old more rest e = refl

module _ {S B A : Type 0} (call : B → S → B) where
  pub latest_lem :
      (field : B → A) (choice : S → Option A)
      → ((b : B) (s : S) → field (call b s) ≡ unwrap_or (choice s) (field b))
      → (hs : List S) (b : B) → field (foldl call b hs) ≡ unwrap_or (latest choice hs) (field b)
  latest_lem field choice step [] b = refl
  latest_lem field choice step (s ∷ hs) b =
      latest_lem field choice step hs (call b s) ∙ ground (arith, step b s)

  pub latest_option_lem :
      (field : B → Option A) (choice : S → Option A)
      → ((b : B) (s : S) → field (call b s) ≡ or_else (choice s) (field b))
      → (hs : List S) (b : B) → field (foldl call b hs) ≡ or_else (latest choice hs) (field b)
  latest_option_lem field choice step [] b = refl
  latest_option_lem field choice step (s ∷ hs) b =
      latest_option_lem field choice step hs (call b s) ∙ ground (arith, step b s)

  pub added_since_lem :
      (field : B → List A) (replaces : S → Option (List A)) (adds : S → List A)
      → ((b : B) (s : S) → field (call b s) ≡ unwrap_or (replaces s) (field b) ++ adds s)
      → (hs : List S) (b : B)
      → field (foldl call b hs)
        ≡ unwrap_or (latest replaces hs) (field b) ++ added_since replaces adds hs
  added_since_lem field replaces adds step [] b = rw append-nil
  added_since_lem field replaces adds step (s ∷ hs) b =
      added_since_lem field replaces adds step hs (call b s)
      ∙ grow (latest replaces hs) (replaces s) (field b) (adds s) _ (step b s)

module _ {S B : Type 0} (call : B → S → B) where
  pub raised_lem :
      (field : B → Bool) (raises : S → Bool)
      → ((b : B) (s : S) → field (call b s) ≡ (raises s || field b))
      → (hs : List S) (b : B) → field (foldl call b hs) ≡ (raised raises hs || field b)
  raised_lem field raises step [] b = refl
  raised_lem field raises step (s ∷ hs) b =
      raised_lem field raises step hs (call b s) ∙ ground (arith, step b s)

pub or_else-none : {A : Type 0} (o : Option A) → or_else o none ≡ o
or_else-none none = refl
or_else-none (some a) = refl
