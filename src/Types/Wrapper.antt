-- ===== src/Types/Wrapper.antt =====
-- `impl_inner_wrapper!` of src/macros.rs: a struct around one value of a library's type.

-- The tuple struct, and `From<$inner> for $name`.
pub data Wrapper {ℓ} (A : Type ℓ) : Type ℓ where
  wrap : A → Wrapper A

module _ {ℓ} {A : Type ℓ} where
  -- `Deref::deref`
  abbrev pub deref : Wrapper A → A
  deref (wrap a) = a

  -- `From<$name> for $inner`
  abbrev pub into_inner : Wrapper A → A
  into_inner (wrap a) = a
