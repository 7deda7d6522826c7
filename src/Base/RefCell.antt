-- ===== src/Base/RefCell.antt =====
-- `Rc<RefCell<W>>` as an explicit heap: a handle is the index of a cell, and clones of a handle
-- are equal indices. A borrow lives for one call; what a panic interrupts is never released, since
-- the compiled module aborts without unwinding.
pub mod Laws
use Prim.Native.Nat.{ℕ}
use mathlib.Core.Bool.{Bool}
use bdk_wasm.Base.Tests.{◌==◌, if◌then◌else◌}
use bdk_wasm.Base.Results.{Outcome, returned, panicked}

pub data Borrow : Type 0 where
  unused reading writing : Borrow

pub record Cell (W : Type 0) : Type 0 where
  pub value : W
  pub state : Borrow

abbrev pub Heap : Type 0 → Type 0
Heap W = ℕ → Cell W

abbrev pub update : {W : Type 0} → Heap W → ℕ → Cell W → Heap W
update heap h c i = if i == h then c else heap i

-- The state of a borrow after the call that took it.
abbrev pub release : {A : Type 0} → Outcome A → Borrow → Borrow
release (returned _) held = Borrow.unused
release (panicked _) held = held

module _ {W A : Type 0} where
  -- `h.borrow_mut()` for the length of `f`.
  unfoldable pub with_borrow_mut : ℕ → (W → Outcome A × W) → Heap W → Outcome A × Heap W
  with_borrow_mut h f heap = elim (heap h).state [
    | Borrow.unused ↦
        let (r, w) = f (heap h).value in
        (r, update heap h (record { value = w; state = release r Borrow.writing }))
    | _ ↦ (panicked "already borrowed", heap)
  ]

  -- `h.borrow()` for the length of `f`.
  unfoldable pub with_borrow : ℕ → (W → Outcome A) → Heap W → Outcome A × Heap W
  with_borrow h f heap = elim (heap h).state [
    | Borrow.writing ↦ (panicked "already mutably borrowed", heap)
    | held ↦
        let r = f (heap h).value in
        (
          r,
          update heap h (record {
            value = (heap h).value;
            state = elim r [ returned _ ↦ held | panicked _ ↦ Borrow.reading ];
          }),
        )
  ]

  -- Calls that return once they have the borrow.
  abbrev pub call_mut : ℕ → (W → A × W) → Heap W → Outcome A × Heap W
  call_mut h f = with_borrow_mut h (λ w. (returned (f w).0, (f w).1))

  abbrev pub call_ref : ℕ → (W → A) → Heap W → Outcome A × Heap W
  call_ref h f = with_borrow h (λ w. returned (f w))
