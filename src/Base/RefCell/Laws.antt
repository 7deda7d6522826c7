-- ===== src/Base/RefCell/Laws.antt =====
-- What one call on a cell does to the heap.
use Prim.Native.Nat.{ℕ}
use mathlib.Core.Path.{◌≡◌}
use native.Mathlib.Omega.{arith}
use bdk_wasm.Base.Results.{Outcome, returned}
use bdk_wasm.Base.Tests.{◌==◌, if◌then◌else◌}
use bdk_wasm.Base.RefCell.{Borrow, Heap, with_borrow_mut}

module _ {W A : Type 0} (h : ℕ) (heap : Heap W) (free : (heap h).state ≡ Borrow.unused) where
  -- A mutable borrow of a free cell runs the call on the value in the cell, and no other cell
  -- changes.
  pub with_borrow_mut_runs :
      (f : W → Outcome A × W)
      → let (r, heap') = with_borrow_mut h f heap in
        (r ≡ (f (heap h).value).0)
        × ((heap' h).value ≡ (f (heap h).value).1)
        × ((i : ℕ) → heap' i ≡ (if i == h then heap' h else heap i))
  unfolding with_borrow_mut
  with_borrow_mut_runs f = (ground arith, ground arith, λ i. ground arith)

  -- It is free again when the call returns.
  pub with_borrow_mut_releases :
      (f : W → Outcome A × W) {a : A}
      → (f (heap h).value).0 ≡ returned a
      → ((with_borrow_mut h f heap).1 h).state ≡ Borrow.unused
  unfolding with_borrow_mut
  with_borrow_mut_releases f e = ground arith
