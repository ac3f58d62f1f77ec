-- ===== src/Awaitable/Heaps.antt =====
-- Reading and writing the heap of coroutine frames.
use tinkoff_invest_sdkv.Prelude.{
  ℕ, zero, suc, ◌≡◌, ◌≢◌, refl, ap, [], ◌∷◌, ◌++◌, Option, none, some, length, length-set,
  get_elem?, set, get_elem?-set_self, get_elem?-set_ne,
}
use tinkoff_invest_sdkv.Awaitable.{Frame, Heap, cell, write_frame, destroy}

module _ {Q R V E : Type 0} where
  pub cell_stored :
      (h : Heap Q R V E) (i : ℕ) (f : Frame Q R V E)
      → cell h i ≡ some f
      → get_elem? h i ≡ some (some f)
  unfolding cell
  cell_stored [] i f e = cc
  cell_stored (x ∷ h) zero f e = ap some e
  cell_stored (x ∷ h) (suc i) f e = cell_stored h i f e

  pub cell-write_self :
      (h : Heap Q R V E) (i : ℕ) (f g : Frame Q R V E)
      → cell h i ≡ some f
      → cell (write_frame h i g) i ≡ some g
  unfolding cell write_frame
  cell-write_self h i f g e =
      rw (get_elem?-set_self h i (some g) (some f) (cell_stored h i f e), cell) refl

  pub cell-set_ne :
      (h : Heap Q R V E) (i j : ℕ) (x : Option (Frame Q R V E))
      → i ≢ j
      → cell (set h i x) j ≡ cell h j
  unfolding cell
  cell-set_ne h i j x n = rw (get_elem?-set_ne h i j x n, cell) refl

  pub cell-destroy_self : (h : Heap Q R V E) (i : ℕ) → cell (destroy h i) i ≡ none
  unfolding cell destroy
  cell-destroy_self [] i = refl
  cell-destroy_self (x ∷ h) zero = refl
  cell-destroy_self (x ∷ h) (suc i) = cell-destroy_self h i

  pub cell-fresh : (h : Heap Q R V E) → cell h (length h) ≡ none
  unfolding cell
  cell-fresh [] = refl
  cell-fresh (x ∷ h) = cell-fresh h

  pub cell-new :
      (h : Heap Q R V E) (f : Frame Q R V E) → cell (h ++ some f ∷ []) (length h) ≡ some f
  unfolding cell
  cell-new [] f = refl
  cell-new (x ∷ h) f = cell-new h f

  pub cell-append_ne :
      (h : Heap Q R V E) (x : Option (Frame Q R V E)) (j : ℕ)
      → length h ≢ j
      → cell (h ++ x ∷ []) j ≡ cell h j
  unfolding cell
  cell-append_ne [] x zero n = absurd (n refl)
  cell-append_ne [] x (suc j) n = refl
  cell-append_ne (y ∷ h) x zero n = refl
  cell-append_ne (y ∷ h) x (suc j) n = cell-append_ne h x j (λ e. n (ap suc e))

  pub length-write :
      (h : Heap Q R V E) (i : ℕ) (f : Frame Q R V E) → length (write_frame h i f) ≡ length h
  unfolding write_frame
  length-write h i f = length-set h i (some f)
