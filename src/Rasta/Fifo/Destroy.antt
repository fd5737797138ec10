-- ===== src/Rasta/Fifo/Destroy.antt =====
-- fifo.c: the passes that `fifo_destroy` takes.
use tfm_cloud_ixl_rasta.Prelude.{
  ℕ, zero, suc, ◌+◌, ◌≤◌, ◌≡◌, refl, ap, ltb, false, Option, none, some, if◌then◌else◌, arith,
}
use tfm_cloud_ixl_rasta.Rasta.Fifo.{
  Store, Fifo, Cell, take_cell, pop_ends, pop_cell, destroy_loop, fifo_destroy,
}

ltb_ge : (i n : ℕ) → n ≤ i → ltb i n ≡ false
ltb_ge i n le = ground arith

module _ {ℓ} {A : Type ℓ} where
  take_cell_size :
      (store : Store A) (f : Fifo) (h : ℕ) (c : Option (Cell A))
      → (take_cell store f h c).2.size ≤ f.size
  unfolding take_cell
  take_cell_size store f h none = omega arith
  take_cell_size store f h (some c) = omega arith

  pop_ends_size :
      (store : Store A) (f : Fifo) (h t : Option ℕ) → (pop_ends store f h t).2.size ≤ f.size
  unfolding pop_ends
  pop_ends_size store f none t = omega arith
  pop_ends_size store f (some h) none = omega arith
  pop_ends_size store f (some h) (some t) = take_cell_size store f h (store.cells h)

  pop_cell_size : (store : Store A) (f : Fifo) → (pop_cell store f).2.size ≤ f.size
  unfolding pop_cell
  pop_cell_size store f = ground (arith, pop_ends_size store f f.head f.tail)

  more_passes :
      (m n i : ℕ) (store : Store A) (f : Fifo)
      → n ≤ m
      → f.size ≤ i + n
      → destroy_loop m i store f ≡ destroy_loop n i store f
  unfolding destroy_loop
  more_passes zero zero i store f le h = refl
  more_passes zero (suc n) i store f le h = absurd (omega arith)
  more_passes (suc m) zero i store f le h = rw (ltb_ge i f.size (omega arith)) refl
  more_passes (suc m) (suc n) i store f le h =
      let (x, store', f') = pop_cell store f in
      ap (λ r. if ltb i f.size then r else (store, f))
        (more_passes m n (i + 1) store' f' (omega arith) (omega (arith, pop_cell_size store f)))

  -- As many passes as the size are enough for the destruction: with more it leaves the same cells.
  fifo_destroy_enough :
      (n : ℕ) (store : Store A) (f : Fifo)
      → f.size ≤ n
      → (destroy_loop n 0 store f).0 ≡ fifo_destroy store f
  unfolding fifo_destroy
  fifo_destroy_enough n store f le = ap (λ r. r.0) (more_passes n f.size 0 store f le (omega arith))
