-- ===== src/Rasta/Fifo.antt =====
-- src/rasta/c/fifo.c: the bounded queue, as cells in a store that point to one another.
pub mod Linked
pub mod Refine
mod Destroy
mod Tests
use tfm_cloud_ixl_rasta.Prelude.{
  ℕ, zero, suc, ◌+◌, ◌-◌, ltb, ◌==◌, Bool, true, false, ◌&&◌, Option, none, some, List, [], ◌∷◌,
  ◌++◌, length, set, if◌then◌else◌,
}

-- `fifo_element`; a pointer is the number of a cell, or `none` for NULL.
pub record Cell {ℓ} (A : Type ℓ) : Type ℓ where
  pub element : A
  pub link : Option ℕ

-- The cells by their numbers, `none` for one that is not allocated, and the first number that was
-- never given to a cell.
pub record Store {ℓ} (A : Type ℓ) : Type ℓ where
  pub cells : ℕ → Option (Cell A)
  pub used : ℕ

module _ {ℓ} {A : Type ℓ} where
  unfoldable pub write : (ℕ → Option (Cell A)) → ℕ → Option (Cell A) → ℕ → Option (Cell A)
  write cells a c i = if i == a then c else cells i

-- `fifo_t`, without its lock.
pub record Fifo : Type 0 where
  pub head : Option ℕ
  pub tail : Option ℕ
  pub size : ℕ
  pub max_size : ℕ

unfoldable pub fifo_init : ℕ → Fifo
fifo_init max_size = record { head = none; tail = none; size = 0; max_size = max_size }

module _ {ℓ} {A : Type ℓ} where
  -- The cell that `tail` points to gets a new link.
  unfoldable pub link_to : (ℕ → Option (Cell A)) → Option (Cell A) → ℕ → ℕ → ℕ → Option (Cell A)
  unfolding write
  link_to cells none t n = cells
  link_to cells (some c) t n = write cells t (some (record { element = c.element; link = some n }))

  -- The links of a push that is not the first, where there is a tail.
  unfoldable pub append_cell : (ℕ → Option (Cell A)) → Option ℕ → ℕ → ℕ → Option (Cell A)
  unfolding link_to
  append_cell cells none n = cells
  append_cell cells (some t) n = link_to cells (cells t) t n

  -- `fifo_push` of an element that is not NULL.
  unfoldable pub push_cell : Store A → Fifo → A → Store A × Fifo
  unfolding append_cell write
  push_cell store f x =
      let n = store.used in
      let cells = write store.cells n (some (record { element = x; link = none })) in
      if f.size == f.max_size
      then (store, f)
      else if f.size == 0
      then (
        record { cells = cells; used = n + 1 },
        record f { head = some n; tail = some n; size = f.size + 1 },
      )
      else (
        record { cells = append_cell cells f.tail n; used = n + 1 },
        record f { tail = some n; size = f.size + 1 },
      )

  -- What a pop does with the cell at the head.
  unfoldable pub take_cell : Store A → Fifo → ℕ → Option (Cell A) → Option A × Store A × Fifo
  unfolding write
  take_cell store f h none = (none, store, f)
  take_cell store f h (some c) = (
    some c.element,
    record store { cells = write store.cells h none },
    record f { head = c.link; tail = if f.size == 1 then none else f.tail; size = f.size - 1 },
  )

  unfoldable pub pop_ends : Store A → Fifo → Option ℕ → Option ℕ → Option A × Store A × Fifo
  unfolding take_cell
  pop_ends store f (some h) (some t) = take_cell store f h (store.cells h)
  pop_ends store f h t = (none, store, f)

  unfoldable pub pop_cell : Store A → Fifo → Option A × Store A × Fifo
  unfolding pop_ends
  pop_cell store f = if ltb 0 f.size then pop_ends store f f.head f.tail else (none, store, f)

  -- The loop of `fifo_destroy`, which reads the size again before each pass; the first number is the
  -- passes allowed, and as many as the size are enough, since the counter `i` grows with each pass.
  unfoldable pub destroy_loop : ℕ → ℕ → Store A → Fifo → Store A × Fifo
  unfolding pop_cell
  destroy_loop zero i store f = (store, f)
  destroy_loop (suc n) i store f =
      let (x, store', f') = pop_cell store f in
      let rest = destroy_loop n (i + 1) store' f' in if ltb i f.size then rest else (store, f)

  -- `fifo_destroy`: the cells that are left when the queue itself is freed.
  unfoldable pub fifo_destroy : Store A → Fifo → Store A
  unfolding destroy_loop
  fifo_destroy store f = let (store', f') = destroy_loop f.size 0 store f in store'
