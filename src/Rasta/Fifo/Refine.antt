-- ===== src/Rasta/Fifo/Refine.antt =====
-- fifo.c: the cells hold a list, and a push and a pop do to it what they do to a bounded queue.
use tfm_cloud_ixl_rasta.Prelude.{
  ℕ, suc, ◌+◌, ◌<◌, ◌≡◌, ◌≢◌, refl, sym, ◌∙◌, ap, ap₂, subst, ltb_pos, ◌==◌, ==_of_ne, false,
  Bool-cases, inl, inr, Option, none, some, List, [], ◌∷◌, ◌++◌, map, length, length-append, All,
  All-append, if◌then◌else◌, arith,
}
use tfm_cloud_ixl_rasta.Rasta.Sr.State.{fifo_push}
use tfm_cloud_ixl_rasta.Rasta.Fifo.{
  Cell, Store, Fifo, fifo_init, write, link_to, append_cell, push_cell, take_cell, pop_ends,
  pop_cell,
}
use tfm_cloud_ixl_rasta.Rasta.Fifo.Linked.{
  write_same, cell, write_other, first_of, last_of, Linked, frame, last_ne, last_cell, relink,
  push-Linked, last_append,
}

module _ {A : Type 0} where
  -- A fifo stands for the list that its cells hold, from the head to the tail.
  pub Represents : Store A → Fifo → List (ℕ × A) → Type 0
  Represents store f ns =
      (f.head ≡ first_of ns)
      × (f.tail ≡ last_of ns)
      × (f.size ≡ length ns)
      × All (λ m. m.0 < store.used) ns
      × Linked store.cells ns

  abbrev pub contents : List (ℕ × A) → List A
  contents ns = map (λ m. m.1) ns

  last_some : (m : ℕ × A) (ns : List (ℕ × A)) → (t : ℕ) × (last_of (m ∷ ns) ≡ some t)
  last_some m [] = (m.0, refl)
  last_some m (k ∷ ns) = last_some k ns

  tail_left :
      (m : ℕ × A) (ns : List (ℕ × A)) (v : Option ℕ)
      → v ≡ last_of (m ∷ ns)
      → (if suc (length ns) == 1 then none else v) ≡ last_of ns
  tail_left m [] v e = refl
  tail_left m (k ∷ ns) v e = rw (==_of_ne (suc (suc (length ns))) 1 (omega arith)) e

  -- A pop of a fifo that is not empty gives its first element, and the fifo stands for the others.
  pub pop_cell-Represents :
      (store : Store A) (f : Fifo) (m : ℕ × A) (ns : List (ℕ × A))
      → Represents store f (m ∷ ns)
      → let (x, store', f') = pop_cell store f in
        (x ≡ some m.1) × Represents store' f' ns × (f'.max_size ≡ f.max_size)
  unfolding pop_cell pop_ends take_cell Represents
  pop_cell-Represents store f m ns (hd, tl, sz, below, l) =
      let (t, e) = last_some m ns in
      rw (sz, ltb_pos (length ns), hd, tl ∙ e, l.0)
        (
          refl,
          (
            refl,
            tail_left m ns f.tail tl,
            omega arith,
            below.1,
            frame store.cells m.0 none ns l.1 l.2,
          ),
          refl,
        )

  below_ne : (n : ℕ) (ns : List (ℕ × A)) → All (λ m. m.0 < n) ns → All (λ m. m.0 ≢ n) ns
  below_ne n [] h = tt
  below_ne n (m ∷ ns) h = (λ e. absurd (omega (arith, h.0, e)), below_ne n ns h.1)

  below_suc : (n : ℕ) (ns : List (ℕ × A)) → All (λ m. m.0 < n) ns → All (λ m. m.0 < n + 1) ns
  below_suc n [] h = tt
  below_suc n (m ∷ ns) h = (omega (arith, h.0), below_suc n ns h.1)

  -- The cells of a push that is not the first.
  appended :
      (cells : ℕ → Option (Cell A)) (ns : List (ℕ × A)) (t n : ℕ) (x : A)
      → Linked cells ns
      → last_of ns ≡ some t
      → All (λ m. m.0 ≢ n) ns
      → Linked (append_cell (write cells n (cell x none)) (some t) n) (ns ++ ((n, x) ∷ []))
  unfolding append_cell link_to
  appended cells ns t n x l e f =
      let (y, c) = last_cell cells ns t l e in
      let other : t ≢ n = last_ne ns n t f e in
      let whole = write cells n (cell x none) in
      let same : link_to whole (whole t) t n ≡ write whole t (relink n (cells t)) =
        rw (write_other cells n t (cell x none) other, c) refl in
      subst (λ k. Linked k (ns ++ ((n, x) ∷ []))) (sym same) (push-Linked cells ns t n x l e f)

  map-append :
      (ns : List (ℕ × A)) (m : ℕ × A) → contents (ns ++ (m ∷ [])) ≡ contents ns ++ (m.1 ∷ [])
  map-append [] m = refl
  map-append (k ∷ ns) m = ap (λ l. k.1 ∷ l) (map-append ns m)

  length-contents : (ns : List (ℕ × A)) → length (contents ns) ≡ length ns
  length-contents [] = refl
  length-contents (m ∷ ns) = ap suc (length-contents ns)

  -- A push that is not refused.
  pushed :
      (store : Store A) (f : Fifo) (ns : List (ℕ × A)) (x : A)
      → (f.size == f.max_size) ≡ false
      → Represents store f ns
      → let (store', f') = push_cell store f x in
        Represents store' f' (ns ++ ((store.used, x) ∷ [])) × (f'.max_size ≡ f.max_size)
  unfolding push_cell Represents
  pushed store f [] x room (hd, tl, sz, below, l) =
      rw (room, sz)
        (
          (
            refl,
            refl,
            refl,
            (omega arith, tt),
            (write_same store.cells store.used (cell x none), tt, tt),
          ),
          refl,
        )
  pushed store f (m ∷ ns) x room (hd, tl, sz, below, l) =
      let (t, e) = last_some m ns in
      let n = store.used in
      let two : (f.size == 0) ≡ false = ==_of_ne f.size 0 (omega (arith, sz)) in
      let cells = write store.cells n (cell x none) in
      let after : Store A × Fifo = (
        record { cells = append_cell cells (some t) n; used = n + 1 },
        record f { tail = some n; size = f.size + 1 },
      ) in
      let step : push_cell store f x ≡ after = rw (room, two, tl ∙ e) refl in
      subst (λ r. Represents r.0 r.1 ((m ∷ ns) ++ ((n, x) ∷ [])) × (r.1.max_size ≡ f.max_size))
        (sym step)
        (
          (
            hd,
            sym (last_append (m ∷ ns) (n, x)),
            omega (arith, sz, length-append ns ((n, x) ∷ [])),
            All-append (λ i. i.0 < n + 1) (m ∷ ns) ((n, x) ∷ []) (below_suc n (m ∷ ns) below)
                (omega arith, tt),
            appended store.cells (m ∷ ns) t n x l e (below_ne n (m ∷ ns) below),
          ),
          refl,
        )

  -- A push, whether it is refused or not.
  push_cell-fifo_push :
      (store : Store A) (f : Fifo) (ns : List (ℕ × A)) (x : A)
      → Represents store f ns
      → let (store', f') = push_cell store f x in
        (ns' : List (ℕ × A)) × Represents store' f' ns'
        × (contents ns' ≡ fifo_push f.max_size (contents ns) x)
        × (f'.max_size ≡ f.max_size)
  unfolding push_cell fifo_push Represents
  push_cell-fifo_push store f ns x r =
      let same : (length (contents ns) == f.max_size) ≡ (f.size == f.max_size) =
        ap (λ k. k == f.max_size) (length-contents ns ∙ sym r.2) in
      elim (Bool-cases (f.size == f.max_size)) [
        | inl full ↦
            let step : push_cell store f x ≡ (store, f) = rw (full) refl in
            (
              ns,
              subst (λ s. Represents s.0 s.1 ns) (sym step) r,
              rw (same, full) refl,
              ap (λ s. s.1.max_size) step,
            )
        | inr room ↦ (
          ns ++ ((store.used, x) ∷ []),
          (pushed store f ns x room r).0,
          rw (same, room) (map-append ns (store.used, x)),
          (pushed store f ns x room r).1,
        )
      ]

  pop_empty :
      (store : Store A) (f : Fifo) → Represents store f [] → pop_cell store f ≡ (none, store, f)
  unfolding pop_cell Represents
  pop_empty store f r = rw (r.2) refl

-- The calls of a fifo, and what the pops of them give, from the cells and from a bounded list.
pub data Call (A : Type 0) : Type 0 where
  push : A → Call A
  pop : Call A

module _ {A : Type 0} where
  unfoldable pub run_cells : List (Call A) → Store A → Fifo → List (Option A)
  unfolding push_cell pop_cell
  run_cells [] store f = []
  run_cells (push x ∷ calls) store f =
      run_cells calls (push_cell store f x).0 (push_cell store f x).1
  run_cells (pop ∷ calls) store f =
      (pop_cell store f).0 ∷ run_cells calls (pop_cell store f).1 (pop_cell store f).2

  unfoldable pub run_queue : ℕ → List (Call A) → List A → List (Option A)
  unfolding fifo_push
  run_queue n [] queue = []
  run_queue n (push x ∷ calls) queue = run_queue n calls (fifo_push n queue x)
  run_queue n (pop ∷ calls) [] = none ∷ run_queue n calls []
  run_queue n (pop ∷ calls) (x ∷ queue) = some x ∷ run_queue n calls queue

  refines :
      (calls : List (Call A)) (store : Store A) (f : Fifo) (ns : List (ℕ × A))
      → Represents store f ns
      → run_cells calls store f ≡ run_queue f.max_size calls (contents ns)
  unfolding run_cells run_queue
  refines [] store f ns r = refl
  refines (push x ∷ calls) store f ns r =
      let (ns', r', c, m) = push_cell-fifo_push store f ns x r in
      refines calls (push_cell store f x).0 (push_cell store f x).1 ns' r'
      ∙ ap₂ (λ n q. run_queue n calls q) m c
  refines (pop ∷ calls) store f [] r =
      let e = pop_empty store f r in rw (e) (ap (λ l. none ∷ l) (refines calls store f [] r))
  refines (pop ∷ calls) store f (n ∷ ns) r =
      let (x, r', m) = pop_cell-Represents store f n ns r in
      ap₂ (λ o l. o ∷ l) x
        (refines calls (pop_cell store f).1 (pop_cell store f).2 ns r'
          ∙ ap (λ k. run_queue k calls (contents ns)) m)

  -- From a new fifo on, whatever store it is in and whatever calls follow, the pops of the linked cells
  -- give the elements that a list gives which is pushed to at its end, as long as it is shorter than
  -- the bound, and popped from at its front, and NULL where it is empty.
  pub run_cells-fifo_init :
      (calls : List (Call A)) (store : Store A) (max_size : ℕ)
      → run_cells calls store (fifo_init max_size) ≡ run_queue max_size calls []
  unfolding fifo_init Represents
  run_cells-fifo_init calls store max_size =
      refines calls store (fifo_init max_size) [] (refl, refl, refl, tt, tt)
