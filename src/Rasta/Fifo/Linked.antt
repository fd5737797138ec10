-- ===== src/Rasta/Fifo/Linked.antt =====
-- fifo.c: cells that link to one another, when one is written and one is put at the end.
use tfm_cloud_ixl_rasta.Prelude.{
  ℕ, ◌≡◌, ◌≢◌, refl, sym, ◌∙◌, ap, ==_refl, ==_of_ne, Option, none, some, List, [], ◌∷◌, ◌++◌, All,
  All-append, arith,
}
use tfm_cloud_ixl_rasta.Rasta.Fifo.{Cell, write}

module _ {A : Type 0} where
  abbrev pub cell : A → Option ℕ → Option (Cell A)
  cell x l = some (record { element = x; link = l })

  pub write_same :
      (cells : ℕ → Option (Cell A)) (a : ℕ) (c : Option (Cell A)) → write cells a c a ≡ c
  unfolding write
  write_same cells a c = rw (==_refl a) refl

  pub write_other :
      (cells : ℕ → Option (Cell A)) (a i : ℕ) (c : Option (Cell A))
      → i ≢ a
      → write cells a c i ≡ cells i
  unfolding write
  write_other cells a i c h = rw (==_of_ne i a h) refl

  -- The numbers of the cells, with what they hold.
  abbrev pub first_of : List (ℕ × A) → Option ℕ
  first_of [] = none
  first_of (n ∷ ns) = some n.0

  abbrev pub last_of : List (ℕ × A) → Option ℕ
  last_of [] = none
  last_of (n ∷ []) = some n.0
  last_of (n ∷ (m ∷ ns)) = last_of (m ∷ ns)

  -- Each cell links to the next one, and no cell comes twice.
  abbrev pub Linked : (ℕ → Option (Cell A)) → List (ℕ × A) → Type 0
  Linked cells [] = Unit
  Linked cells (n ∷ ns) =
      (cells n.0 ≡ cell n.1 (first_of ns)) × All (λ m. m.0 ≢ n.0) ns × Linked cells ns

  pub frame :
      (cells : ℕ → Option (Cell A)) (a : ℕ) (c : Option (Cell A)) (ns : List (ℕ × A))
      → All (λ m. m.0 ≢ a) ns
      → Linked cells ns
      → Linked (write cells a c) ns
  frame cells a c [] h l = tt
  frame cells a c (n ∷ ns) h l =
      (write_other cells a n.0 c h.0 ∙ l.0, l.1, frame cells a c ns h.1 l.2)

  pub last_ne : (ns : List (ℕ × A)) (a t : ℕ) → All (λ m. m.0 ≢ a) ns → last_of ns ≡ some t → t ≢ a
  last_ne [] a t h e = absurd (ground (arith, e))
  last_ne (n ∷ []) a t h e = λ k. h.0 (ground (arith, e, k))
  last_ne (n ∷ (m ∷ ns)) a t h e = last_ne (m ∷ ns) a t h.1 e

  pub last_cell :
      (cells : ℕ → Option (Cell A)) (ns : List (ℕ × A)) (t : ℕ)
      → Linked cells ns
      → last_of ns ≡ some t
      → (y : A) × (cells t ≡ cell y none)
  last_cell cells [] t l e = absurd (ground (arith, e))
  last_cell cells (n ∷ []) t l e =
      let k : n.0 ≡ t = ground (arith, e) in (n.1, ap cells (sym k) ∙ l.0)
  last_cell cells (n ∷ (m ∷ ns)) t l e = last_cell cells (m ∷ ns) t l.2 e

  abbrev pub relink : ℕ → Option (Cell A) → Option (Cell A)
  relink n none = none
  relink n (some c) = cell c.element (some n)

  -- A new cell at the end.
  pub push-Linked :
      (cells : ℕ → Option (Cell A)) (ns : List (ℕ × A)) (t n : ℕ) (x : A)
      → Linked cells ns
      → last_of ns ≡ some t
      → All (λ m. m.0 ≢ n) ns
      → Linked (write (write cells n (cell x none)) t (relink n (cells t))) (ns ++ ((n, x) ∷ []))
  push-Linked cells [] t n x l e f = absurd (ground (arith, e))
  push-Linked cells (m ∷ []) t n x l e f =
      let k : m.0 ≡ t = ground (arith, e) in
      let cells' = write cells n (cell x none) in
      let w = relink n (cells t) in
      (
        ap (write cells' t w) k ∙ write_same cells' t w ∙ ap (relink n) (ap cells (sym k) ∙ l.0),
        (λ q. f.0 (sym q), tt),
        (
          write_other cells' t n w (λ q. f.0 (k ∙ sym q)) ∙ write_same cells n (cell x none),
          tt,
          tt,
        ),
      )
  push-Linked cells (m ∷ (k ∷ ns)) t n x l e f =
      let cells' = write cells n (cell x none) in
      (
        write_other cells' t m.0 (relink n (cells t)) (λ q. last_ne (k ∷ ns) m.0 t l.1 e (sym q))
            ∙ write_other cells n m.0 (cell x none) f.0
            ∙ l.0,
        All-append (λ i. i.0 ≢ m.0) (k ∷ ns) ((n, x) ∷ []) l.1 (λ q. f.0 (sym q), tt),
        push-Linked cells (k ∷ ns) t n x l.2 e f.1,
      )

  pub last_append : (ns : List (ℕ × A)) (m : ℕ × A) → last_of (ns ++ (m ∷ [])) ≡ some m.0
  last_append [] m = refl
  last_append (k ∷ []) m = refl
  last_append (k ∷ (j ∷ ns)) m = last_append (j ∷ ns) m
