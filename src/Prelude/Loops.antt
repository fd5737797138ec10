-- ===== src/Prelude/Loops.antt =====
-- Loops that test every entry of an array, and the predicates that they decide.
use Prim.Native.Nat.{ℕ, zero, suc, ◌+◌, ◌<◌, ◌≤◌}
use mathlib.Core.Path.{◌≡◌, refl}
use mathlib.Core.Logic.{inl, inr}
use mathlib.Core.Bool.{Bool, true}
use mathlib.Core.Option.{some}
use mathlib.Core.List.{List, [], ◌∷◌, ◌++◌}
use native.Mathlib.Omega.{arith}
use tfm_cloud_ixl_rasta.Prelude.Tests.{if◌then◌else◌, Bool-cases}
use tfm_cloud_ixl_rasta.Prelude.Lists.{length, take, drop, set, get_elem?}

-- A predicate by recursion computes to tuples, which the tactics read and build.
abbrev pub All {ℓ κ} : {A : Type ℓ} → (A → Type κ) → List A → Type κ
All P [] = Unit
All P (x ∷ xs) = P x × All P xs

abbrev pub IsByte : ℕ → Type 0
IsByte b = b < 256

pub All-append {ℓ κ} :
    {A : Type ℓ} (P : A → Type κ) (xs ys : List A) → All P xs → All P ys → All P (xs ++ ys)
All-append P [] ys h k = k
All-append P (x ∷ xs) ys h k = (h.0, All-append P xs ys h.1 k)

module _ {ℓ} {A : Type ℓ} where
  -- How many elements pass a test.
  abbrev pub count_if : (A → Bool) → List A → ℕ
  count_if test [] = 0
  count_if test (x ∷ xs) = (if test x then 1 else 0) + count_if test xs

  abbrev pub Passes : (A → Bool) → List A → Type 0
  Passes test = All (λ x. test x ≡ true)

  count_if-le-length : (test : A → Bool) (xs : List A) → count_if test xs ≤ length xs
  count_if-le-length test [] = omega arith
  count_if-le-length test (x ∷ xs) = ground (arith, count_if-le-length test xs)

  pub count_if-true : (xs : List A) → count_if (λ _. true) xs ≡ length xs
  count_if-true [] = refl
  count_if-true (x ∷ xs) = omega (arith, count_if-true xs)

  pub count_if-Passes :
      (test : A → Bool) (xs : List A) → Passes test xs → count_if test xs ≡ length xs
  count_if-Passes test [] h = refl
  count_if-Passes test (x ∷ xs) h = rw (h.0) (omega (arith, count_if-Passes test xs h.1))

  pub Passes-of_count_if :
      (test : A → Bool) (xs : List A) → count_if test xs ≡ length xs → Passes test xs
  Passes-of_count_if test [] e = tt
  Passes-of_count_if test (x ∷ xs) e = elim (Bool-cases (test x)) [
    | inl t ↦ (t, Passes-of_count_if test xs (ground (arith, e, t)))
    | inr f ↦ absurd (ground (arith, e, f, count_if-le-length test xs))
  ]

module _ {ℓ κ} {A : Type ℓ} (P : A → Type κ) where
  pub All-take : (n : ℕ) (xs : List A) → All P xs → All P (take n xs)
  All-take zero xs h = tt
  All-take (suc n) [] h = tt
  All-take (suc n) (x ∷ xs) h = (h.0, All-take n xs h.1)

  pub All-drop : (n : ℕ) (xs : List A) → All P xs → All P (drop n xs)
  All-drop zero xs h = h
  All-drop (suc n) [] h = tt
  All-drop (suc n) (x ∷ xs) h = All-drop n xs h.1

  pub All-take_less : (n : ℕ) (xs : List A) → All P (take (suc n) xs) → All P (take n xs)
  All-take_less zero xs h = tt
  All-take_less (suc n) [] h = tt
  All-take_less (suc n) (x ∷ xs) h = (h.0, All-take_less n xs h.1)

  pub All-set : (xs : List A) (i : ℕ) (v : A) → All P xs → P v → All P (set xs i v)
  All-set [] i v h k = tt
  All-set (x ∷ xs) zero v h k = (k, h.1)
  All-set (x ∷ xs) (suc i) v h k = (h.0, All-set xs i v h.1 k)

  -- The elements up to the one that is written.
  pub All-take-set :
      (xs : List A) (n : ℕ) (v : A) → All P (take n xs) → P v → All P (take (suc n) (set xs n v))
  All-take-set [] n v h k = tt
  All-take-set (x ∷ xs) zero v h k = (k, tt)
  All-take-set (x ∷ xs) (suc n) v h k = (h.0, All-take-set xs n v h.1 k)

  pub All-take-set_first :
      (xs : List A) (n : ℕ) (v : A) → All P (take n xs) → P v → All P (take n (set xs 0 v))
  All-take-set_first xs zero v h k = tt
  All-take-set_first [] (suc n) v h k = tt
  All-take-set_first (x ∷ xs) (suc n) v h k = (k, h.1)

  -- The element at an index below the length, with what holds of all up to it.
  pub All-get_elem? :
      (xs : List A) (i n : ℕ)
      → All P (take n xs)
      → i < n
      → n ≤ length xs
      → (x : A) × (get_elem? xs i ≡ some x) × P x
  All-get_elem? xs i zero h p q = absurd (omega arith)
  All-get_elem? [] i (suc n) h p q = absurd (omega arith)
  All-get_elem? (x ∷ xs) zero (suc n) h p q = (x, refl, h.0)
  All-get_elem? (x ∷ xs) (suc i) (suc n) h p q =
      All-get_elem? xs i n h.1 (omega arith) (omega arith)
