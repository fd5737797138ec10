-- ===== src/Prelude/Buffers.antt =====
-- memcpy into a buffer, and reading bytes out of one.
use Prim.Native.Nat.{ℕ, zero, suc, ◌+◌, ◌≤◌}
use mathlib.Core.Path.{◌≡◌, refl, ap, sym, ◌∙◌}
use mathlib.Core.List.{List, [], ◌∷◌, ◌++◌}
use native.Mathlib.Omega.{arith}
use tfm_cloud_ixl_rasta.Prelude.Lists.{length, take, drop}

module _ {ℓ} {A : Type ℓ} where
  -- `memcpy(dst + at, src, length src)`; what would lie past the end of `dst` is not written.
  abbrev pub copy_to : ℕ → List A → List A → List A
  copy_to zero [] dst = dst
  copy_to zero (x ∷ src) [] = []
  copy_to zero (x ∷ src) (d ∷ dst) = x ∷ copy_to zero src dst
  copy_to (suc at) src [] = []
  copy_to (suc at) src (d ∷ dst) = d ∷ copy_to at src dst

  pub length-copy_to : (at : ℕ) (src dst : List A) → length (copy_to at src dst) ≡ length dst
  length-copy_to zero [] dst = refl
  length-copy_to zero (x ∷ src) [] = refl
  length-copy_to zero (x ∷ src) (d ∷ dst) = ap suc (length-copy_to zero src dst)
  length-copy_to (suc at) src [] = refl
  length-copy_to (suc at) src (d ∷ dst) = ap suc (length-copy_to at src dst)

  pub copy_to-zero :
      (src dst : List A)
      → length src ≤ length dst
      → copy_to 0 src dst ≡ src ++ drop (length src) dst
  copy_to-zero [] dst h = refl
  copy_to-zero (x ∷ src) [] h = absurd (omega arith)
  copy_to-zero (x ∷ src) (d ∷ dst) h = ap (λ l. x ∷ l) (copy_to-zero src dst (omega arith))

  pub take-copy_to :
      (src dst : List A) → length src ≤ length dst → take (length src) (copy_to 0 src dst) ≡ src
  take-copy_to [] dst h = refl
  take-copy_to (x ∷ src) [] h = absurd (omega arith)
  take-copy_to (x ∷ src) (d ∷ dst) h = ap (λ l. x ∷ l) (take-copy_to src dst (omega arith))

  pub take-append-drop : (n : ℕ) (xs : List A) → take n xs ++ drop n xs ≡ xs
  take-append-drop zero xs = refl
  take-append-drop (suc n) [] = refl
  take-append-drop (suc n) (x ∷ xs) = ap (λ l. x ∷ l) (take-append-drop n xs)

  drop-nil : (n : ℕ) → drop {A = A} n [] ≡ []
  drop-nil zero = refl
  drop-nil (suc n) = refl

  pub drop-drop : (n m : ℕ) (xs : List A) → drop n (drop m xs) ≡ drop (m + n) xs
  drop-drop n zero xs = ap (λ k. drop k xs) (omega arith)
  drop-drop n (suc m) [] = drop-nil n ∙ sym (drop-nil (suc m + n))
  drop-drop n (suc m) (x ∷ xs) =
      let e : suc (m + n) ≡ suc m + n = omega arith in
      drop-drop n m xs ∙ ap (λ k. drop k (x ∷ xs)) e

  -- A field of known length at the front of a buffer is read back, and the rest is what follows.
  pub take-append_of : (n : ℕ) (xs ys : List A) → length xs ≡ n → take n (xs ++ ys) ≡ xs
  take-append_of zero [] ys h = refl
  take-append_of zero (x ∷ xs) ys h = absurd (omega arith)
  take-append_of (suc n) [] ys h = absurd (omega arith)
  take-append_of (suc n) (x ∷ xs) ys h = ap (λ l. x ∷ l) (take-append_of n xs ys (omega arith))

  pub drop-append_of : (n : ℕ) (xs ys : List A) → length xs ≡ n → drop n (xs ++ ys) ≡ ys
  drop-append_of zero [] ys h = refl
  drop-append_of zero (x ∷ xs) ys h = absurd (omega arith)
  drop-append_of (suc n) [] ys h = absurd (omega arith)
  drop-append_of (suc n) (x ∷ xs) ys h = drop-append_of n xs ys (omega arith)

  pub drop-append_left :
      (n : ℕ) (xs ys : List A) → n ≤ length xs → drop n (xs ++ ys) ≡ drop n xs ++ ys
  drop-append_left zero xs ys h = refl
  drop-append_left (suc n) [] ys h = absurd (omega arith)
  drop-append_left (suc n) (x ∷ xs) ys h = drop-append_left n xs ys (omega arith)
