-- ===== src/Bytes/Laws.antt =====
-- The conversions of rastautil.c and rastamodule.c undo one another, on either kind of host.
use tfm_cloud_ixl_rasta.Prelude.{
  ◌/◌, ◌%◌, ℕ, ◌<◌, ◌^◌, ◌≡◌, refl, Bool, true, false, List, [], ◌∷◌, All, IsByte, length, arith,
}
use tfm_cloud_ixl_rasta.Bytes.{short_to_bytes, bytes_to_short, long_to_bytes, bytes_to_long}

-- A 16-bit number written to two bytes is read back, on a host of either byte order.
pub bytes_to_short-short_to_bytes :
    (big : Bool) (v : ℕ) → v < 2 ^ 16 → bytes_to_short big (short_to_bytes big v) ≡ v
unfolding bytes_to_short short_to_bytes
bytes_to_short-short_to_bytes false v h = omega arith
bytes_to_short-short_to_bytes true v h = omega arith

-- A 32-bit number written to four bytes is read back, on a host of either byte order.
pub bytes_to_long-long_to_bytes :
    (big : Bool) (v : ℕ) → v < 2 ^ 32 → bytes_to_long big (long_to_bytes big v) ≡ v
unfolding bytes_to_long long_to_bytes
bytes_to_long-long_to_bytes false v h = omega arith
bytes_to_long-long_to_bytes true v h = omega arith

pub length-short_to_bytes : (big : Bool) (v : ℕ) → length (short_to_bytes big v) ≡ 2
unfolding short_to_bytes
length-short_to_bytes false v = refl
length-short_to_bytes true v = refl

pub length-long_to_bytes : (big : Bool) (v : ℕ) → length (long_to_bytes big v) ≡ 4
unfolding long_to_bytes
length-long_to_bytes false v = refl
length-long_to_bytes true v = refl

pub short_to_bytes-IsByte : (big : Bool) (v : ℕ) → All IsByte (short_to_bytes big v)
unfolding short_to_bytes
short_to_bytes-IsByte false v = omega arith
short_to_bytes-IsByte true v = omega arith

pub long_to_bytes-IsByte : (big : Bool) (v : ℕ) → All IsByte (long_to_bytes big v)
unfolding long_to_bytes
long_to_bytes-IsByte false v = omega arith
long_to_bytes-IsByte true v = omega arith

pub bytes_to_short-lt : (big : Bool) (v : List ℕ) → bytes_to_short big v < 2 ^ 16
unfolding bytes_to_short
bytes_to_short-lt false v = omega arith
bytes_to_short-lt true v = omega arith

-- Two bytes read as a number are written back as they were.
pub short_to_bytes-bytes_to_short :
    (big : Bool) (a b : ℕ)
    → a < 256
    → b < 256
    → short_to_bytes big (bytes_to_short big (a ∷ b ∷ [])) ≡ a ∷ b ∷ []
unfolding short_to_bytes bytes_to_short
short_to_bytes-bytes_to_short false a b ha hb = ground arith
short_to_bytes-bytes_to_short true a b ha hb = ground arith

-- The bytes, one by one.
pub short_to_bytes_pair :
    (big : Bool) (v : ℕ) → (a : ℕ) × (b : ℕ) × (short_to_bytes big v ≡ a ∷ b ∷ [])
unfolding short_to_bytes
short_to_bytes_pair false v = (v % 256, v / 2 ^ 8 % 256, refl)
short_to_bytes_pair true v = (v / 2 ^ 8 % 256, v % 256, refl)

pub long_to_bytes_four :
    (big : Bool) (v : ℕ)
    → (a : ℕ) × (b : ℕ) × (c : ℕ) × (d : ℕ) × (long_to_bytes big v ≡ a ∷ b ∷ c ∷ d ∷ [])
unfolding long_to_bytes
long_to_bytes_four false v = (v % 256, v / 2 ^ 8 % 256, v / 2 ^ 16 % 256, v / 2 ^ 24 % 256, refl)
long_to_bytes_four true v = (v / 2 ^ 24 % 256, v / 2 ^ 16 % 256, v / 2 ^ 8 % 256, v % 256, refl)
