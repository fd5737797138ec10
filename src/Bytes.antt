-- ===== src/Bytes.antt =====
-- src/rasta/c/rastautil.c and the conversions of src/rasta/c/rastamodule.c: integers to bytes and
-- back. What `isBigEndian` finds out about the host is the argument `big`.
pub mod Laws
mod Tests
use tfm_cloud_ixl_rasta.Prelude.{
  ℕ, ◌+◌, ◌*◌, ◌/◌, ◌%◌, ◌^◌, Bool, true, false, List, [], ◌∷◌, get_or,
}

unfoldable pub short_to_bytes : Bool → ℕ → List ℕ
short_to_bytes false v = (v % 256) ∷ (v / 2 ^ 8 % 256) ∷ []
short_to_bytes true v = (v / 2 ^ 8 % 256) ∷ (v % 256) ∷ []

unfoldable pub bytes_to_short : Bool → List ℕ → ℕ
bytes_to_short false v = (get_or v 1 0 * 2 ^ 8 + get_or v 0 0) % 2 ^ 16
bytes_to_short true v = (get_or v 0 0 * 2 ^ 8 + get_or v 1 0) % 2 ^ 16

unfoldable pub long_to_bytes : Bool → ℕ → List ℕ
long_to_bytes false v = (v % 256) ∷ (v / 2 ^ 8 % 256) ∷ (v / 2 ^ 16 % 256) ∷ (v / 2 ^ 24 % 256) ∷ []
long_to_bytes true v = (v / 2 ^ 24 % 256) ∷ (v / 2 ^ 16 % 256) ∷ (v / 2 ^ 8 % 256) ∷ (v % 256) ∷ []

unfoldable pub bytes_to_long : Bool → List ℕ → ℕ
bytes_to_long false v =
    (get_or v 3 0 * 2 ^ 24 + get_or v 2 0 * 2 ^ 16 + get_or v 1 0 * 2 ^ 8 + get_or v 0 0) % 2 ^ 32
bytes_to_long true v =
    (get_or v 0 0 * 2 ^ 24 + get_or v 1 0 * 2 ^ 16 + get_or v 2 0 * 2 ^ 8 + get_or v 3 0) % 2 ^ 32
