-- ===== src/Prelude/Int.antt =====
-- Signed integers over the native numbers.
use Prim.Native.Nat.{ℕ, ◌-◌, ◌^◌}
use tfm_cloud_ixl_rasta.Prelude.Tests.{ltb, if◌then◌else◌}

-- `negsuc n` is -(n + 1).
pub data ℤ : Type 0 where
  pos : ℕ → ℤ
  negsuc : ℕ → ℤ

-- The integer of 32 bits that a pattern of bits stands for.
unfoldable pub to_int32 : ℕ → ℤ
to_int32 x = if ltb x (2 ^ 31) then pos x else negsuc (2 ^ 32 - 1 - x)
