-- ===== src/Bytes/Tests.antt =====
-- The conversions at concrete numbers.
use tfm_cloud_ixl_rasta.Prelude.{◌≡◌, refl, false, [], ◌∷◌}
use tfm_cloud_ixl_rasta.Bytes.{short_to_bytes}

-- 0x2400 goes out as 00 24 from a little-endian host.
version_request_type : short_to_bytes false 0x2400 ≡ 0x00 ∷ 0x24 ∷ []
unfolding short_to_bytes
version_request_type = refl
