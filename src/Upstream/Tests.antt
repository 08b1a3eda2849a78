-- ===== src/Upstream/Tests.antt =====
-- Witnesses of the address classes.
use zolem.Base.{arith, ◌≡◌, refl, inl, inr}
use zolem.Upstream.{Addr, v4, v6, classify, blocked, private, unmap, zone}
use zolem.Upstream.Laws.{Carries, classify-Carries, IsLocal, classify-private}

-- 2002:a9fe:a9fe::1, which 6to4 takes to 169.254.169.254.
abbrev metadata : Addr
metadata = v6 0x2002 0xa9fe 0xa9fe 0 0 0 0 1 ""

classify-Carries_example : classify metadata ≡ blocked
classify-Carries_example =
    classify-Carries 169 254 169 254 metadata (omega arith) (omega arith) (inr (inl (refl, refl)))
      (Carries.six_to_four 0 0 0 0 1 "")

classify-private_example :
    (classify (v4 172 20 0 1) ≡ private
      → (zone (v4 172 20 0 1) ≡ "") × IsLocal (unmap (v4 172 20 0 1)))
    × ((zone (v4 172 20 0 1) ≡ "") × IsLocal (unmap (v4 172 20 0 1))
        → classify (v4 172 20 0 1) ≡ private)
classify-private_example = classify-private (v4 172 20 0 1)
