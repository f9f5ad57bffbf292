-- ===== src/Points/Azimuth.antt =====
-- The index into the tables of sines and cosines, which have 36000 elements.
use go2_setup.Shared.{◌≡◌, ◌⊎◌, arith, ℤ, pos, negsuc, ◌+ℤ◌, ◌-ℤ◌, ◌≤ℤ◌}
use go2_setup.Points.{wrap_azimuth}

-- From a whole turn below 0 to less than two turns above it, the index lies in the tables of 36000
-- elements and names the same direction: it differs from the raw azimuth by one turn or not at all.
pub wrap_azimuth_in :
    (a : ℤ)
    → negsuc 35999 ≤ℤ a
    → a ≤ℤ pos 71999
    → (pos 0 ≤ℤ wrap_azimuth a)
      × (wrap_azimuth a ≤ℤ pos 35999)
      × ((wrap_azimuth a ≡ a)
          ⊎ ((wrap_azimuth a ≡ a +ℤ pos 36000) ⊎ (wrap_azimuth a ≡ a -ℤ pos 36000)))
unfolding wrap_azimuth
wrap_azimuth_in (pos a) lo hi = ground arith
wrap_azimuth_in (negsuc a) lo hi = ground arith

-- Two turns or more above, the index lies behind the end of the tables.
pub wrap_azimuth_out : (a : ℤ) → pos 72000 ≤ℤ a → pos 36000 ≤ℤ wrap_azimuth a
unfolding wrap_azimuth
wrap_azimuth_out (pos a) h = ground arith
wrap_azimuth_out (negsuc a) h = ground arith
