-- ===== src/Points/Rings.antt =====
-- Which units of a block become points.
use go2_setup.Shared.{
  ℕ, zero, suc, ◌+◌, ◌≤◌, ◌<◌, ◌≡◌, refl, false, List, [], ◌∷◌, Option, none, some, arith, ◌==◌,
  ==_refl, if◌then◌else◌, get_elem?, Bool-cases, inl, inr,
}
use go2_setup.Wire.{LidarUnit}
use go2_setup.Points.{Floats, Point, in_range, calc_units}

module _ (F : Floats) (make : ℕ → LidarUnit → Point F) where
  -- The point of a laser in a list of them.
  abbrev pub point_of : ℕ → List (ℕ × Point F) → Option (Point F)
  point_of r [] = none
  point_of r ((q, p) ∷ ps) = if q == r then some p else point_of r ps

  abbrev pub expected : ℕ → Option LidarUnit → Option (Point F)
  expected r none = none
  expected r (some u) = if in_range u.distance then some (make r u) else none

  -- Each laser is at least `r`, and they rise.
  abbrev pub Rises : ℕ → List (ℕ × Point F) → Type 0
  Rises r [] = Unit
  Rises r ((q, p) ∷ ps) = (r ≤ q) × Rises (q + 1) ps

  Rises-mono : (r s : ℕ) (ps : List (ℕ × Point F)) → s ≤ r → Rises r ps → Rises s ps
  Rises-mono r s [] h k = tt
  Rises-mono r s ((q, p) ∷ ps) h k = (omega arith, k.1)

  -- The points of a block come in strictly rising order of their lasers.
  pub calc_units-Rises : (ring : ℕ) (us : List LidarUnit) → Rises ring (calc_units F make ring us)
  unfolding calc_units
  calc_units-Rises ring [] = tt
  calc_units-Rises ring (u ∷ us) = elim (Bool-cases (in_range u.distance)) [
    | inl keep ↦ rw keep (omega arith, calc_units-Rises (ring + 1) us)
    | inr skip ↦
        rw skip (Rises-mono (ring + 1) ring _ (omega arith) (calc_units-Rises (ring + 1) us))
  ]

  point_of_below : (r s : ℕ) (ps : List (ℕ × Point F)) → Rises s ps → r < s → point_of r ps ≡ none
  point_of_below r s [] h lt = refl
  point_of_below r s ((q, p) ∷ ps) h lt = ground (arith, point_of_below r (q + 1) ps h.1)

  -- The unit of each laser of a block gives that laser's point if its distance is above 0.1 m and
  -- at most 200 m, and no point otherwise; a laser without a unit has no point.
  pub point_of-calc_units :
      (ring k : ℕ) (us : List LidarUnit)
      → point_of (ring + k) (calc_units F make ring us) ≡ expected (ring + k) (get_elem? us k)
  unfolding calc_units
  point_of-calc_units ring k [] = refl
  point_of-calc_units ring zero (u ∷ us) =
      let z : ring + 0 ≡ ring = omega arith in
      elim (Bool-cases (in_range u.distance)) [
        | inl keep ↦ rw (z, keep, ==_refl ring)
        | inr skip ↦
            rw (z, skip)
              (point_of_below ring (ring + 1) _ (calc_units-Rises (ring + 1) us) (omega arith))
      ]
  point_of-calc_units ring (suc k) (u ∷ us) =
      let z : ring + suc k ≡ ring + 1 + k = omega arith in
      let other : (ring == ring + 1 + k) ≡ false = ground arith in
      elim (Bool-cases (in_range u.distance)) [
        | inl keep ↦ rw (z, keep, other) (point_of-calc_units (ring + 1) k us)
        | inr skip ↦ rw (z, skip) (point_of-calc_units (ring + 1) k us)
      ]
