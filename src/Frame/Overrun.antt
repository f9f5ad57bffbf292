-- ===== src/Frame/Overrun.antt =====
-- The writes to `PointCloud`, of which none is tested.
use go2_setup.Shared.{
  ℕ, ◌+◌, ◌<◌, ◌≤◌, ◌≡◌, ◌∙◌, refl, sym, ap, Bool, true, false, List, [], ◌∷◌, arith, All, length,
  ltb, ◌==◌, Bool-cases, inl, inr,
}
use go2_setup.Wire.{fault}
use go2_setup.Frame.{
  max_point_cloud_num, Clouds, Framer, add_point, add_points, crosses, frame_ends, process_block,
  process_blocks, unless_overrun,
}
use go2_setup.Frame.Cutter.Buffers.{add_points-stays_overrun, add_points-too_many}

-- How many points there are in the blocks.
abbrev pub points_in : {P : Type 0} → List (ℕ × List (ℕ × P)) → ℕ
points_in [] = 0
points_in ((a, ps) ∷ bs) = length ps + points_in bs

module _ {P R : Type 0} (has_callback : Bool) (start : ℕ) (correction : ℕ → R) (lasers : ℕ) where
  stalled-open :
      (s : Framer P R) (a : ℕ) → s.last_azimuth ≡ a → frame_ends has_callback start s a ≡ false
  unfolding frame_ends crosses
  stalled-open s a e = let same : (s.last_azimuth == a) ≡ true = ground (arith, e) in rw same refl

  process_block-stalled :
      (s : Framer P R) (a : ℕ) (ps : List (ℕ × P))
      → s.last_azimuth ≡ a
      → process_block false has_callback start correction (add_point false) lasers s (a, ps)
        ≡ record s { last_azimuth = a; clouds = add_points (add_point false) s.clouds ps }
  unfolding process_block
  process_block-stalled s a ps e = rw (stalled-open s a e) refl

  add_points-index :
      (c : Clouds P) (ps : List (ℕ × P))
      → (add_points (add_point false) c ps).index ≡ c.index + length ps
  unfolding add_points add_point
  add_points-index c [] = omega arith
  add_points-index c (p ∷ ps) = omega (arith, add_points-index (add_point false c p) ps)

  -- Whether the flag is up after the blocks.
  abbrev overrun_after : Framer P R → List (ℕ × List (ℕ × P)) → Bool
  overrun_after s bs =
      (process_blocks false has_callback start correction (add_point false) lasers s
        bs).clouds.overrun

  stays_overrun :
      (azimuth : ℕ) (s : Framer P R) (bs : List (ℕ × List (ℕ × P)))
      → s.last_azimuth ≡ azimuth
      → All (λ (b : ℕ × List (ℕ × P)). b.0 ≡ azimuth) bs
      → s.clouds.overrun ≡ true
      → overrun_after s bs ≡ true
  unfolding process_blocks
  stays_overrun azimuth s [] e h o = o
  stays_overrun azimuth s ((a, ps) ∷ bs) e h o =
      ap (λ (z : Framer P R). overrun_after z bs) (process_block-stalled s a ps (e ∙ sym h.0))
      ∙ stays_overrun azimuth
          (record s { last_azimuth = a; clouds = add_points (add_point false) s.clouds ps }) bs h.0
          h.1 (add_points-stays_overrun s.clouds ps o)

  goes_overrun :
      (azimuth : ℕ) (s : Framer P R) (bs : List (ℕ × List (ℕ × P)))
      → s.last_azimuth ≡ azimuth
      → All (λ (b : ℕ × List (ℕ × P)). b.0 ≡ azimuth) bs
      → s.clouds.index ≤ max_point_cloud_num
      → max_point_cloud_num < s.clouds.index + points_in bs
      → overrun_after s bs ≡ true
  unfolding process_blocks
  goes_overrun azimuth s [] e h i k = absurd (omega arith)
  goes_overrun azimuth s ((a, ps) ∷ bs) e h i k =
      let next : Framer P R = record s {
        last_azimuth = a;
        clouds = add_points (add_point false) s.clouds ps;
      } in
      ap (λ (z : Framer P R). overrun_after z bs) (process_block-stalled s a ps (e ∙ sym h.0))
      ∙ elim (Bool-cases (ltb max_point_cloud_num (s.clouds.index + length ps))) [
        | inl full ↦
            stays_overrun azimuth next bs h.0 h.1 (add_points-too_many s.clouds ps i (ground arith))
        | inr room ↦
            (let index = add_points-index s.clouds ps in
              let fits : s.clouds.index + length ps ≤ max_point_cloud_num = ground arith in
              goes_overrun azimuth next bs h.0 h.1 (omega (arith, index, fits))
                (omega (arith, index, k)))
      ]

  -- In the mode without a list for each laser, with the formats other than QT: while the azimuth
  -- stands still, blocks with more points than the 1000000 elements of `PointCloud` have room for,
  -- behind those in use, write past its end.
  pub process_blocks-stalled :
      (s : Framer P R) (bs : List (ℕ × List (ℕ × P)))
      → All (λ (b : ℕ × List (ℕ × P)). b.0 ≡ s.last_azimuth) bs
      → s.clouds.index ≤ max_point_cloud_num
      → max_point_cloud_num < s.clouds.index + points_in bs
      → unless_overrun
          (process_blocks false has_callback start correction (add_point false) lasers s bs)
        ≡ fault
  process_blocks-stalled s bs h i k = rw (goes_overrun s.last_azimuth s bs refl h i k) refl
