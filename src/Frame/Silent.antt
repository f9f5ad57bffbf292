-- ===== src/Frame/Silent.antt =====
-- The test `PointCloudList[0].size() > 0` where the first laser gives no points.
use go2_setup.Shared.{ℕ, ◌<◌, ◌≡◌, ◌∙◌, refl, ap, Bool, true, false, List, [], ◌∷◌, arith, All}
use go2_setup.Frame.{Framer, add_point, add_points, frame_ends, process_block, process_blocks}
use go2_setup.Frame.Cutter.{of_laser}
use go2_setup.Frame.Cutter.Buffers.{add_points-lists, add_points-index}

module _ {P R : Type 0} (has_callback : Bool) (start : ℕ) (correction : ℕ → R) (lasers : ℕ) where
  of_laser-others : (ps : List (ℕ × P)) → All (λ (p : ℕ × P). 0 < p.0) ps → of_laser 0 ps ≡ []
  of_laser-others [] h = refl
  of_laser-others ((l, p) ∷ ps) h = ground (arith, h.0, of_laser-others ps h.1)

  never_ends :
      (s : Framer P R) (a : ℕ)
      → s.clouds.index ≡ 0
      → s.clouds.lists 0 ≡ []
      → frame_ends has_callback start s a ≡ false
  unfolding frame_ends
  never_ends s a i l = rw (i, l) (ground arith)

  process_block-silent :
      (s : Framer P R) (a : ℕ) (ps : List (ℕ × P))
      → s.clouds.index ≡ 0
      → s.clouds.lists 0 ≡ []
      → process_block true has_callback start correction (add_point true) lasers s (a, ps)
        ≡ record s { last_azimuth = a; clouds = add_points (add_point true) s.clouds ps }
  unfolding process_block
  process_block-silent s a ps i l = rw (never_ends s a i l) refl

  -- In the mode with a list for each laser, with the formats other than QT: while the first laser
  -- gives no points and none wait, no frame goes out, whatever the azimuths and the points of the
  -- other lasers are.
  pub process_blocks-silent :
      (s : Framer P R) (bs : List (ℕ × List (ℕ × P)))
      → s.clouds.index ≡ 0
      → s.clouds.lists 0 ≡ []
      → All (λ (b : ℕ × List (ℕ × P)). All (λ (p : ℕ × P). 0 < p.0) b.1) bs
      → (process_blocks true has_callback start correction (add_point true) lasers s bs).emitted
        ≡ s.emitted
  unfolding process_blocks
  process_blocks-silent s [] i l h = refl
  process_blocks-silent s ((a, ps) ∷ bs) i l h =
      ap
        (λ (z : Framer P R).
          (process_blocks true has_callback start correction (add_point true) lasers z bs).emitted)
        (process_block-silent s a ps i l)
      ∙ process_blocks-silent
          (record s { last_azimuth = a; clouds = add_points (add_point true) s.clouds ps }) bs
          (add_points-index s.clouds ps ∙ i)
          (add_points-lists s.clouds ps 0 ∙ rw l (of_laser-others ps h.0)) h.1
