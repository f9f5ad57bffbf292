-- ===== src/Points/Corrected.antt =====
-- The coordinates of a unit in `CalcQTPointXYZIT` and `CalcXTPointXYZIT`, with and without the
-- correction for the place of the lasers (`m_bCoordinateCorrectionFlag`). The checks that only print
-- (`COORDINATE_CORRECTION_CHECK`) are off in the source.
use go2_setup.Shared.{ℕ, ◌+◌, Bool, if◌then◌else◌, ℤ, pos, pos_part, neg_part}
use go2_setup.Points.{Floats, Tables}

module _ (F : Floats) where
  open F use {Double, Float}

  pub record Xyz : Type 0 where
    pub x : Float
    pub y : Float
    pub z : Float

module _ (F : Floats) (t : Tables F) where
  open F use {
    Double, Float, of_ℤ, decimal, add, sub, mul, div, addf, subf, mulf, divf, negf, widen, narrow,
    sqrtf, sqrt, is_zerof, non_positive, truncate,
  }

  abbrev pub float_of : ℕ → Float
  float_of n = narrow (of_ℤ (pos n))

  -- `abs(int(General_horizatal_azimuth_offset_map_[i] * 100))`
  abbrev pub offset_index : ℕ → ℤ
  offset_index ring =
      let a = truncate (mulf (t.azimuth_offset ring) (float_of 100)) in
      pos (pos_part a + neg_part a)

  -- The distance from the centre, for XT.
  abbrev pub centred : ℕ → Double → Float
  centred ring distance = narrow (
      sub distance (
        widen (
          subf (mulf (t.cos_azimuth_h (offset_index ring)) (t.cos_elevation ring))
            (mulf (t.sin_azimuth_b (offset_index ring)) (t.cos_elevation ring)))))

  -- XT with the correction; `a` is the index of the azimuth.
  unfoldable pub corrected_xt : ℕ → ℤ → Double → Xyz F
  corrected_xt ring a distance =
      let xy = mulf (centred ring distance) (t.cos_elevation ring) in
      record {
        x = negf (addf (addf (mulf xy (t.cos_azimuth a)) (t.sin_azimuth_b a)) (t.cos_azimuth_h a));
        y = addf (subf (mulf xy (t.sin_azimuth a)) (t.cos_azimuth_b a)) (t.sin_azimuth_h a);
        z = mulf (centred ring distance) (t.sin_elevation ring);
      }

  -- `HS_LIDAR_QT_COORDINATE_CORRECTION_ODOG` and `HS_LIDAR_QT_COORDINATE_CORRECTION_ODOT`
  abbrev pub odog : Double
  odog = decimal 298 7

  abbrev pub odot : Double
  odot = decimal 72 7

  -- The test whether a solution lies behind the lidar.
  abbrev pub behind : ℕ → ℤ → Xyz F → Bool
  behind ring a p = non_positive (
      add
        (add
          (mul (mul (add (widen p.x) odot) (widen (t.cos_elevation ring)))
            (widen (t.sin_azimuth a)))
          (mul (mul (sub (widen p.y) odog) (widen (t.cos_elevation ring)))
            (widen (t.cos_azimuth a))))
        (widen (mulf p.z (t.sin_elevation ring))))

  -- The first solution, or the second if the first lies behind.
  abbrev pub in_front_of : ℕ → ℤ → Xyz F → Xyz F → Xyz F
  in_front_of ring a first second = if behind ring a first then second else first

  -- The point of a laser off the horizontal, at this height.
  abbrev pub at_height : ℕ → ℤ → Float → Xyz F
  at_height ring a z = record {
    x = narrow (
        sub
          (widen
            (divf (mulf (mulf z (t.sin_azimuth a)) (t.cos_elevation ring)) (t.sin_elevation ring)))
          odot);
    y = narrow (
        add
          (widen
            (divf (mulf (mulf z (t.cos_azimuth a)) (t.cos_elevation ring)) (t.sin_elevation ring)))
          odog);
    z = z;
  }

  unfoldable pub inclined : ℕ → ℤ → Double → Xyz F
  inclined ring a d =
      let s = t.sin_elevation ring in
      let c : Float =
        narrow
          (mul (mul (sub (add (mul odog odog) (mul odot odot)) (mul d d)) (widen s)) (widen s)) in
      let b : Float = narrow (
        mul (widen (mulf (mulf (float_of 2) s) (t.cos_elevation ring)))
          (sub (mul odog (widen (t.cos_azimuth a))) (mul odot (widen (t.sin_azimuth a))))) in
      let root = sqrtf (subf (mulf b b) (mulf (float_of 4) c)) in
      in_front_of ring a (at_height ring a (divf (addf (negf b) root) (float_of 2)))
        (at_height ring a (divf (subf (negf b) root) (float_of 2)))

  -- The point of a horizontal laser, with this y and the tangent of its azimuth.
  abbrev pub at_side : Float → Float → Xyz F
  at_side tan y = record {
    x = narrow (sub (mul (sub (widen y) odog) (widen tan)) odot);
    y = y;
    z = float_of 0;
  }

  unfoldable pub level : ℕ → ℤ → Double → Xyz F
  level ring a d =
      let tan = divf (t.sin_azimuth a) (t.cos_azimuth a) in
      let shift = add (mul odog (widen tan)) odot in
      let c : Float = narrow (sub (mul shift shift) (mul d d)) in
      let q = addf (float_of 1) (mulf tan tan) in
      let b : Float = narrow (mul (widen (mulf (negf (float_of 2)) tan)) shift) in
      let root = sqrtf (subf (mulf b b) (mulf (mulf (float_of 4) q) c)) in
      in_front_of ring a (at_side tan (divf (addf (negf b) root) (mulf (float_of 2) q)))
        (at_side tan (divf (subf (negf b) root) (mulf (float_of 2) q)))

  -- A horizontal laser across the axis.
  abbrev pub aside : Float → Xyz F
  aside x = record { x = x; y = narrow odog; z = float_of 0 }

  unfoldable pub across : ℕ → ℤ → Double → Xyz F
  across ring a d =
      let root = sqrt (sub (mul d d) (mul odog odog)) in
      in_front_of ring a (aside (narrow root)) (aside (negf (narrow root)))

  -- QT with the correction.
  unfoldable pub corrected_qt : ℕ → ℤ → Double → Xyz F
  corrected_qt ring a d =
      if is_zerof (t.sin_elevation ring)
      then if is_zerof (t.cos_azimuth a) then across ring a d else level ring a d
      else inclined ring a d
