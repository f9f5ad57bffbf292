-- ===== src/Points.antt =====
-- From the units of a block to points: what the five `Calc…PointXYZIT` of pandarGeneral_internal.cc
-- share. Floating point arithmetic and `mktime` are parameters; a table that the source indexes by an
-- `int` is a function of an integer.
pub mod Azimuth
pub mod Corrected
pub mod Calc
pub mod Rings
use go2_setup.Shared.{
  ℕ, zero, suc, ◌+◌, ◌-◌, ◌*◌, ◌&&◌, Bool, true, false, List, [], ◌∷◌, ltb, leb, if◌then◌else◌, ℤ,
  pos, negsuc, pos_part, neg_part, ◌+ℤ◌, ◌-ℤ◌, ltb_ℤ,
}
use go2_setup.Wire.{LidarUnit}
use go2_setup.Wire.Utc.{Tm}

-- `double` and `float` with the operations that the source uses.
pub record Floats : Type 1 where
  pub Double : Type 0
  pub Float : Type 0
  -- an `int` as a double, and the literal `m / 10 ^ k`
  pub of_ℤ : ℤ → Double
  pub decimal : ℕ → ℕ → Double
  pub add : Double → Double → Double
  pub sub : Double → Double → Double
  pub mul : Double → Double → Double
  pub div : Double → Double → Double
  pub addf : Float → Float → Float
  pub subf : Float → Float → Float
  pub mulf : Float → Float → Float
  pub negf : Float → Float
  pub widen : Float → Double
  pub narrow : Double → Float
  pub divf : Float → Float → Float
  -- `sqrt` of a float and of a double
  pub sqrtf : Float → Float
  pub sqrt : Double → Double
  -- `== 0`, and `<= 0`
  pub is_zerof : Float → Bool
  pub non_positive : Double → Bool
  -- `static_cast<int>`
  pub truncate : Float → ℤ

-- `if (azimuth < 0) azimuth += 36000; if (azimuth >= 36000) azimuth -= 36000;`
unfoldable pub wrap_azimuth : ℤ → ℤ
wrap_azimuth a =
    let b = if ltb_ℤ a (pos 0) then a +ℤ pos 36000 else a in
    if ltb_ℤ b (pos 36000) then b else b -ℤ pos 36000

-- The units that `unit.distance <= 0.1 || unit.distance > 200.0` leaves, in millimetres.
unfoldable pub in_range : ℕ → Bool
in_range mm = ltb 100 mm && leb mm 200000

module _ (F : Floats) where
  open F use {Double, Float, of_ℤ, decimal, add, div, mul, mulf, addf, widen, narrow, truncate}

  pub record Point : Type 0 where
    pub x : Float
    pub y : Float
    pub z : Float
    pub intensity : Float
    pub timestamp : Double
    pub ring : ℕ

  -- The members of `PandarGeneral_Internal` that the points are computed from. The offsets are those
  -- of the lidar's type, by block or by laser, and `unix_second` is `mktime` with `tz_second_` added.
  pub record Tables : Type 0 where
    pub sin_azimuth : ℤ → Float
    pub cos_azimuth : ℤ → Float
    pub sin_azimuth_h : ℤ → Float
    pub cos_azimuth_h : ℤ → Float
    pub sin_azimuth_b : ℤ → Float
    pub cos_azimuth_b : ℤ → Float
    pub sin_elevation : ℕ → Float
    pub cos_elevation : ℕ → Float
    pub azimuth_offset : ℕ → Float
    pub block_offset_single : ℕ → Float
    pub block_offset_dual : ℕ → Float
    pub block_offset_triple : ℕ → Float
    pub laser_offset : ℕ → Float
    pub unix_second : Tm → Double
    pub realtime : Bool
    pub coordinate_correction : Bool
    pub pkt_timestamp : Double

  -- `static_cast<double>(unRange * chDisUnit) / 1000.0`
  abbrev pub metres : ℕ → Double
  metres mm = div (of_ℤ (pos mm)) (of_ℤ (pos 1000))

  -- `static_cast<int>(General_horizatal_azimuth_offset_map_[i] * 100 + block->azimuth)`
  unfoldable pub raw_azimuth : Tables → ℕ → ℕ → ℤ
  raw_azimuth t ring azimuth =
      truncate (
        addf (mulf (t.azimuth_offset ring) (narrow (of_ℤ (pos 100)))) (narrow (of_ℤ (pos azimuth))))

  -- `unix_second + static_cast<double>(usec) / 1000000.0`
  abbrev pub packet_time : Tables → Tm → ℕ → Double
  packet_time t tm usec = add (t.unix_second tm) (div (of_ℤ (pos usec)) (decimal 1000000 0))

  -- `static_cast<double>(block + laser) / 1000000.0f`
  abbrev pub shot_offset : Float → Float → Double
  shot_offset block laser = div (widen (addf block laser)) (widen (narrow (decimal 1000000 0)))

  -- The loop over the units of a block, from laser `ring` on: `make` gives a unit's point.
  unfoldable pub calc_units : (ℕ → LidarUnit → Point) → ℕ → List LidarUnit → List (ℕ × Point)
  calc_units make ring [] = []
  calc_units make ring (u ∷ us) =
      let rest = calc_units make (ring + 1) us in
      if in_range u.distance then (ring, make ring u) ∷ rest else rest
