-- ===== src/Points/Calc.antt =====
-- The five functions `CalcPointXYZIT`, `CalcL64PointXYZIT`, `CalcL20PointXYZIT`, `CalcQTPointXYZIT` and
-- `CalcXTPointXYZIT`: the points of one block, each with its laser.
use go2_setup.Shared.{ℕ, ◌/◌, ◌||◌, Bool, List, ◌==◌, if◌then◌else◌, ℤ, pos, map, none}
use go2_setup.Wire.{LidarUnit, Block, Packet}
use go2_setup.Wire.Utc.{tm_of_addtime}
use go2_setup.Wire.Pandar40.{Pandar40Unit, Pandar40Block, Pandar40Packet}
use go2_setup.Points.{
  Floats, Point, Tables, wrap_azimuth, raw_azimuth, metres, packet_time, shot_offset, calc_units,
}
use go2_setup.Points.Corrected.{Xyz, corrected_qt, corrected_xt}

module _ (F : Floats) (t : Tables F) where
  open F use {Double, Float, of_ℤ, decimal, add, sub, mul, mulf, negf, widen, narrow}

  abbrev pub index_at : ℕ → ℕ → ℤ
  index_at ring azimuth = wrap_azimuth (raw_azimuth F t ring azimuth)

  -- `float xyDistance = unit.distance * m_cos_elevation_map_[i]`
  abbrev pub xy_distance : ℕ → Double → Float
  xy_distance ring distance = narrow (mul distance (widen (t.cos_elevation ring)))

  -- The point of a unit at this distance in metres: x by the sine of the azimuth, y by its cosine.
  unfoldable pub point_xyz : ℕ → ℕ → Double → ℕ → Double → Point F
  point_xyz ring azimuth distance intensity timestamp = record {
    x = mulf (xy_distance ring distance) (t.sin_azimuth (index_at ring azimuth));
    y = mulf (xy_distance ring distance) (t.cos_azimuth (index_at ring azimuth));
    z = narrow (mul distance (widen (t.sin_elevation ring)));
    intensity = narrow (of_ℤ (pos intensity));
    timestamp = timestamp;
    ring = ring;
  }

  -- For XT the axes are turned: x is the negative cosine's, y the sine's.
  unfoldable pub point_xyz_xt : ℕ → ℕ → Double → ℕ → Double → Point F
  point_xyz_xt ring azimuth distance intensity timestamp = record {
    x = negf (mulf (xy_distance ring distance) (t.cos_azimuth (index_at ring azimuth)));
    y = mulf (xy_distance ring distance) (t.sin_azimuth (index_at ring azimuth));
    z = narrow (mul distance (widen (t.sin_elevation ring)));
    intensity = narrow (of_ℤ (pos intensity));
    timestamp = timestamp;
    ring = ring;
  }

  abbrev pub point_with : Xyz F → ℕ → ℕ → Double → Point F
  point_with p ring intensity timestamp = record {
    x = p.x;
    y = p.y;
    z = p.z;
    intensity = narrow (of_ℤ (pos intensity));
    timestamp = timestamp;
    ring = ring;
  }

  -- The branches on `m_bCoordinateCorrectionFlag`, for QT and for XT.
  unfoldable pub point_qt : ℕ → ℕ → Double → ℕ → Double → Point F
  point_qt ring azimuth distance intensity timestamp =
      if t.coordinate_correction
      then point_with (corrected_qt F t ring (index_at ring azimuth) distance) ring intensity
          timestamp
      else point_xyz ring azimuth distance intensity timestamp

  unfoldable pub point_xt : ℕ → ℕ → Double → ℕ → Double → Point F
  point_xt ring azimuth distance intensity timestamp =
      if t.coordinate_correction
      then point_with (corrected_xt F t ring (index_at ring azimuth) distance) ring intensity
          timestamp
      else point_xyz_xt ring azimuth distance intensity timestamp

  -- Pandar40, 64 and 20: the offset is taken off, the dual one where the return mode is 0x39.
  unfoldable pub timestamp_before : Double → ℕ → ℕ → ℕ → Double
  timestamp_before time echo block ring =
      if t.realtime
      then t.pkt_timestamp
      else if echo == 0x39
      then sub time (shot_offset F (t.block_offset_dual block) (t.laser_offset ring))
      else sub time (shot_offset F (t.block_offset_single block) (t.laser_offset ring))

  -- QT: the offset is added, the dual one where the return mode is 0x05.
  unfoldable pub timestamp_qt : Double → ℕ → ℕ → ℕ → Double
  timestamp_qt time echo block ring =
      if t.realtime
      then t.pkt_timestamp
      else if echo == 0x05
      then add time (shot_offset F (t.block_offset_dual block) (t.laser_offset ring))
      else add time (shot_offset F (t.block_offset_single block) (t.laser_offset ring))

  -- XT: added too; 0x3d is triple return, 0x39, 0x3b and 0x3c are dual.
  unfoldable pub timestamp_xt : Double → ℕ → ℕ → ℕ → Double
  timestamp_xt time echo block ring =
      if t.realtime
      then t.pkt_timestamp
      else if echo == 0x3d
      then add time (shot_offset F (t.block_offset_triple block) (t.laser_offset ring))
      else if (echo == 0x39) || (echo == 0x3b) || (echo == 0x3c)
      then add time (shot_offset F (t.block_offset_dual block) (t.laser_offset ring))
      else add time (shot_offset F (t.block_offset_single block) (t.laser_offset ring))

  -- A Pandar40 unit as the loop reads it: its distance is the count times 0.004.
  abbrev metres40 : ℕ → Double
  metres40 mm = mul (of_ℤ (pos (mm / 4))) (decimal 4 3)

  abbrev pub as_unit : Pandar40Unit → LidarUnit
  as_unit u = record { distance = u.distance; intensity = u.intensity; confidence = none }

  unfoldable pub calc_point_xyzit : Pandar40Packet → ℕ → Pandar40Block → List (ℕ × Point F)
  calc_point_xyzit pkt blockid block =
      let time = packet_time F t pkt.t pkt.usec in
      calc_units F
        (λ ring u.
          point_xyz ring block.azimuth (metres40 u.distance) u.intensity
            (timestamp_before time pkt.echo blockid ring))
        0 (map as_unit block.units)

  -- Pandar64 and Pandar20, whose offsets the tables hold.
  unfoldable pub calc_l64_point_xyzit : Packet → ℕ → Block → List (ℕ × Point F)
  calc_l64_point_xyzit pkt blockid block =
      let time = packet_time F t (tm_of_addtime pkt.addtime) pkt.timestamp in
      calc_units F
        (λ ring u.
          point_xyz ring block.azimuth (metres F u.distance) u.intensity
            (timestamp_before time pkt.echo blockid ring))
        0 block.units

  -- Pandar20, where a lidar type that is neither 20A nor 20B leaves the offset out.
  unfoldable pub calc_l20_point_xyzit : Bool → Packet → ℕ → Block → List (ℕ × Point F)
  calc_l20_point_xyzit is_20a_or_20b pkt blockid block =
      let time = packet_time F t (tm_of_addtime pkt.addtime) pkt.timestamp in
      calc_units F
        (λ ring u. point_xyz ring block.azimuth (metres F u.distance) u.intensity (
          if is_20a_or_20b || t.realtime
          then timestamp_before time pkt.echo blockid ring
          else time))
        0 block.units

  unfoldable pub calc_qt_point_xyzit : Packet → ℕ → Block → List (ℕ × Point F)
  calc_qt_point_xyzit pkt blockid block =
      let time = packet_time F t (tm_of_addtime pkt.addtime) pkt.timestamp in
      calc_units F
        (λ ring u.
          point_qt ring block.azimuth (metres F u.distance) u.intensity
            (timestamp_qt time pkt.echo blockid ring))
        0 block.units

  unfoldable pub calc_xt_point_xyzit : Packet → ℕ → Block → List (ℕ × Point F)
  calc_xt_point_xyzit pkt blockid block =
      let time = packet_time F t (tm_of_addtime pkt.addtime) pkt.timestamp in
      calc_units F
        (λ ring u.
          point_xt ring block.azimuth (metres F u.distance) u.intensity
            (timestamp_xt time pkt.echo blockid ring))
        0 block.units
