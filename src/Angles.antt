-- ===== src/Angles.antt =====
-- The tables of angles that a lidar has before any correction file: the end of `Init` of
-- pandarGeneral_internal.cc.
pub mod Constants
pub mod Chosen
use go2_setup.Shared.{ℕ, List, [], ◌∷◌, Option, none, some, ℤ, take}
use go2_setup.Offsets.PandarXt.{laser_xt_offset, laser_xtm_offset}
use go2_setup.Pcap.{
  FrameId, pandar40p, pandar40m, pandar64, pandar_qt, pandar20a, pandar20b, pandar_xt32,
  pandar_xt16, pandar_xtm, other,
}
use go2_setup.Angles.Constants.{
  pandar40p_elev_angle_map, pandar40p_horizatal_azimuth_offset_map, pandar_general_elev_angle_map,
  pandar_general_horizatal_azimuth_offset_map, pandar20_elev_angle_map,
  pandar20_horizatal_azimuth_offset_map, pandar_qt_elev_angle_map,
  pandar_qt_horizatal_azimuth_offset_map, pandar_xt_elev_angle_map,
  pandar_xt_horizatal_azimuth_offset_map, pandar_xtm_elev_angle_map,
  pandar_xtm_horizatal_azimuth_offset_map,
}

-- The elements at 0, 2, 4 and so on.
abbrev pub even {ℓ} : {A : Type ℓ} → List A → List A
even [] = []
even (x ∷ []) = x ∷ []
even (x ∷ y ∷ xs) = x ∷ even xs

-- `General_elev_angle_map_`, as long as the vectors of its sines and cosines, and
-- `General_horizatal_azimuth_offset_map_`, by the lidar's type.
unfoldable pub elev_angle_map : FrameId → List ℤ
elev_angle_map pandar40p = take 40 pandar40p_elev_angle_map
elev_angle_map pandar40m = take 40 pandar40p_elev_angle_map
elev_angle_map pandar64 = take 64 pandar_general_elev_angle_map
elev_angle_map pandar20a = take 20 pandar20_elev_angle_map
elev_angle_map pandar20b = take 20 pandar20_elev_angle_map
elev_angle_map pandar_qt = take 64 pandar_qt_elev_angle_map
elev_angle_map pandar_xt32 = take 32 pandar_xt_elev_angle_map
elev_angle_map pandar_xt16 = take 16 (even pandar_xt_elev_angle_map)
elev_angle_map pandar_xtm = take 32 pandar_xtm_elev_angle_map
elev_angle_map other = []

unfoldable pub horizatal_azimuth_offset_map : FrameId → List ℤ
horizatal_azimuth_offset_map pandar40p = take 40 pandar40p_horizatal_azimuth_offset_map
horizatal_azimuth_offset_map pandar40m = take 40 pandar40p_horizatal_azimuth_offset_map
horizatal_azimuth_offset_map pandar64 = take 64 pandar_general_horizatal_azimuth_offset_map
horizatal_azimuth_offset_map pandar20a = take 20 pandar20_horizatal_azimuth_offset_map
horizatal_azimuth_offset_map pandar20b = take 20 pandar20_horizatal_azimuth_offset_map
horizatal_azimuth_offset_map pandar_qt = take 64 pandar_qt_horizatal_azimuth_offset_map
horizatal_azimuth_offset_map pandar_xt32 = take 32 pandar_xt_horizatal_azimuth_offset_map
horizatal_azimuth_offset_map pandar_xt16 = take 16 (even pandar_xt_horizatal_azimuth_offset_map)
horizatal_azimuth_offset_map pandar_xtm = take 32 pandar_xtm_horizatal_azimuth_offset_map
horizatal_azimuth_offset_map other = []

-- `laserXTOffset_`, none where `Init` leaves it as it was.
unfoldable pub laser_xt_offsets : FrameId → Option (List ℕ)
laser_xt_offsets pandar_xt32 = some (take 32 laser_xt_offset)
laser_xt_offsets pandar_xt16 = some (take 16 (even laser_xt_offset))
laser_xt_offsets pandar_xtm = some (take 32 laser_xtm_offset)
laser_xt_offsets pandar40p = none
laser_xt_offsets pandar40m = none
laser_xt_offsets pandar64 = none
laser_xt_offsets pandar20a = none
laser_xt_offsets pandar20b = none
laser_xt_offsets pandar_qt = none
laser_xt_offsets other = none
