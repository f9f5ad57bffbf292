-- ===== src/Tests/Nodes.antt =====
-- The nodes with parameters for a lidar, the calls on the SDK, and the tables of `Init`.
use go2_setup.Shared.{◌≡◌, refl, arith, true, [], ◌∷◌, some, pos, get_elem?, pos_part}
use go2_setup.Wire.{ok}
use go2_setup.Setup.{SdkMembers}
use go2_setup.Node.Parameters.{
  text, whole, real, flag, Store, Variables, lookup, defaults, new_client,
}
use go2_setup.Node.Parameters.Values.{WellTyped, set_variables}
use go2_setup.Node.Wiring.{IsWired, new_client-IsWired}
use go2_setup.Node.Ros1.{AllSet, hesai_lidar_client, hesai_lidar_client-new_client}
use go2_setup.Tests.Measures.{whole as integers}
use go2_setup.Pcap.{pandar64}
use go2_setup.Points.{wrap_azimuth}
use go2_setup.Angles.{elev_angle_map, horizatal_azimuth_offset_map}
use go2_setup.Setup.Tables.{Trig, init_tables}
use go2_setup.Setup.Tables.Aimed.{IsAimed, init_tables-IsAimed}
use go2_setup.Tests.Streams.{tables}

abbrev settings : Store integers
settings =
    ("pcap_file", text [])
    ∷ ("server_ip", text (b'1' ∷ b'0' ∷ []))
    ∷ ("lidar_recv_port", whole (pos 2368))
    ∷ ("gps_port", whole (pos 10110))
    ∷ ("start_angle", real (pos 90))
    ∷ ("lidar_correction_file", text [])
    ∷ ("lidar_type", text (b'P' ∷ b'Q' ∷ []))
    ∷ ("frame_id", text (b'a' ∷ []))
    ∷ ("pcldata_type", whole (pos 0))
    ∷ ("publish_type", text [])
    ∷ ("timestamp_type", text [])
    ∷ ("data_type", text [])
    ∷ ("multicast_ip", text [])
    ∷ ("coordinate_correction_flag", flag true)
    ∷ ("target_frame", text [])
    ∷ ("fixed_frame", text (b'b' ∷ []))
    ∷ []

settings-WellTyped : WellTyped integers settings (defaults integers)
unfolding lookup
settings-WellTyped = (
  refl,
  (
    refl,
    (
      refl,
      (
        refl,
        (
          refl,
          (
            refl,
            (refl, (refl, (refl, (refl, (refl, (refl, (refl, (refl, (refl, (refl, tt)))))))))),
          ),
        ),
      ),
    ),
  ),
)

settings-AllSet : AllSet integers settings (defaults integers)
unfolding lookup
settings-AllSet = (
  refl,
  (
    refl,
    (
      refl,
      (
        refl,
        (
          refl,
          (
            refl,
            (refl, (refl, (refl, (refl, (refl, (refl, (refl, (refl, (refl, (refl, tt)))))))))),
          ),
        ),
      ),
    ),
  ),
)

abbrev unread_variables : Variables integers
unread_variables = set_variables integers []

new_client-IsWired_example :
    (s : SdkMembers) × (new_client integers (λ a. a) true unread_variables settings ≡ some (ok s))
    × IsWired integers (λ a. a) true (set_variables integers settings) s
unfolding lookup
new_client-IsWired_example =
    new_client-IsWired integers (λ a. a) true unread_variables settings settings-WellTyped
      (omega arith)

hesai_lidar_client-new_client_example :
    some (hesai_lidar_client integers (λ a. a) true unread_variables settings)
    ≡ new_client integers (λ a. a) true unread_variables settings
hesai_lidar_client-new_client_example =
    hesai_lidar_client-new_client integers (λ a. a) true unread_variables unread_variables settings
      settings-WellTyped settings-AllSet

abbrev flat : Trig integers
flat = record { sinf = λ a. a; cosf = λ a. a; m_pi = pos 3 }

offset_8 : get_elem? (horizatal_azimuth_offset_map pandar64) 8 ≡ some (pos 5208)
unfolding horizatal_azimuth_offset_map
offset_8 = refl

elevation_8 : get_elem? (elev_angle_map pandar64) 8 ≡ some (pos 1522)
unfolding elev_angle_map
elevation_8 = refl

init_tables-IsAimed_example :
    IsAimed integers flat
      (λ a. a)
      pandar64
      (init_tables integers flat (λ a. a) pandar64 tables)
      8
      (pos 1522)
      (pos 36420)
      (pos_part (wrap_azimuth (pos 36420)))
init_tables-IsAimed_example =
    init_tables-IsAimed integers flat (λ a. a) pandar64 tables 8 35900 (pos 5208) (pos 1522)
      (pos 36420) offset_8 elevation_8 (omega arith)
      (record { above = omega arith; below = omega arith })
