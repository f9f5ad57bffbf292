-- ===== src/Setup.antt =====
-- The constructors, from PandarGeneralSDK (pandarGeneral_sdk.cc) through PandarGeneral
-- (pandarGeneral.cc) to PandarGeneral_Internal (pandarGeneral_internal.cc), with the arguments in the
-- order of the source. The callbacks, and the lidar's address, which only the SDK uses, are left out of
-- the arguments of the other two. Texts are lists of bytes.
pub mod Tables
pub mod TimeZone
use go2_setup.Shared.{
  ℕ, zero, suc, ◌+◌, ◌-◌, ◌*◌, ◌%◌, Bool, true, false, not, List, [], Option, none, some,
  if◌then◌else◌, ℤ, pos, negsuc, ltb_ℤ,
}
use go2_setup.Frame.{is_empty}
use go2_setup.Wire.{Parsed, ok, rejected, fault, ◌>>=◌}
use go2_setup.Tcp.Client.{TcpCommandClient, tcp_command_client_new}

abbrev pub Text : Type 0
Text = List ℕ

-- The arguments of `Input` and of `PcapReader`.
pub record InputArguments : Type 0 where
  pub lidar_port : ℕ
  pub gps_port : ℕ
  pub multicast_ip : Text

pub record ReaderArguments : Type 0 where
  pub pcap_path : Text
  pub lidar_type : Text

-- The members that a constructor of `PandarGeneral_Internal` sets, but for its threads. Whether there
-- is a callback for GPS is `has_gps_callback`; the one for clouds is always given.
pub record Members : Type 0 where
  pub input : Option InputArguments
  pub pcap_reader : Option ReaderArguments
  pub start_angle : ℕ
  pub has_gps_callback : Bool
  pub last_azimuth : ℕ
  pub lidar_type : Text
  pub sensor_frame : Text
  pub fixed_frame : Text
  pub target_frame : Text
  pub frame_id : Text
  pub tz_second : ℤ
  pub pcl_type : ℤ
  pub connect_lidar : Bool
  pub timestamp_type : Text
  pub got_lidar_correction_flag : Bool
  pub correction_file_path : Text
  pub coordinate_correction_flag : Bool

-- `m_sFrameId`
unfoldable pub choose_frame_id : Text → Text → Text → Text
choose_frame_id target fixed sensor =
    if not (is_empty target) then target else if not (is_empty fixed) then fixed else sensor

-- `tz * 3600` of an `int`
abbrev pub hours : ℤ → ℤ
hours (pos n) = pos (n * 3600)
hours (negsuc n) = negsuc (n * 3600 + 3599)

-- `PandarGeneral_Internal` for a lidar.
unfoldable pub new_live :
    ℕ → ℕ → ℕ → ℤ → ℤ → Text → Text → Text → Text → Text → Bool → Text → Text → Members
new_live lidar_port gps_port start_angle tz pcl_type lidar_type frame_id timestamp_type
      lidar_correction_file multicast_ip coordinate_correction_flag target_frame fixed_frame =
    record {
      input =
          some
            (record { lidar_port = lidar_port; gps_port = gps_port; multicast_ip = multicast_ip });
      pcap_reader = none;
      start_angle = start_angle;
      has_gps_callback = true;
      last_azimuth = 0;
      lidar_type = lidar_type;
      sensor_frame = frame_id;
      fixed_frame = fixed_frame;
      target_frame = target_frame;
      frame_id = choose_frame_id target_frame fixed_frame frame_id;
      tz_second = hours tz;
      pcl_type = pcl_type;
      connect_lidar = true;
      timestamp_type = timestamp_type;
      got_lidar_correction_flag = false;
      correction_file_path = lidar_correction_file;
      coordinate_correction_flag = coordinate_correction_flag;
    }

-- `PandarGeneral_Internal` for a capture.
unfoldable pub new_capture :
    Text → ℕ → ℤ → ℤ → Text → Text → Text → Text → Bool → Text → Text → Members
new_capture pcap_path start_angle tz pcl_type lidar_type frame_id timestamp_type
      lidar_correction_file coordinate_correction_flag target_frame fixed_frame =
    record {
      input = none;
      pcap_reader = some (record { pcap_path = pcap_path; lidar_type = lidar_type });
      start_angle = start_angle;
      has_gps_callback = false;
      last_azimuth = 0;
      lidar_type = lidar_type;
      sensor_frame = frame_id;
      fixed_frame = fixed_frame;
      target_frame = target_frame;
      frame_id = choose_frame_id target_frame fixed_frame frame_id;
      tz_second = hours tz;
      pcl_type = pcl_type;
      connect_lidar = false;
      timestamp_type = timestamp_type;
      got_lidar_correction_flag = false;
      correction_file_path = lidar_correction_file;
      coordinate_correction_flag = coordinate_correction_flag;
    }

-- `PandarGeneral`, which passes its arguments on.
unfoldable pub general_live :
    ℕ → ℕ → ℕ → ℤ → ℤ → Text → Text → Text → Text → Text → Bool → Text → Text → Members
general_live lidar_port gps_port start_angle tz pcl_type lidar_type frame_id timestamp_type
      lidar_correction_file multicast_ip coordinate_correction_flag target_frame fixed_frame =
    new_live lidar_port gps_port start_angle tz pcl_type lidar_type frame_id timestamp_type
      lidar_correction_file multicast_ip coordinate_correction_flag target_frame fixed_frame

unfoldable pub general_capture :
    Text → ℕ → ℤ → ℤ → Text → Text → Text → Text → Bool → Text → Text → Members
general_capture pcap_path start_angle tz pcl_type lidar_type frame_id timestamp_type
      lidar_correction_file coordinate_correction_flag target_frame fixed_frame =
    new_capture pcap_path start_angle tz pcl_type lidar_type frame_id timestamp_type
      lidar_correction_file coordinate_correction_flag target_frame fixed_frame

-- `PandarGeneralSDK`; a null command client is none.
pub record SdkMembers : Type 0 where
  pub general : Members
  pub tcp_command_client : Option TcpCommandClient
  pub correction_file_path : Text

-- `PANDARGENERALSDK_TCP_COMMAND_PORT`
abbrev pub tcp_command_port : ℕ
tcp_command_port = 9347

-- A command client that cannot be made is only reported.
abbrev pub with_client : Members → Text → Parsed TcpCommandClient → Parsed SdkMembers
with_client g path (ok c) =
    ok (record { general = g; tcp_command_client = some c; correction_file_path = path })
with_client g path rejected =
    ok (record { general = g; tcp_command_client = none; correction_file_path = path })
with_client g path fault = fault

unfoldable pub sdk_live :
    Bool
    → Text
    → ℕ
    → ℕ
    → ℕ
    → ℤ
    → ℤ
    → Text
    → Text
    → Text
    → Text
    → Text
    → Bool
    → Text
    → Text
    → Parsed SdkMembers
sdk_live has_memory device_ip lidar_port gps_port start_angle tz pcl_type lidar_type frame_id
      timestamp_type lidar_correction_file multicast_ip coordinate_correction_flag target_frame
      fixed_frame =
    with_client
      (general_live lidar_port gps_port start_angle tz pcl_type lidar_type frame_id timestamp_type
        lidar_correction_file multicast_ip coordinate_correction_flag target_frame fixed_frame)
      lidar_correction_file (tcp_command_client_new has_memory (some device_ip) tcp_command_port)

unfoldable pub sdk_capture :
    Text → ℕ → ℤ → ℤ → Text → Text → Text → Text → Bool → Text → Text → SdkMembers
sdk_capture pcap_path start_angle tz pcl_type lidar_type frame_id timestamp_type
      lidar_correction_file coordinate_correction_flag target_frame fixed_frame =
    record {
      general =
          general_capture pcap_path start_angle tz pcl_type lidar_type frame_id timestamp_type
            lidar_correction_file coordinate_correction_flag target_frame fixed_frame;
      tcp_command_client = none;
      correction_file_path = lidar_correction_file;
    }

-- An `int` as a `uint16_t`.
unfoldable pub to_uint16 : ℤ → ℕ
to_uint16 (pos n) = n % 65536
to_uint16 (negsuc n) = 65535 - n % 65536
