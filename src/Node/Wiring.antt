-- ===== src/Node/Wiring.antt =====
-- Which parameter of the ROS 2 node comes to which member of the driver.
use go2_setup.Shared.{
  ◌-◌, ◌++◌, replicate, negsuc, ◌≡◌, ◌≤◌, refl, sym, ap, Bool, true, false, List, [], ◌∷◌, Option,
  none, some, ℤ, pos, length, arith,
}
use go2_setup.Points.{Floats}
use go2_setup.Wire.{ok}
use go2_setup.Node.Parameters.{
  Store, defaults, Variables, start_angle_of, make_for, make_sdk, new_client,
}
use go2_setup.Tcp.Client.{TcpCommandClient, ip_size, tcp_command_client_new}
use go2_setup.Setup.{
  Text, SdkMembers, InputArguments, ReaderArguments, to_uint16, choose_frame_id, sdk_live,
  sdk_capture, general_live, general_capture, new_live, new_capture,
}
use go2_setup.Node.{Mode, capture, bag, live, mode_of}
use go2_setup.Node.Parameters.Values.{
  WellTyped, set_variables, declare_all-values, get_parameters-values,
}

module _ (F : Floats) where
  open F use {Double, of_ℤ, decimal, add, mul}

  -- The first text that is not empty.
  abbrev pub first_nonempty : List Text → Text
  first_nonempty [] = []
  first_nonempty ([] ∷ ts) = first_nonempty ts
  first_nonempty ((b ∷ bs) ∷ ts) = b ∷ bs

  choose_frame_id-first_nonempty :
      (target fixed sensor : Text)
      → choose_frame_id target fixed sensor ≡ first_nonempty (target ∷ fixed ∷ sensor ∷ [])
  unfolding choose_frame_id
  choose_frame_id-first_nonempty (b ∷ bs) fixed sensor = refl
  choose_frame_id-first_nonempty [] (b ∷ bs) sensor = refl
  choose_frame_id-first_nonempty [] [] [] = refl
  choose_frame_id-first_nonempty [] [] (b ∷ bs) = refl

  -- Where the packets come from.
  abbrev pub input_of : Mode → Variables F → Option InputArguments
  input_of live v = some (record {
    lidar_port = to_uint16 v.lidar_recv_port;
    gps_port = to_uint16 v.gps_port;
    multicast_ip = v.multicast_ip;
  })
  input_of capture v = none
  input_of bag v = none

  abbrev pub reader_of : Mode → Variables F → Option ReaderArguments
  reader_of live v = none
  reader_of capture v = some (record { pcap_path = v.pcap_file; lidar_type = v.lidar_type })
  reader_of bag v = some (record { pcap_path = []; lidar_type = v.lidar_type })

  -- The command client, for a lidar and with memory, and the address that it connects to.
  abbrev pub client_of : Mode → Bool → Variables F → Option TcpCommandClient
  client_of live true v = some (record {
    ip = v.server_ip ++ replicate (ip_size - length v.server_ip) 0;
    port = 9347;
    fd = negsuc 0;
  })
  client_of live false v = none
  client_of capture m v = none
  client_of bag m v = none

  abbrev pub is_live : Mode → Bool
  is_live live = true
  is_live capture = false
  is_live bag = false

  pub record IsWired (int_of : Double → ℤ) (has_memory : Bool) (v : Variables F) (s : SdkMembers)
      : Type 0 where
    pub input : s.general.input ≡ input_of (mode_of v.pcap_file v.data_type) v
    pub reader : s.general.pcap_reader ≡ reader_of (mode_of v.pcap_file v.data_type) v
    pub client : s.tcp_command_client ≡ client_of (mode_of v.pcap_file v.data_type) has_memory v
    pub start_angle : s.general.start_angle ≡ start_angle_of F int_of v.start_angle
    pub lidar_type : s.general.lidar_type ≡ v.lidar_type
    pub frame_id :
        s.general.frame_id ≡ first_nonempty (v.target_frame ∷ v.fixed_frame ∷ v.frame_id ∷ [])
    pub sensor_frame : s.general.sensor_frame ≡ v.frame_id
    pub fixed_frame : s.general.fixed_frame ≡ v.fixed_frame
    pub target_frame : s.general.target_frame ≡ v.target_frame
    pub connect_lidar : s.general.connect_lidar ≡ is_live (mode_of v.pcap_file v.data_type)
    pub gps_callback : s.general.has_gps_callback ≡ is_live (mode_of v.pcap_file v.data_type)
    pub last_azimuth : s.general.last_azimuth ≡ 0
    pub no_correction : s.general.got_lidar_correction_flag ≡ false
    pub tz_second : s.general.tz_second ≡ pos 0
    pub pcl_type : s.general.pcl_type ≡ v.pcl_data_type
    pub timestamp_type : s.general.timestamp_type ≡ v.timestamp_type
    pub coordinate_correction : s.general.coordinate_correction_flag ≡ v.coordinate_correction_flag
    pub file : s.general.correction_file_path ≡ v.lidar_correction_file
    pub same_file : s.correction_file_path ≡ v.lidar_correction_file

  capture-IsWired :
      (int_of : Double → ℤ) (v : Variables F) (path : Text) (has_memory : Bool)
      → input_of (mode_of v.pcap_file v.data_type) v ≡ none
      → reader_of (mode_of v.pcap_file v.data_type) v
        ≡ some (record { pcap_path = path; lidar_type = v.lidar_type })
      → client_of (mode_of v.pcap_file v.data_type) has_memory v ≡ none
      → is_live (mode_of v.pcap_file v.data_type) ≡ false
      → IsWired int_of has_memory v (
          sdk_capture path
            (start_angle_of F int_of v.start_angle)
            (pos 0)
            v.pcl_data_type
            v.lidar_type
            v.frame_id
            v.timestamp_type
            v.lidar_correction_file
            v.coordinate_correction_flag
            v.target_frame
            v.fixed_frame)
  unfolding sdk_capture general_capture new_capture
  capture-IsWired int_of v path has_memory input reader client recorded = record {
    input = sym input;
    reader = sym reader;
    client = sym client;
    start_angle = refl;
    lidar_type = refl;
    frame_id = choose_frame_id-first_nonempty v.target_frame v.fixed_frame v.frame_id;
    sensor_frame = refl;
    fixed_frame = refl;
    target_frame = refl;
    connect_lidar = sym recorded;
    gps_callback = sym recorded;
    last_azimuth = refl;
    no_correction = refl;
    tz_second = refl;
    pcl_type = refl;
    timestamp_type = refl;
    coordinate_correction = refl;
    file = refl;
    same_file = refl;
  }

  live-IsWired :
      (int_of : Double → ℤ) (v : Variables F) (has_memory : Bool)
      → mode_of v.pcap_file v.data_type ≡ live
      → IsWired int_of has_memory v (record {
        general =
            general_live
              (to_uint16 v.lidar_recv_port)
              (to_uint16 v.gps_port)
              (start_angle_of F int_of v.start_angle)
              (pos 0)
              v.pcl_data_type
              v.lidar_type
              v.frame_id
              v.timestamp_type
              v.lidar_correction_file
              v.multicast_ip
              v.coordinate_correction_flag
              v.target_frame
              v.fixed_frame;
        tcp_command_client = client_of live has_memory v;
        correction_file_path = v.lidar_correction_file;
      })
  unfolding general_live new_live
  live-IsWired int_of v has_memory e = record {
    input = rw e refl;
    reader = rw e refl;
    client = rw e refl;
    start_angle = refl;
    lidar_type = refl;
    frame_id = choose_frame_id-first_nonempty v.target_frame v.fixed_frame v.frame_id;
    sensor_frame = refl;
    fixed_frame = refl;
    target_frame = refl;
    connect_lidar = rw e refl;
    gps_callback = rw e refl;
    last_azimuth = refl;
    no_correction = refl;
    tz_second = refl;
    pcl_type = refl;
    timestamp_type = refl;
    coordinate_correction = refl;
    file = refl;
    same_file = refl;
  }

  make_for-IsWired :
      (int_of : Double → ℤ) (has_memory : Bool) (v : Variables F) (mode : Mode)
      → mode_of v.pcap_file v.data_type ≡ mode
      → length v.server_ip ≤ ip_size
      → (s : SdkMembers) × (make_for F int_of has_memory mode v ≡ ok s)
        × IsWired int_of has_memory v s
  unfolding make_for sdk_live tcp_command_client_new
  make_for-IsWired int_of has_memory v capture e h = (
    _,
    refl,
    capture-IsWired int_of v v.pcap_file has_memory (rw e refl) (rw e refl) (rw e refl) (rw e refl),
  )
  make_for-IsWired int_of has_memory v bag e h = (
    _,
    refl,
    capture-IsWired int_of v [] has_memory (rw e refl) (rw e refl) (rw e refl) (rw e refl),
  )
  make_for-IsWired int_of true v live e h = (_, ground arith, live-IsWired int_of v true e)
  make_for-IsWired int_of false v live e h = (_, refl, live-IsWired int_of v false e)

  -- For parameters of the declared types, an address of at most 256 bytes, and whatever the
  -- variables hold at first, the ROS 2 node makes an SDK: the input or the reader is that of the
  -- mode, its ports cut to 16 bits; it connects to a lidar and has a GPS callback in the live mode
  -- only; the command client is there for a lidar if there is memory, with that address and port
  -- 9347; the clouds' frame is the first that is not empty of target frame, fixed frame and sensor
  -- frame, and these three are the parameters `target_frame`, `fixed_frame` and `frame_id`; the
  -- start angle is rounded to hundredths of a degree, the time zone and the last azimuth are 0, and
  -- the correction flag is down; and the lidar's type, the kind of cloud, the kind of timestamp,
  -- the coordinate correction and both paths of the correction file are those of their own
  -- parameters, or of the defaults of these.
  pub new_client-IsWired :
      (int_of : Double → ℤ) (has_memory : Bool) (before : Variables F) (overrides : Store F)
      → WellTyped F overrides (defaults F)
      → length (set_variables F overrides).server_ip ≤ ip_size
      → (s : SdkMembers) × (new_client F int_of has_memory before overrides ≡ some (ok s))
        × IsWired int_of has_memory (set_variables F overrides) s
  unfolding new_client make_sdk
  new_client-IsWired int_of has_memory before overrides h fits =
      let v = set_variables F overrides in
      let (s, made, wired) =
        make_for-IsWired int_of has_memory v (mode_of v.pcap_file v.data_type) refl fits in
      (
        s,
        rw
            (
              declare_all-values F overrides (defaults F) h,
              get_parameters-values F overrides before h,
            )
            (ap some made),
        wired,
      )
