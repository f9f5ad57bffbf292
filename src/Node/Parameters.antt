-- ===== src/Node/Parameters.antt =====
-- The parameters of the ROS 2 node of main_ros2.cc: the constructor declares them, `timer_callback`
-- reads them into variables and makes the SDK. What was set from outside, by a launch file or on the
-- command line, is a list of names and values; ROS refuses a value of another type than declared, and
-- `get_parameter` leaves a variable as it was if there is no such parameter.
pub mod Values
use go2_setup.Shared.{
  ℕ, Bool, true, false, List, [], ◌∷◌, Option, none, some, if◌then◌else◌, ℤ, pos,
}
use package.text.Mathlib.Text.{◌==◌ as str_eq}
use Prim.Native.String.{String}
use go2_setup.Points.{Floats}
use go2_setup.Wire.{Parsed, ok}
use go2_setup.Node.{Mode, capture, bag, live, mode_of}
use go2_setup.Setup.{Text, SdkMembers, sdk_live, sdk_capture, to_uint16}

module _ (F : Floats) where
  open F use {Double, of_ℤ, decimal, add, mul}

  pub data Value : Type 0 where
    text : Text → Value
    whole : ℤ → Value
    real : Double → Value
    flag : Bool → Value

  abbrev pub Store : Type 0
  Store = List (String × Value)

  unfoldable pub lookup : String → Store → Option Value
  lookup name [] = none
  lookup name ((key, v) ∷ store) = if str_eq key name then some v else lookup name store

  abbrev pub same_kind : Value → Value → Bool
  same_kind (text a) (text b) = true
  same_kind (whole a) (whole b) = true
  same_kind (real a) (real b) = true
  same_kind (flag a) (flag b) = true
  same_kind _ _ = false

  -- The value that a parameter is declared with; none where ROS throws.
  abbrev pub declared_value : Option Value → Value → Option Value
  declared_value none default = some default
  declared_value (some v) default = if same_kind v default then some v else none

  abbrev pub and_then : String → Option Value → Option Store → Option Store
  and_then name none rest = none
  and_then name (some v) none = none
  and_then name (some v) (some rest) = some ((name, v) ∷ rest)

  -- `declare_parameter` for each name and default.
  unfoldable pub declare_all : Store → Store → Option Store
  declare_all overrides [] = some []
  declare_all overrides ((name, default) ∷ more) =
      and_then name (declared_value (lookup name overrides) default) (declare_all overrides more)

  abbrev pub defaults : Store
  defaults =
      ("pcap_file", text [])
      ∷ ("server_ip", text [])
      ∷ ("lidar_recv_port", whole (pos 2368))
      ∷ ("gps_port", whole (pos 10110))
      ∷ ("start_angle", real (of_ℤ (pos 0)))
      ∷ ("lidar_correction_file", text [])
      ∷ ("lidar_type", text [])
      ∷ ("frame_id", text [])
      ∷ ("pcldata_type", whole (pos 0))
      ∷ ("publish_type", text [])
      ∷ ("timestamp_type", text [])
      ∷ ("data_type", text [])
      ∷ ("multicast_ip", text [])
      ∷ ("coordinate_correction_flag", flag false)
      ∷ ("target_frame", text [])
      ∷ ("fixed_frame", text [])
      ∷ []

  -- The variables of `timer_callback`, with the two members that are read with them.
  pub record Variables : Type 0 where
    pub pcap_file : Text
    pub server_ip : Text
    pub lidar_recv_port : ℤ
    pub gps_port : ℤ
    pub start_angle : Double
    pub lidar_correction_file : Text
    pub lidar_type : Text
    pub frame_id : Text
    pub pcl_data_type : ℤ
    pub publish_type : Text
    pub timestamp_type : Text
    pub data_type : Text
    pub multicast_ip : Text
    pub coordinate_correction_flag : Bool
    pub target_frame : Text
    pub fixed_frame : Text

  abbrev pub text_or : Text → Option Value → Text
  text_or before none = before
  text_or before (some (text a)) = a
  text_or before (some (whole a)) = before
  text_or before (some (real a)) = before
  text_or before (some (flag a)) = before

  abbrev pub whole_or : ℤ → Option Value → ℤ
  whole_or before none = before
  whole_or before (some (text a)) = before
  whole_or before (some (whole a)) = a
  whole_or before (some (real a)) = before
  whole_or before (some (flag a)) = before

  abbrev pub real_or : Double → Option Value → Double
  real_or before none = before
  real_or before (some (text a)) = before
  real_or before (some (whole a)) = before
  real_or before (some (real a)) = a
  real_or before (some (flag a)) = before

  abbrev pub flag_or : Bool → Option Value → Bool
  flag_or before none = before
  flag_or before (some (text a)) = before
  flag_or before (some (whole a)) = before
  flag_or before (some (real a)) = before
  flag_or before (some (flag a)) = a

  -- `get_parameter` for each variable, `background_b` at the end.
  unfoldable pub get_parameters : Store → Variables → Variables
  get_parameters store v = record {
    pcap_file = text_or v.pcap_file (lookup "pcap_file" store);
    server_ip = text_or v.server_ip (lookup "server_ip" store);
    lidar_recv_port = whole_or v.lidar_recv_port (lookup "lidar_recv_port" store);
    gps_port = whole_or v.gps_port (lookup "gps_port" store);
    start_angle = real_or v.start_angle (lookup "start_angle" store);
    lidar_correction_file = text_or v.lidar_correction_file (lookup "lidar_correction_file" store);
    lidar_type = text_or v.lidar_type (lookup "lidar_type" store);
    frame_id = text_or v.frame_id (lookup "frame_id" store);
    pcl_data_type = whole_or v.pcl_data_type (lookup "pcldata_type" store);
    publish_type = text_or v.publish_type (lookup "publish_type" store);
    timestamp_type = text_or v.timestamp_type (lookup "timestamp_type" store);
    data_type = text_or v.data_type (lookup "data_type" store);
    multicast_ip = text_or v.multicast_ip (lookup "multicast_ip" store);
    coordinate_correction_flag =
        flag_or v.coordinate_correction_flag (lookup "coordinate_correction_flag" store);
    target_frame =
        text_or (text_or v.target_frame (lookup "target_frame" store))
          (lookup "background_b" store);
    fixed_frame = text_or v.fixed_frame (lookup "fixed_frame" store);
  }

  -- `static_cast<int>(startAngle * 100 + 0.5)`, which becomes a `uint16_t`.
  abbrev pub start_angle_of : (Double → ℤ) → Double → ℕ
  start_angle_of int_of a = to_uint16 (int_of (add (mul a (of_ℤ (pos 100))) (decimal 5 1)))

  -- The SDK that `timer_callback` makes in each mode. `int_of` is `static_cast<int>`.
  unfoldable pub make_for : (Double → ℤ) → Bool → Mode → Variables → Parsed SdkMembers
  make_for int_of has_memory capture v = ok (
      sdk_capture v.pcap_file (start_angle_of int_of v.start_angle) (pos 0) v.pcl_data_type
        v.lidar_type v.frame_id v.timestamp_type v.lidar_correction_file
        v.coordinate_correction_flag v.target_frame v.fixed_frame)
  make_for int_of has_memory bag v = ok (
      sdk_capture [] (start_angle_of int_of v.start_angle) (pos 0) v.pcl_data_type v.lidar_type
        v.frame_id v.timestamp_type v.lidar_correction_file v.coordinate_correction_flag
        v.target_frame v.fixed_frame)
  make_for int_of has_memory live v =
      sdk_live has_memory v.server_ip (to_uint16 v.lidar_recv_port) (to_uint16 v.gps_port)
        (start_angle_of int_of v.start_angle) (pos 0) v.pcl_data_type v.lidar_type v.frame_id
        v.timestamp_type v.lidar_correction_file v.multicast_ip v.coordinate_correction_flag
        v.target_frame v.fixed_frame

  unfoldable pub make_sdk : (Double → ℤ) → Bool → Variables → Parsed SdkMembers
  make_sdk int_of has_memory v = make_for int_of has_memory (mode_of v.pcap_file v.data_type) v

  abbrev pub and_make : (Double → ℤ) → Bool → Variables → Option Store → Option (Parsed SdkMembers)
  and_make int_of has_memory before none = none
  and_make int_of has_memory before (some store) =
      some (make_sdk int_of has_memory (get_parameters store before))

  -- The constructor, up to the SDK; `before` is what the variables hold at first.
  unfoldable pub new_client : (Double → ℤ) → Bool → Variables → Store → Option (Parsed SdkMembers)
  new_client int_of has_memory before overrides =
      and_make int_of has_memory before (declare_all overrides defaults)
