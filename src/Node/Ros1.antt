-- ===== src/Node/Ros1.antt =====
-- The ROS 1 node of main.cc, which the build file leaves out: it declares no parameters, and a variable
-- without a parameter of its type keeps what it held, for a number whatever the stack held.
use go2_setup.Shared.{◌≡◌, refl, Bool, true, false, [], Option, none, some, ℤ, pos, All}
use Prim.Native.String.{String}
use go2_setup.Points.{Floats}
use go2_setup.Wire.{Parsed}
use go2_setup.Node.Parameters.{
  Value, text, whole, real, flag, Store, lookup, defaults, Variables, text_or, whole_or, real_or,
  flag_or, make_sdk, new_client,
}
use go2_setup.Node.Parameters.Values.{
  Agrees, WellTyped, set_variables, declare_all-values, get_parameters-values,
}
use go2_setup.Setup.{Text, SdkMembers}

module _ (F : Floats) where
  open F use {Double, of_ℤ}

  -- `nh.getParam` for each variable.
  unfoldable pub get_all_params : Store F → Variables F → Variables F
  get_all_params store v = record {
    pcap_file = text_or F v.pcap_file (lookup F "pcap_file" store);
    server_ip = text_or F v.server_ip (lookup F "server_ip" store);
    lidar_recv_port = whole_or F v.lidar_recv_port (lookup F "lidar_recv_port" store);
    gps_port = whole_or F v.gps_port (lookup F "gps_port" store);
    start_angle = real_or F v.start_angle (lookup F "start_angle" store);
    lidar_correction_file =
        text_or F v.lidar_correction_file (lookup F "lidar_correction_file" store);
    lidar_type = text_or F v.lidar_type (lookup F "lidar_type" store);
    frame_id = text_or F v.frame_id (lookup F "frame_id" store);
    pcl_data_type = whole_or F v.pcl_data_type (lookup F "pcldata_type" store);
    publish_type = text_or F v.publish_type (lookup F "publish_type" store);
    timestamp_type = text_or F v.timestamp_type (lookup F "timestamp_type" store);
    data_type = text_or F v.data_type (lookup F "data_type" store);
    multicast_ip = text_or F v.multicast_ip (lookup F "multicast_ip" store);
    coordinate_correction_flag =
        flag_or F v.coordinate_correction_flag (lookup F "coordinate_correction_flag" store);
    target_frame = text_or F v.target_frame (lookup F "target_frame" store);
    fixed_frame = text_or F v.fixed_frame (lookup F "fixed_frame" store);
  }

  -- The constructor, up to the SDK, in the words of the other node.
  unfoldable pub hesai_lidar_client :
      (Double → ℤ) → Bool → Variables F → Store F → Parsed SdkMembers
  hesai_lidar_client int_of has_memory before store =
      make_sdk F int_of has_memory (get_all_params store before)

  abbrev pub is_set : Option (Value F) → Bool
  is_set none = false
  is_set (some v) = true

  abbrev pub AllSet : Store F → Store F → Type 0
  AllSet store ds = All (λ (d : String × Value F). is_set (lookup F d.0 store) ≡ true) ds

  text_or-set :
      (before default : Text) (o : Option (Value F))
      → Agrees F o (text default)
      → is_set o ≡ true
      → text_or F before o ≡ text_or F default o
  text_or-set before default none h s = cc
  text_or-set before default (some (text a)) h s = refl
  text_or-set before default (some (whole a)) h s = cc
  text_or-set before default (some (real a)) h s = cc
  text_or-set before default (some (flag a)) h s = cc

  whole_or-set :
      (before default : ℤ) (o : Option (Value F))
      → Agrees F o (whole default)
      → is_set o ≡ true
      → whole_or F before o ≡ whole_or F default o
  whole_or-set before default none h s = cc
  whole_or-set before default (some (text a)) h s = cc
  whole_or-set before default (some (whole a)) h s = refl
  whole_or-set before default (some (real a)) h s = cc
  whole_or-set before default (some (flag a)) h s = cc

  real_or-set :
      (before default : Double) (o : Option (Value F))
      → Agrees F o (real default)
      → is_set o ≡ true
      → real_or F before o ≡ real_or F default o
  real_or-set before default none h s = cc
  real_or-set before default (some (text a)) h s = cc
  real_or-set before default (some (whole a)) h s = cc
  real_or-set before default (some (real a)) h s = refl
  real_or-set before default (some (flag a)) h s = cc

  flag_or-set :
      (before default : Bool) (o : Option (Value F))
      → Agrees F o (flag default)
      → is_set o ≡ true
      → flag_or F before o ≡ flag_or F default o
  flag_or-set before default none h s = cc
  flag_or-set before default (some (text a)) h s = cc
  flag_or-set before default (some (whole a)) h s = cc
  flag_or-set before default (some (real a)) h s = cc
  flag_or-set before default (some (flag a)) h s = refl

  get_all_params-set :
      (store : Store F) (before : Variables F)
      → WellTyped F store (defaults F)
      → AllSet store (defaults F)
      → get_all_params store before ≡ set_variables F store
  unfolding get_all_params
  get_all_params-set store before h s = λ i. record {
    pcap_file = text_or-set before.pcap_file [] (lookup F "pcap_file" store) h.0 s.0 i;
    server_ip = text_or-set before.server_ip [] (lookup F "server_ip" store) h.1.0 s.1.0 i;
    lidar_recv_port =
        whole_or-set before.lidar_recv_port (pos 2368) (lookup F "lidar_recv_port" store) h.1.1.0
          s.1.1.0 i;
    gps_port =
        whole_or-set before.gps_port (pos 10110) (lookup F "gps_port" store) h.1.1.1.0 s.1.1.1.0 i;
    start_angle =
        real_or-set before.start_angle (of_ℤ (pos 0)) (lookup F "start_angle" store) h.1.1.1.1.0
          s.1.1.1.1.0 i;
    lidar_correction_file =
        text_or-set before.lidar_correction_file [] (lookup F "lidar_correction_file" store)
          h.1.1.1.1.1.0 s.1.1.1.1.1.0 i;
    lidar_type =
        text_or-set before.lidar_type [] (lookup F "lidar_type" store) h.1.1.1.1.1.1.0
          s.1.1.1.1.1.1.0 i;
    frame_id =
        text_or-set before.frame_id [] (lookup F "frame_id" store) h.1.1.1.1.1.1.1.0
          s.1.1.1.1.1.1.1.0 i;
    pcl_data_type =
        whole_or-set before.pcl_data_type (pos 0) (lookup F "pcldata_type" store)
          h.1.1.1.1.1.1.1.1.0 s.1.1.1.1.1.1.1.1.0 i;
    publish_type =
        text_or-set before.publish_type [] (lookup F "publish_type" store) h.1.1.1.1.1.1.1.1.1.0
          s.1.1.1.1.1.1.1.1.1.0 i;
    timestamp_type =
        text_or-set before.timestamp_type [] (lookup F "timestamp_type" store)
          h.1.1.1.1.1.1.1.1.1.1.0 s.1.1.1.1.1.1.1.1.1.1.0 i;
    data_type =
        text_or-set before.data_type [] (lookup F "data_type" store) h.1.1.1.1.1.1.1.1.1.1.1.0
          s.1.1.1.1.1.1.1.1.1.1.1.0 i;
    multicast_ip =
        text_or-set before.multicast_ip [] (lookup F "multicast_ip" store)
          h.1.1.1.1.1.1.1.1.1.1.1.1.0 s.1.1.1.1.1.1.1.1.1.1.1.1.0 i;
    coordinate_correction_flag =
        flag_or-set before.coordinate_correction_flag false
          (lookup F "coordinate_correction_flag" store) h.1.1.1.1.1.1.1.1.1.1.1.1.1.0
          s.1.1.1.1.1.1.1.1.1.1.1.1.1.0 i;
    target_frame =
        text_or-set before.target_frame [] (lookup F "target_frame" store)
          h.1.1.1.1.1.1.1.1.1.1.1.1.1.1.0 s.1.1.1.1.1.1.1.1.1.1.1.1.1.1.0 i;
    fixed_frame =
        text_or-set before.fixed_frame [] (lookup F "fixed_frame" store)
          h.1.1.1.1.1.1.1.1.1.1.1.1.1.1.1.0 s.1.1.1.1.1.1.1.1.1.1.1.1.1.1.1.0 i;
  }

  -- Where all sixteen parameters are set, each with a value of its type, the ROS 1 node makes the
  -- same SDK as the ROS 2 node, whatever the variables of either hold at first.
  pub hesai_lidar_client-new_client :
      (int_of : Double → ℤ) (has_memory : Bool) (before before' : Variables F) (store : Store F)
      → WellTyped F store (defaults F)
      → AllSet store (defaults F)
      → some (hesai_lidar_client int_of has_memory before store)
        ≡ new_client F int_of has_memory before' store
  unfolding hesai_lidar_client new_client
  hesai_lidar_client-new_client int_of has_memory before before' store h s =
      rw
        (
          get_all_params-set store before h s,
          declare_all-values F store (defaults F) h,
          get_parameters-values F store before' h,
        )
        refl
