-- ===== src/Node/Parameters/Values.antt =====
-- What the variables of the ROS 2 node are after the parameters are declared and read.
use go2_setup.Shared.{◌≡◌, refl, Bool, true, false, [], ◌∷◌, Option, none, some, ℤ, pos, All}
use Prim.Native.String.{String}
use go2_setup.Points.{Floats}
use go2_setup.Node.Parameters.{
  Value, text, whole, real, flag, Store, lookup, same_kind, declared_value, declare_all, defaults,
  Variables, text_or, whole_or, real_or, flag_or, get_parameters,
}
use go2_setup.Setup.{Text}

module _ (F : Floats) where
  open F use {Double, of_ℤ, decimal, add, mul}

  -- A value from outside has the type of the declared one.
  abbrev pub Agrees : Option (Value F) → Value F → Type 0
  Agrees none default = Unit
  Agrees (some v) default = same_kind F v default ≡ true

  abbrev pub WellTyped : Store F → Store F → Type 0
  WellTyped overrides ds = All (λ (d : String × Value F). Agrees (lookup F d.0 overrides) d.1) ds

  abbrev pub chosen : Option (Value F) → Value F → Value F
  chosen none default = default
  chosen (some v) default = v

  abbrev pub values : Store F → Store F → Store F
  values overrides [] = []
  values overrides ((name, default) ∷ more) =
      (name, chosen (lookup F name overrides) default) ∷ values overrides more

  declared_value-chosen :
      (o : Option (Value F)) (default : Value F)
      → Agrees o default
      → declared_value F o default ≡ some (chosen o default)
  declared_value-chosen none default h = refl
  declared_value-chosen (some v) default h = rw h

  pub declare_all-values :
      (overrides ds : Store F)
      → WellTyped overrides ds
      → declare_all F overrides ds ≡ some (values overrides ds)
  unfolding declare_all
  declare_all-values overrides [] h = refl
  declare_all-values overrides ((name, default) ∷ more) h =
      rw
        (
          declared_value-chosen (lookup F name overrides) default h.0,
          declare_all-values overrides more h.1,
        )
        refl

  text_or-chosen :
      (before default : Text) (o : Option (Value F))
      → Agrees o (text default)
      → text_or F before (some (chosen o (text default))) ≡ text_or F default o
  text_or-chosen before default none h = refl
  text_or-chosen before default (some (text a)) h = refl
  text_or-chosen before default (some (whole a)) h = cc
  text_or-chosen before default (some (real a)) h = cc
  text_or-chosen before default (some (flag a)) h = cc

  whole_or-chosen :
      (before default : ℤ) (o : Option (Value F))
      → Agrees o (whole default)
      → whole_or F before (some (chosen o (whole default))) ≡ whole_or F default o
  whole_or-chosen before default none h = refl
  whole_or-chosen before default (some (text a)) h = cc
  whole_or-chosen before default (some (whole a)) h = refl
  whole_or-chosen before default (some (real a)) h = cc
  whole_or-chosen before default (some (flag a)) h = cc

  real_or-chosen :
      (before default : Double) (o : Option (Value F))
      → Agrees o (real default)
      → real_or F before (some (chosen o (real default))) ≡ real_or F default o
  real_or-chosen before default none h = refl
  real_or-chosen before default (some (text a)) h = cc
  real_or-chosen before default (some (whole a)) h = cc
  real_or-chosen before default (some (real a)) h = refl
  real_or-chosen before default (some (flag a)) h = cc

  flag_or-chosen :
      (before default : Bool) (o : Option (Value F))
      → Agrees o (flag default)
      → flag_or F before (some (chosen o (flag default))) ≡ flag_or F default o
  flag_or-chosen before default none h = refl
  flag_or-chosen before default (some (text a)) h = cc
  flag_or-chosen before default (some (whole a)) h = cc
  flag_or-chosen before default (some (real a)) h = cc
  flag_or-chosen before default (some (flag a)) h = refl

  -- The variables by what was set from outside, or else the defaults.
  abbrev pub set_variables : Store F → Variables F
  set_variables overrides = record {
    pcap_file = text_or F [] (lookup F "pcap_file" overrides);
    server_ip = text_or F [] (lookup F "server_ip" overrides);
    lidar_recv_port = whole_or F (pos 2368) (lookup F "lidar_recv_port" overrides);
    gps_port = whole_or F (pos 10110) (lookup F "gps_port" overrides);
    start_angle = real_or F (of_ℤ (pos 0)) (lookup F "start_angle" overrides);
    lidar_correction_file = text_or F [] (lookup F "lidar_correction_file" overrides);
    lidar_type = text_or F [] (lookup F "lidar_type" overrides);
    frame_id = text_or F [] (lookup F "frame_id" overrides);
    pcl_data_type = whole_or F (pos 0) (lookup F "pcldata_type" overrides);
    publish_type = text_or F [] (lookup F "publish_type" overrides);
    timestamp_type = text_or F [] (lookup F "timestamp_type" overrides);
    data_type = text_or F [] (lookup F "data_type" overrides);
    multicast_ip = text_or F [] (lookup F "multicast_ip" overrides);
    coordinate_correction_flag = flag_or F false (lookup F "coordinate_correction_flag" overrides);
    target_frame = text_or F [] (lookup F "target_frame" overrides);
    fixed_frame = text_or F [] (lookup F "fixed_frame" overrides);
  }

  pub get_parameters-values :
      (overrides : Store F) (before : Variables F)
      → WellTyped overrides (defaults F)
      → get_parameters F (values overrides (defaults F)) before ≡ set_variables overrides
  unfolding get_parameters lookup
  get_parameters-values overrides before h = λ i. record {
    pcap_file = text_or-chosen before.pcap_file [] (lookup F "pcap_file" overrides) h.0 i;
    server_ip = text_or-chosen before.server_ip [] (lookup F "server_ip" overrides) h.1.0 i;
    lidar_recv_port =
        whole_or-chosen before.lidar_recv_port (pos 2368) (lookup F "lidar_recv_port" overrides)
          h.1.1.0 i;
    gps_port =
        whole_or-chosen before.gps_port (pos 10110) (lookup F "gps_port" overrides) h.1.1.1.0 i;
    start_angle =
        real_or-chosen before.start_angle (of_ℤ (pos 0)) (lookup F "start_angle" overrides)
          h.1.1.1.1.0 i;
    lidar_correction_file =
        text_or-chosen before.lidar_correction_file [] (lookup F "lidar_correction_file" overrides)
          h.1.1.1.1.1.0 i;
    lidar_type =
        text_or-chosen before.lidar_type [] (lookup F "lidar_type" overrides) h.1.1.1.1.1.1.0 i;
    frame_id =
        text_or-chosen before.frame_id [] (lookup F "frame_id" overrides) h.1.1.1.1.1.1.1.0 i;
    pcl_data_type =
        whole_or-chosen before.pcl_data_type (pos 0) (lookup F "pcldata_type" overrides)
          h.1.1.1.1.1.1.1.1.0 i;
    publish_type =
        text_or-chosen before.publish_type [] (lookup F "publish_type" overrides)
          h.1.1.1.1.1.1.1.1.1.0 i;
    timestamp_type =
        text_or-chosen before.timestamp_type [] (lookup F "timestamp_type" overrides)
          h.1.1.1.1.1.1.1.1.1.1.0 i;
    data_type =
        text_or-chosen before.data_type [] (lookup F "data_type" overrides)
          h.1.1.1.1.1.1.1.1.1.1.1.0 i;
    multicast_ip =
        text_or-chosen before.multicast_ip [] (lookup F "multicast_ip" overrides)
          h.1.1.1.1.1.1.1.1.1.1.1.1.0 i;
    coordinate_correction_flag =
        flag_or-chosen before.coordinate_correction_flag false
          (lookup F "coordinate_correction_flag" overrides) h.1.1.1.1.1.1.1.1.1.1.1.1.1.0 i;
    target_frame =
        text_or-chosen before.target_frame [] (lookup F "target_frame" overrides)
          h.1.1.1.1.1.1.1.1.1.1.1.1.1.1.0 i;
    fixed_frame =
        text_or-chosen before.fixed_frame [] (lookup F "fixed_frame" overrides)
          h.1.1.1.1.1.1.1.1.1.1.1.1.1.1.1.0 i;
  }
