-- ===== src/Lifecycle.antt =====
-- Starting and stopping the threads: `Start`, `Stop` and the destructors of pandarGeneral_internal.cc,
-- pcap_reader.cpp and pandarGeneral_sdk.cc. A thread is a number, and `log` is what was done with
-- threads so far, newest last.
pub mod Runs
pub mod Doubled
use go2_setup.Shared.{
  ℕ, ◌+◌, Bool, true, false, List, [], ◌∷◌, ◌++◌, Option, none, some, if◌then◌else◌,
}

pub data Action : Type 0 where
  started : ℕ → Action
  joined : ℕ → Action
  freed : ℕ → Action

-- The member of `PcapReader` for its thread, and `loop`.
pub record Reader : Type 0 where
  pub parse_thr : Option ℕ
  pub loop : Bool

-- `PandarGeneral_Internal`; `next` is the number of the next new thread.
pub record General : Type 0 where
  pub lidar_process_thr : Option ℕ
  pub lidar_recv_thr : Option ℕ
  pub enable_lidar_process_thr : Bool
  pub enable_lidar_recv_thr : Bool
  pub connect_lidar : Bool
  pub pcap_reader : Option Reader
  pub next : ℕ
  pub log : List Action

-- `if (thr) { thr->join(); delete thr; thr = NULL; }`
abbrev pub end_thread : Option ℕ → List Action
end_thread none = []
end_thread (some t) = joined t ∷ freed t ∷ []

-- The constructors, for a lidar and for a capture.
abbrev pub connected : General
connected = record {
  lidar_process_thr = none;
  lidar_recv_thr = none;
  enable_lidar_process_thr = false;
  enable_lidar_recv_thr = false;
  connect_lidar = true;
  pcap_reader = none;
  next = 0;
  log = [];
}

abbrev pub replaying : General
replaying = record connected {
  connect_lidar = false;
  pcap_reader = some (record { parse_thr = none; loop = false });
}

-- `PcapReader::stop`
abbrev pub stop_reader : Option Reader → Option Reader
stop_reader none = none
stop_reader (some r) = some (record { parse_thr = none; loop = false })

abbrev pub end_reader : Option Reader → List Action
end_reader none = []
end_reader (some r) = end_thread r.parse_thr

-- `PandarGeneral_Internal::Stop`
unfoldable pub stop : General → General
stop g = record g {
  enable_lidar_recv_thr = false;
  enable_lidar_process_thr = false;
  lidar_process_thr = none;
  lidar_recv_thr = none;
  pcap_reader = stop_reader g.pcap_reader;
  log =
      g.log
      ++ (end_thread g.lidar_process_thr
          ++ (end_thread g.lidar_recv_thr ++ end_reader g.pcap_reader));
}

unfoldable pub start_recv : General → General
start_recv g = record g {
  lidar_recv_thr = some g.next;
  next = g.next + 1;
  log = g.log ++ (started g.next ∷ []);
}

-- `PcapReader::start`, which stops the reader first; none for a null `pcap_reader_`.
unfoldable pub start_reader : General → Option Reader → Option General
start_reader g none = none
start_reader g (some r) = some (record g {
  pcap_reader = some (record { parse_thr = some g.next; loop = true });
  next = g.next + 1;
  log = g.log ++ (end_thread r.parse_thr ++ (started g.next ∷ []));
})

unfoldable pub start_process : General → General
start_process g = record g {
  enable_lidar_recv_thr = true;
  enable_lidar_process_thr = true;
  lidar_process_thr = some g.next;
  next = g.next + 1;
  log = g.log ++ (started g.next ∷ []);
}

-- `PandarGeneral_Internal::Start`
unfoldable pub start : General → Option General
start g =
    let h = start_process (stop g) in
    if g.connect_lidar then some (start_recv h) else start_reader h h.pcap_reader

-- The destructor: `Stop`, and `~PcapReader`, which stops the reader again.
unfoldable pub destroy : General → General
destroy g =
    let h = stop g in record h { pcap_reader = none; log = h.log ++ end_reader h.pcap_reader }

-- `PandarGeneralSDK`
pub record SdkThreads : Type 0 where
  pub general : General
  pub get_calibration_thr : Option ℕ
  pub enable_get_calibration_thr : Bool

abbrev pub join_thread : Option ℕ → List Action
join_thread none = []
join_thread (some t) = joined t ∷ []

abbrev pub logged : General → List Action → General
logged g done = record g { log = g.log ++ done }

-- `PandarGeneralSDK::Stop`, which keeps the pointer to the thread that it joined.
unfoldable pub stop_sdk : SdkThreads → SdkThreads
stop_sdk s = record s {
  general = logged (stop s.general) (join_thread s.get_calibration_thr);
  enable_get_calibration_thr = false;
}

abbrev pub with_calibration : SdkThreads → General → SdkThreads
with_calibration s g = record s {
  general = record g { next = g.next + 1; log = g.log ++ (started g.next ∷ []) };
  get_calibration_thr = some g.next;
  enable_get_calibration_thr = true;
}

abbrev pub and_calibration : SdkThreads → Option General → Option SdkThreads
and_calibration s none = none
and_calibration s (some g) = some (with_calibration s g)

-- `PandarGeneralSDK::Start`
unfoldable pub start_sdk : SdkThreads → Option SdkThreads
start_sdk s = let h = stop_sdk s in and_calibration h (start h.general)

-- `~PandarGeneralSDK`: the actions until the object is gone.
unfoldable pub destroy_sdk : SdkThreads → List Action
destroy_sdk s = (destroy (stop_sdk s).general).log
