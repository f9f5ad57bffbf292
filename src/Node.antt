-- ===== src/Node.antt =====
-- The ROS 2 node of main_ros2.cc: which of its modes it starts in, where the table of angles comes from
-- then, and what it publishes and receives. Strings are lists of bytes.
pub mod Startup
pub mod Echo
pub mod Parameters
pub mod Wiring
pub mod Ros1
use go2_setup.Shared.{
  ℕ, Bool, true, false, not, ◌&&◌, ◌||◌, List, [], ◌∷◌, ◌++◌, Option, none, some, ◌==◌,
  if◌then◌else◌,
}
use go2_setup.Wire.{Parsed, ok, rejected, fault, ◌>>=◌}
use go2_setup.Points.{Floats}
use go2_setup.Frame.{Emission, is_empty}
use go2_setup.Correction.{Numerals, Locals}
use go2_setup.Replay.{ScanPacket, Replay, load_text, push_scan_packet}
use go2_setup.Tcp.{Server}
use go2_setup.Sdk.{Sdk, get_calibration_from_device}

abbrev pub same_text : List ℕ → List ℕ → Bool
same_text [] [] = true
same_text [] (y ∷ ys) = false
same_text (x ∷ xs) [] = false
same_text (x ∷ xs) (y ∷ ys) = x == y && same_text xs ys

abbrev pub both : List ℕ
both = b'b' ∷ b'o' ∷ b't' ∷ b'h' ∷ []

abbrev pub points : List ℕ
points = b'p' ∷ b'o' ∷ b'i' ∷ b'n' ∷ b't' ∷ b's' ∷ []

abbrev pub raw : List ℕ
raw = b'r' ∷ b'a' ∷ b'w' ∷ []

abbrev pub rosbag : List ℕ
rosbag = b'r' ∷ b'o' ∷ b's' ∷ b'b' ∷ b'a' ∷ b'g' ∷ []

abbrev pub hesailidar_stop : List ℕ
hesailidar_stop =
    b'h' ∷ b'e' ∷ b's' ∷ b'a' ∷ b'i' ∷ b'l' ∷ b'i' ∷ b'd' ∷ b'a' ∷ b'r' ∷ b'_' ∷ b's' ∷ b't' ∷ b'o'
    ∷ b'p' ∷ []

abbrev pub all_stop : List ℕ
all_stop = b'a' ∷ b'l' ∷ b'l' ∷ b'_' ∷ b's' ∷ b't' ∷ b'o' ∷ b'p' ∷ []

-- Which SDK is made: for a capture, for a recorded topic, or for a lidar.
pub data Mode : Type 0 where
  capture : Mode
  bag : Mode
  live : Mode

-- From the parameters `pcap_file` and `data_type`.
unfoldable pub mode_of : List ℕ → List ℕ → Mode
mode_of pcap_file data_type =
    if not (is_empty pcap_file) then capture else if same_text rosbag data_type then bag else live

-- What goes out on `rslidar_points` and on `pandar_packets`.
pub data Message (P : Type 0) : Type 0 where
  cloud : List P → Message P
  scan : List ScanPacket → Message P

abbrev pub publishes : List ℕ → List ℕ → Bool
publishes publish_type only = same_text publish_type both || same_text publish_type only

unfoldable pub lidar_callback : {P : Type 0} → List ℕ → Emission P ScanPacket → List (Message P)
lidar_callback publish_type e =
    (if publishes publish_type points then cloud e.points ∷ [] else [])
    ++ (if publishes publish_type raw then scan e.packets ∷ [] else [])

-- Whether the node shuts down on this message of `/node_control`.
unfoldable pub node_control_callback : List ℕ → Bool
node_control_callback text = same_text text hesailidar_stop || same_text text all_stop

module _ (F : Floats) (num : Numerals F) (locals : Locals F) (behind : List ℕ)
    (file : Option (List ℕ)) where
  -- The correction file, which the node itself reads for a capture: the flag stays as it is.
  unfoldable pub load_before : Option (List ℕ) → Sdk F → Parsed (Sdk F)
  load_before none s = ok s
  load_before (some bytes) s = do
    t ← load_text F num locals behind file bytes s.general.table
    ok (record s { general = record s.general { table = t } })

  -- `timer_callback`, up to the end of the thread that gets the calibration; only a lidar's SDK has a
  -- command client.
  unfoldable pub timer_callback : Mode → Server → Sdk F → Parsed (Sdk F)
  timer_callback capture v s = do
    s' ← load_before file s
    get_calibration_from_device F num locals behind file false v s'
  timer_callback bag v s = get_calibration_from_device F num locals behind file false v s
  timer_callback live v s = get_calibration_from_device F num locals behind file true v s

  -- `scanCallback`
  unfoldable pub scan_callback : Sdk F → List ScanPacket → Parsed (Sdk F)
  scan_callback s packets = do
    g ← push_scan_packet F num locals behind file s.general packets
    ok (record s { general = g })

  -- What the node does with what it has published: only for a recorded topic it listens to
  -- `pandar_packets`, the topic of its own scans.
  unfoldable pub hear : {P : Type 0} → Mode → Sdk F → List (Message P) → Parsed (Sdk F)
  hear mode s [] = ok s
  hear mode s (cloud ps ∷ more) = hear mode s more
  hear capture s (scan packets ∷ more) = hear capture s more
  hear live s (scan packets ∷ more) = hear live s more
  hear bag s (scan packets ∷ more) = do s' ← scan_callback s packets; hear bag s' more
