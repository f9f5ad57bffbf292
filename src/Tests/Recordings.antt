-- ===== src/Tests/Recordings.antt =====
-- A frame recorded, played back and heard by the node, and the node's start, at concrete values.
use go2_setup.Shared.{Bool, ap, ℕ, ◌≡◌, ◌≢◌, refl, arith, true, false, [], ◌∷◌, some, none, pos}
use go2_setup.Wire.{ok}
use go2_setup.Driver.{UdpPacket}
use go2_setup.Frame.{Emission, Framer, frame_ends, process_block, add_point}
use go2_setup.Correction.{lines_of, correction_content}
use go2_setup.Correction.RoundTrip.{IsReread}
use go2_setup.Replay.{ScanPacket, Replay, raw_message, push_scan_packet}
use go2_setup.Replay.Saved.{saved_message}
use go2_setup.Replay.Frames.{IsRaw, push_each, raw_message-IsRaw, process_block-replayed}
use go2_setup.Sdk.{Sdk}
use go2_setup.Tcp.{Server, connect_server_failed, send_cmd, get_lidar_calibration}
use go2_setup.Node.{Mode, capture, bag, live, raw, lidar_callback, hear, timer_callback}
use go2_setup.Node.Echo.{process_block-heard}
use go2_setup.Node.Startup.{Fails, timer_callback-saved}
use go2_setup.Tests.Measures.{whole}
use go2_setup.Tests.Receiving.{idle}
use go2_setup.Tests.Corrections.{
  unary, unary-PrintsFields, unset, two_lasers, no_lasers, waiting, content_short,
  corrected_already, sdk,
}

abbrev lidar_bytes : UdpPacket whole
lidar_bytes = record { stamp = pos 4; data_bytes = 0xEE ∷ 0xFF ∷ 2 ∷ []; size = 3 }

abbrev recorded_packet : ScanPacket
recorded_packet = raw_message whole (λ t. 4) (λ t. 0) lidar_bytes

recorded_packet-IsRaw : IsRaw recorded_packet
recorded_packet-IsRaw =
    raw_message-IsRaw whole (λ t. 4) (λ t. 0) lidar_bytes (omega arith) (omega arith) (omega arith)
      (omega arith)

abbrev before_frame : Framer ℕ ScanPacket
before_frame = record {
  last_azimuth = 35900;
  clouds = record { lists = λ r. []; cloud = λ i. i; index = 2; out_msg = []; overrun = false };
  scan = recorded_packet ∷ [];
  emitted = [];
}

ends : frame_ends {R = ScanPacket} true 0 before_frame 20 ≡ true
unfolding frame_ends go2_setup.Frame.crosses go2_setup.Frame.azimuth_gap
ends = refl

process_block-replayed_example :
    (e : Emission ℕ ScanPacket) × (r' : Replay whole) × ((process_block false true 0
        (λ n. saved_message whole unary two_lasers n 0 0)
        (add_point false)
        2
        before_frame
        (20, [])).emitted
      ≡ e ∷ [])
    × (push_scan_packet whole unary unset (0 ∷ []) none waiting e.packets ≡ ok r')
    × (r'.got_correction ≡ true)
    × (r'.ring ≡ push_each whole idle.ring (recorded_packet ∷ []))
    × IsReread whole unary unset two_lasers no_lasers r'.table 2
unfolding lines_of
process_block-replayed_example =
    process_block-replayed whole unary unset (0 ∷ []) none false true 0 two_lasers (add_point false)
      2 before_frame (20, []) waiting [] [] unary-PrintsFields refl (omega arith) content_short refl
      tt tt ends (recorded_packet-IsRaw, tt)

abbrev corrected_sdk : Sdk whole
corrected_sdk = record sdk { general = corrected_already }

process_block-heard_example :
    (e : Emission ℕ ScanPacket) × ((process_block false true 0
        (λ n. saved_message whole unary two_lasers n 0 0)
        (add_point false)
        2
        before_frame
        (20, [])).emitted
      ≡ e ∷ [])
    × (hear whole unary unset [] none bag corrected_sdk (lidar_callback raw e)
        ≡ ok (record corrected_sdk {
          general = record corrected_already {
            ring = push_each whole idle.ring (recorded_packet ∷ []);
          };
        }))
process_block-heard_example =
    process_block-heard whole unary unset [] none false true 0 two_lasers (add_point false) 2
      before_frame (20, []) bag raw corrected_sdk refl ends (recorded_packet-IsRaw, tt)

abbrev no_lidar : Server
no_lidar = record {
  connects = false;
  header_written = none;
  payload_written = none;
  incoming = [];
  stack_byte = 0;
  has_memory = λ n. true;
}

no_lidar-Fails : Fails no_lidar connect_server_failed
unfolding get_lidar_calibration send_cmd
no_lidar-Fails = refl

abbrev is_bag : Mode → Bool
is_bag capture = false
is_bag bag = true
is_bag live = false

live-other : live ≢ bag
live-other h = let e : is_bag live ≡ is_bag bag = ap is_bag h in cc

timer_callback-saved_example :
    (s' : Sdk whole) × (timer_callback whole unary unset
        (0 ∷ [])
        (some (correction_content whole unary two_lasers 2))
        live
        no_lidar
        sdk
      ≡ ok s')
    × (s'.general.got_correction ≡ true)
    × (s'.general.ring ≡ idle.ring)
    × IsReread whole unary unset two_lasers no_lasers s'.general.table 2
unfolding lines_of
timer_callback-saved_example =
    timer_callback-saved whole unary unset (0 ∷ []) two_lasers 2 live no_lidar sdk
      connect_server_failed [] [] live-other no_lidar-Fails refl unary-PrintsFields (omega arith)
      refl tt tt
