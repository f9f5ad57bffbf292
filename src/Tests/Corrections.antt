-- ===== src/Tests/Corrections.antt =====
-- The table of angles written, sent and read at concrete values, with numbers printed in unary.
use go2_setup.Shared.{
  ℕ, zero, suc, ◌-◌, ◌^◌, ◌≤◌, ◌<◌, ◌≡◌, refl, ap, arith, true, false, List, [], ◌∷◌, ◌++◌, some,
  none, length, All, pos, pos_part,
}
use go2_setup.Wire.{ok}
use go2_setup.Util.{bytes}
use go2_setup.Correction.{
  Numerals, Locals, AngleTable, heading, lines_of, parse_line, save_line, save_lines,
  correction_content,
}
use go2_setup.Correction.RoundTrip.{IsPlain, PrintsFields, IsReread}
use go2_setup.Replay.{ScanPacket, Replay, push_one, push_scan_packet}
use go2_setup.Replay.Saved.{saved_message, push_one-stray}
use go2_setup.Replay.Order.{push_all, push_scan_packet-IsPlayable}
use go2_setup.Tcp.{TcpCommandHeader, Server, build_header}
use go2_setup.Tcp.Reply.{Replies}
use go2_setup.Sdk.{Sdk, get_calibration_from_device}
use go2_setup.Sdk.Calibration.{get_calibration_from_device-Replies}
use go2_setup.Tests.Measures.{whole}
use go2_setup.Tests.Receiving.{idle}

abbrev pub copies : ℕ → ℕ → List ℕ
copies zero c = []
copies (suc n) c = c ∷ copies n c

abbrev pub unary : Numerals whole
unary = record {
  int_of = λ xs. pos (length xs - 1);
  double_of = λ d xs. pos (length xs - 1);
  show_int = λ n. 65 ∷ copies n 65;
  show_float = λ x. 66 ∷ copies (pos_part x) 66;
  sin_degrees = λ x. x;
  cos_degrees = λ x. x;
}

letter-IsPlain : (c : ℕ) → 65 ≤ c → IsPlain c
letter-IsPlain c h = record {
  no_comma = omega arith;
  no_newline = omega arith;
  no_null = omega arith;
}

copies-IsPlain : (n c : ℕ) → 65 ≤ c → All IsPlain (copies n c)
copies-IsPlain zero c h = tt
copies-IsPlain (suc n) c h = (letter-IsPlain c h, copies-IsPlain n c h)

length-copies : (n c : ℕ) → length (copies n c) ≡ n
length-copies zero c = refl
length-copies (suc n) c = ap suc (length-copies n c)

pub unary-PrintsFields : PrintsFields whole unary
unary-PrintsFields = record {
  int_field =
      λ n. record { plain = copies-IsPlain (suc n) 65 (omega arith); nonempty = omega arith };
  float_field = λ x. record {
    plain = copies-IsPlain (suc (pos_part x)) 66 (omega arith);
    nonempty = omega arith;
  };
  int_back = λ n. ap pos (omega (arith, length-copies n 65));
}

abbrev pub unset : Locals whole
unset = record { azimuths = λ i. pos 99; elevations = λ i. pos 98; elev = pos 0; azimuth = pos 0 }

abbrev pub two_lasers : AngleTable whole
two_lasers = record {
  elevation = λ i. pos 3;
  azimuth_offset = λ i. pos 2;
  sin_elevation = λ i. pos 3;
  cos_elevation = λ i. pos 3;
  size = 2;
}

abbrev pub no_lasers : AngleTable whole
no_lasers = record {
  elevation = λ i. pos 0;
  azimuth_offset = λ i. pos 0;
  sin_elevation = λ i. pos 0;
  cos_elevation = λ i. pos 0;
  size = 0;
}

abbrev pub waiting : Replay whole
waiting = record { table = no_lasers; got_correction = false; ring = idle.ring }

pub content_short : length (correction_content whole unary two_lasers 2) < 2 ^ 32
unfolding save_lines save_line
content_short = omega arith

-- Behind the text stands what looks like a line, then a null byte.
abbrev stray_bytes : List ℕ
stray_bytes = copies 6 67

push_one-stray_example :
    (r' : Replay whole) × (push_one whole unary unset
        (stray_bytes ++ (0 ∷ []))
        none
        waiting
        (saved_message whole unary two_lasers 2 0 0)
      ≡ ok r')
    × (r'.table.size ≡ 3)
    × (r'.table.elevation 2 ≡ pos 98)
unfolding lines_of parse_line go2_setup.Correction.until
push_one-stray_example =
    push_one-stray whole unary unset (stray_bytes ++ (0 ∷ [])) none waiting two_lasers 2 0 0
      stray_bytes [] unary-PrintsFields refl (omega arith) content_short refl (omega arith)
      (record { line = stray_bytes; more = []; first = refl; long = omega arith; wrong = refl })

abbrev pub corrected_already : Replay whole
corrected_already = record waiting { got_correction = true }

abbrev two_packets : List ScanPacket
two_packets =
    record { sec = 1; nanosec = 5; data_bytes = 1 ∷ 2 ∷ 3 ∷ []; size = 3 }
    ∷ record { sec = 2; nanosec = 6; data_bytes = 0x47 ∷ 0x74 ∷ 5 ∷ []; size = 3 }
    ∷ []

push_scan_packet-IsPlayable_example :
    push_scan_packet whole unary unset [] none corrected_already two_packets
    ≡ ok (record corrected_already { ring = push_all whole idle.ring two_packets })
push_scan_packet-IsPlayable_example =
    push_scan_packet-IsPlayable whole unary unset [] none corrected_already two_packets refl (
      record { start = omega arith; whole = omega arith; fits = omega arith },
      (record { start = omega arith; whole = omega arith; fits = omega arith }, tt),
    )

abbrev answer_header : TcpCommandHeader
answer_header = record {
  cmd = 5;
  ret_code = 0;
  len = length (correction_content whole unary two_lasers 1);
}

abbrev calibrated_lidar : Server
calibrated_lidar = record {
  connects = true;
  header_written = some 8;
  payload_written = none;
  incoming =
      bytes 0x47 (0x74 ∷ 5 ∷ 0 ∷ 0 ∷ 0 ∷ 0 ∷ 39 ∷ correction_content whole unary two_lasers 1) ∷ [];
  stack_byte = 0;
  has_memory = λ n. true;
}

calibrated_lidar-Replies :
    Replies calibrated_lidar answer_header (correction_content whole unary two_lasers 1) []
unfolding build_header save_lines save_line
calibrated_lidar-Replies = record {
  sound = tt;
  stream = refl;
  short = omega arith;
  size = refl;
  memory = refl;
}

abbrev pub sdk : Sdk whole
sdk = record { general = waiting; content = [] }

get_calibration_from_device-Replies_example :
    (s' : Sdk whole) × (get_calibration_from_device whole unary unset [] none true calibrated_lidar
        sdk
      ≡ ok s')
    × (s'.general.got_correction ≡ true)
    × (s'.general.ring ≡ idle.ring)
    × (s'.content ≡ correction_content whole unary two_lasers 1)
    × IsReread whole unary unset two_lasers no_lasers s'.general.table 1
get_calibration_from_device-Replies_example =
    get_calibration_from_device-Replies whole unary unset [] none calibrated_lidar answer_header []
      sdk two_lasers 1 unary-PrintsFields (omega arith) refl refl refl calibrated_lidar-Replies
