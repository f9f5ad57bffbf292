-- ===== src/Wire/Formats.antt =====
-- The four formats with a header: their sizes and positions, and the parsers at them.
use go2_setup.Shared.{ℕ, ◌+◌, ◌*◌, Bool, true, false, List, [], ◌∷◌, none, some}
use go2_setup.Wire.{Layout, Parsed, Packet, parse_packet}

-- Pandar64: 8 bytes of header, blocks of 64 units, 10 skipped bytes before the timestamp.
abbrev pub l64_block_size : ℕ
l64_block_size = 3 * 64 + 2

abbrev pub l64_6packet_size : ℕ
l64_6packet_size = 8 + l64_block_size * 6 + 26

abbrev pub l64_7packet_size : ℕ
l64_7packet_size = 8 + l64_block_size * 7 + 26

abbrev pub l64_6packet_without_udpseq_size : ℕ
l64_6packet_without_udpseq_size = 8 + l64_block_size * 6 + 22

abbrev pub l64_7packet_without_udpseq_size : ℕ
l64_7packet_without_udpseq_size = 8 + l64_block_size * 7 + 22

abbrev pub l64 : Layout
l64 = record {
  sizes =
      l64_6packet_size ∷ l64_7packet_size ∷ l64_6packet_without_udpseq_size
      ∷ l64_7packet_without_udpseq_size ∷ 1270 ∷ [];
  head_size = 8;
  protocol_at = none;
  laser_at = 2;
  has_confidence = false;
  block_cap = 7;
  unit_cap = 64;
  timestamp_at = 8 + 2;
  echo_at = 8 + 2 + 4;
  addtime_at = 8 + 2 + 4 + 1 + 1;
}

-- Pandar20A and Pandar20B
abbrev pub l20_packet_size : ℕ
l20_packet_size = 8 + (3 * 20 + 2) * 20 + 22

abbrev pub l20 : Layout
l20 = record {
  sizes = l20_packet_size ∷ [];
  head_size = 8;
  protocol_at = none;
  laser_at = 2;
  has_confidence = false;
  block_cap = 20;
  unit_cap = 20;
  timestamp_at = 8 + 2;
  echo_at = 8 + 2 + 4;
  addtime_at = 8 + 2 + 4 + 1 + 1;
}

-- PandarQT: 12 bytes of header with the protocol's version, and a confidence with every unit.
abbrev pub qt_body_size : ℕ
qt_body_size = (4 * 64 + 2) * 4

abbrev pub qt_packet_size : ℕ
qt_packet_size = 12 + qt_body_size + 28

abbrev pub qt_packet_without_udpseq_size : ℕ
qt_packet_without_udpseq_size = 12 + qt_body_size + 24

abbrev pub qt : Layout
qt = record {
  sizes = qt_packet_size ∷ qt_packet_without_udpseq_size ∷ [];
  head_size = 12;
  protocol_at = some 2;
  laser_at = 6;
  has_confidence = true;
  block_cap = 4;
  unit_cap = 64;
  timestamp_at = 10 + 2;
  echo_at = 10 + 2 + 4;
  addtime_at = 10 + 2 + 4 + 1 + 1;
}

-- PandarXT-32, PandarXT-16 and PandarXTM: here the timestamp comes last.
abbrev pub xt_packet_size : ℕ
xt_packet_size = 12 + (4 * 32 + 2) * 8 + 28

abbrev pub xt16_packet_size : ℕ
xt16_packet_size = 568

abbrev pub xtm_packet_size : ℕ
xtm_packet_size = 820

abbrev pub xt : Layout
xt = record {
  sizes = xt_packet_size ∷ xt16_packet_size ∷ xtm_packet_size ∷ [];
  head_size = 12;
  protocol_at = some 2;
  laser_at = 6;
  has_confidence = true;
  block_cap = 8;
  unit_cap = 32;
  timestamp_at = 10 + 1 + 2 + 6;
  echo_at = 10;
  addtime_at = 10 + 1 + 2;
}

unfoldable pub parse_l64_data : Bool → List ℕ → ℕ → Parsed Packet
parse_l64_data signed buf len = parse_packet l64 buf signed len

unfoldable pub parse_l20_data : Bool → List ℕ → ℕ → Parsed Packet
parse_l20_data signed buf len = parse_packet l20 buf signed len

unfoldable pub parse_qt_data : Bool → List ℕ → ℕ → Parsed Packet
parse_qt_data signed buf len = parse_packet qt buf signed len

unfoldable pub parse_xt_data : Bool → List ℕ → ℕ → Parsed Packet
parse_xt_data signed buf len = parse_packet xt buf signed len
