-- ===== src/Driver.antt =====
-- The processing thread, `ProcessLiarPacket` of pandarGeneral_internal.cc: one round of its loop takes
-- a packet that the buffer gave out, finds the format by size and type, parses, and cuts frames.
pub mod Routing
pub mod Stream
pub mod Cuts
use go2_setup.Shared.{
  ℕ, zero, suc, ◌+◌, ◌*◌, Bool, true, false, not, drop, ◌&&◌, ◌||◌, List, [], ◌∷◌, Option, none,
  some, ltb, leb, ◌==◌, if◌then◌else◌,
}
use go2_setup.Wire.{Parsed, ok, rejected, fault, Header, Packet, Block, contains, char_rounds}
use go2_setup.Wire.Formats.{
  l64_6packet_size, l64_7packet_size, l64_6packet_without_udpseq_size,
  l64_7packet_without_udpseq_size, l20_packet_size, qt_packet_size, qt_packet_without_udpseq_size,
  xt_packet_size, xt16_packet_size, xtm_packet_size, parse_l64_data, parse_l20_data, parse_qt_data,
  parse_xt_data,
}
use go2_setup.Wire.Pandar40.{
  Pandar40Packet, Pandar40Block, laser_count, packet_size, seq_num_size, parse_raw_data,
}
use go2_setup.Frame.{
  Clouds, Framer, add_point, add_point_qt, is_empty, process_packet, unless_overrun,
}
use go2_setup.Points.{Floats, Point, Tables}
use go2_setup.Points.Calc.{
  calc_point_xyzit, calc_l64_point_xyzit, calc_l20_point_xyzit, calc_qt_point_xyzit,
  calc_xt_point_xyzit,
}

-- `m_sLidarType`, with one constructor for the strings that these functions do not compare it to.
pub data LidarType : Type 0 where
  pandar20a : LidarType
  pandar20b : LidarType
  xt_any : LidarType
  xt32 : LidarType
  xt16 : LidarType
  xtm : LidarType
  other : LidarType

-- The branches of the chain of tests on the packet's size; four of the formats have a header.
pub data Headed : Type 0 where
  pandar64 : Headed
  pandar20 : Headed
  pandar_qt : Headed
  pandar_xt : Headed

pub data Format : Type 0 where
  pandar40 : Format
  headed : Headed → Format

-- The last test: each XT type takes its own size.
unfoldable pub is_xt_packet : LidarType → ℕ → Bool
is_xt_packet xt_any size = size == xt_packet_size
is_xt_packet xt32 size = size == xt_packet_size
is_xt_packet xt16 size = size == xt16_packet_size
is_xt_packet xtm size = size == xtm_packet_size
is_xt_packet pandar20a size = false
is_xt_packet pandar20b size = false
is_xt_packet other size = false

-- None for the last `else`, which goes on with the next packet.
unfoldable pub route : LidarType → ℕ → Option Format
route type size =
    if size == packet_size || size == packet_size + seq_num_size
    then some pandar40
    else if (size == l64_6packet_size || size == l64_7packet_size)
        || (size == l64_6packet_without_udpseq_size || size == l64_7packet_without_udpseq_size)
    then some (headed pandar64)
    else if l20_packet_size == size
    then some (headed pandar20)
    else if size == qt_packet_size || size == qt_packet_without_udpseq_size
    then some (headed pandar_qt)
    else if is_xt_packet type size
    then some (headed pandar_xt)
    else none

-- A list with each element's index, from `i` on: the loop over the blocks of a packet.
abbrev pub indexed : {A B : Type 0} → (ℕ → A → B) → ℕ → List A → List B
indexed f i [] = []
indexed f i (x ∷ xs) = f i x ∷ indexed f (i + 1) xs

module _ (F : Floats) where
  open F use {Double}

  -- `PandarPacket`
  pub record UdpPacket : Type 0 where
    pub stamp : Double
    pub data_bytes : List ℕ
    pub size : ℕ

  -- The members that the thread reads; `signed_char` says whether the platform's `char` is signed.
  pub record Device : Type 0 where
    pub lidar_type : LidarType
    pub structured : Bool
    pub has_callback : Bool
    pub start_angle : ℕ
    pub signed_char : Bool
    pub tables : Tables F

-- `HS_LIDAR_L64_BLOCK_NUMBER_6`, the elements of `block64OffsetSingle_` and `block64OffsetDual_`.
abbrev pub l64_block_number : ℕ
l64_block_number = 6

abbrev no_points : {P : Type 0} → List (ℕ × List P) → Bool
no_points [] = true
no_points ((a, ps) ∷ bs) = is_empty ps && no_points bs

abbrev pub is_20a_or_20b : LidarType → Bool
is_20a_or_20b pandar20a = true
is_20a_or_20b pandar20b = true
is_20a_or_20b xt_any = false
is_20a_or_20b xt32 = false
is_20a_or_20b xt16 = false
is_20a_or_20b xtm = false
is_20a_or_20b other = false

module _ (F : Floats) (d : Device F) where
  -- The tables for this packet: `m_dPktTimestamp = packet.stamp`.
  abbrev pub stamped : UdpPacket F → Tables F
  stamped p = record d.tables { pkt_timestamp = p.stamp }

  -- The blocks of a packet, each with its azimuth and points.
  unfoldable pub blocks40 : Tables F → Pandar40Packet → List (ℕ × List (ℕ × Point F))
  blocks40 t pkt = indexed (λ i b. (b.azimuth, calc_point_xyzit F t pkt i b)) 0 pkt.blocks

  abbrev pub calc_of : Headed → Tables F → Packet → ℕ → Block → List (ℕ × Point F)
  calc_of pandar20 t = calc_l20_point_xyzit F t (is_20a_or_20b d.lidar_type)
  calc_of pandar_qt t = calc_qt_point_xyzit F t
  calc_of pandar_xt t = calc_xt_point_xyzit F t
  calc_of pandar64 t = calc_l64_point_xyzit F t

  unfoldable pub blocks_of : Headed → Tables F → Packet → List (ℕ × List (ℕ × Point F))
  blocks_of f t pkt = indexed (λ i b. (b.azimuth, calc_of f t pkt i b)) 0 pkt.blocks

  -- Unless the time is that of the packet, a point of the seventh block of a Pandar64 packet asks the arrays of block offsets, of six
  -- elements, for a seventh.
  abbrev pub overreads : Headed → List (ℕ × List (ℕ × Point F)) → Bool
  overreads pandar64 blocks =
      not d.tables.realtime && not (no_points (drop l64_block_number blocks))
  overreads pandar20 blocks = false
  overreads pandar_qt blocks = false
  overreads pandar_xt blocks = false

  abbrev pub add_of : Headed → Clouds (Point F) → ℕ × Point F → Clouds (Point F)
  add_of pandar_qt = add_point_qt d.structured
  add_of pandar64 = add_point d.structured
  add_of pandar20 = add_point d.structured
  add_of pandar_xt = add_point d.structured

  module _ {R : Type 0} (correction : ℕ → R) (raw : UdpPacket F → R) where
    -- `if (ret != 0) continue;`
    abbrev pub unless_rejected :
        {A : Type 0}
        → Framer (Point F) R
        → (A → Parsed (Framer (Point F) R))
        → Parsed A
        → Parsed (Framer (Point F) R)
    unless_rejected s k (ok a) = k a
    unless_rejected s k rejected = ok s
    unless_rejected s k fault = fault

    -- A packet of a format with a header, after the parse.
    unfoldable pub process_parsed :
        Headed → Framer (Point F) R → UdpPacket F → Packet → Parsed (Framer (Point F) R)
    process_parsed f s p pkt =
        if overreads f (blocks_of f (stamped p) pkt)
        then fault
        else unless_overrun (
            process_packet d.structured d.has_callback d.start_angle correction (add_of f)
              (char_rounds d.signed_char pkt.header.laser_number) s (raw p)
              (blocks_of f (stamped p) pkt))

    unfoldable pub process_parsed40 :
        Framer (Point F) R → UdpPacket F → Pandar40Packet → Parsed (Framer (Point F) R)
    process_parsed40 s p pkt = unless_overrun (
        process_packet d.structured d.has_callback d.start_angle correction (add_point d.structured)
          laser_count s (raw p) (blocks40 (stamped p) pkt))

    unfoldable pub process_format :
        Format → Framer (Point F) R → UdpPacket F → Parsed (Framer (Point F) R)
    process_format pandar40 s p =
        unless_rejected s (process_parsed40 s p) (parse_raw_data p.data_bytes p.size)
    process_format (headed pandar64) s p =
        unless_rejected s (process_parsed pandar64 s p)
          (parse_l64_data d.signed_char p.data_bytes p.size)
    process_format (headed pandar20) s p =
        unless_rejected s (process_parsed pandar20 s p)
          (parse_l20_data d.signed_char p.data_bytes p.size)
    process_format (headed pandar_qt) s p =
        unless_rejected s (process_parsed pandar_qt s p)
          (parse_qt_data d.signed_char p.data_bytes p.size)
    process_format (headed pandar_xt) s p =
        unless_rejected s (process_parsed pandar_xt s p)
          (parse_xt_data d.signed_char p.data_bytes p.size)

    abbrev pub process_routed :
        Framer (Point F) R → UdpPacket F → Option Format → Parsed (Framer (Point F) R)
    process_routed s p none = ok s
    process_routed s p (some f) = process_format f s p

    -- One round of the loop, once a packet is there.
    unfoldable pub process_lidar_packet :
        Framer (Point F) R → UdpPacket F → Parsed (Framer (Point F) R)
    process_lidar_packet s p = process_routed s p (route d.lidar_type p.size)
