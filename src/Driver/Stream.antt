-- ===== src/Driver/Stream.antt =====
-- What one packet does to the frames, from its bytes on.
use go2_setup.Shared.{
  ℕ, ◌≤◌, ◌≡◌, ◌≢◌, ap, ◌∙◌, false, none, some, List, ◌++◌, arith, ◌⊎◌, inl, inr, map, length, All,
}
use go2_setup.Wire.{Parsed, ok, rejected, Packet, parse_packet}
use go2_setup.Wire.Formats.{parse_l64_data, parse_l20_data, parse_qt_data, parse_xt_data}
use go2_setup.Wire.RoundTrip.{HeaderFits}
use go2_setup.Wire.Bounds.{sob_in, parse_packet-rejected}
use go2_setup.Wire.Pandar40.{blocks_per_packet}
use go2_setup.Wire.Pandar40.RoundTrip.{
  Shot, ShotFits, write_shots, block_of, packet_with, parse_raw_data-write,
}
use go2_setup.Frame.{Framer, add_point, add_point_qt}
use go2_setup.Points.{Floats, Point}
use go2_setup.Driver.{
  Headed, pandar64, pandar20, pandar_qt, pandar_xt, pandar40, headed, route, UdpPacket, Device,
  add_of, process_parsed, process_parsed40, process_format, process_lidar_packet, unless_rejected,
  process_routed,
}
use go2_setup.Driver.Routing.{layout_of, route-Accepts}

pub layout_of-HeaderFits : (f : Headed) → HeaderFits (layout_of f)
layout_of-HeaderFits pandar64 = record { head = omega arith; protocol = tt }
layout_of-HeaderFits pandar20 = record { head = omega arith; protocol = tt }
layout_of-HeaderFits pandar_qt = record { head = omega arith; protocol = omega arith }
layout_of-HeaderFits pandar_xt = record { head = omega arith; protocol = omega arith }

module _ (F : Floats) (d : Device F) {R : Type 0} (correction : ℕ → R) (raw : UdpPacket F → R) where
  pub process_lidar_packet-headed :
      (s : Framer (Point F) R) (p : UdpPacket F) (f : Headed) (o : Parsed Packet)
      → route d.lidar_type p.size ≡ some (headed f)
      → parse_packet (layout_of f) p.data_bytes d.signed_char p.size ≡ o
      → process_lidar_packet F d correction raw s p
        ≡ unless_rejected F d correction raw s (process_parsed F d correction raw f s p) o
  unfolding process_lidar_packet process_format parse_l64_data parse_l20_data parse_qt_data
      parse_xt_data
  process_lidar_packet-headed s p pandar64 o r e =
      ap (process_routed F d correction raw s p) r
      ∙ ap (unless_rejected F d correction raw s (process_parsed F d correction raw pandar64 s p)) e
  process_lidar_packet-headed s p pandar20 o r e =
      ap (process_routed F d correction raw s p) r
      ∙ ap (unless_rejected F d correction raw s (process_parsed F d correction raw pandar20 s p)) e
  process_lidar_packet-headed s p pandar_qt o r e =
      ap (process_routed F d correction raw s p) r
      ∙ ap (unless_rejected F d correction raw s (process_parsed F d correction raw pandar_qt s p))
          e
  process_lidar_packet-headed s p pandar_xt o r e =
      ap (process_routed F d correction raw s p) r
      ∙ ap (unless_rejected F d correction raw s (process_parsed F d correction raw pandar_xt s p))
          e

  pub add_of-plain : (f : Headed) → d.structured ≡ false → add_of F d f ≡ add_point false
  unfolding add_point add_point_qt
  add_of-plain pandar64 h = rw h
  add_of-plain pandar20 h = rw h
  add_of-plain pandar_qt h = rw h
  add_of-plain pandar_xt h = rw h

  pub process_lidar_packet-pandar40 :
      (s : Framer (Point F) R) (p : UdpPacket F) (ss : List Shot) (tail : List ℕ)
      → route d.lidar_type p.size ≡ some pandar40
      → p.data_bytes ≡ write_shots ss ++ tail
      → length ss ≡ blocks_per_packet
      → All ShotFits ss
      → 22 ≤ length tail
      → process_lidar_packet F d correction raw s p
        ≡ process_parsed40 F d correction raw s p (packet_with (map block_of ss) tail)
  unfolding process_lidar_packet process_format
  process_lidar_packet-pandar40 s p ss tail r e count fits long =
      ap (process_routed F d correction raw s p) r
      ∙ ap (unless_rejected F d correction raw s (process_parsed40 F d correction raw s p)) (
          parse_raw_data-write p.data_bytes tail ss p.size
            (route-Accepts d.lidar_type p.size pandar40 r) count fits e long)

  -- A packet of a size that the lidar's type has no parser for, or one that is routed to a format
  -- with a header, is as long as that header and does not start with 0xEEFF, leaves frames, points
  -- and scan as they were.
  pub process_lidar_packet-ignored :
      (s : Framer (Point F) R) (p : UdpPacket F)
      → (route d.lidar_type p.size ≡ none)
        ⊎ ((f : Headed) × (route d.lidar_type p.size ≡ some (headed f))
            × ((layout_of f).head_size ≤ length p.data_bytes)
            × (sob_in (layout_of f) p.data_bytes ≢ 0xEEFF))
      → process_lidar_packet F d correction raw s p ≡ ok s
  unfolding process_lidar_packet
  process_lidar_packet-ignored s p (inl r) = ap (process_routed F d correction raw s p) r
  process_lidar_packet-ignored s p (inr (f, r, long, bad)) =
      process_lidar_packet-headed s p f rejected r (
        parse_packet-rejected (layout_of f) p.data_bytes d.signed_char p.size
          (layout_of-HeaderFits f) long (inr bad))
