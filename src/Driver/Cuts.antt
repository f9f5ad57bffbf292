-- ===== src/Driver/Cuts.antt =====
-- The frames of a run of packets, from their bytes on, in either mode: the specification of
-- ProcessLiarPacket.
pub mod Refine
use go2_setup.Shared.{
  ℕ, zero, suc, drop, ◌+◌, ◌<◌, ◌≤◌, ◌≡◌, refl, sym, ap, ◌∙◌, Bool, true, false, List, [], ◌∷◌,
  ◌++◌, arith, ◌⊎◌, inl, inr, some, none, ◌≢◌, map, length, length-map, All, Bool-cases, get_or,
}
use mathlib.Core.Path.{subst}
use go2_setup.Wire.{ok, LidarUnit, Packet, Block, char_rounds}
use go2_setup.Wire.Firings.{Firing, Return, FiresAll, unit_of}
use go2_setup.Wire.Firings as Firings
use go2_setup.Wire.RoundTrip.{Holds, packet_in, parse_packet-Holds, char_rounds_small}
use go2_setup.Frame.{unless_overrun, Clouds, Framer, add_point, process_packet}
use go2_setup.Wire.Bounds.{sob_in}
use go2_setup.Wire.Pandar40.RoundTrip as Pandar40
use go2_setup.Points.Calc.{as_unit}
use go2_setup.Wire.Pandar40.{blocks_per_packet, laser_count}
use go2_setup.Wire.Pandar40.RoundTrip.{Shot, ShotFits, write_shots, block_of, packet_with}
use go2_setup.Frame.Cutter.{RoomFor, Cutter, LasersBelow, cut_blocks}
use go2_setup.Frame.Cutter.Refine.{Refines, process_blocks-Refines}
use go2_setup.Points.{Floats, Point, Tables, calc_units, in_range}
use go2_setup.Points.Calc.{
  calc_point_xyzit, calc_l64_point_xyzit, calc_l20_point_xyzit, calc_qt_point_xyzit,
  calc_xt_point_xyzit,
}
use go2_setup.Driver.{
  l64_block_number, overreads, Headed, pandar64, pandar20, pandar_qt, pandar_xt, headed, route,
  UdpPacket, Device, indexed, stamped, calc_of, blocks_of, add_of, process_parsed, process_parsed40,
  blocks40, pandar40, process_lidar_packet,
}
use go2_setup.Driver.Routing.{layout_of, route-Accepts}
use go2_setup.Driver.Stream.{
  layout_of-HeaderFits, add_of-plain, process_lidar_packet-headed, process_lidar_packet-pandar40,
  process_lidar_packet-ignored,
}

-- What a packet is made of, with its tail.
pub data Content : Type 0 where
  of_firings : Headed → List Firing → List ℕ → Content
  of_shots : List Shot → List ℕ → Content
  ignored : Content

pub record Delivered (F : Floats) : Type 0 where
  pub packet : UdpPacket F
  pub content : Content

abbrev is_qt : Headed → Bool
is_qt pandar_qt = true
is_qt pandar64 = false
is_qt pandar20 = false
is_qt pandar_xt = false

module _ (F : Floats) (d : Device F) {R : Type 0} (correction : ℕ → R) (raw : UdpPacket F → R)
    (lasers : ℕ) where
  -- The mode's own buffer is the only one in use.
  abbrev pub IsPlain : Headed → Type 0
  IsPlain f = (d.structured ≡ false) ⊎ (is_qt f ≡ false)

  -- A Pandar64 has offsets for six blocks.
  abbrev pub HasOffsets : Headed → ℕ → Type 0
  HasOffsets pandar64 blocks = blocks ≤ l64_block_number
  HasOffsets pandar20 blocks = Unit
  HasOffsets pandar_qt blocks = Unit
  HasOffsets pandar_xt blocks = Unit

  -- The packet's bytes hold its content, or nothing that a parser accepts.
  abbrev pub IsContent : UdpPacket F → Content → Type 0
  IsContent p (of_firings f fs tail) =
      (route d.lidar_type p.size ≡ some (headed f))
      × Holds (layout_of f) p.data_bytes lasers fs tail
      × IsPlain f
      × HasOffsets f (length fs)
  IsContent p (of_shots ss tail) =
      (route d.lidar_type p.size ≡ some pandar40)
      × (p.data_bytes ≡ write_shots ss ++ tail)
      × (length ss ≡ blocks_per_packet)
      × All ShotFits ss
      × (22 ≤ length tail)
      × (lasers ≡ laser_count)
  IsContent p ignored =
      (route d.lidar_type p.size ≡ none)
      ⊎ ((f : Headed) × (route d.lidar_type p.size ≡ some (headed f))
          × ((layout_of f).head_size ≤ length p.data_bytes)
          × (sob_in (layout_of f) p.data_bytes ≢ 0xEEFF))

  abbrev pub IsSound : Delivered F → Type 0
  IsSound x = IsContent x.packet x.content

  -- The packet joins the scan, and the blocks are cut.
  abbrev cut_with :
      Cutter (Point F) R → UdpPacket F → List (ℕ × List (ℕ × Point F)) → Cutter (Point F) R
  cut_with t p blocks =
      cut_blocks d.structured d.has_callback d.start_angle correction lasers
        (record t { scan = t.scan ++ (raw p ∷ []) }) blocks

  -- The points of the packet's firings or shots are cut; an ignored one changes nothing.
  abbrev cut_content : Cutter (Point F) R → UdpPacket F → Content → Cutter (Point F) R
  cut_content t p (of_firings f fs tail) =
      cut_with t p (blocks_of F d f (stamped F d p) (packet_in (layout_of f) p.data_bytes fs tail))
  cut_content t p (of_shots ss tail) =
      cut_with t p (blocks40 F d (stamped F d p) (packet_with (map block_of ss) tail))
  cut_content t p ignored = t

  -- While the packet is cut, `PointCloud` has room for what waits.
  abbrev RoomWith : Cutter (Point F) R → UdpPacket F → List (ℕ × List (ℕ × Point F)) → Type 0
  RoomWith t p blocks =
      RoomFor d.structured d.has_callback d.start_angle correction lasers
        (record t { scan = t.scan ++ (raw p ∷ []) }) blocks

  abbrev RoomContent : Cutter (Point F) R → UdpPacket F → Content → Type 0
  RoomContent t p (of_firings f fs tail) =
      RoomWith t p (blocks_of F d f (stamped F d p) (packet_in (layout_of f) p.data_bytes fs tail))
  RoomContent t p (of_shots ss tail) =
      RoomWith t p (blocks40 F d (stamped F d p) (packet_with (map block_of ss) tail))
  RoomContent t p ignored = Unit

  abbrev pub cut_packet : Cutter (Point F) R → Delivered F → Cutter (Point F) R
  cut_packet t x = cut_content t x.packet x.content

  abbrev pub cut_packets : Cutter (Point F) R → List (Delivered F) → Cutter (Point F) R
  cut_packets t [] = t
  cut_packets t (x ∷ xs) = cut_packets (cut_packet t x) xs

  -- `PointCloud` has room all the time, where it is in use.
  abbrev pub HasRoomAll : Cutter (Point F) R → List (Delivered F) → Type 0
  HasRoomAll t [] = Unit
  HasRoomAll t (x ∷ xs) = RoomContent t x.packet x.content × HasRoomAll (cut_packet t x) xs
