-- ===== src/Replay/Order.antt =====
-- What a whole scan does to the ring once a correction is there.
use go2_setup.Shared.{
  ℕ, ◌≤◌, ◌≡◌, refl, Bool, true, ◌&&◌, List, [], ◌∷◌, Option, arith, ◌==◌, if◌then◌else◌, length,
  get_or, All,
}
use go2_setup.PacketsBuffer.{PacketsBuffer, push_back}
use go2_setup.Wire.{ok}
use go2_setup.Wire.Read.{read_within}
use go2_setup.Points.{Floats}
use go2_setup.Driver.{UdpPacket}
use go2_setup.Correction.{Numerals, Locals}
use go2_setup.Replay.{
  ScanPacket, ethernet_mtu, is_correction, Replay, packet_of, push_raw, push_one, push_scan_packet,
}

-- A packet starts with the magic number of a correction.
abbrev pub has_magic : ScanPacket → Bool
has_magic p = get_or p.data_bytes 0 0 == 0x47 && get_or p.data_bytes 1 0 == 0x74

-- The array of the message holds two bytes and the announced size, which fits a `PandarPacket`.
pub record IsPlayable (p : ScanPacket) : Type 0 where
  pub start : 2 ≤ length p.data_bytes
  pub whole : p.size ≤ length p.data_bytes
  pub fits : p.size ≤ ethernet_mtu

pub is_correction_lem :
    (p : ScanPacket) → IsPlayable p → is_correction p.data_bytes ≡ ok (has_magic p)
unfolding is_correction
is_correction_lem p h = ground (arith, read_within p.data_bytes 0, read_within p.data_bytes 1)

module _ (F : Floats) where
  -- The specification: every packet but the corrections goes into the ring, in order.
  abbrev pub push_all : PacketsBuffer (UdpPacket F) → List ScanPacket → PacketsBuffer (UdpPacket F)
  push_all b [] = b
  push_all b (p ∷ ps) = push_all (if has_magic p then b else (push_back b (packet_of F p)).0) ps

module _ (F : Floats) (num : Numerals F) (locals : Locals F) (behind : List ℕ)
    (file : Option (List ℕ)) where
  push_one-IsPlayable :
      (r : Replay F) (p : ScanPacket)
      → r.got_correction ≡ true
      → IsPlayable p
      → push_one F num locals behind file r p
        ≡ ok (record r {
          ring = if has_magic p then r.ring else (push_back r.ring (packet_of F p)).0;
        })
  unfolding push_one push_raw
  push_one-IsPlayable r p g h = ground (arith, is_correction_lem p h)

  -- Once the flag is set, a scan whose packets have two bytes, are as long as they say and fit an
  -- array of 1500 bytes is played back without a fault: every packet but those that start with the
  -- magic number of a correction goes into the ring, in order, and the table stays as it is.
  pub push_scan_packet-IsPlayable :
      (r : Replay F) (ps : List ScanPacket)
      → r.got_correction ≡ true
      → All IsPlayable ps
      → push_scan_packet F num locals behind file r ps
        ≡ ok (record r { ring = push_all F r.ring ps })
  unfolding push_scan_packet
  push_scan_packet-IsPlayable r [] g h = refl
  push_scan_packet-IsPlayable r (p ∷ ps) g h = rw (push_one-IsPlayable r p g h.0) (
      push_scan_packet-IsPlayable
        (record r { ring = if has_magic p then r.ring else (push_back r.ring (packet_of F p)).0 })
        ps g h.1)
