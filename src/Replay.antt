-- ===== src/Replay.antt =====
-- Playing a recorded scan back: `PushScanPacket` of pandarGeneral_internal.cc, with the tables, the flag
-- `got_lidar_correction_flag` and the ring that it writes.
pub mod Saved
pub mod Order
pub mod Frames
use go2_setup.Shared.{
  ℕ, zero, suc, ◌+◌, ◌*◌, Bool, true, false, ◌&&◌, List, [], ◌∷◌, ◌++◌, Option, none, some, leb,
  ◌==◌, if◌then◌else◌, length, take, drop, pos,
}
use go2_setup.PacketsBuffer.{PacketsBuffer, push_back}
use go2_setup.Wire.{Parsed, ok, rejected, fault, fault_unless, present, read, ◌>>=◌, ◌>>◌}
use go2_setup.Points.{Floats}
use go2_setup.Driver.{UdpPacket}
use go2_setup.Correction.{Numerals, Locals, AngleTable, load_correction_file}

-- `std::string(buffer)` for memory that starts with these bytes: up to the first null byte, none if
-- there is none.
unfoldable pub c_text : List ℕ → Option (List ℕ)
c_text [] = none
c_text (b ∷ bs) =
    let rest = c_text bs in
    if b == 0 then some [] else elim rest [ none ↦ none | some cs ↦ some (b ∷ cs) ]

-- `PandarPacket` of the message
pub record ScanPacket : Type 0 where
  pub sec : ℕ
  pub nanosec : ℕ
  pub data_bytes : List ℕ
  pub size : ℕ

-- `ETHERNET_MTU`, the length of `PandarPacket::data`.
abbrev pub ethernet_mtu : ℕ
ethernet_mtu = 1500

-- `data[0] == 0x47 && data[1] == 0x74`
unfoldable pub is_correction : List ℕ → Parsed Bool
is_correction bytes = do
  b0 ← read bytes 0
  if b0 == 0x47 then (read bytes 1 >>= λ b1. ok (b1 == 0x74)) else ok false

unfoldable pub correction_length : List ℕ → Parsed ℕ
correction_length bytes = do
  b0 ← read bytes 4
  b1 ← read bytes 5
  b2 ← read bytes 6
  b3 ← read bytes 7
  ok (b0 * 16777216 + b1 * 65536 + b2 * 256 + b3)

module _ (F : Floats) where
  open F use {Double, add, div, of_ℤ, decimal}

  pub record Replay : Type 0 where
    pub table : AngleTable F
    pub got_correction : Bool
    pub ring : PacketsBuffer (UdpPacket F)

  -- The packet that a message stands for.
  abbrev pub packet_of : ScanPacket → UdpPacket F
  packet_of p = record {
    stamp = add (of_ℤ (pos p.sec)) (div (of_ℤ (pos p.nanosec)) (decimal 1000000000 0));
    data_bytes = take p.size p.data_bytes;
    size = p.size;
  }

module _ (F : Floats) where
  open F use {Double}

  -- `rawpacket` of `ProcessLiarPacket`: the message that the scan records for a packet. `seconds` is
  -- `floor`, `nanoseconds` the fraction times 10 ^ 9.
  unfoldable pub raw_message : (Double → ℕ) → (Double → ℕ) → UdpPacket F → ScanPacket
  raw_message seconds nanoseconds p = record {
    sec = seconds p.stamp;
    nanosec = nanoseconds p.stamp;
    data_bytes = take p.size p.data_bytes;
    size = p.size;
  }

-- `locals` are the uninitialised locals of `LoadCorrectionFile`, `behind` is the memory behind a buffer
-- that a text was copied into, `file` what `correction_file_path_` holds, none if it does not open.
module _ (F : Floats) (num : Numerals F) (locals : Locals F) (behind : List ℕ)
    (file : Option (List ℕ)) where
  -- `std::string(buffer)` and `LoadCorrectionFile`; the buffers have no null byte at their end.
  unfoldable pub load_text : List ℕ → AngleTable F → Parsed (AngleTable F)
  load_text bytes t = do
    text ← present (c_text (bytes ++ behind))
    load_correction_file F num locals text t

  -- `correction_file_path_`, after which the flag is set in any case.
  unfoldable pub load_file : Replay F → Option (List ℕ) → Parsed (Replay F)
  load_file r none = ok (record r { got_correction = true })
  load_file r (some bytes) = do
    t ← load_text bytes r.table
    ok (record r { table = t; got_correction = true })

  unfoldable pub load_sized : Replay F → ScanPacket → Parsed (Replay F)
  load_sized r p = do
    fault_unless (leb (8 + p.size) (length p.data_bytes))
    t ← load_text (take p.size (drop 8 p.data_bytes)) r.table
    ok (record r { table = t; got_correction = true })

  -- The text behind the eight bytes of a packet's header, if the header has its length.
  unfoldable pub load_message : Replay F → ScanPacket → Parsed (Replay F)
  load_message r p = do
    len ← correction_length p.data_bytes
    if len == p.size then load_sized r p else load_file r file

  unfoldable pub push_raw : Replay F → ScanPacket → Parsed (Replay F)
  push_raw r p = do
    fault_unless (leb p.size ethernet_mtu && leb p.size (length p.data_bytes))
    ok (record r { ring = (push_back r.ring (packet_of F p)).0 })

  -- A packet of either kind, once it is known which.
  abbrev pub push_kind : Replay F → ScanPacket → Bool → Parsed (Replay F)
  push_kind r p true = if r.got_correction then ok r else load_message r p
  push_kind r p false = push_raw r p

  unfoldable pub push_one : Replay F → ScanPacket → Parsed (Replay F)
  push_one r p = is_correction p.data_bytes >>= push_kind r p

  unfoldable pub push_scan_packet : Replay F → List ScanPacket → Parsed (Replay F)
  push_scan_packet r [] = ok r
  push_scan_packet r (p ∷ ps) = do r' ← push_one r p; push_scan_packet r' ps
