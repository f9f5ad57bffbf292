-- ===== src/Replay/Frames.antt =====
-- A frame's scan, recorded by the processing thread and played back.
use go2_setup.Shared.{
  zero, suc, ◌≢◌, take, get_or, ℕ, ◌≤◌, ◌<◌, ◌^◌, ◌≡◌, refl, ap, ◌∙◌, Bool, true, false, List, [],
  ◌∷◌, ◌++◌, Option, arith, length, All,
}
use go2_setup.PacketsBuffer.{PacketsBuffer, push_back}
use go2_setup.Wire.{Parsed, ok, rejected, fault, ◌>>=◌}
use go2_setup.Points.{Floats}
use go2_setup.Driver.{UdpPacket}
use go2_setup.Frame.{Clouds, Emission, Framer, frame_ends, process_block, emit_back_message}
use go2_setup.Correction.{Numerals, Locals, AngleTable, lines_of, correction_content}
use go2_setup.Correction.RoundTrip.{PrintsFields, EndsShort, IsReread}
use go2_setup.Replay.{
  ScanPacket, ethernet_mtu, raw_message, Replay, packet_of, push_raw, push_one, push_scan_packet,
}
use go2_setup.Replay.Order.{has_magic, IsPlayable, is_correction_lem}
use go2_setup.Replay.Saved.{saved_message, NoNull, push_one-saved}

-- A packet of the lidar: it can be played back and does not start like a correction.
pub record IsRaw (p : ScanPacket) : Type 0 where
  pub playable : IsPlayable p
  pub other : has_magic p ≡ false

bind_ok : {A : Type 0} (o : Parsed A) → (o >>= λ a. ok a) ≡ o
bind_ok (ok a) = refl
bind_ok rejected = refl
bind_ok fault = refl

module _ (F : Floats) where
  -- The ring after these packets.
  abbrev pub push_each : PacketsBuffer (UdpPacket F) → List ScanPacket → PacketsBuffer (UdpPacket F)
  push_each b [] = b
  push_each b (p ∷ ps) = push_each (push_back b (packet_of F p)).0 ps

get_or-take : (n i : ℕ) (xs : List ℕ) (d : ℕ) → i < n → get_or (take n xs) i d ≡ get_or xs i d
get_or-take zero i xs d h = ground arith
get_or-take (suc n) i [] d h = refl
get_or-take (suc n) zero (x ∷ xs) d h = refl
get_or-take (suc n) (suc i) (x ∷ xs) d h = get_or-take n i xs d (omega arith)

length-take_all : (n : ℕ) (xs : List ℕ) → n ≤ length xs → length (take n xs) ≡ n
length-take_all zero xs h = refl
length-take_all (suc n) [] h = ground arith
length-take_all (suc n) (x ∷ xs) h = ap suc (length-take_all n xs (omega arith))

-- The message of a packet of the lidar, which does not start with 0x47.
pub raw_message-IsRaw :
    (F : Floats) (seconds nanoseconds : F.Double → ℕ) (p : UdpPacket F)
    → 2 ≤ p.size
    → p.size ≤ length p.data_bytes
    → p.size ≤ ethernet_mtu
    → get_or p.data_bytes 0 0 ≢ 0x47
    → IsRaw (raw_message F seconds nanoseconds p)
unfolding raw_message
raw_message-IsRaw F seconds nanoseconds p two there fits first = record {
  playable = record {
    start = omega (arith, length-take_all p.size p.data_bytes there);
    whole = omega (arith, length-take_all p.size p.data_bytes there);
    fits = fits;
  };
  other = ground (arith, get_or-take p.size 0 p.data_bytes 0 (omega arith), first);
}

module _ (F : Floats) (num : Numerals F) (locals : Locals F) (behind : List ℕ)
    (file : Option (List ℕ)) where
  push_one-IsRaw :
      (r : Replay F) (p : ScanPacket)
      → IsRaw p
      → push_one F num locals behind file r p
        ≡ ok (record r { ring = (push_back r.ring (packet_of F p)).0 })
  unfolding push_one push_raw
  push_one-IsRaw r p h =
      ground (arith, is_correction_lem p h.playable, h.other, h.playable.whole, h.playable.fits)

  pub push_scan_packet-IsRaw :
      (r : Replay F) (ps : List ScanPacket) (last : ScanPacket)
      → All IsRaw ps
      → push_scan_packet F num locals behind file r (ps ++ (last ∷ []))
        ≡ push_one F num locals behind file (record r { ring = push_each F r.ring ps }) last
  unfolding push_scan_packet
  push_scan_packet-IsRaw r [] last h = bind_ok (push_one F num locals behind file r last)
  push_scan_packet-IsRaw r (p ∷ ps) last h = rw (push_one-IsRaw r p h.0) (
      push_scan_packet-IsRaw (record r { ring = (push_back r.ring (packet_of F p)).0 }) ps last h.1)

  module _ {P : Type 0} (structured has_callback : Bool) (start : ℕ) (t : AngleTable F) where
    -- Where a block ends a frame, the frame that the callback is given can be played back: its
    -- scan, raw packets that fit their arrays and do not start like a correction, with the
    -- correction packet of a table for at most 64 lasers behind them, goes without a fault into a
    -- new player whose flag is not set; then the ring has taken each raw packet, in order, the flag
    -- is set, and the table is the recorded one, each number as it reads back. Numbers print as
    -- fields without commas, line ends and null bytes, an `int` reads back, the text is shorter
    -- than 2 ^ 32, and the memory behind the buffer has a null byte, with a line of less than 5
    -- characters up to it.
    pub process_block-replayed :
        (add : Clouds P → ℕ × P → Clouds P) (lasers : ℕ) (s : Framer P ScanPacket)
        (block : ℕ × List (ℕ × P)) (r : Replay F) (garbage more : List ℕ)
        → PrintsFields F num
        → r.got_correction ≡ false
        → lasers ≤ 64
        → length (correction_content F num t lasers) < 2 ^ 32
        → behind ≡ garbage ++ (0 ∷ more)
        → NoNull garbage
        → EndsShort (lines_of garbage)
        → frame_ends has_callback start s block.0 ≡ true
        → All IsRaw s.scan
        → (e : Emission P ScanPacket) × (r' : Replay F) × ((process_block structured has_callback
              start
              (λ n. saved_message F num t n 0 0)
              add
              lasers
              s
              block).emitted
            ≡ s.emitted ++ (e ∷ []))
          × (push_scan_packet F num locals behind file r e.packets ≡ ok r')
          × (r'.got_correction ≡ true)
          × (r'.ring ≡ push_each F r.ring s.scan)
          × IsReread F num locals t r.table r'.table lasers
    unfolding process_block
    process_block-replayed add lasers s block r garbage more h flag room small b k short ends raws =
        let out = emit_back_message structured lasers s.clouds in
        let pushed : Replay F = record r { ring = push_each F r.ring s.scan } in
        let last = saved_message F num t lasers 0 0 in
        let (r', e, got, ring, q) =
          push_one-saved F num locals behind file pushed t lasers 0 0 garbage more h flag room small
            b k short in
        (
          record { points = out.0; packets = s.scan ++ (last ∷ []) },
          r',
          simp (ends) (refl),
          push_scan_packet-IsRaw r s.scan last raws ∙ e,
          got,
          ring,
          q,
        )
