-- ===== src/Pipeline/Frames.antt =====
-- The two threads from the bytes that arrive to the frames.
use go2_setup.Shared.{
  ℕ, ◌<◌, ◌≡◌, ◌≢◌, ◌⊎◌, Bool, false, List, [], ◌∷◌, ◌++◌, map, All, take, drop, ◌==◌,
}
use go2_setup.PacketsBuffer.Invariant.{held}
use go2_setup.Wire.{Parsed, ok, fault}
use go2_setup.Wire.Utc.{Tm}
use go2_setup.Points.{Floats, Point}
use go2_setup.Frame.Cutter.{Cutter}
use go2_setup.Frame.Cutter.Refine.{Refines}
use go2_setup.Driver.{UdpPacket, Device}
use go2_setup.Driver.Cuts.{HasRoomAll, Delivered, IsSound, cut_packets}
use go2_setup.Receiver.{gps_packet_size, parse_gps}
use go2_setup.Pipeline.{Turn, receives, processes, System}
use go2_setup.Pipeline.Refine.{Model}
use go2_setup.Pipeline.Refine as Refine

-- A packet of the GPS size is read without a fault.
abbrev pub GpsReads : (F : Floats) → List (Turn F) → Type 0
GpsReads F [] = Unit
GpsReads F (processes ∷ ts) = GpsReads F ts
GpsReads F (receives p ∷ ts) =
    (((p.size == gps_packet_size) ≡ false) ⊎ (parse_gps p.data_bytes p.size ≢ fault))
    × GpsReads F ts

module _ (F : Floats) {R : Type 0} (d : Device F) (correction : ℕ → R) (raw : UdpPacket F → R)
    (unix_second : Tm → F.Double) (has_callback : Bool) (lasers : ℕ) where
  abbrev packets_of : List (Delivered F) → List (UdpPacket F)
  packets_of = map (λ (x : Delivered F). x.packet)

  -- The outcome: some of the packets are cut, the others wait.
  pub record Cuts (t : Cutter (Point F) R) (xs : List (Delivered F)) (m : Model F R) : Type 0 where
    pub count : ℕ
    pub frames :
        Refines d.structured lasers m.framer
          (cut_packets F d correction raw lasers t (take count xs))
    pub waiting : m.queue ≡ packets_of (drop count xs)

  -- The run ends in such a state.
  abbrev pub Yields : Parsed (Model F R) → Cutter (Point F) R → List (Delivered F) → Type 0
  Yields o t xs = (m : Model F R) × (o ≡ ok m) × Cuts t xs m

  module _ (pos : 0 < lasers) where
    -- What a state has to hold for the rest of the run to cut the packets.
    pub record Ready (rest : List (UdpPacket F)) (m : Model F R) (t : Cutter (Point F) R)
        (xs : List (Delivered F)) : Type 0 where
      pub sound : All (IsSound F d correction raw lasers) xs
      pub packets : packets_of xs ≡ m.queue ++ rest
      pub refined : Refines d.structured lasers m.framer t
      pub room : HasRoomAll F d correction raw lasers t xs

    -- Where the threads end: what has gone through is cut, and the other packets are in the ring.
    abbrev pub CutsSystem : Parsed (System F R) → Cutter (Point F) R → List (Delivered F) → Type 0
    CutsSystem o t xs =
        (s : System F R) × (o ≡ ok s)
        × (n : ℕ) × Refines d.structured lasers s.framer
            (cut_packets F d correction raw lasers t (take n xs))
        × (held s.receiver.ring ≡ packets_of (drop n xs))
