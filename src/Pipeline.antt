-- ===== src/Pipeline.antt =====
-- The two threads of the driver together: the receiving thread's rounds with a packet, and the
-- processing thread's, each whole, in the order in which they happen (`RecvTask`, `ProcessLiarPacket`
-- of pandarGeneral_internal.cc).
pub mod Refine
pub mod Order
pub mod Frames
pub mod Drain
pub mod Sockets
use go2_setup.Shared.{ℕ, Bool, List, [], ◌∷◌, Option, none, some}
use go2_setup.PacketsBuffer.{PacketsBuffer, poll}
use go2_setup.Wire.{Parsed, ok, rejected, fault, ◌>>=◌}
use go2_setup.Wire.Utc.{Tm}
use go2_setup.Points.{Floats, Point}
use go2_setup.Frame.{Framer}
use go2_setup.Driver.{UdpPacket, Device, process_lidar_packet}
use go2_setup.Receiver.{Receiver, recv_round}

pub data Turn (F : Floats) : Type 0 where
  receives : UdpPacket F → Turn F
  processes : Turn F

pub record System (F : Floats) (R : Type 0) : Type 0 where
  pub receiver : Receiver F
  pub framer : Framer (Point F) R

module _ (F : Floats) {R : Type 0} (d : Device F) (correction : ℕ → R) (raw : UdpPacket F → R)
    (unix_second : Tm → F.Double) where
  -- What the processing thread does with what it took out of the ring.
  abbrev pub with_taken :
      Receiver F → Framer (Point F) R → Option (UdpPacket F) → Parsed (System F R)
  with_taken r f none = ok (record { receiver = r; framer = f })
  with_taken r f (some p) = process_lidar_packet F d correction raw f p >>= λ f'.
      ok (record { receiver = r; framer = f' })

  -- One round of the loop of `ProcessLiarPacket`, from the test of the ring on.
  unfoldable pub process_round : System F R → Parsed (System F R)
  process_round s =
      let (ring, out) = poll s.receiver.ring in
      with_taken (record s.receiver { ring = ring }) s.framer out

  unfoldable pub turn : Bool → System F R → Turn F → Parsed (System F R)
  turn has_callback s (receives p) =
      recv_round F has_callback unix_second s.receiver (some p) >>= λ r.
      ok (record s { receiver = r })
  turn has_callback s processes = process_round s

  unfoldable pub run_turns : Bool → System F R → List (Turn F) → Parsed (System F R)
  run_turns has_callback s [] = ok s
  run_turns has_callback s (t ∷ ts) = turn has_callback s t >>= λ s'. run_turns has_callback s' ts
