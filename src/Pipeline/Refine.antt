-- ===== src/Pipeline/Refine.antt =====
-- The two threads with the ring against the same threads with a queue.
use go2_setup.Shared.{
  ℕ, ◌≤◌, ◌<◌, ◌≡◌, refl, sym, arith, Bool, true, false, List, [], ◌∷◌, ◌++◌, Option, none, some,
  length, if◌then◌else◌, ◌==◌, Bool-cases, inl, inr,
}
use mathlib.Core.Path.{subst}
use go2_setup.PacketsBuffer.{PacketsBuffer, poll}
use go2_setup.PacketsBuffer.Invariant.{IsValid, held, lag, push_back-IsValid, poll-IsValid}
use go2_setup.PacketsBuffer.Fifo.{take_oldest, push_back-held, poll-held, lag_small}
use go2_setup.Wire.{Parsed, ok, rejected, fault, ◌>>=◌}
use go2_setup.Wire.Outcome.{Where}
use go2_setup.Wire.Utc.{Tm}
use go2_setup.Points.{Floats, Point}
use go2_setup.Frame.{Framer}
use go2_setup.Driver.{UdpPacket, Device, process_lidar_packet}
use go2_setup.Receiver.{
  PandarGps, gps_packet_size, parse_gps, tm_of_gps, Receiver, process_gps, push_lidar_data,
  if_parsed, recv_round,
}
use go2_setup.Pipeline.{
  Turn, receives, processes, System, with_taken, process_round, turn, run_turns,
}

-- The specification's state: the packets that wait, oldest first, the calls, and the frames.
pub record Model (F : Floats) (R : Type 0) : Type 0 where
  pub queue : List (UdpPacket F)
  pub gps_calls : List F.Double
  pub framer : Framer (Point F) R

process_gps_lem :
    (F : Floats) (unix_second : Tm → F.Double) (has_callback : Bool) (r : Receiver F)
    (g : PandarGps)
    → process_gps F has_callback unix_second r g ≡ record r {
      gps_calls =
          if has_callback then r.gps_calls ++ (unix_second (tm_of_gps g) ∷ []) else r.gps_calls;
    }
unfolding process_gps
process_gps_lem F unix_second true r g = refl
process_gps_lem F unix_second false r g = refl

module _ (F : Floats) {R : Type 0} (d : Device F) (correction : ℕ → R) (raw : UdpPacket F → R)
    (unix_second : Tm → F.Double) (has_callback : Bool) where
  abbrev pub with_gps : Model F R → Parsed PandarGps → Parsed (Model F R)
  with_gps m (ok g) = ok (record m {
    gps_calls =
        if has_callback then m.gps_calls ++ (unix_second (tm_of_gps g) ∷ []) else m.gps_calls;
  })
  with_gps m rejected = ok m
  with_gps m fault = fault

  abbrev pub with_oldest :
      Model F R → List (UdpPacket F) × Option (UdpPacket F) → Parsed (Model F R)
  with_oldest m (q, none) = ok (record m { queue = q })
  with_oldest m (q, some p) = process_lidar_packet F d correction raw m.framer p >>= λ f.
      ok (record m { queue = q; framer = f })

  abbrev pub model_turn : Model F R → Turn F → Parsed (Model F R)
  model_turn m (receives p) =
      if p.size == gps_packet_size
      then with_gps m (parse_gps p.data_bytes p.size)
      else ok (record m { queue = m.queue ++ (p ∷ []) })
  model_turn m processes = with_oldest m (take_oldest m.queue)

  unfoldable pub model_turns : Model F R → List (Turn F) → Parsed (Model F R)
  model_turns m [] = ok m
  model_turns m (t ∷ ts) = model_turn m t >>= λ m'. model_turns m' ts

  -- At most 1000 packets wait at any time.
  unfoldable pub FewWait : Model F R → List (Turn F) → Type 0
  FewWait m [] = length m.queue ≤ 1000
  FewWait m (t ∷ ts) = (length m.queue ≤ 1000) × Where (λ m'. FewWait m' ts) (model_turn m t)

  abbrev pub model_of : System F R → Model F R
  model_of s = record {
    queue = held s.receiver.ring;
    gps_calls = s.receiver.gps_calls;
    framer = s.framer;
  }

  -- The same outcome, with a valid ring if there is a state.
  abbrev pub Refines : Parsed (System F R) → Parsed (Model F R) → Type 0
  Refines (ok s) (ok m) = (model_of s ≡ m) × IsValid s.receiver.ring
  Refines rejected rejected = Unit
  Refines fault fault = Unit
  Refines (ok s) rejected = ⊥
  Refines (ok s) fault = ⊥
  Refines rejected (ok m) = ⊥
  Refines rejected fault = ⊥
  Refines fault (ok m) = ⊥
  Refines fault rejected = ⊥

  gps-Refines :
      (s : System F R) (o : Parsed PandarGps)
      → IsValid s.receiver.ring
      → Refines
          (if_parsed F has_callback unix_second s.receiver o >>= λ r.
            ok (record s { receiver = r }))
          (with_gps (model_of s) o)
  unfolding process_gps
  gps-Refines s (ok g) v =
      subst
        (λ (r : Receiver F).
          Refines (ok (record s { receiver = r })) (with_gps (model_of s) (ok g)))
        (sym (process_gps_lem F unix_second has_callback s.receiver g)) (refl, v)
  gps-Refines s rejected v = (refl, v)
  gps-Refines s fault v = tt

  receives-Refines :
      (s : System F R) (p : UdpPacket F)
      → IsValid s.receiver.ring
      → length (held s.receiver.ring) ≤ 1000
      → Refines
          (turn F d correction raw unix_second has_callback s (receives p))
          (model_turn (model_of s) (receives p))
  unfolding turn recv_round push_lidar_data
  receives-Refines s p v few = elim (Bool-cases (p.size == gps_packet_size)) [
    | inl g ↦ rw g (gps-Refines s (parse_gps p.data_bytes p.size) v)
    | inr g ↦
        let room : lag s.receiver.ring < 1000 = lag_small v few in
        let e = (push_back-held p v (omega arith)).0 in
        rw g (
          λ i. record { queue = e i; gps_calls = s.receiver.gps_calls; framer = s.framer },
          push_back-IsValid p v,
        )
  ]

  taken-Refines :
      (s : System F R) (ring : PacketsBuffer (UdpPacket F)) (q : List (UdpPacket F))
      (out : Option (UdpPacket F))
      → held ring ≡ q
      → IsValid ring
      → Refines
          (with_taken F d correction raw unix_second
            (record s.receiver { ring = ring })
            s.framer
            out)
          (with_oldest (model_of s) (q, out))
  taken-Refines s ring q none e v =
      (λ i. record { queue = e i; gps_calls = s.receiver.gps_calls; framer = s.framer }, v)
  taken-Refines s ring q (some p) e v =
      elim (process_lidar_packet F d correction raw s.framer p)
        as (λ o.
          Refines
            (o >>= λ f. ok (record { receiver = record s.receiver { ring = ring }; framer = f }))
            (o >>= λ f. ok (record { queue = q; gps_calls = s.receiver.gps_calls; framer = f }))) [
              | ok f ↦
                  (λ i. record { queue = e i; gps_calls = s.receiver.gps_calls; framer = f }, v)
              | rejected ↦ tt
              | fault ↦ tt
            ]

  processes-Refines :
      (s : System F R)
      → IsValid s.receiver.ring
      → length (held s.receiver.ring) ≤ 1000
      → Refines
          (turn F d correction raw unix_second has_callback s processes)
          (model_turn (model_of s) processes)
  unfolding turn process_round
  processes-Refines s v few =
      let (b, out) = poll s.receiver.ring in
      let e : ◌≡◌ {A = List (UdpPacket F) × Option (UdpPacket F)} (held b, out)
          (take_oldest (held s.receiver.ring)) =
        poll-held v (lag_small v few) in
      subst
        (λ (x : List (UdpPacket F) × Option (UdpPacket F)).
          Refines
            (with_taken F d correction raw unix_second (record s.receiver { ring = b }) s.framer
              out)
            (with_oldest (model_of s) x))
        e (taken-Refines s b (held b) out refl (poll-IsValid v))

  turn-Refines :
      (s : System F R) (t : Turn F)
      → IsValid s.receiver.ring
      → length (held s.receiver.ring) ≤ 1000
      → Refines (turn F d correction raw unix_second has_callback s t) (model_turn (model_of s) t)
  turn-Refines s (receives p) v few = receives-Refines s p v few
  turn-Refines s processes v few = processes-Refines s v few

  FewWait-now : (m : Model F R) (ts : List (Turn F)) → FewWait m ts → length m.queue ≤ 1000
  unfolding FewWait
  FewWait-now m [] h = h
  FewWait-now m (t ∷ ts) h = h.0

  bind-Refines :
      (o : Parsed (System F R)) (a : Parsed (Model F R)) (ts : List (Turn F))
      → Refines o a
      → Where (λ m. FewWait m ts) a
      → ((s : System F R)
          → IsValid s.receiver.ring
          → FewWait (model_of s) ts
          → Refines
              (run_turns F d correction raw unix_second has_callback s ts)
              (model_turns (model_of s) ts))
      → Refines
          (o >>= λ s. run_turns F d correction raw unix_second has_callback s ts)
          (a >>= λ m. model_turns m ts)
  bind-Refines (ok s) (ok m) ts h few next =
      subst
        (λ x.
          Refines (run_turns F d correction raw unix_second has_callback s ts) (model_turns x ts))
        h.0 (next s h.1 (subst (λ x. FewWait x ts) (sym h.0) few))
  bind-Refines rejected rejected ts h few next = tt
  bind-Refines fault fault ts h few next = tt
  bind-Refines (ok s) rejected ts h few next = absurd h
  bind-Refines (ok s) fault ts h few next = absurd h
  bind-Refines rejected (ok m) ts h few next = absurd h
  bind-Refines rejected fault ts h few next = absurd h
  bind-Refines fault (ok m) ts h few next = absurd h
  bind-Refines fault rejected ts h few next = absurd h

  -- From a valid ring on, whatever rounds of the receiving and the processing thread follow each
  -- other, as long as at most 1000 packets wait at any time: the two threads end as with a queue
  -- that keeps its newest packet back in place of the ring, rejected or at a fault just when those
  -- are, and otherwise with the same packets waiting, the same GPS calls, the same frames, and a
  -- valid ring.
  pub run_turns-Refines :
      (ts : List (Turn F)) (s : System F R)
      → IsValid s.receiver.ring
      → FewWait (model_of s) ts
      → Refines
          (run_turns F d correction raw unix_second has_callback s ts)
          (model_turns (model_of s) ts)
  unfolding run_turns model_turns FewWait
  run_turns-Refines [] s v few = (refl, v)
  run_turns-Refines (t ∷ ts) s v few =
      bind-Refines (turn F d correction raw unix_second has_callback s t)
        (model_turn (model_of s) t) ts (turn-Refines s t v few.0) few.1 (run_turns-Refines ts)
