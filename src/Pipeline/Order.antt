-- ===== src/Pipeline/Order.antt =====
-- Which packets the processing thread has gone through, and in which order.
use go2_setup.Shared.{
  ℕ, ◌≡◌, refl, ap, ◌∙◌, sym, Bool, List, [], ◌∷◌, ◌++◌, append_assoc, append-nil, if◌then◌else◌,
  ◌==◌, Bool-cases, inl, inr,
}
use mathlib.Core.Path.{subst}
use go2_setup.PacketsBuffer.Invariant.{IsValid, held}
use go2_setup.PacketsBuffer.Fifo.{take_oldest}
use go2_setup.Wire.{Parsed, ok, rejected, fault, ◌>>=◌}
use go2_setup.Wire.Utc.{Tm}
use go2_setup.Points.{Floats, Point}
use go2_setup.Frame.{Framer}
use go2_setup.Driver.{UdpPacket, Device, process_lidar_packet}
use go2_setup.Receiver.{PandarGps, gps_packet_size, parse_gps}
use go2_setup.Pipeline.{Turn, receives, processes, System, run_turns}
use go2_setup.Pipeline.Refine.{
  Model, with_gps, with_oldest, model_turns, FewWait, model_of, Refines, run_turns-Refines,
}

-- The packets that are not of the GPS size, as they arrive.
abbrev pub lidar_packets : (F : Floats) → List (Turn F) → List (UdpPacket F)
lidar_packets F [] = []
lidar_packets F (processes ∷ ts) = lidar_packets F ts
lidar_packets F (receives p ∷ ts) =
    let rest = lidar_packets F ts in if p.size == gps_packet_size then rest else p ∷ rest

module _ (F : Floats) {R : Type 0} (d : Device F) (correction : ℕ → R) (raw : UdpPacket F → R) where
  -- One packet after the other.
  abbrev pub process_all : Framer (Point F) R → List (UdpPacket F) → Parsed (Framer (Point F) R)
  process_all f [] = ok f
  process_all f (p ∷ ps) = process_lidar_packet F d correction raw f p >>= λ f'. process_all f' ps

  -- The frames are those of some packets, which with the ones that wait are all of these, in order.
  abbrev pub Ordered : Framer (Point F) R → List (UdpPacket F) → Parsed (Model F R) → Type 0
  Ordered f all (ok m) =
      (taken : List (UdpPacket F)) × (process_all f taken ≡ ok m.framer) × (taken ++ m.queue ≡ all)
  Ordered f all rejected = Unit
  Ordered f all fault = Unit

module _ (F : Floats) {R : Type 0} (d : Device F) (correction : ℕ → R) (raw : UdpPacket F → R)
    (unix_second : Tm → F.Double) (has_callback : Bool) where
  Ordered-cons :
      (f f' : Framer (Point F) R) (p : UdpPacket F) (all : List (UdpPacket F))
      (o : Parsed (Model F R))
      → process_lidar_packet F d correction raw f p ≡ ok f'
      → Ordered F d correction raw f' all o
      → Ordered F d correction raw f (p ∷ all) o
  Ordered-cons f f' p all (ok m) e (taken, done, rest) = (
    p ∷ taken,
    ap (λ o. o >>= λ g. process_all F d correction raw g taken) e ∙ done,
    ap (◌∷◌ p) rest,
  )
  Ordered-cons f f' p all rejected e h = tt
  Ordered-cons f f' p all fault e h = tt

  gps-Ordered :
      (m : Model F R) (o : Parsed PandarGps) (ts : List (Turn F)) (all : List (UdpPacket F))
      → ((m' : Model F R)
          → m'.queue ≡ m.queue
          → m'.framer ≡ m.framer
          → Ordered F d correction raw m.framer all
              (model_turns F d correction raw unix_second has_callback m' ts))
      → Ordered F d correction raw m.framer all (
          with_gps F d correction raw unix_second has_callback m o >>= λ m'.
          model_turns F d correction raw unix_second has_callback m' ts)
  gps-Ordered m (ok g) ts all next = next _ refl refl
  gps-Ordered m rejected ts all next = next m refl refl
  gps-Ordered m fault ts all next = tt

  taken-Ordered :
      (m : Model F R) (p : UdpPacket F) (q rest : List (UdpPacket F))
      (k : Model F R → Parsed (Model F R)) (o : Parsed (Framer (Point F) R))
      → process_lidar_packet F d correction raw m.framer p ≡ o
      → ((m' : Model F R) → Ordered F d correction raw m'.framer (m'.queue ++ rest) (k m'))
      → Ordered F d correction raw m.framer
          (p ∷ (q ++ rest))
          (o >>= λ f. k (record m { queue = q; framer = f }))
  taken-Ordered m p q rest k (ok f) e next =
      Ordered-cons m.framer f p (q ++ rest) (k (record m { queue = q; framer = f })) e
        (next (record m { queue = q; framer = f }))
  taken-Ordered m p q rest k rejected e next = tt
  taken-Ordered m p q rest k fault e next = tt

  bind_ok :
      {A B C : Type 0} (o : Parsed A) (g : A → B) (k : B → Parsed C)
      → ((o >>= λ a. ok (g a)) >>= k) ≡ (o >>= λ a. k (g a))
  bind_ok (ok a) g k = refl
  bind_ok rejected g k = refl
  bind_ok fault g k = refl

  oldest-Ordered :
      (q : List (UdpPacket F)) (m : Model F R) (rest : List (UdpPacket F))
      (k : Model F R → Parsed (Model F R))
      → ((m' : Model F R) → Ordered F d correction raw m'.framer (m'.queue ++ rest) (k m'))
      → Ordered F d correction raw m.framer
          (q ++ rest)
          (with_oldest F d correction raw unix_second has_callback m (take_oldest q) >>= k)
  oldest-Ordered [] m rest k next = next (record m { queue = [] })
  oldest-Ordered (x ∷ []) m rest k next = next (record m { queue = x ∷ [] })
  oldest-Ordered (x ∷ y ∷ q) m rest k next =
      subst (Ordered F d correction raw m.framer (x ∷ y ∷ (q ++ rest)))
        (sym (
          bind_ok (process_lidar_packet F d correction raw m.framer x)
            (λ f. record m { queue = y ∷ q; framer = f }) k))
        (taken-Ordered m x (y ∷ q) rest k (process_lidar_packet F d correction raw m.framer x) refl
          next)

  model_turns-Ordered :
      (ts : List (Turn F)) (m : Model F R)
      → Ordered F d correction raw m.framer
          (m.queue ++ lidar_packets F ts)
          (model_turns F d correction raw unix_second has_callback m ts)
  unfolding model_turns
  model_turns-Ordered [] m = ([], refl, sym (append-nil m.queue))
  model_turns-Ordered (receives p ∷ ts) m = elim (Bool-cases (p.size == gps_packet_size)) [
    | inl g ↦ rw g (
        gps-Ordered m (parse_gps p.data_bytes p.size) ts (m.queue ++ lidar_packets F ts) (λ m' q f.
          subst
            (λ x.
              Ordered F d correction raw x (m.queue ++ lidar_packets F ts)
                (model_turns F d correction raw unix_second has_callback m' ts))
            f
            (subst
              (λ x.
                Ordered F d correction raw m'.framer (x ++ lidar_packets F ts)
                  (model_turns F d correction raw unix_second has_callback m' ts))
              q (model_turns-Ordered ts m'))))
    | inr g ↦ rw g (
        subst
          (λ x. Ordered F d correction raw m.framer x (
            model_turns F d correction raw unix_second has_callback
              (record m { queue = m.queue ++ (p ∷ []) }) ts))
          (append_assoc m.queue (p ∷ []) (lidar_packets F ts))
          (model_turns-Ordered ts (record m { queue = m.queue ++ (p ∷ []) })))
  ]
  model_turns-Ordered (processes ∷ ts) m =
      oldest-Ordered m.queue m (lidar_packets F ts)
        (λ m'. model_turns F d correction raw unix_second has_callback m' ts)
        (λ m'. model_turns-Ordered ts m')

  outcome-Ordered :
      (f : Framer (Point F) R) (all : List (UdpPacket F)) (a : Parsed (Model F R)) (s : System F R)
      → Refines F d correction raw unix_second has_callback (ok s) a
      → Ordered F d correction raw f all a
      → Ordered F d correction raw f all
          (ok (model_of F d correction raw unix_second has_callback s))
  outcome-Ordered f all (ok m) s h k =
      subst (λ x. Ordered F d correction raw f all (ok x)) (sym h.0) k
  outcome-Ordered f all rejected s h k = absurd h
  outcome-Ordered f all fault s h k = absurd h

  -- From a valid ring on, with at most 1000 packets waiting at any time, where rounds of the two
  -- threads end in a state: its frames are those of processing some packets one after the other,
  -- and these packets, followed by those that wait at the end, are the ones that waited at first
  -- followed by the packets received that are not of the GPS size, each once and in order.
  pub run_turns-Ordered :
      (ts : List (Turn F)) (s s' : System F R)
      → IsValid s.receiver.ring
      → FewWait F d correction raw unix_second has_callback
          (model_of F d correction raw unix_second has_callback s)
          ts
      → run_turns F d correction raw unix_second has_callback s ts ≡ ok s'
      → (taken : List (UdpPacket F)) × (process_all F d correction raw s.framer taken
          ≡ ok s'.framer)
        × (taken ++ held s'.receiver.ring ≡ held s.receiver.ring ++ lidar_packets F ts)
  run_turns-Ordered ts s s' v few e =
      let m = model_of F d correction raw unix_second has_callback s in
      let after = model_turns F d correction raw unix_second has_callback m ts in
      outcome-Ordered s.framer (held s.receiver.ring ++ lidar_packets F ts) after s'
        (subst (λ o. Refines F d correction raw unix_second has_callback o after) e
          (run_turns-Refines F d correction raw unix_second has_callback ts s v few))
        (model_turns-Ordered ts m)
