-- ===== src/Pipeline/Drain/Waiting.antt =====
-- How many packets wait after rounds of the processing thread.
use go2_setup.Shared.{
  ℕ, zero, suc, ◌+◌, ◌*◌, ◌<◌, ◌≤◌, ◌≡◌, refl, sym, ap, Bool, true, false, List, [], ◌∷◌, ◌++◌,
  length, length-append, Option, none, some, take, drop, replicate, arith, ◌==◌, if◌then◌else◌,
  Bool-cases, inl, inr,
}
use mathlib.Core.Path.{subst}
use go2_setup.PacketsBuffer.Invariant.{IsValid, held}
use go2_setup.PacketsBuffer.Fifo.{take_oldest}
use go2_setup.Wire.{Parsed, ok, rejected, fault}
use go2_setup.Wire.Outcome.{Where, Where-bind, Where-map}
use go2_setup.Wire.Utc.{Tm}
use go2_setup.Points.{Floats}
use go2_setup.Driver.{UdpPacket, Device, process_lidar_packet}
use go2_setup.Receiver.{PandarGps, gps_packet_size, parse_gps}
use go2_setup.Pipeline.{Turn, receives, processes, System, run_turns}
use go2_setup.Pipeline.Refine.{
  Model, with_gps, with_oldest, model_turn, model_turns, FewWait, model_of, run_turns-Refines,
}
use go2_setup.Pipeline.Refine as Refine
use go2_setup.Pipeline.Frames.{GpsReads}
use go2_setup.Pipeline.Order.{lidar_packets}

-- Only the newest element is left.
pub take-drop_last :
    {A : Type 0} (n : ℕ) (ys : List A) (z : A)
    → length (drop n (ys ++ (z ∷ []))) ≡ 1
    → (take n (ys ++ (z ∷ [])) ≡ ys) × (drop n (ys ++ (z ∷ [])) ≡ z ∷ [])
take-drop_last zero [] z h = (refl, refl)
take-drop_last (suc zero) [] z h = absurd (omega arith)
take-drop_last (suc (suc n)) [] z h = absurd (omega arith)
take-drop_last zero (y ∷ ys) z h = absurd (omega (arith, h, length-append ys (z ∷ [])))
take-drop_last (suc n) (y ∷ ys) z h =
    let (first, rest) = take-drop_last n ys z h in (ap (◌∷◌ y) first, rest)

length-when :
    {A : Type 0} (p : A) {b : Bool}
    → b ≡ true
    → (l : List A) → length (if b then l else p ∷ l) ≡ length l
length-when p e l = rw e refl

length-unless :
    {A : Type 0} (p : A) {b : Bool}
    → b ≡ false
    → (l : List A) → length (if b then l else p ∷ l) ≡ suc (length l)
length-unless p e l = rw e refl

always-Where : {A : Type 0} (o : Parsed A) → Where (λ a. Unit) o
always-Where (ok a) = tt
always-Where rejected = tt
always-Where fault = tt

module _ (F : Floats) {R : Type 0} (d : Device F) (correction : ℕ → R) (raw : UdpPacket F → R)
    (unix_second : Tm → F.Double) (has_callback : Bool) where
  abbrev rounds : ℕ → List (Turn F)
  rounds k = replicate k processes

  with_oldest-queue :
      (m : Model F R) (x : List (UdpPacket F) × Option (UdpPacket F))
      → Where (λ m'. m'.queue ≡ x.0) (with_oldest F d correction raw unix_second has_callback m x)
  with_oldest-queue m (q, none) = refl
  with_oldest-queue m (q, some p) =
      Where-bind (λ f. Unit) _ (process_lidar_packet F d correction raw m.framer p) _
        (always-Where (process_lidar_packet F d correction raw m.framer p)) (λ f u. refl)

  with_gps-queue :
      (m : Model F R) (o : Parsed PandarGps)
      → Where (λ m'. m'.queue ≡ m.queue) (with_gps F d correction raw unix_second has_callback m o)
  with_gps-queue m (ok g) = refl
  with_gps-queue m rejected = refl
  with_gps-queue m fault = tt

  length-take_oldest :
      (q : List (UdpPacket F)) (k : ℕ)
      → (length q ≤ suc (suc k) → length (take_oldest q).0 ≤ suc k)
        × (length (take_oldest q).0 ≤ length q)
        × (length q ≤ 2 * length (take_oldest q).0)
  length-take_oldest [] k = (λ h. omega arith, omega arith, omega arith)
  length-take_oldest (x ∷ []) k = (λ h. omega arith, omega arith, omega arith)
  length-take_oldest (x ∷ y ∷ q) k = (λ h. omega arith, omega arith, omega arith)

  -- Of `n` packets only the newest waits.
  abbrev IsDrained : ℕ → Model F R → Type 0
  IsDrained n m = (length m.queue ≤ 1) × (0 < n → 0 < length m.queue)

  rounds-IsDrained :
      (k : ℕ) (m : Model F R)
      → length m.queue ≤ suc k
      → Where
          (IsDrained (length m.queue))
          (model_turns F d correction raw unix_second has_callback m (rounds k))
  unfolding model_turns
  rounds-IsDrained zero m h = (h, λ p. p)
  rounds-IsDrained (suc k) m h =
      Where-bind (λ m'. m'.queue ≡ (take_oldest m.queue).0) _
        (model_turn F d correction raw unix_second has_callback m processes) _
        (with_oldest-queue m (take_oldest m.queue))
        (λ m' e.
          let e' = ap length e in
          let (short, kept, doubled) = length-take_oldest m.queue k in
          Where-map (IsDrained (length m'.queue)) _ _
            (rounds-IsDrained k m' (omega (arith, e', short h)))
            (λ m'' w. (w.0, λ p. w.1 (omega (arith, e', doubled)))))

  turns-IsDrained :
      (ts : List (Turn F)) (k : ℕ) (m : Model F R)
      → length m.queue + length (lidar_packets F ts) ≤ suc k
      → Where
          (IsDrained (length m.queue + length (lidar_packets F ts)))
          (model_turns F d correction raw unix_second has_callback m (ts ++ rounds k))
  unfolding model_turns
  turns-IsDrained [] k m h =
      Where-map (IsDrained (length m.queue)) _ _ (rounds-IsDrained k m (omega arith))
        (λ m' w. (w.0, λ p. w.1 (omega arith)))
  turns-IsDrained (receives p ∷ ts) k m h = elim (Bool-cases (p.size == gps_packet_size)) [
    | inl g ↦ rw g (
        Where-bind (λ m'. m'.queue ≡ m.queue) _
          (with_gps F d correction raw unix_second has_callback m (parse_gps p.data_bytes p.size)) _
          (with_gps-queue m (parse_gps p.data_bytes p.size))
          (λ m' e.
            Where-map (IsDrained (length m'.queue + length (lidar_packets F ts))) _ _
              (turns-IsDrained ts k m'
                (omega (arith, ap length e, length-when p g (lidar_packets F ts))))
              (λ m'' w. (w.0, λ q. w.1 (omega (arith, ap length e))))))
    | inr g ↦ rw g (
        Where-map (IsDrained (length (m.queue ++ (p ∷ [])) + length (lidar_packets F ts))) _ _
          (turns-IsDrained ts k (record m { queue = m.queue ++ (p ∷ []) })
            (omega (arith, length-append m.queue (p ∷ []), length-unless p g (lidar_packets F ts))))
          (λ m'' w. (w.0, λ q. w.1 (omega (arith, length-append m.queue (p ∷ []))))))
  ]
  turns-IsDrained (processes ∷ ts) k m h =
      Where-bind (λ m'. m'.queue ≡ (take_oldest m.queue).0) _
        (model_turn F d correction raw unix_second has_callback m processes) _
        (with_oldest-queue m (take_oldest m.queue))
        (λ m' e.
          let e' = ap length e in
          let (short, kept, doubled) = length-take_oldest m.queue k in
          Where-map (IsDrained (length m'.queue + length (lidar_packets F ts))) _ _
            (turns-IsDrained ts k m' (omega (arith, e', kept)))
            (λ m'' w. (w.0, λ p. w.1 (omega (arith, e', doubled)))))

  rounds-FewWait :
      (k : ℕ) (m : Model F R)
      → length m.queue ≤ 1000
      → FewWait F d correction raw unix_second has_callback m (rounds k)
  unfolding FewWait
  rounds-FewWait zero m h = h
  rounds-FewWait (suc k) m h = (
    h,
    Where-map (λ m'. m'.queue ≡ (take_oldest m.queue).0) _
        (model_turn F d correction raw unix_second has_callback m processes)
        (with_oldest-queue m (take_oldest m.queue))
        (λ m' e.
          let (short, kept, doubled) = length-take_oldest m.queue k in
          rounds-FewWait k m' (omega (arith, ap length e, kept))),
  )

  pub turns-FewWait :
      (ts : List (Turn F)) (k : ℕ) (m : Model F R)
      → FewWait F d correction raw unix_second has_callback m ts
      → FewWait F d correction raw unix_second has_callback m (ts ++ rounds k)
  unfolding FewWait
  turns-FewWait [] k m h = rounds-FewWait k m h
  turns-FewWait (t ∷ ts) k m h = (
    h.0,
    Where-map (λ m'. FewWait F d correction raw unix_second has_callback m' ts) _
        (model_turn F d correction raw unix_second has_callback m t) h.1
        (λ m'. turns-FewWait ts k m'),
  )

  pub lidar_packets-rounds :
      (ts : List (Turn F)) (k : ℕ) → lidar_packets F (ts ++ rounds k) ≡ lidar_packets F ts
  lidar_packets-rounds [] zero = refl
  lidar_packets-rounds [] (suc k) = lidar_packets-rounds [] k
  lidar_packets-rounds (processes ∷ ts) k = lidar_packets-rounds ts k
  lidar_packets-rounds (receives p ∷ ts) k =
      ap (λ rest. if p.size == gps_packet_size then rest else p ∷ rest) (lidar_packets-rounds ts k)

  pub turns-GpsReads : (ts : List (Turn F)) (k : ℕ) → GpsReads F ts → GpsReads F (ts ++ rounds k)
  turns-GpsReads [] zero h = tt
  turns-GpsReads [] (suc k) h = turns-GpsReads [] k h
  turns-GpsReads (processes ∷ ts) k h = turns-GpsReads ts k h
  turns-GpsReads (receives p ∷ ts) k h = (h.0, turns-GpsReads ts k h.1)

  -- What holds where the specification ends holds where the threads do.
  refined-Where :
      (P : Model F R → Type 0) (s : System F R) (a : Parsed (Model F R))
      → Refine.Refines F d correction raw unix_second has_callback (ok s) a
      → Where P a
      → P (model_of F d correction raw unix_second has_callback s)
  refined-Where P s (ok m) h w = subst P (sym h.0) w
  refined-Where P s rejected h w = absurd h
  refined-Where P s fault h w = absurd h

  pub one_waits :
      (ts : List (Turn F)) (k : ℕ) (s s' : System F R)
      → IsValid s.receiver.ring
      → FewWait F d correction raw unix_second has_callback
          (model_of F d correction raw unix_second has_callback s)
          (ts ++ rounds k)
      → length (held s.receiver.ring ++ lidar_packets F ts) ≡ suc k
      → run_turns F d correction raw unix_second has_callback s (ts ++ rounds k) ≡ ok s'
      → length (held s'.receiver.ring) ≡ 1
  one_waits ts k s s' valid few total e =
      let m = model_of F d correction raw unix_second has_callback s in
      let after = model_turns F d correction raw unix_second has_callback m (ts ++ rounds k) in
      let sum = length-append (held s.receiver.ring) (lidar_packets F ts) in
      let drained =
        refined-Where (IsDrained (length (held s.receiver.ring) + length (lidar_packets F ts))) s'
          after
          (subst
            (λ (o : Parsed (System F R)).
              Refine.Refines F d correction raw unix_second has_callback o after)
            e
            (run_turns-Refines F d correction raw unix_second has_callback (ts ++ rounds k) s valid
              few))
          (turns-IsDrained ts k m (omega (arith, total, sum))) in
      omega (arith, drained.0, drained.1 (omega (arith, total, sum)))
