-- ===== src/Pcap/Schedule.antt =====
-- When the packets of a capture are passed on, and what is.
use go2_setup.Shared.{
  ℕ, ◌-◌, ◌^◌, ◌≤◌, ◌≡◌, ◌≢◌, refl, ap, ◌∙◌, true, false, List, [], ◌∷◌, ◌++◌, append_assoc, arith,
  ◌==◌, if◌then◌else◌, length, take, ℤ, pos, negsuc, ltb_ℤ, ◌+ℤ◌, ◌-ℤ◌, Bool-cases, append-nil, inl,
  inr, sym,
}
use go2_setup.Pcap.Integers.{drift, settled}
use go2_setup.Wire.{ok}
use go2_setup.Wire.Utc.{Tm}
use go2_setup.Points.{Floats}
use go2_setup.Driver.{UdpPacket}
use go2_setup.PacketsBuffer.{push_back}
use go2_setup.Replay.{ethernet_mtu}
use go2_setup.Receiver.{gps_packet_size, Receiver, push_lidar_data, fill_packet}
use go2_setup.Pcap.{
  is_zero, Pacer, pace, pkt_header_size, gap, packet_ts, Captured, Player, payload, call_back,
  keep_pace, play_one, parse_pcap,
}

-- The time that a packet is to wait for its turn: its distance in the capture from the first one, put
-- onto the clock.
abbrev pub ahead : ℤ → ℤ → ℤ × ℤ → ℤ
ahead first_ts first_time (ts, now) = (first_time +ℤ (ts -ℤ first_ts)) -ℤ now

abbrev pub positive : ℤ → List ℤ
positive w = if ltb_ℤ (pos 0) w then w ∷ [] else []

abbrev pub turns : ℤ → ℤ → List (ℤ × ℤ) → List ℤ
turns first_ts first_time [] = []
turns first_ts first_time (c ∷ cs) =
    positive (ahead first_ts first_time c) ++ turns first_ts first_time cs

pushed : (ws : List ℤ) (w : ℤ) → (if ltb_ℤ (pos 0) w then ws ++ (w ∷ []) else ws) ≡ ws ++ positive w
pushed ws w = elim (Bool-cases (ltb_ℤ (pos 0) w)) [
  | inl h ↦ rw h refl
  | inr h ↦ rw (h, append-nil ws)
]

abbrev pub NoZero : List (ℤ × ℤ) → Type 0
NoZero [] = Unit
NoZero ((ts, now) ∷ cs) = (is_zero ts ≡ false) × NoZero cs

abbrev pub pace_all : Pacer → List (ℤ × ℤ) → Pacer
pace_all p [] = p
pace_all p ((ts, now) ∷ cs) = pace_all (pace p ts now) cs

pace-drift :
    (p : Pacer) (first_ts first_time ts now : ℤ)
    → is_zero p.last_pkt_ts ≡ false
    → p.last_time -ℤ p.last_pkt_ts ≡ first_time -ℤ first_ts
    → ((pace p ts now).last_time -ℤ ts ≡ first_time -ℤ first_ts)
      × ((pace p ts now).last_pkt_ts ≡ ts)
      × ((pace p ts now).waits ≡ p.waits ++ positive (ahead first_ts first_time (ts, now)))
unfolding pace
pace-drift p first_ts first_time ts now z h =
    let e = drift p.last_time p.last_pkt_ts first_time first_ts ts now h in
    let d = settled p.last_time p.last_pkt_ts first_time first_ts ts now h in
    (
      simp (z) (d),
      simp (z) (refl),
      simp (z, e) (pushed p.waits (ahead first_ts first_time (ts, now))),
    )

pace_all-waits :
    (p : Pacer) (first_ts first_time : ℤ) (cs : List (ℤ × ℤ))
    → is_zero p.last_pkt_ts ≡ false
    → p.last_time -ℤ p.last_pkt_ts ≡ first_time -ℤ first_ts
    → NoZero cs
    → (pace_all p cs).waits ≡ p.waits ++ turns first_ts first_time cs
pace_all-waits p first_ts first_time [] z h n = sym (append-nil p.waits)
pace_all-waits p first_ts first_time ((ts, now) ∷ cs) z h n =
    let (d, l, w) = pace-drift p first_ts first_time ts now z h in
    pace_all-waits (pace p ts now) first_ts first_time cs (ap is_zero l ∙ n.0)
      (ap (λ t. (pace p ts now).last_time -ℤ t) l ∙ d) n.1
    ∙ ap (λ ws. ws ++ turns first_ts first_time cs) w
    ∙ append_assoc p.waits (positive (ahead first_ts first_time (ts, now)))
        (turns first_ts first_time cs)

pace_all-first :
    (time ts now : ℤ) (cs : List (ℤ × ℤ))
    → NoZero ((ts, now) ∷ cs)
    → (pace_all
        (record { last_pkt_ts = pos 0; last_time = time; waits = [] })
        ((ts, now) ∷ cs)).waits
      ≡ turns ts now cs
unfolding pace
pace_all-first time ts now cs n =
    pace_all-waits (record { last_pkt_ts = ts; last_time = now; waits = [] }) ts now cs n.0 refl n.1

module _ (mktime : Tm → ℤ) (F : Floats) (index : ℕ × ℕ) where
  -- The packet is one that the reader passes on without leaving its arrays, and its time is this.
  pub record IsWhole (c : Captured F) (ts : ℤ) : Type 0 where
    pub header : pkt_header_size ≤ c.len
    pub short : c.len - pkt_header_size ≤ ethernet_mtu
    pub there : c.len ≤ length c.packet_buf
    pub stamp : packet_ts mktime index (payload F c) ≡ ok ts

  pub data AllWhole : List (Captured F) → List ℤ → Type 0 where
    over : AllWhole [] []
    and_then :
        (c : Captured F) (cs : List (Captured F)) (ts : ℤ) (tss : List ℤ)
        → IsWhole c ts
        → AllWhole cs tss
        → AllWhole (c ∷ cs) (ts ∷ tss)

  -- The ring gets the packets without their headers, in order, but for those of the GPS size.
  abbrev pub passed : Captured F → UdpPacket F
  passed c = record {
    stamp = c.time;
    data_bytes = take (c.len - pkt_header_size) (payload F c);
    size = c.len - pkt_header_size;
  }

  abbrev pub pass_on : Receiver F → Captured F → Receiver F
  pass_on r c =
      if c.len - pkt_header_size == gps_packet_size
      then r
      else record r { ring = (push_back r.ring (passed c)).0 }

  abbrev pub pass_all : Receiver F → List (Captured F) → Receiver F
  pass_all r [] = r
  pass_all r (c ∷ cs) = pass_all (pass_on r c) cs

  abbrev pub next_count : ℤ → ℤ
  next_count count = if ltb_ℤ (count +ℤ pos 1) (pos gap) then count +ℤ pos 1 else pos 0

  -- The packets at which the count reaches the gap, with their times and the clock's.
  abbrev pub sampled : ℤ → List (Captured F) → List ℤ → List (ℤ × ℤ)
  sampled count [] tss = []
  sampled count (c ∷ cs) [] = []
  sampled count (c ∷ cs) (ts ∷ tss) =
      if ltb_ℤ (count +ℤ pos 1) (pos gap)
      then sampled (count +ℤ pos 1) cs tss
      else (ts, c.current_time) ∷ sampled (pos 0) cs tss

  call_back-IsWhole :
      (r : Receiver F) (c : Captured F) (ts : ℤ) → IsWhole c ts → call_back F r c ≡ ok (pass_on r c)
  unfolding call_back fill_packet push_lidar_data
  call_back-IsWhole r c ts h = ground (arith, h.header, h.short, h.there)

  keep_pace-IsWhole :
      (p : Player F) (c : Captured F) (ts : ℤ)
      → index.1 ≢ 0
      → ltb_ℤ p.count (pos (2 ^ 31 - 1)) ≡ true
      → IsWhole c ts
      → keep_pace mktime F index p c
        ≡ ok (record p {
          count = next_count p.count;
          pacer =
              if ltb_ℤ (p.count +ℤ pos 1) (pos gap)
              then p.pacer
              else pace p.pacer ts c.current_time;
        })
  unfolding keep_pace
  keep_pace-IsWhole p c ts i n h =
      let e : (index.1 == 0) ≡ false = ground (arith, i) in
      elim (Bool-cases (ltb_ℤ (p.count +ℤ pos 1) (pos gap))) [
        | inl l ↦ simp (n, l) refl
        | inr l ↦ simp (n, l, e, h.stamp) refl
      ]

  play_one-IsWhole :
      (p : Player F) (c : Captured F) (ts : ℤ)
      → index.1 ≢ 0
      → ltb_ℤ p.count (pos (2 ^ 31 - 1)) ≡ true
      → IsWhole c ts
      → play_one mktime F index p c
        ≡ ok (record {
          receiver = pass_on p.receiver c;
          count = next_count p.count;
          pacer =
              if ltb_ℤ (p.count +ℤ pos 1) (pos gap)
              then p.pacer
              else pace p.pacer ts c.current_time;
        })
  unfolding play_one
  play_one-IsWhole p c ts i n h =
      rw (call_back-IsWhole p.receiver c ts h)
        (keep_pace-IsWhole (record p { receiver = pass_on p.receiver c }) c ts i n h)

  next_count-small :
      (count : ℤ)
      → ltb_ℤ count (pos (2 ^ 31 - 1)) ≡ true
      → ltb_ℤ (next_count count) (pos (2 ^ 31 - 1)) ≡ true
  next_count-small (pos n) h = ground arith
  next_count-small (negsuc n) h = ground arith

  pace_all-sampled :
      (p : Pacer) (count ts : ℤ) (c : Captured F) (cs : List (Captured F)) (tss : List ℤ)
      → pace_all p (sampled count (c ∷ cs) (ts ∷ tss))
        ≡ pace_all
            (if ltb_ℤ (count +ℤ pos 1) (pos gap) then p else pace p ts c.current_time)
            (sampled (next_count count) cs tss)
  pace_all-sampled p count ts c cs tss = elim (Bool-cases (ltb_ℤ (count +ℤ pos 1) (pos gap))) [
    | inl l ↦ simp (l) refl
    | inr l ↦ simp (l) refl
  ]

  parse_pcap-AllWhole :
      (p : Player F) (cs : List (Captured F)) (tss : List ℤ)
      → index.1 ≢ 0
      → ltb_ℤ p.count (pos (2 ^ 31 - 1)) ≡ true
      → AllWhole cs tss
      → (q : Player F) × (parse_pcap mktime F index p cs ≡ ok q)
        × (q.receiver ≡ pass_all p.receiver cs)
        × (q.pacer ≡ pace_all p.pacer (sampled p.count cs tss))
  unfolding parse_pcap
  parse_pcap-AllWhole p cs tss i n over = (p, refl, refl, refl)
  parse_pcap-AllWhole p cs tss i n (and_then c rest ts more h hs) =
      let p' : Player F = record {
        receiver = pass_on p.receiver c;
        count = next_count p.count;
        pacer =
            if ltb_ℤ (p.count +ℤ pos 1) (pos gap) then p.pacer else pace p.pacer ts c.current_time;
      } in
      let (q, e, r, w) = parse_pcap-AllWhole p' rest more i (next_count-small p.count n) hs in
      (
        q,
        rw (play_one-IsWhole p c ts i n h) e,
        r,
        w ∙ sym (pace_all-sampled p.pacer p.count ts c rest more),
      )

  -- Where every packet of a capture has its header, is all there and fits the array of 1500 bytes,
  -- its time can be read, the table has a position for it, the uninitialised count is not the
  -- greatest `int` and no sampled time is 0: the ring takes the packets without their headers, each
  -- once and in order, but for those of the GPS size; and the waits are those that put every
  -- hundredth packet as far behind the first of them on the clock as it is in the capture, with
  -- none for a packet that is late, so that no delay adds up.
  pub parse_pcap-turns :
      (p : Player F) (cs : List (Captured F)) (tss : List ℤ) (ts now : ℤ) (later : List (ℤ × ℤ))
      → index.1 ≢ 0
      → ltb_ℤ p.count (pos (2 ^ 31 - 1)) ≡ true
      → AllWhole cs tss
      → p.pacer.last_pkt_ts ≡ pos 0
      → p.pacer.waits ≡ []
      → sampled p.count cs tss ≡ (ts, now) ∷ later
      → NoZero ((ts, now) ∷ later)
      → (q : Player F) × (parse_pcap mktime F index p cs ≡ ok q)
        × (q.receiver ≡ pass_all p.receiver cs)
        × (q.pacer.waits ≡ turns ts now later)
  parse_pcap-turns p cs tss ts now later i n h z none s nz =
      let (q, e, r, w) = parse_pcap-AllWhole p cs tss i n h in
      let fresh : p.pacer
          ≡ record { last_pkt_ts = pos 0; last_time = p.pacer.last_time; waits = [] } =
        λ k. record { last_pkt_ts = z k; last_time = p.pacer.last_time; waits = none k } in
      (
        q,
        e,
        r,
        ap (λ x. x.waits)
              (w ∙ ap (λ x. pace_all x (sampled p.count cs tss)) fresh ∙ ap (pace_all _) s)
            ∙ pace_all-first p.pacer.last_time ts now later nz,
      )
