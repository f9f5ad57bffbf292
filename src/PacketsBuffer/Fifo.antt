-- ===== src/PacketsBuffer/Fifo.antt =====
-- The buffer against a queue, as an abstract specification, and outside the bounds of that.
use go2_setup.Shared.{
  ℕ, zero, suc, ◌+◌, ◌-◌, ◌%◌, ◌<◌, ◌≤◌, ◌≡◌, refl, ap, ◌∙◌, ◌⊎◌, true, List, [], ◌∷◌, ◌++◌, arith,
  length, if◌then◌else◌, ◌==◌, ap₂, Option, none, some, ltb,
}
use go2_setup.PacketsBuffer.{
  PacketsBuffer, capacity, push_back, has_enough_packets, move_iter_calc, poll,
}
use go2_setup.PacketsBuffer.Invariant.{
  IsValid, lag, window, held, length-window, window-update_end, push_back-IsValid, poll-IsValid,
}

-- What the two threads do to the buffer, in the order in which it happens.
pub data Event (A : Type 0) : Type 0 where
  push : A → Event A
  take : Event A

module _ {A : Type 0} where
  -- The answers of the takes.
  unfoldable pub run : PacketsBuffer A → List (Event A) → List (Option A)
  run b [] = []
  run b (push x ∷ es) = run (push_back b x).0 es
  run b (take ∷ es) = let (b', out) = poll b in out ∷ run b' es

  -- The specification: a queue that keeps its newest packet back.
  abbrev pub take_oldest : List A → List A × Option A
  take_oldest [] = ([], none)
  take_oldest (x ∷ []) = (x ∷ [], none)
  take_oldest (x ∷ y ∷ q) = (y ∷ q, some x)

  unfoldable pub run_queue : List A → List (Event A) → List (Option A)
  run_queue q [] = []
  run_queue q (push x ∷ es) = run_queue (q ++ (x ∷ [])) es
  run_queue q (take ∷ es) = let (q', out) = take_oldest q in out ∷ run_queue q' es

  -- The queue never holds more than `n` packets.
  abbrev pub StaysWithin : ℕ → List A → List (Event A) → Type 0
  StaysWithin n q [] = length q ≤ n
  StaysWithin n q (push x ∷ es) = (length q ≤ n) × StaysWithin n (q ++ (x ∷ [])) es
  StaysWithin n q (take ∷ es) = (length q ≤ n) × StaysWithin n (take_oldest q).0 es

  pub length-held : (b : PacketsBuffer A) → b.start_flag ≡ true → length (held b) ≡ suc (lag b)
  length-held b s = ground (arith, length-window b.buffers b.iter_calc (suc (lag b)))

  -- On a valid state with fewer than 35999 packets ahead of the reader, `push_back` returns 1 and
  -- the packet goes behind those held, which stay as they are.
  pub push_back-held :
      {b : PacketsBuffer A} (x : A)
      → IsValid b
      → lag b + 1 < capacity
      → (held (push_back b x).0 ≡ held b ++ (x ∷ [])) × ((push_back b x).1 ≡ 1)
  unfolding push_back
  push_back-held {b} x v room = ground (
    arith,
    window-update_end b.buffers x 0 b.iter_calc b.iter_calc,
    window-update_end b.buffers x (suc (lag b)) b.iter_calc (b.iter_push + 1),
    window-update_end b.buffers x (suc (lag b)) b.iter_calc 0,
  )

  -- On a valid, started state with 35999 packets ahead of the reader, a push leaves one packet
  -- held, the next round of the reader takes nothing, and the call returns 0, or 1 if the reader
  -- stands at the first slot.
  pub push_back_overflow :
      {b : PacketsBuffer A} (x : A)
      → IsValid b
      → b.start_flag ≡ true
      → lag b + 1 ≡ capacity
      → (length (held (push_back b x).0) ≡ 1)
        × (poll (push_back b x).0 ≡ ((push_back b x).0, none))
        × ((push_back b x).1 ≡ (if b.iter_calc == 0 then 1 else 0))
  unfolding push_back poll has_enough_packets
  push_back_overflow {b} x v s full = ground arith

  has_enough-lag :
      {b : PacketsBuffer A} → IsValid b → lag b < 1000 → has_enough_packets b ≡ ltb 0 (lag b)
  unfolding has_enough_packets
  has_enough-lag v small = ground arith

  window_suc :
      (f : ℕ → A) (n : ℕ) (h : ℕ)
      → 0 < n
      → window f h n ≡ f h ∷ window f ((h + 1) % capacity) (n - 1)
  window_suc f zero h p = absurd (omega arith)
  window_suc f (suc n) h p = ap (λ k. f h ∷ window f ((h + 1) % capacity) k) (omega arith)

  -- On a valid state with a backlog below 1000 packets, a round of the reader takes the oldest
  -- packet held if a newer one is there, and none otherwise; the packets held after it are the
  -- others.
  pub poll-held :
      {b : PacketsBuffer A}
      → IsValid b
      → lag b < 1000
      → let (b', out) = poll b in (held b', out) ≡ take_oldest (held b)
  unfolding poll has_enough_packets move_iter_calc
  poll-held {b} v small =
      ground
        (arith, has_enough-lag v small, window_suc b.buffers (lag b) ((b.iter_calc + 1) % capacity))

  -- On a valid state whose writer stands before the reader, with the reader at least 1000 slots
  -- from the end, packets wait and a round of the reader takes nothing and changes nothing.
  pub poll_stalls :
      {b : PacketsBuffer A}
      → IsValid b
      → b.iter_push < b.iter_calc
      → b.iter_calc + 1000 ≤ capacity
      → (0 < lag b) × (poll b ≡ (b, none))
  unfolding poll has_enough_packets
  poll_stalls v wrapped far = ground arith

  -- With n packets held, the reader is fewer than n steps behind, or nothing has been pushed.
  pub lag-held : {b : PacketsBuffer A} → IsValid b → (lag b < length (held b)) ⊎ (lag b ≡ 0)
  lag-held {b} v = ground (arith, length-window b.buffers b.iter_calc (suc (lag b)))

  pub lag_small : {b : PacketsBuffer A} → IsValid b → length (held b) ≤ 1000 → lag b < 1000
  lag_small {b} v h = ground (arith, length-window b.buffers b.iter_calc (suc (lag b)))

  -- From a valid state on, no interleaving of pushes and takes tells the ring from a queue that
  -- keeps its newest packet back, by the answers of the takes, as long as that queue holds at most
  -- 1000 packets all the time.
  pub run_refines :
      (es : List (Event A)) {b : PacketsBuffer A}
      → IsValid b
      → StaysWithin 1000 (held b) es
      → run b es ≡ run_queue (held b) es
  unfolding run run_queue
  run_refines [] v h = refl
  run_refines (push x ∷ es) {b} v h =
      let room : lag b < 1000 = lag_small v h.0 in
      let e = (push_back-held x v (omega arith)).0 in
      run_refines es (push_back-IsValid x v) (rw e h.1) ∙ ap (λ q. run_queue q es) e
  run_refines (take ∷ es) {b} v h =
      let e : ◌≡◌ {A = List A × Option A} (held (poll b).0, (poll b).1) (take_oldest (held b)) =
        poll-held v (lag_small v h.0) in
      let rest : held (poll b).0 ≡ (take_oldest (held b)).0 = ap (λ p. p.0) e in
      ap₂ ◌∷◌ (ap (λ p. p.1) e)
        (run_refines es (poll-IsValid v) (rw rest h.1) ∙ ap (λ q. run_queue q es) rest)
