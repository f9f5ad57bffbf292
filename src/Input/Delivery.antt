-- ===== src/Input/Delivery.antt =====
-- What the receiving thread makes of the answers of `poll` and `recvfrom`, round by round.
use go2_setup.Shared.{
  ℕ, zero, suc, ◌≤◌, ◌≡◌, ◌≢◌, refl, sym, ap, ◌∙◌, ◌+◌, ◌<◌, append_assoc, append-nil,
  length-append, true, false, List, [], ◌∷◌, ◌++◌, none, some, arith, ◌==◌, length, take,
}
use go2_setup.PacketsBuffer.{push_back, capacity}
use go2_setup.PacketsBuffer.Invariant.{IsValid, held, push_back-IsValid}
use go2_setup.PacketsBuffer.Fifo.{push_back-held, lag-held}
use go2_setup.Wire.{ok}
use go2_setup.Wire.Utc.{Tm}
use go2_setup.Points.{Floats}
use go2_setup.Driver.{UdpPacket}
use go2_setup.Replay.{ethernet_mtu}
use go2_setup.Receiver.{
  PandarGps, gps_packet_size, tm_of_gps, Receiver, push_lidar_data, recv_round,
}
use go2_setup.Receiver.Gps.{write_gps, GpsFits, recv_round-write_gps}
use go2_setup.Input.{
  Datagram, arrived, broken, PollFd, Poll, poll_failed, timed_out, ready, accept, receive_first,
  get_packet, Round, with_packet, recv_task,
}
use go2_setup.Input.Bounds.{FirstReadable}

-- What a round is about.
pub data Event : Type 0 where
  nothing : Event
  lidar : List ℕ → Event
  gps : PandarGps → Event

abbrev pub HasError : List PollFd → Type 0
HasError [] = ⊥
HasError (fd ∷ fds) = fd.has_error ≡ true

abbrev pub NoError : List PollFd → Type 0
NoError [] = ⊥
NoError (fd ∷ fds) = fd.has_error ≡ false

-- The answers that the thread is written for.
pub data Gives : Poll → Event → Type 0 where
  poll_fails : Gives poll_failed nothing
  times_out : Gives timed_out nothing
  device_fails : (fds : List PollFd) → HasError fds → Gives (ready fds) nothing
  read_fails :
      (fds : List PollFd) → NoError fds → FirstReadable broken fds → Gives (ready fds) nothing
  brings_lidar :
      (fds : List PollFd) (bytes : List ℕ)
      → NoError fds
      → FirstReadable (arrived bytes) fds
      → length bytes ≤ ethernet_mtu
      → length bytes ≢ gps_packet_size
      → Gives (ready fds) (lidar bytes)
  brings_gps :
      (fds : List PollFd) (g : PandarGps) (rest : List ℕ)
      → NoError fds
      → FirstReadable (arrived (write_gps g rest)) fds
      → length (write_gps g rest) ≡ gps_packet_size
      → GpsFits g
      → Gives (ready fds) (gps g)

take-all : (n : ℕ) (xs : List ℕ) → length xs ≤ n → take n xs ≡ xs
take-all zero [] h = refl
take-all zero (x ∷ xs) h = ground arith
take-all (suc n) [] h = refl
take-all (suc n) (x ∷ xs) h = ap (◌∷◌ x) (take-all n xs (omega arith))

module _ (F : Floats) where
  pub data AllGive : List (Round F) → List Event → Type 0 where
    over : AllGive [] []
    and_then :
        (round : Round F) (rounds : List (Round F)) (e : Event) (es : List Event)
        → Gives round.answer e
        → AllGive rounds es
        → AllGive (round ∷ rounds) (e ∷ es)

  abbrev pub whole_packet : F.Double → List ℕ → UdpPacket F
  whole_packet time bytes = record { stamp = time; data_bytes = bytes; size = length bytes }

  receive_first-arrived :
      (time : F.Double) (before : List ℕ) (fds : List PollFd) (g : Datagram)
      → FirstReadable g fds
      → receive_first F time before fds ≡ accept F time before g
  unfolding receive_first
  receive_first-arrived time before [] g h = ground arith
  receive_first-arrived time before (fd ∷ fds) g h =
      ground (arith, receive_first-arrived time before fds g)

  get_packet-ready :
      (time : F.Double) (before : List ℕ) (fds : List PollFd) (g : Datagram)
      → NoError fds
      → FirstReadable g fds
      → get_packet F time before (ready fds) ≡ accept F time before g
  unfolding get_packet
  get_packet-ready time before [] g n h = ground arith
  get_packet-ready time before (fd ∷ fds) g n h =
      simp (n) (receive_first-arrived time before (fd ∷ fds) g h)

  get_packet-arrived :
      (time : F.Double) (before : List ℕ) (fds : List PollFd) (bytes : List ℕ)
      → NoError fds
      → FirstReadable (arrived bytes) fds
      → length bytes ≤ ethernet_mtu
      → get_packet F time before (ready fds) ≡ ok (whole_packet time bytes)
  unfolding accept
  get_packet-arrived time before fds bytes n h small =
      get_packet-ready time before fds (arrived bytes) n h
      ∙ ap (λ xs. ok (whole_packet time xs)) (take-all ethernet_mtu bytes small)

  module _ (unix_second : Tm → F.Double) where
    -- The specification: a lidar's datagram joins the ring, a GPS packet is a call.
    abbrev pub take_event : Receiver F → F.Double → Event → Receiver F
    take_event r time nothing = r
    take_event r time (lidar bytes) = record r {
      ring = (push_back r.ring (whole_packet time bytes)).0;
    }
    take_event r time (gps g) = record r {
      gps_calls = r.gps_calls ++ (unix_second (tm_of_gps g) ∷ []);
    }

    abbrev pub take_events : Receiver F → List (Round F) → List Event → Receiver F
    take_events r [] es = r
    take_events r (round ∷ rounds) [] = r
    take_events r (round ∷ rounds) (e ∷ es) = take_events (take_event r round.time e) rounds es

    recv_round-lidar :
        (r : Receiver F) (time : F.Double) (bytes : List ℕ)
        → length bytes ≢ gps_packet_size
        → recv_round F true unix_second r (some (whole_packet time bytes))
          ≡ ok (take_event r time (lidar bytes))
    unfolding recv_round push_lidar_data
    recv_round-lidar r time bytes h =
        let e : (length bytes == gps_packet_size) ≡ false = ground (arith, h) in rw e refl

    recv_round-nothing : (r : Receiver F) → recv_round F true unix_second r none ≡ ok r
    unfolding recv_round
    recv_round-nothing r = refl

    with_packet-Gives :
        (r : Receiver F) (time : F.Double) (before : List ℕ) (answer : Poll) (e : Event)
        → Gives answer e
        → with_packet F true unix_second r (get_packet F time before answer)
          ≡ ok (take_event r time e)
    unfolding get_packet accept
    with_packet-Gives r time before answer e poll_fails = recv_round-nothing r
    with_packet-Gives r time before answer e times_out = recv_round-nothing r
    with_packet-Gives r time before answer e (device_fails [] h) = ground arith
    with_packet-Gives r time before answer e (device_fails (fd ∷ fds) h) =
        simp (h) (recv_round-nothing r)
    with_packet-Gives r time before answer e (read_fails fds n h) =
        rw (get_packet-ready time before fds broken n h) (recv_round-nothing r)
    with_packet-Gives r time before answer e (brings_lidar fds bytes n h small other) =
        rw (get_packet-arrived time before fds bytes n h small)
          (recv_round-lidar r time bytes other)
    with_packet-Gives r time before answer e (brings_gps fds g rest n h size fits) =
        let small : length (write_gps g rest) ≤ ethernet_mtu = omega (arith, size) in
        rw (get_packet-arrived time before fds (write_gps g rest) n h small) (
          recv_round-write_gps F unix_second r (whole_packet time (write_gps g rest)) g rest size
            refl fits)

    pub recv_task-events :
        (r : Receiver F) (rounds : List (Round F)) (es : List Event)
        → AllGive rounds es
        → recv_task F true unix_second r rounds ≡ ok (take_events r rounds es)
    unfolding recv_task
    recv_task-events r rounds es over = refl
    recv_task-events r rounds es (and_then round rest e fs g gs) =
        rw (recv_task, with_packet-Gives r round.time round.before round.answer e g)
          (recv_task-events (take_event r round.time e) rest fs gs)

-- The packets of the lidar's datagrams.
abbrev pub brought : (F : Floats) → List (Round F) → List Event → List (UdpPacket F)
brought F [] es = []
brought F (r ∷ rs) [] = []
brought F (r ∷ rs) (nothing ∷ es) = brought F rs es
brought F (r ∷ rs) (gps g ∷ es) = brought F rs es
brought F (r ∷ rs) (lidar bytes ∷ es) = whole_packet F r.time bytes ∷ brought F rs es

module _ (F : Floats) (unix_second : Tm → F.Double) where
  pub take_events-held :
      (r : Receiver F) (rounds : List (Round F)) (es : List Event)
      → IsValid r.ring
      → length (held r.ring) + length (brought F rounds es) < capacity
      → (held (take_events F unix_second r rounds es).ring ≡ held r.ring ++ brought F rounds es)
        × IsValid (take_events F unix_second r rounds es).ring
  take_events-held r [] es v few = (sym (append-nil (held r.ring)), v)
  take_events-held r (round ∷ rounds) [] v few = (sym (append-nil (held r.ring)), v)
  take_events-held r (round ∷ rounds) (nothing ∷ es) v few = take_events-held r rounds es v few
  take_events-held r (round ∷ rounds) (gps g ∷ es) v few =
      take_events-held (take_event F unix_second r round.time (gps g)) rounds es v few
  take_events-held r (round ∷ rounds) (lidar bytes ∷ es) v few =
      let p = whole_packet F round.time bytes in
      let room = lag-held v in
      let pushed = (push_back-held p v (omega arith)).0 in
      let (rest, valid) =
        take_events-held (take_event F unix_second r round.time (lidar bytes)) rounds es
          (push_back-IsValid p v)
          (omega (arith, few, ap length pushed, length-append (held r.ring) (p ∷ []))) in
      (
        rest
            ∙ ap (λ q. q ++ brought F rounds es) pushed
            ∙ append_assoc (held r.ring) (p ∷ []) (brought F rounds es),
        valid,
      )

  -- The times of the GPS packets.
  abbrev pub times_of : List Event → List F.Double
  times_of [] = []
  times_of (nothing ∷ es) = times_of es
  times_of (lidar bytes ∷ es) = times_of es
  times_of (gps g ∷ es) = unix_second (tm_of_gps g) ∷ times_of es

  take_events-calls :
      (r : Receiver F) (rounds : List (Round F)) (es : List Event)
      → AllGive F rounds es
      → (take_events F unix_second r rounds es).gps_calls ≡ r.gps_calls ++ times_of es
  take_events-calls r rounds es over = sym (append-nil r.gps_calls)
  take_events-calls r rounds es (and_then round rest nothing fs g gs) =
      take_events-calls r rest fs gs
  take_events-calls r rounds es (and_then round rest (lidar bytes) fs g gs) =
      take_events-calls (take_event F unix_second r round.time (lidar bytes)) rest fs gs
  take_events-calls r rounds es (and_then round rest (gps p) fs g gs) =
      take_events-calls (take_event F unix_second r round.time (gps p)) rest fs gs
      ∙ append_assoc r.gps_calls (unix_second (tm_of_gps p) ∷ []) (times_of fs)

  -- From a valid ring on, which with the datagrams that come holds fewer than 36000 packets, where
  -- every round of the receiving thread ends without a readable socket or with an error that
  -- `getPacket` answers by -1, or brings a datagram of at most 1500 bytes that is not as long as a
  -- GPS packet, or a GPS packet of numbers in range, and the first socket has no error in rounds
  -- that read: the thread does not fault, the ring is valid and holds the packets that it held and
  -- behind them every lidar datagram, whole and in order, and the GPS callback has got the time of
  -- every GPS packet, in order.
  pub recv_task-AllGive :
      (r : Receiver F) (rounds : List (Round F)) (es : List Event)
      → IsValid r.ring
      → length (held r.ring) + length (brought F rounds es) < capacity
      → AllGive F rounds es
      → (r' : Receiver F) × (recv_task F true unix_second r rounds ≡ ok r')
        × (held r'.ring ≡ held r.ring ++ brought F rounds es)
        × (r'.gps_calls ≡ r.gps_calls ++ times_of es)
        × IsValid r'.ring
  recv_task-AllGive r rounds es v room gives =
      let (queue, valid) = take_events-held r rounds es v room in
      (
        take_events F unix_second r rounds es,
        recv_task-events F unix_second r rounds es gives,
        queue,
        take_events-calls r rounds es gives,
        valid,
      )
