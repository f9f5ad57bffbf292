-- ===== src/Input/Bounds.antt =====
-- The size of the packet that `getPacket` fills in.
use go2_setup.Shared.{
  ℕ, zero, suc, ◌-◌, ◌^◌, ◌≤◌, ◌≡◌, ◌⊎◌, inl, inr, refl, List, [], ◌∷◌, arith, if◌then◌else◌,
  length, take, Bool-cases,
}
use go2_setup.Wire.{ok}
use go2_setup.Points.{Floats}
use go2_setup.Driver.{UdpPacket}
use go2_setup.Replay.{ethernet_mtu}
use go2_setup.Input.{
  Datagram, arrived, would_block, broken, PollFd, Poll, poll_failed, timed_out, ready, accept,
  receive_first, get_packet,
}

length-take : (n : ℕ) (xs : List ℕ) → length (take n xs) ≤ n
length-take zero xs = omega arith
length-take (suc n) [] = omega arith
length-take (suc n) (x ∷ xs) = omega (arith, length-take n xs)

-- What a packet comes from.
abbrev pub FirstReadable : Datagram → List PollFd → Type 0
FirstReadable g [] = ⊥
FirstReadable g (fd ∷ fds) = if fd.readable then fd.datagram ≡ g else FirstReadable g fds

abbrev pub fds_of : Poll → List PollFd
fds_of poll_failed = []
fds_of timed_out = []
fds_of (ready fds) = fds

abbrev pub IsBounded : (F : Floats) → List ℕ → List PollFd → UdpPacket F → Type 0
IsBounded F before fds p =
    ((p.size ≡ length p.data_bytes) × (p.size ≤ ethernet_mtu))
    ⊎ (FirstReadable would_block fds × (p.size ≡ 2 ^ 32 - 1) × (p.data_bytes ≡ before))

module _ (F : Floats) (time : F.Double) (before : List ℕ) where
  accept-IsBounded :
      (fds : List PollFd) (g : Datagram) (p : UdpPacket F)
      → FirstReadable g fds
      → accept F time before g ≡ ok p
      → IsBounded F before fds p
  unfolding accept
  accept-IsBounded fds (arrived bytes) p h e =
      inl (ground arith, ground (arith, length-take ethernet_mtu bytes))
  accept-IsBounded fds would_block p h e = inr (h, ground arith, ground arith)
  accept-IsBounded fds broken p h e = ground arith

  receive_first-IsBounded :
      (fds : List PollFd) (p : UdpPacket F)
      → receive_first F time before fds ≡ ok p
      → IsBounded F before fds p
  unfolding receive_first
  receive_first-IsBounded [] p e = ground arith
  receive_first-IsBounded (fd ∷ fds) p e = elim (Bool-cases fd.readable) [
    | inl r ↦ accept-IsBounded (fd ∷ fds) fd.datagram p (rw r refl) (ground (arith, r, e))
    | inr r ↦ elim (receive_first-IsBounded fds p (ground (arith, r, e))) [
      | inl h ↦ inl h
      | inr h ↦ inr (rw r h.0, h.1, h.2)
    ]
  ]

  -- A packet that `getPacket` returns has the size of its bytes, which is at most 1500; or the
  -- first socket with data had none when it was read, and then the packet's bytes are those of its
  -- uninitialised array and its size is 2 ^ 32 - 1.
  pub get_packet-IsBounded :
      (answer : Poll) (p : UdpPacket F)
      → get_packet F time before answer ≡ ok p
      → IsBounded F before (fds_of answer) p
  unfolding get_packet
  get_packet-IsBounded poll_failed p e = ground arith
  get_packet-IsBounded timed_out p e = ground arith
  get_packet-IsBounded (ready []) p e = ground arith
  get_packet-IsBounded (ready (fd ∷ fds)) p e = elim (Bool-cases fd.has_error) [
    | inl r ↦ ground (arith, r, e)
    | inr r ↦ receive_first-IsBounded (fd ∷ fds) p (ground (arith, r, e))
  ]
