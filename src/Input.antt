-- ===== src/Input.antt =====
-- `Input` of input.cc: the sockets that the constructor opens and the destructor closes, `getPacket`,
-- and the loop of `RecvTask` over it. What the system calls answer are arguments, and so is what a
-- member or an array holds before it is set.
pub mod Bounds
pub mod Delivery
pub mod Sockets
use go2_setup.Shared.{
  ℕ, zero, suc, ◌+◌, ◌-◌, ◌^◌, Bool, true, false, not, List, [], ◌∷◌, ◌++◌, Option, none, some, ltb,
  ◌==◌, if◌then◌else◌, length, take, ℤ, pos, negsuc, ltb_ℤ,
}
use go2_setup.Wire.{Parsed, ok, rejected, fault}
use go2_setup.Wire.Utc.{Tm}
use go2_setup.Points.{Floats}
use go2_setup.Driver.{UdpPacket}
use go2_setup.Replay.{ethernet_mtu}
use go2_setup.Receiver.{Receiver, recv_round}

-- What `socket`, `bind` and `fcntl` answer for one port: a descriptor or -1, and whether it worked.
pub record Opening : Type 0 where
  pub descriptor : ℤ
  pub binds : Bool
  pub nonblocking : Bool

pub record Input : Type 0 where
  pub socket_for_lidar : ℤ
  pub socket_for_gps : ℤ
  pub socket_number : ℕ

abbrev pub failed_socket : ℤ
failed_socket = negsuc 0

abbrev pub is_failed : ℤ → Bool
is_failed (pos n) = false
is_failed (negsuc n) = n == 0

-- The constructor, from the members as they are before it: a return before the end leaves those that
-- come later. The options for multicast and for the reuse of the port only print when they fail.
unfoldable pub open_input : Opening → Opening → Bool → Input → Input
open_input lidar gps same_port before =
    let i = record before { socket_for_lidar = lidar.descriptor } in
    let j = record i { socket_for_gps = gps.descriptor } in
    if is_failed lidar.descriptor
    then i
    else if not lidar.binds
    then i
    else if not lidar.nonblocking
    then i
    else if same_port
    then record i { socket_number = 1 }
    else if is_failed gps.descriptor
    then j
    else if not gps.binds
    then j
    else if not gps.nonblocking
    then j
    else record j { socket_number = 2 }

abbrev pub closing : ℤ → List ℤ
closing d = if ltb_ℤ (pos 0) d then d ∷ [] else []

-- The destructor: the descriptors that it closes.
unfoldable pub close_input : Input → List ℤ
close_input i = closing i.socket_for_gps ++ closing i.socket_for_lidar

-- What `recvfrom` answers: a datagram, nothing there (`EWOULDBLOCK`), or another error.
pub data Datagram : Type 0 where
  arrived : List ℕ → Datagram
  would_block : Datagram
  broken : Datagram

-- One element of `fds` after `poll`: `POLLERR`, `POLLHUP` or `POLLNVAL`; `POLLIN`; and the datagram
-- that a `recvfrom` gets.
pub record PollFd : Type 0 where
  pub has_error : Bool
  pub readable : Bool
  pub datagram : Datagram

-- What `poll` answers: an error, none ready within a second, or the elements of `fds`: first the GPS
-- socket if there is one, then the lidar's.
pub data Poll : Type 0 where
  poll_failed : Poll
  timed_out : Poll
  ready : List PollFd → Poll

module _ (F : Floats) where
  open F use {Double}

  -- The end of `getPacket`; `before` is the packet's array as the caller left it. With -1 for the
  -- number of bytes, `pkt->size`, which is unsigned, becomes 2 ^ 32 - 1.
  unfoldable pub accept : Double → List ℕ → Datagram → Parsed (UdpPacket F)
  accept time before (arrived bytes) = ok (record {
    stamp = time;
    data_bytes = take ethernet_mtu bytes;
    size = length (take ethernet_mtu bytes);
  })
  accept time before would_block =
      ok (record { stamp = time; data_bytes = before; size = 2 ^ 32 - 1 })
  accept time before broken = rejected

  -- The loop over `fds`, which stops at the first with data. Without one, `nbytes` is read
  -- uninitialised.
  unfoldable pub receive_first : Double → List ℕ → List PollFd → Parsed (UdpPacket F)
  receive_first time before [] = fault
  receive_first time before (fd ∷ fds) =
      if fd.readable then accept time before fd.datagram else receive_first time before fds

  -- `getPacket`: `rejected` is the return of -1. Only the first socket is tested for errors.
  unfoldable pub get_packet : Double → List ℕ → Poll → Parsed (UdpPacket F)
  get_packet time before poll_failed = rejected
  get_packet time before timed_out = rejected
  get_packet time before (ready []) = fault
  get_packet time before (ready (fd ∷ fds)) =
      if fd.has_error then rejected else receive_first time before (fd ∷ fds)

  -- One round of the receiving thread: the time, the packet's array on the stack, and `poll`.
  pub record Round : Type 0 where
    pub time : Double
    pub before : List ℕ
    pub answer : Poll

  module _ (has_callback : Bool) (unix_second : Tm → Double) where
    abbrev pub with_packet : Receiver F → Parsed (UdpPacket F) → Parsed (Receiver F)
    with_packet r (ok p) = recv_round F has_callback unix_second r (some p)
    with_packet r rejected = recv_round F has_callback unix_second r none
    with_packet r fault = fault

    -- The loop of `RecvTask`.
    unfoldable pub recv_task : Receiver F → List Round → Parsed (Receiver F)
    recv_task r [] = ok r
    recv_task r (round ∷ rounds) =
        elim (with_packet r (get_packet round.time round.before round.answer)) [
          | ok s ↦ recv_task s rounds
          | rejected ↦ rejected
          | fault ↦ fault
        ]
