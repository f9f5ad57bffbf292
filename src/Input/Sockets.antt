-- ===== src/Input/Sockets.antt =====
-- The sockets that the constructor of `Input` opens and the destructor closes.
use go2_setup.Shared.{
  ◌≡◌, ◌⊎◌, inl, inr, refl, Bool, true, false, not, ◌&&◌, List, [], ◌∷◌, ◌++◌, arith, if◌then◌else◌,
  ltb_ℤ, ℤ, pos, negsuc,
}
use go2_setup.Input.{Opening, Input, failed_socket, is_failed, open_input, closing, close_input}

abbrev pub works : Opening → Bool
works o = not (is_failed o.descriptor) && (o.binds && o.nonblocking)

-- The descriptor of a socket that was opened.
abbrev pub opened : Opening → List ℤ
opened o = if is_failed o.descriptor then [] else o.descriptor ∷ []

-- `socket` answers -1, or a descriptor that is not that of the standard input.
abbrev pub IsSocket : ℤ → Type 0
IsSocket d = (d ≡ failed_socket) ⊎ (ltb_ℤ (pos 0) d ≡ true)

-- The sockets that the constructor got from the system.
abbrev pub sockets : Opening → Opening → Bool → List ℤ
sockets lidar gps same_port =
    if works lidar && not same_port then opened gps ++ opened lidar else opened lidar

socket-closing : (d : ℤ) → ltb_ℤ (pos 0) d ≡ true → closing d ≡ (if is_failed d then [] else d ∷ [])
socket-closing (pos n) h = ground arith
socket-closing (negsuc n) h = ground arith

closing-opened : (o : Opening) → IsSocket o.descriptor → closing o.descriptor ≡ opened o
closing-opened o (inl h) = rw h refl
closing-opened o (inr h) = socket-closing o.descriptor h

-- The destructor closes just the sockets that the constructor opened, on each of its paths, the GPS
-- socket first, provided that `socket` never answers the descriptor 0 and the member for the GPS
-- socket held no descriptor above 0 before.
pub close_input-open_input :
    (lidar gps : Opening) (same_port : Bool) (before : Input)
    → IsSocket lidar.descriptor
    → IsSocket gps.descriptor
    → ltb_ℤ (pos 0) before.socket_for_gps ≡ false
    → close_input (open_input lidar gps same_port before) ≡ sockets lidar gps same_port
unfolding close_input open_input
close_input-open_input lidar gps same_port before hl hg h =
    ground (arith, closing-opened lidar hl, closing-opened gps hg)

-- With one port for both, or a lidar socket that fails, the destructor closes in any case what the
-- uninitialised member for the GPS socket holds, if that is above 0.
close_input-foreign :
    (lidar gps : Opening) (same_port : Bool) (before : Input)
    → (same_port ≡ true) ⊎ (works lidar ≡ false)
    → ltb_ℤ (pos 0) before.socket_for_gps ≡ true
    → close_input (open_input lidar gps same_port before)
      ≡ before.socket_for_gps ∷ closing lidar.descriptor
unfolding close_input open_input
close_input-foreign lidar gps same_port before h e = ground arith

-- `socketNumber`, which `getPacket` polls, is 2 after the constructor with two sockets that work on two
-- ports, 1 with a lidar socket that works on the one port for both, and else what it was before.
pub open_input-number :
    (lidar gps : Opening) (same_port : Bool) (before : Input)
    → (open_input lidar gps same_port before).socket_number ≡ (
        if works lidar
        then if same_port then 1 else if works gps then 2 else before.socket_number
        else before.socket_number)
unfolding open_input
open_input-number lidar gps same_port before = ground arith
