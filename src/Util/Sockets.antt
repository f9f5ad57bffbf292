-- ===== src/Util/Sockets.antt =====
-- Opening a connection and waiting for a socket: `tcp_open` and `select_fd` of util.c.
use go2_setup.Shared.{
  ℕ, zero, suc, ◌≡◌, Bool, true, false, not, ◌||◌, List, [], ◌∷◌, Option, none, some, arith, ◌==◌,
  if◌then◌else◌, ℤ, pos, negsuc, ltb_ℤ, ◌⊎◌, inl, inr,
}

-- What the system calls answer: `socket`, `inet_pton` at a text, and `connect`.
pub record Network : Type 0 where
  pub socket : ℤ
  pub is_address : List ℕ → Bool
  pub connects : Bool

pub data SocketAction : Type 0 where
  opens : ℤ → SocketAction
  dials : ℤ → List ℕ → ℕ → SocketAction
  closes : ℤ → SocketAction

abbrev pub is_minus_one : ℤ → Bool
is_minus_one (pos n) = false
is_minus_one (negsuc zero) = true
is_minus_one (negsuc (suc n)) = false

-- What `tcp_open` returns, and what it does to sockets.
unfoldable pub tcp_open : Network → List ℕ → ℕ → ℤ × List SocketAction
tcp_open v ip port =
    if is_minus_one v.socket
    then (negsuc 0, [])
    else if not (v.is_address ip)
    then (negsuc 0, opens v.socket ∷ closes v.socket ∷ [])
    else if not v.connects
    then (negsuc 0, opens v.socket ∷ dials v.socket ip port ∷ closes v.socket ∷ [])
    else (v.socket, opens v.socket ∷ dials v.socket ip port ∷ [])

abbrev pub same_ℤ : ℤ → ℤ → Bool
same_ℤ (pos a) (pos b) = a == b
same_ℤ (negsuc a) (negsuc b) = a == b
same_ℤ (pos a) (negsuc b) = false
same_ℤ (negsuc a) (pos b) = false

-- The socket that is open after an action; none for an action out of order, so that there is one
-- socket at a time and only that one is closed.
unfoldable pub follow_one : Option ℤ → SocketAction → Option (Option ℤ)
follow_one none (opens fd) = some (some fd)
follow_one none (dials fd ip port) = none
follow_one none (closes fd) = none
follow_one (some held) (opens fd) = none
follow_one (some held) (dials fd ip port) = if same_ℤ held fd then some (some held) else none
follow_one (some held) (closes fd) = if same_ℤ held fd then some none else none

unfoldable pub follow : Option (Option ℤ) → List SocketAction → Option (Option ℤ)
follow s [] = s
follow none (a ∷ as') = none
follow (some s) (a ∷ as') = follow (follow_one s a) as'

pub same_refl : (a : ℤ) → same_ℤ a a ≡ true
same_refl (pos n) = ground arith
same_refl (negsuc n) = ground arith

-- What `socket` answers: -1 or a descriptor.
abbrev pub IsDescriptor : ℤ → Type 0
IsDescriptor fd = (fd ≡ negsuc 0) ⊎ (ltb_ℤ fd (pos 0) ≡ false)

pub follow-tcp_open :
    (v : Network) (ip : List ℕ) (port : ℕ)
    → IsDescriptor v.socket
    → let (fd, done) = tcp_open v ip port in
      follow (some none) done ≡ some (if ltb_ℤ fd (pos 0) then none else some fd)
unfolding tcp_open follow follow_one
follow-tcp_open v ip port (inl e) = rw e
follow-tcp_open v ip port (inr e) = ground (arith, same_refl v.socket, e)

-- What `select` answers: how many descriptors are ready, EINTR, or another error.
pub data Selected : Type 0 where
  ready : ℕ → Selected
  interrupted : Selected
  failed : Selected

-- The loop of `select_fd`; none where the answers end before it returns.
unfoldable pub select_fd : List Selected → Option ℤ
select_fd [] = none
select_fd (ready n ∷ as') = some (pos n)
select_fd (interrupted ∷ as') = select_fd as'
select_fd (failed ∷ as') = some (negsuc 0)

-- Which sets are watched, reading and writing, by `wait_for`.
abbrev pub watched : ℕ → Bool × Bool
watched wait_for = (wait_for == 0 || wait_for == 2, wait_for == 1 || wait_for == 2)
