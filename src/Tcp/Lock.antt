-- ===== src/Tcp/Lock.antt =====
-- The client's lock and socket.
use go2_setup.Shared.{
  ℕ, ◌≡◌, refl, not, ◌&&◌, List, [], ◌∷◌, ◌++◌, Option, none, some, ltb, ◌==◌, length, take,
  Bool-cases, inl, inr,
}
use go2_setup.Tcp.{
  Server, TcCommand, Action, locked, opened, sent, closed, unlocked, Outcome, returned, overread,
  finish, send_payload, send_cmd, wrote, is_null, read_command, read_payload, Feedback,
}

-- Where the client stands: the lock free, the lock held, or a socket open under the lock. An action
-- out of order leads nowhere.
pub data Stage : Type 0 where
  free : Stage
  held : Stage
  connected : Stage

unfoldable pub act : Stage → Action → Option Stage
act free locked = some held
act held opened = some connected
act connected (sent bs) = some connected
act connected closed = some held
act held unlocked = some free
act _ _ = none

unfoldable pub acts : Option Stage → List Action → Option Stage
acts s [] = s
acts none (a ∷ as') = none
acts (some s) (a ∷ as') = acts (act s a) as'

-- The actions of an outcome go from a free lock to a free lock, in order.
abbrev pub Releases : Outcome → Type 0
Releases (returned code c done) = acts (some free) done ≡ some free
Releases overread = Unit

-- What was sent while connected, with nothing else done since.
abbrev pub Connected : List Action → Type 0
Connected done = acts (some free) done ≡ some connected

acts-append : (s : Option Stage) (xs ys : List Action) → acts s (xs ++ ys) ≡ acts (acts s xs) ys
unfolding acts
acts-append s [] ys = refl
acts-append none (a ∷ xs) [] = refl
acts-append none (a ∷ xs) (b ∷ ys) = refl
acts-append (some s) (a ∷ xs) ys = acts-append (act s a) xs ys

finish-Releases :
    (c : TcCommand) (done : List Action) (r : Option Feedback)
    → Connected done
    → Releases (finish c done r)
unfolding finish acts act
finish-Releases c done none h = rw (acts-append (some free) done (closed ∷ unlocked ∷ []), h)
finish-Releases c done (some r) h = rw (acts-append (some free) done (closed ∷ unlocked ∷ []), h)

-- A payload that was sent leaves the client connected; one that was not still closes and unlocks.
send_payload-Releases :
    (v : Server) (c : TcCommand) (done : List Action) (bytes : Option (List ℕ))
    → Connected done
    → Releases (send_payload v c done bytes)
unfolding send_payload acts act
send_payload-Releases v c done none h = finish-Releases c done (read_command v) h
send_payload-Releases v c done (some bs) h = elim (Bool-cases (ltb 0 c.header.len)) [
  | inr e ↦ rw e (finish-Releases c done (read_command v) h)
  | inl e ↦ elim (Bool-cases (ltb (length bs) c.header.len)) [
    | inl short ↦ rw (e, short) tt
    | inr long ↦ elim (Bool-cases (wrote v.payload_written c.header.len)) [
      | inl w ↦
          rw (e, long, w)
            (finish-Releases c (done ++ (sent (take c.header.len bs) ∷ [])) (read_command v)
              (rw (acts-append (some free) done (sent (take c.header.len bs) ∷ []), h)))
      | inr w ↦ rw (
        e,
        long,
        w,
        acts-append (some free) done (sent (take c.header.len bs) ∷ closed ∷ unlocked ∷ []),
        h,
      )
    ]
  ]
]

-- On every path on which `SendCmd` returns, it has taken the lock before it opened the socket, sent
-- only while the socket was open, and closed the socket and then released the lock at the end, or
-- it has done nothing at all.
pub send_cmd-Releases : (v : Server) (c : TcCommand) → Releases (send_cmd v c)
unfolding send_cmd acts act send_payload read_command read_payload
send_cmd-Releases v c = elim (Bool-cases (not (c.header.len == 0) && is_null c.payload)) [
  | inl bad ↦ rw bad
  | inr good ↦ elim (Bool-cases v.connects) [
    | inr refused ↦ rw (good, refused)
    | inl open' ↦ elim (Bool-cases (wrote v.header_written 8)) [
      | inl w ↦ rw (good, open', w) (send_payload-Releases v c _ c.payload refl)
      | inr w ↦ rw (good, open', w)
    ]
  ]
]
