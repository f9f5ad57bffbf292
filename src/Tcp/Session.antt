-- ===== src/Tcp/Session.antt =====
-- `SendCmd` together with `tcp_open`: the sockets of one command.
use go2_setup.Shared.{
  ℕ, ◌≡◌, ◌∙◌, refl, ap, true, false, not, ◌&&◌, List, [], ◌∷◌, ◌++◌, Option, none, some, ltb, ◌==◌,
  if◌then◌else◌, length, take, ℤ, pos, ltb_ℤ, Bool-cases, inl, inr,
}
use go2_setup.Util.Sockets.{
  Network, SocketAction, closes, tcp_open, follow, follow_one, follow-tcp_open, same_refl,
  IsDescriptor,
}
use go2_setup.Tcp.{
  Server, TcCommand, Action, locked, opened, sent, closed, unlocked, Outcome, returned, overread,
  connect_server_failed, send_cmd, read_payload, send_payload, finish, wrote, is_null, read_command,
  Feedback,
}
use go2_setup.Tcp.Lock.{Stage, free, held, connected, act, acts, Releases, send_cmd-Releases}

module _ (n : Network) (ip : List ℕ) (port : ℕ) where
  -- What an action of a connected client is to its socket.
  abbrev pub socket_actions : List Action → List SocketAction
  socket_actions [] = []
  socket_actions (opened ∷ done) = (tcp_open n ip port).1 ++ socket_actions done
  socket_actions (closed ∷ done) = closes (tcp_open n ip port).0 ∷ socket_actions done
  socket_actions (locked ∷ done) = socket_actions done
  socket_actions (unlocked ∷ done) = socket_actions done
  socket_actions (sent bs ∷ done) = socket_actions done

  -- A call of `tcp_open` that fails has its own actions.
  unfoldable pub session : Outcome → List SocketAction
  session overread = []
  session (returned code c done) =
      if code == connect_server_failed then (tcp_open n ip port).1 else socket_actions done

  -- The socket at each stage.
  abbrev socket_at : Stage → Option ℤ
  socket_at free = none
  socket_at held = none
  socket_at connected = some (tcp_open n ip port).0

  follow-append :
      (s : Option (Option ℤ)) (xs ys : List SocketAction)
      → follow s (xs ++ ys) ≡ follow (follow s xs) ys
  unfolding follow
  follow-append s [] ys = refl
  follow-append none (a ∷ xs) [] = refl
  follow-append none (a ∷ xs) (b ∷ ys) = refl
  follow-append (some s) (a ∷ xs) ys = follow-append (follow_one s a) xs ys

  follow_one-closes : (fd : ℤ) → follow_one (some fd) (closes fd) ≡ some none
  unfolding follow_one
  follow_one-closes fd = rw (same_refl fd)

  acts-none : (done : List Action) → acts none done ≡ none
  unfolding acts
  acts-none [] = refl
  acts-none (a ∷ done) = refl

  nowhere : {A : Type 0} → (done : List Action) → acts none done ≡ some free → A
  nowhere done h = let x : ⊥ = cc (acts-none done) in absurd x

  module _ (is_descriptor : IsDescriptor n.socket) where
    follow-socket_actions :
        ltb_ℤ (tcp_open n ip port).0 (pos 0) ≡ false
        → (st : Stage) (done : List Action) → acts (some st) done ≡ some free
        → follow (some (socket_at st)) (socket_actions done) ≡ some none
    unfolding acts act follow follow_one
    follow-socket_actions up free [] h = refl
    follow-socket_actions up held [] h = cc
    follow-socket_actions up connected [] h = cc
    follow-socket_actions up free (locked ∷ done) h = follow-socket_actions up held done h
    follow-socket_actions up held (opened ∷ done) h =
        follow-append (some none) (tcp_open n ip port).1 (socket_actions done)
        ∙ ap (λ (o : Option (Option ℤ)). follow o (socket_actions done))
            (follow-tcp_open n ip port is_descriptor ∙ rw up refl)
        ∙ follow-socket_actions up connected done h
    follow-socket_actions up connected (sent bs ∷ done) h =
        follow-socket_actions up connected done h
    follow-socket_actions up connected (closed ∷ done) h =
        ap (λ (o : Option (Option ℤ)). follow o (socket_actions done))
          (follow_one-closes (tcp_open n ip port).0)
        ∙ follow-socket_actions up held done h
    follow-socket_actions up held (unlocked ∷ done) h = follow-socket_actions up free done h
    follow-socket_actions up free (opened ∷ done) h = nowhere done h
    follow-socket_actions up free (sent bs ∷ done) h = nowhere done h
    follow-socket_actions up free (closed ∷ done) h = nowhere done h
    follow-socket_actions up free (unlocked ∷ done) h = nowhere done h
    follow-socket_actions up held (locked ∷ done) h = nowhere done h
    follow-socket_actions up held (sent bs ∷ done) h = nowhere done h
    follow-socket_actions up held (closed ∷ done) h = nowhere done h
    follow-socket_actions up connected (locked ∷ done) h = nowhere done h
    follow-socket_actions up connected (opened ∷ done) h = nowhere done h
    follow-socket_actions up connected (unlocked ∷ done) h = nowhere done h

  -- The code of a failed connection only comes from one.
  abbrev Answers : Outcome → Type 0
  Answers overread = Unit
  Answers (returned code c done) = (code == connect_server_failed) ≡ false

  finish-Answers :
      (c : TcCommand) (done : List Action) (r : Option Feedback) → Answers (finish c done r)
  unfolding finish
  finish-Answers c done none = refl
  finish-Answers c done (some r) = refl

  send_payload-Answers :
      (v : Server) (c : TcCommand) (done : List Action) (bytes : Option (List ℕ))
      → Answers (send_payload v c done bytes)
  unfolding send_payload
  send_payload-Answers v c done none = finish-Answers c done (read_command v)
  send_payload-Answers v c done (some bs) = elim (Bool-cases (ltb 0 c.header.len)) [
    | inr e ↦ rw e (finish-Answers c done (read_command v))
    | inl e ↦ elim (Bool-cases (ltb (length bs) c.header.len)) [
      | inl short ↦ rw (e, short) tt
      | inr long ↦ elim (Bool-cases (wrote v.payload_written c.header.len)) [
        | inl w ↦
            rw (e, long, w)
              (finish-Answers c (done ++ (sent (take c.header.len bs) ∷ [])) (read_command v))
        | inr w ↦ rw (e, long, w)
      ]
    ]
  ]

  send_cmd-Answers : (v : Server) (c : TcCommand) → v.connects ≡ true → Answers (send_cmd v c)
  unfolding send_cmd send_payload read_command read_payload
  send_cmd-Answers v c up = elim (Bool-cases (not (c.header.len == 0) && is_null c.payload)) [
    | inl bad ↦ rw bad
    | inr good ↦ elim (Bool-cases (wrote v.header_written 8)) [
      | inl w ↦ rw (good, up, w) (send_payload-Answers v c _ c.payload)
      | inr w ↦ rw (good, up, w)
    ]
  ]

  -- No socket is open at the end, and there was one at a time.
  abbrev pub Closes : Outcome → Type 0
  Closes overread = Unit
  Closes (returned code c done) = follow (some none) (session (returned code c done)) ≡ some none

  session-Closes :
      (o : Outcome)
      → IsDescriptor n.socket
      → ltb_ℤ (tcp_open n ip port).0 (pos 0) ≡ false
      → Releases o
      → Answers o
      → Closes o
  unfolding session
  session-Closes overread d up h a = tt
  session-Closes (returned code c done) d up h a = rw a (follow-socket_actions d up free done h)

  -- Where `socket` answers -1 or a descriptor, and the client takes the connection for made just
  -- when `tcp_open` returns no negative number: whenever `SendCmd` returns, it has opened one
  -- socket at a time, closed only that one, and none is open at the end, whichever call fails.
  pub send_cmd-Closes :
      (v : Server) (c : TcCommand)
      → IsDescriptor n.socket
      → v.connects ≡ not (ltb_ℤ (tcp_open n ip port).0 (pos 0))
      → Closes (send_cmd v c)
  send_cmd-Closes v c d e = elim (Bool-cases (ltb_ℤ (tcp_open n ip port).0 (pos 0))) [
    | inr up ↦
        session-Closes (send_cmd v c) d up (send_cmd-Releases v c)
          (send_cmd-Answers v c (e ∙ rw up refl))
    | inl down ↦
        unfold send_cmd session in
        elim (Bool-cases (not (c.header.len == 0) && is_null c.payload)) [
          | inl bad ↦ rw bad (unfold follow in refl)
          | inr good ↦ rw (good, e, down) (follow-tcp_open n ip port d ∙ rw down refl)
        ]
  ]
