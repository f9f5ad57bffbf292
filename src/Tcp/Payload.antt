-- ===== src/Tcp/Payload.antt =====
-- What goes out behind a command's header.
use go2_setup.Shared.{
  ℕ, ◌<◌, ◌≤◌, ◌≡◌, ◌⊎◌, refl, ◌∙◌, Bool-cases, inl, inr, true, false, List, [], ◌∷◌, Option, none,
  some, arith, ltb, ◌==◌, length, take,
}
use go2_setup.Tcp.{
  Server, TcCommand, Action, locked, opened, sent, finish, send_payload, send_cmd, command,
  command_set_calibration, c_string, code_of, set_calibration, set_calibration_text, wrote,
  build_header, Feedback, transfer_failed, read_command,
}

option-cases : {A : Type 0} (o : Option A) → (o ≡ none) ⊎ ((a : A) × (o ≡ some a))
option-cases none = inl refl
option-cases (some a) = inr (a, refl)

set_calibration_text-send :
    (v : Server) (text : List ℕ) (len : ℕ)
    → 0 < len
    → v.connects ≡ true
    → v.header_written ≡ some 8
    → set_calibration_text v len (some text)
      ≡ code_of (
          send_payload v
            (command command_set_calibration len (some text))
            (locked
              ∷ opened
              ∷ sent
                  (build_header record { cmd = command_set_calibration; ret_code = 0; len = len })
              ∷ [])
            (some text))
unfolding set_calibration_text send_cmd
set_calibration_text-send v text len p c w =
    let e : (len == 0) ≡ false = ground arith in simp (e, c, w)

finish-code :
    (c : TcCommand) (done : List Action) (r : Option Feedback)
    → (code : ℕ) × (code_of (finish c done r) ≡ some code)
unfolding finish
finish-code c done none = (transfer_failed, refl)
finish-code c done (some r) = (r.header.ret_code, refl)

set_calibration_text-within :
    (v : Server) (text : List ℕ) (len : ℕ)
    → 0 < len
    → v.connects ≡ true
    → v.header_written ≡ some 8
    → len ≤ length text
    → (code : ℕ) × (set_calibration_text v len (some text) ≡ some code)
unfolding send_payload
set_calibration_text-within v text len p c w h =
    let e : ltb (length text) len ≡ false = ground arith in
    let pos' : ltb 0 len ≡ true = ground arith in
    elim (Bool-cases (wrote v.payload_written len)) [
      | inl w' ↦
          (let (code, k) =
              finish-code (command command_set_calibration len (some text))
                (locked
                  ∷ opened
                  ∷ sent (
                      build_header
                        record { cmd = command_set_calibration; ret_code = 0; len = len })
                  ∷ sent (take len text)
                  ∷ [])
                (read_command v) in
            (code, set_calibration_text-send v text len p c w ∙ simp (e, pos', w', k)))
      | inr w' ↦ (transfer_failed, set_calibration_text-send v text len p c w ∙ simp (e, pos', w'))
    ]

set_calibration_text-over :
    (v : Server) (text : List ℕ) (len : ℕ)
    → 0 < len
    → v.connects ≡ true
    → v.header_written ≡ some 8
    → ((length text < len) × (set_calibration_text v len (some text) ≡ none))
      ⊎ ((len ≤ length text) × ((code : ℕ) × (set_calibration_text v len (some text) ≡ some code)))
unfolding send_payload
set_calibration_text-over v text len p c w = elim (Bool-cases (ltb (length text) len)) [
  | inl e ↦
      (let pos' : ltb 0 len ≡ true = ground arith in
        inl (ground arith, set_calibration_text-send v text len p c w ∙ rw (e, pos') refl))
  | inr e ↦
      (let h : len ≤ length text = ground arith in
        inr (h, set_calibration_text-within v text len p c w h))
]

-- For a length above 0, once the client has connected and its eight bytes of header are written:
-- `SetCalibration` reads past a buffer without a null byte; with one, it reads past the copy that
-- `strdup` made if the length goes beyond the first null byte, and otherwise returns a code.
pub set_calibration_overread :
    (v : Server) (buffer : List ℕ) (len : ℕ)
    → 0 < len
    → v.connects ≡ true
    → v.header_written ≡ some 8
    → ((c_string buffer ≡ none) × (set_calibration true v buffer len ≡ none))
      ⊎ ((text : List ℕ) × (c_string buffer ≡ some text)
          × (((length text < len) × (set_calibration true v buffer len ≡ none))
              ⊎ ((len ≤ length text)
                  × ((code : ℕ) × (set_calibration true v buffer len ≡ some code)))))
unfolding set_calibration set_calibration_text
set_calibration_overread v buffer len p c w = elim (option-cases (c_string buffer)) [
  | inl e ↦ inl (e, rw e refl)
  | inr (text, e) ↦ inr (text, e, rw e (set_calibration_text-over v text len p c w))
]
