-- ===== src/Sdk/Calibration.antt =====
-- Where the table of angles comes from in the end.
use go2_setup.Shared.{
  ℕ, ◌≤◌, ◌≡◌, refl, ap, ◌∙◌, sym, arith, Bool, true, false, ◌||◌, List, [], ◌∷◌, ◌++◌, Option,
  none, some, ◌==◌, append-nil, append_assoc, Bool-cases, inl, inr,
}
use go2_setup.Wire.{Parsed, ok, rejected, fault, present, ◌>>=◌}
use go2_setup.Points.{Floats}
use go2_setup.Correction.{Numerals, Locals, AngleTable, correction_content, load_correction_file}
use go2_setup.Correction.RoundTrip.{PrintsFields, IsReread, load_correction_file-save}
use go2_setup.Replay.{c_text, load_text}
use go2_setup.Replay.Saved.{c_text-append, content-NoNull}
use go2_setup.Tcp.{TcpCommandHeader, Server, get_lidar_calibration}
use go2_setup.Tcp.Reply.{Replies, get_calibration-Replies}
use go2_setup.Sdk.{Sdk, corrected, load_reply, take_reply, load_local, get_calibration_from_device}

-- The lidar answered the command with code 0.
abbrev pub answers : Option (ℕ × Option (List ℕ × ℕ)) → Bool
answers none = false
answers (some (code, none)) = false
answers (some (code, some reply)) = code == 0

abbrev pub opens : Option (List ℕ) → Bool
opens none = false
opens (some bytes) = true

or_assoc : (a b c : Bool) → ((a || b) || c) ≡ (a || (b || c))
or_assoc a b c = ground arith

-- What holds of a result, if there is one.
abbrev pub Ensures : {A : Type 0} → (A → Type 0) → Parsed A → Type 0
Ensures P (ok a) = P a
Ensures P rejected = Unit
Ensures P fault = Unit

Ensures-any : {A : Type 0} (o : Parsed A) → Ensures (λ a. Unit {0}) o
Ensures-any (ok a) = tt
Ensures-any rejected = tt
Ensures-any fault = tt

Ensures-bind :
    {A B : Type 0} (P : A → Type 0) (Q : B → Type 0) (o : Parsed A) (k : A → Parsed B)
    → Ensures P o
    → ((a : A) → P a → Ensures Q (k a))
    → Ensures Q (o >>= k)
Ensures-bind P Q (ok a) k h g = g a h
Ensures-bind P Q rejected k h g = tt
Ensures-bind P Q fault k h g = tt

Ensures-weaken :
    {A : Type 0} (P Q : A → Type 0) (o : Parsed A)
    → Ensures P o
    → ((a : A) → P a → Q a)
    → Ensures Q o
Ensures-weaken P Q (ok a) h g = g a h
Ensures-weaken P Q rejected h g = tt
Ensures-weaken P Q fault h g = tt

module _ (F : Floats) (num : Numerals F) (locals : Locals F) (behind : List ℕ)
    (file : Option (List ℕ)) where
  kept :
      (s : Sdk F)
      → s.general.got_correction ≡ true
      → load_local F num locals behind file file s ≡ ok s
  unfolding load_local
  kept s h = elim file as (λ f. load_local F num locals behind file f s ≡ ok s) [
    | none ↦ refl
    | some bytes ↦ rw h refl
  ]

  -- Where the lidar answers the command, with code 0 and over a stream without failing reads, with
  -- the text that `SaveCorrectionFile` writes for at most 64 lasers, and the stream library prints
  -- numbers as fields without commas, line ends and null bytes and reads an `int` back: the thread
  -- ends without a fault, the flag is set, the text is kept, the ring is as it was, and the table
  -- is the one sent, each number as it reads back; no file is used.
  pub get_calibration_from_device-Replies :
      (v : Server) (h : TcpCommandHeader) (more : List ℕ) (s : Sdk F) (t : AngleTable F) (n : ℕ)
      → PrintsFields F num
      → n ≤ 64
      → v.connects ≡ true
      → v.header_written ≡ some 8
      → h.ret_code ≡ 0
      → Replies v h (correction_content F num t n) more
      → (s' : Sdk F) × (get_calibration_from_device F num locals behind file true v s ≡ ok s')
        × (s'.general.got_correction ≡ true)
        × (s'.general.ring ≡ s.general.ring)
        × (s'.content ≡ correction_content F num t n)
        × IsReread F num locals t s.general.table s'.general.table n
  unfolding get_calibration_from_device take_reply load_reply load_local
      go2_setup.Correction.lines_of
  get_calibration_from_device-Replies v h more s t n p room c w code r =
      let content = correction_content F num t n in
      let (after, l, q) = load_correction_file-save F num locals t s.general.table n [] p room tt in
      let text : c_text ((content ++ (0 ∷ [])) ++ behind) ≡ some content =
        ap c_text (append_assoc content (0 ∷ []) behind)
        ∙ c_text-append content behind (content-NoNull F num t n p) in
      let loaded : load_correction_file F num locals content s.general.table ≡ ok after =
        ap (λ xs. load_correction_file F num locals xs s.general.table) (sym (append-nil content))
        ∙ l in
      (
        corrected F s content after,
        rw ((get_calibration-Replies v h content more c w r).1, code, text, loaded)
            (kept (corrected F s content after) refl),
        refl,
        refl,
        refl,
        q,
      )

  load_reply-flag :
      (s : Sdk F) (buffer : List ℕ)
      → Ensures
          (λ (s' : Sdk F). (s'.general.got_correction ≡ true) × (s'.general.ring ≡ s.general.ring))
          (load_reply F num locals behind file s buffer)
  unfolding load_reply
  load_reply-flag s buffer =
      Ensures-bind (λ text. Unit {0}) _ (present (c_text (buffer ++ behind))) _ (Ensures-any _)
        (λ text u.
          Ensures-bind (λ t. Unit {0}) _ (load_correction_file F num locals text s.general.table) _
            (Ensures-any _) (λ t w. (refl, refl)))

  take_reply-flag :
      (s : Sdk F) (code : ℕ) (reply : Option (List ℕ × ℕ))
      → Ensures
          (λ (s' : Sdk F).
            (s'.general.got_correction ≡ (s.general.got_correction || answers (some (code, reply))))
            × (s'.general.ring ≡ s.general.ring))
          (take_reply F num locals behind file s (code, reply))
  unfolding take_reply
  take_reply-flag s code none = (ground arith, refl)
  take_reply-flag s code (some (buffer, len)) = elim (Bool-cases (code == 0)) [
    | inl c ↦ rw c (
        Ensures-weaken _ _ (load_reply F num locals behind file s buffer) (load_reply-flag s buffer)
          (λ s' h. (h.0 ∙ ground arith, h.1)))
    | inr c ↦ rw c (ground arith, refl)
  ]

  load_local-flag :
      (given : Option (List ℕ)) (s : Sdk F)
      → Ensures
          (λ (s' : Sdk F).
            (s'.general.got_correction ≡ (s.general.got_correction || opens given))
            × (s'.general.ring ≡ s.general.ring))
          (load_local F num locals behind file given s)
  unfolding load_local
  load_local-flag none s = (ground arith, refl)
  load_local-flag (some bytes) s = elim (Bool-cases s.general.got_correction) [
    | inl g ↦ simp (g) (refl, refl)
    | inr g ↦ simp (g) (
        Ensures-bind (λ t. Unit {0}) _ (load_text F num locals behind file bytes s.general.table) _
          (Ensures-any _) (λ t w. (refl, refl)))
  ]

  -- Whenever the thread ends without a fault, whatever the server and the file hold, the flag is
  -- set exactly if it was set before, or the lidar answered with code 0, or the file opens; and the
  -- ring is as it was.
  pub get_calibration_from_device-flag :
      (v : Server) (s : Sdk F)
      → Ensures
          (λ (s' : Sdk F).
            (s'.general.got_correction ≡ (
              s.general.got_correction || (answers (get_lidar_calibration true v) || opens file)))
            × (s'.general.ring ≡ s.general.ring))
          (get_calibration_from_device F num locals behind file true v s)
  unfolding get_calibration_from_device
  get_calibration_from_device-flag v s =
      elim (get_lidar_calibration true v)
        as (λ o.
          Ensures
            (λ (s' : Sdk F).
              (s'.general.got_correction ≡ (s.general.got_correction || (answers o || opens file)))
              × (s'.general.ring ≡ s.general.ring))
            (present o >>= λ answer.
              (take_reply F num locals behind file s answer
                >>= load_local F num locals behind file file))) [
                  | none ↦ tt
                  | some (code, reply) ↦
                      Ensures-bind _ _ (take_reply F num locals behind file s (code, reply)) _
                        (take_reply-flag s code reply)
                        (λ s' h.
                          Ensures-weaken _ _ (load_local F num locals behind file file s')
                            (load_local-flag file s')
                            (λ s'' g. (
                              g.0
                                  ∙ rw h.0 (
                                      or_assoc s.general.got_correction
                                        (answers (some (code, reply))) (opens file)),
                              g.1 ∙ h.1,
                            )))
                ]
