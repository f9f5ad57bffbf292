-- ===== src/Replay/Saved.antt =====
-- A correction packet that `SaveCorrectionFile` made, played back.
use go2_setup.Shared.{
  ℕ, zero, suc, ◌+◌, ◌*◌, ◌^◌, ◌≤◌, ◌<◌, ◌≡◌, ◌≢◌, refl, ap, ◌∙◌, sym, true, false, List, [], ◌∷◌,
  ◌++◌, Option, some, arith, ◌==◌, ==_refl, length, take, All, byte_of, append_assoc,
}
use go2_setup.Wire.{ok, read, ◌>>=◌}
use go2_setup.Points.{Floats}
use go2_setup.Correction.{
  Numerals, Locals, AngleTable, heading, lines_of, save_line, save_lines, correction_content,
  save_correction_file, load_correction_file,
}
use go2_setup.Correction.RoundTrip.{
  IsPlain, PrintsFields, EndsShort, IsReread, IsStray, load_correction_file-save,
  load_correction_file-stray,
}
use go2_setup.Replay.{
  c_text, ScanPacket, is_correction, correction_length, Replay, load_text, load_sized, load_message,
  push_one,
}

abbrev pub NoNull : List ℕ → Type 0
NoNull = All (λ c. c ≢ 0)

pub c_text-append : (xs r : List ℕ) → NoNull xs → c_text (xs ++ (0 ∷ r)) ≡ some xs
unfolding c_text
c_text-append [] r h = refl
c_text-append (c ∷ cs) r h =
    let e : (c == 0) ≡ false = ground (arith, h.0) in rw (e, c_text-append cs r h.1)

NoNull-append : (xs ys : List ℕ) → NoNull xs → NoNull ys → NoNull (xs ++ ys)
NoNull-append [] ys h k = k
NoNull-append (x ∷ xs) ys h k = (h.0, NoNull-append xs ys h.1 k)

plain-NoNull : (xs : List ℕ) → All IsPlain xs → NoNull xs
plain-NoNull [] h = tt
plain-NoNull (c ∷ cs) h = (h.0.no_null, plain-NoNull cs h.1)

take-append_all : (xs : List ℕ) → take (length xs) xs ≡ xs
take-append_all [] = refl
take-append_all (x ∷ xs) = ap (◌∷◌ x) (take-append_all xs)

module _ (F : Floats) (num : Numerals F) where
  open num use {show_int, show_float}

  save_line-NoNull : (t : AngleTable F) (i : ℕ) → PrintsFields F num → NoNull (save_line F num t i)
  unfolding save_line
  save_line-NoNull t i h =
      NoNull-append (show_int (i + 1)) _ (plain-NoNull _ (h.int_field (i + 1)).plain) (
        omega arith,
        NoNull-append (show_float (t.elevation i)) _
            (plain-NoNull _ (h.float_field (t.elevation i)).plain)
            (omega arith, plain-NoNull _ (h.float_field (t.azimuth_offset i)).plain),
      )

  save_lines-NoNull :
      (t : AngleTable F) (i n : ℕ) → PrintsFields F num → NoNull (save_lines F num t i n)
  unfolding save_lines
  save_lines-NoNull t i zero h = tt
  save_lines-NoNull t i (suc n) h =
      NoNull-append (save_line F num t i) _ (save_line-NoNull t i h)
        (omega arith, save_lines-NoNull t (i + 1) n h)

  pub content-NoNull :
      (t : AngleTable F) (n : ℕ) → PrintsFields F num → NoNull (correction_content F num t n)
  content-NoNull t n h =
      NoNull-append heading (save_lines F num t 0 n) (omega arith) (save_lines-NoNull t 0 n h)

  -- The message that carries the packet of a table.
  abbrev pub saved_message : AngleTable F → ℕ → ℕ → ℕ → ScanPacket
  saved_message t n sec nanosec =
      let (bytes, size) = save_correction_file F num t n in
      record { sec = sec; nanosec = nanosec; data_bytes = bytes; size = size }

module _ (F : Floats) (num : Numerals F) (locals : Locals F) (behind : List ℕ)
    (file : Option (List ℕ)) where
  pub load_text-append :
      (xs garbage more : List ℕ) (t : AngleTable F)
      → NoNull xs
      → NoNull garbage
      → behind ≡ garbage ++ (0 ∷ more)
      → load_text F num locals behind file xs t
        ≡ load_correction_file F num locals (xs ++ garbage) t
  unfolding load_text
  load_text-append xs garbage more t h k e = rw (
    e,
    sym (append_assoc xs garbage (0 ∷ more)),
    c_text-append (xs ++ garbage) more (NoNull-append xs garbage h k),
  )

  -- A message of a text, with the eight bytes in front.
  abbrev framed : List ℕ → ℕ → ℕ → ScanPacket
  framed content sec nanosec = record {
    sec = sec;
    nanosec = nanosec;
    data_bytes =
        0x47
        ∷ 0x74
        ∷ 0x05
        ∷ 0x00
        ∷ byte_of (length content) 3
        ∷ byte_of (length content) 2
        ∷ byte_of (length content) 1
        ∷ byte_of (length content) 0
        ∷ content;
    size = length content;
  }

  correction_length-framed :
      (content : List ℕ) (sec nanosec : ℕ)
      → length content < 2 ^ 32
      → correction_length (framed content sec nanosec).data_bytes ≡ ok (length content)
  unfolding correction_length read
  correction_length-framed content sec nanosec h =
      let e : byte_of (length content) 3 * 16777216
            + byte_of (length content) 2 * 65536
            + byte_of (length content) 1 * 256
            + byte_of (length content) 0
          ≡ length content =
        omega arith in
      ap ok e

  load_sized-framed :
      (r : Replay F) (content : List ℕ) (sec nanosec : ℕ)
      → load_sized F num locals behind file r (framed content sec nanosec) ≡ (
          load_text F num locals behind file content r.table >>= λ t'.
          ok (record r { table = t'; got_correction = true }))
  unfolding load_sized
  load_sized-framed r content sec nanosec = ground (arith, take-append_all content)

  push_one-framed :
      (r : Replay F) (content : List ℕ) (sec nanosec : ℕ)
      → r.got_correction ≡ false
      → length content < 2 ^ 32
      → push_one F num locals behind file r (framed content sec nanosec) ≡ (
          load_text F num locals behind file content r.table >>= λ t'.
          ok (record r { table = t'; got_correction = true }))
  unfolding push_one is_correction read load_message
  push_one-framed r content sec nanosec e small =
      simp (e, correction_length-framed content sec nanosec small, ==_refl (length content))
        (load_sized-framed r content sec nanosec)

  -- A packet that `SaveCorrectionFile` made of a table for at most 64 lasers, played back before
  -- the flag is set, sets the flag, leaves the ring alone and brings back the table, each number as
  -- it reads back, if the memory behind the unterminated buffer has a null byte and the line up to
  -- it is shorter than 5 characters, the text is shorter than 2 ^ 32, and numbers print as fields
  -- without commas, line ends and null bytes and an `int` reads back.
  pub push_one-saved :
      (r : Replay F) (t : AngleTable F) (n sec nanosec : ℕ) (garbage more : List ℕ)
      → PrintsFields F num
      → r.got_correction ≡ false
      → n ≤ 64
      → length (correction_content F num t n) < 2 ^ 32
      → behind ≡ garbage ++ (0 ∷ more)
      → NoNull garbage
      → EndsShort (lines_of garbage)
      → (r' : Replay F) × (push_one F num locals behind file r (saved_message F num t n sec nanosec)
          ≡ ok r')
        × (r'.got_correction ≡ true)
        × (r'.ring ≡ r.ring)
        × IsReread F num locals t r.table r'.table n
  unfolding save_correction_file
  push_one-saved r t n sec nanosec garbage more h e room small b k short =
      let (after, l, q) = load_correction_file-save F num locals t r.table n garbage h room short in
      (
        record r { table = after; got_correction = true },
        push_one-framed r (correction_content F num t n) sec nanosec e small
            ∙ rw (
              load_text-append (correction_content F num t n) garbage more r.table
                  (content-NoNull F num t n h) k b,
              l,
            ),
        refl,
        refl,
        q,
      )

  -- A packet that `SaveCorrectionFile` made of a table for fewer than 64 lasers, played back before
  -- the flag is set, where the memory behind the unterminated buffer has, before its first null
  -- byte, what looks like a further line of 5 characters or more with another number: if the text
  -- is shorter than 2 ^ 32 and numbers print as fields without commas, line ends and null bytes and
  -- an `int` reads back, it goes through without a fault, and the table has one laser more, whose
  -- elevation is that of an array element that nothing was written into.
  pub push_one-stray :
      (r : Replay F) (t : AngleTable F) (n sec nanosec : ℕ) (garbage more : List ℕ)
      → PrintsFields F num
      → r.got_correction ≡ false
      → n < 64
      → length (correction_content F num t n) < 2 ^ 32
      → behind ≡ garbage ++ (0 ∷ more)
      → NoNull garbage
      → IsStray F num locals n (lines_of garbage)
      → (r' : Replay F) × (push_one F num locals behind file r (saved_message F num t n sec nanosec)
          ≡ ok r')
        × (r'.table.size ≡ n + 1)
        × (r'.table.elevation n ≡ F.narrow (locals.elevations n))
  unfolding save_correction_file
  push_one-stray r t n sec nanosec garbage more h e room small b k stray =
      let (after, l, q, u, v) =
        load_correction_file-stray F num locals t r.table n garbage h room stray in
      (
        record r { table = after; got_correction = true },
        push_one-framed r (correction_content F num t n) sec nanosec e small
            ∙ rw (
              load_text-append (correction_content F num t n) garbage more r.table
                  (content-NoNull F num t n h) k b,
              l,
            ),
        q,
        u,
      )
