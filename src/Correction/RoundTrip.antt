-- ===== src/Correction/RoundTrip.antt =====
-- What `LoadCorrectionFile` reads from the text that `SaveCorrectionFile` writes.
use go2_setup.Shared.{
  ℕ, zero, suc, ◌+◌, ◌≤◌, ◌<◌, ◌≡◌, ◌≢◌, refl, ap, true, false, ◌&&◌, List, [], ◌∷◌, ◌++◌, none,
  some, arith, ltb, leb, ◌==◌, ==_refl, if◌then◌else◌, length, length-append, update, All, pos,
  append_assoc,
}
use go2_setup.Wire.{ok}
use go2_setup.Points.{Floats}
use go2_setup.Correction.{
  until, lines_of, equals, Numerals, Locals, AngleTable, parse_line, load_lines, fill_table, filled,
  below_heading, load_correction_file, save_line, save_lines, correction_content,
}

-- The text ends, or goes on with a line that is too short to be read.
abbrev pub EndsShort : List (List ℕ) → Type 0
EndsShort [] = Unit
EndsShort (line ∷ lines) = length line < 5

-- A character of a field: no comma, line's end or null.
pub record IsPlain (c : ℕ) : Type 0 where
  pub no_comma : c ≢ b','
  pub no_newline : c ≢ b'\n'
  pub no_null : c ≢ 0

-- A text of such characters that is not empty.
pub record IsField (xs : List ℕ) : Type 0 where
  pub plain : All IsPlain xs
  pub nonempty : 0 < length xs

until-append : (xs r : List ℕ) → All IsPlain xs → until b',' (xs ++ (b',' ∷ r)) ≡ (xs, some r)
unfolding until
until-append [] r h = refl
until-append (c ∷ cs) r h =
    let e : (c == b',') ≡ false = ground (arith, h.0.no_comma) in rw (e, until-append cs r h.1)

until-plain : (xs : List ℕ) → All IsPlain xs → until b',' xs ≡ (xs, none)
unfolding until
until-plain [] h = refl
until-plain (c ∷ cs) h =
    let e : (c == b',') ≡ false = ground (arith, h.0.no_comma) in rw (e, until-plain cs h.1)

lines_of-append :
    (xs r : List ℕ) → All (λ c. c ≢ b'\n') xs → lines_of (xs ++ (b'\n' ∷ r)) ≡ xs ∷ lines_of r
unfolding lines_of
lines_of-append [] r h = refl
lines_of-append (c ∷ cs) r h =
    let e : (c == b'\n') ≡ false = ground (arith, h.0) in rw (e, lines_of-append cs r h.1)

All-append : (P : ℕ → Type 0) (xs ys : List ℕ) → All P xs → All P ys → All P (xs ++ ys)
All-append P [] ys h k = k
All-append P (x ∷ xs) ys h k = (h.0, All-append P xs ys h.1 k)

field-oneline : (xs : List ℕ) → All IsPlain xs → All (λ c. c ≢ b'\n') xs
field-oneline [] h = tt
field-oneline (c ∷ cs) h = (h.0.no_newline, field-oneline cs h.1)

module _ (F : Floats) (num : Numerals F) where
  open F use {Double, Float, narrow}
  open num use {int_of, double_of, show_int, show_float, sin_degrees, cos_degrees}

  -- What the stream library does: numbers are printed as fields, and an `int` is read back.
  pub record PrintsFields : Type 0 where
    pub int_field : (n : ℕ) → IsField (show_int n)
    pub float_field : (x : Float) → IsField (show_float x)
    pub int_back : (n : ℕ) → int_of (show_int n) ≡ pos n

  parse_line-save_line :
      (l : Locals F) (t : AngleTable F) (i : ℕ)
      → PrintsFields
      → parse_line F num l (save_line F num t i) ≡ (
        pos (i + 1),
        double_of l.elev (show_float (t.elevation i)),
        double_of l.azimuth (show_float (t.azimuth_offset i)),
      )
  unfolding parse_line save_line
  parse_line-save_line l t i h = rw (
    until-append (show_int (i + 1))
        (show_float (t.elevation i) ++ (b',' ∷ show_float (t.azimuth_offset i)))
        (h.int_field (i + 1)).plain,
    until-append (show_float (t.elevation i)) (show_float (t.azimuth_offset i))
        (h.float_field (t.elevation i)).plain,
    until-plain (show_float (t.azimuth_offset i)) (h.float_field (t.azimuth_offset i)).plain,
    h.int_back (i + 1),
  )

  save_line-oneline :
      (t : AngleTable F) (i : ℕ) → PrintsFields → All (λ c. c ≢ b'\n') (save_line F num t i)
  unfolding save_line
  save_line-oneline t i h =
      All-append _ (show_int (i + 1)) _ (field-oneline _ (h.int_field (i + 1)).plain) (
        omega arith,
        All-append _ (show_float (t.elevation i)) _
            (field-oneline _ (h.float_field (t.elevation i)).plain)
            (omega arith, field-oneline _ (h.float_field (t.azimuth_offset i)).plain),
      )

  save_line-long : (t : AngleTable F) (i : ℕ) → PrintsFields → 5 ≤ length (save_line F num t i)
  unfolding save_line
  save_line-long t i h =
      let a = (h.int_field (i + 1)).nonempty in
      let b = (h.float_field (t.elevation i)).nonempty in
      let c = (h.float_field (t.azimuth_offset i)).nonempty in
      omega (
        arith,
        length-append (show_int (i + 1))
            (b',' ∷ (show_float (t.elevation i) ++ (b',' ∷ show_float (t.azimuth_offset i)))),
        length-append (show_float (t.elevation i)) (b',' ∷ show_float (t.azimuth_offset i)),
        a,
        b,
        c,
      )

  -- The locals with laser `i` of the table in the arrays.
  abbrev with_laser : Locals F → AngleTable F → ℕ → Locals F
  with_laser l t i = record l {
    elevations = update l.elevations i (double_of l.elev (show_float (t.elevation i)));
    azimuths = update l.azimuths i (double_of l.azimuth (show_float (t.azimuth_offset i)));
  }

  -- The arrays after the lines of lasers `i` to `i + n - 1`.
  loaded : Locals F → AngleTable F → ℕ → ℕ → Locals F
  loaded l t i zero = l
  loaded l t i (suc n) = loaded (with_laser l t i) t (i + 1) n

  load_lines-save_line :
      (l : Locals F) (t : AngleTable F) (i : ℕ) (ls : List (List ℕ))
      → PrintsFields
      → i < 64
      → load_lines F num i l (save_line F num t i ∷ ls)
        ≡ load_lines F num (i + 1) (with_laser l t i) ls
  unfolding load_lines
  load_lines-save_line l t i ls h room =
      let e1 : ltb (length (save_line F num t i)) 5 ≡ false =
        ground (arith, save_line-long t i h) in
      let e2 : ltb i 64 ≡ true = ground arith in
      rw (parse_line-save_line l t i h, e1, ==_refl (i + 1), e2)

  load_lines-save_lines :
      (l : Locals F) (t : AngleTable F) (rest : List ℕ) (n i : ℕ)
      → PrintsFields
      → i + n ≤ 64
      → load_lines F num i l (lines_of (save_lines F num t i n ++ rest))
        ≡ load_lines F num (i + n) (loaded l t i n) (lines_of rest)
  unfolding save_lines loaded
  load_lines-save_lines l t rest zero i h room =
      ap (λ k. load_lines F num k l (lines_of rest)) (omega arith)
  load_lines-save_lines l t rest (suc n) i h room =
      let e : i + suc n ≡ i + 1 + n = omega arith in
      let ls = save_lines F num t (i + 1) n ++ rest in
      rw
        (
          e,
          append_assoc (save_line F num t i) (b'\n' ∷ save_lines F num t (i + 1) n) rest,
          lines_of-append (save_line F num t i) ls (save_line-oneline t i h),
          load_lines-save_line l t i (lines_of ls) h (omega arith),
        )
        (load_lines-save_lines (with_laser l t i) t rest n (i + 1) h (omega arith))

  -- The value that comes back from a float that was printed.
  abbrev pub reread : Double → Float → Float
  reread d x = narrow (double_of d (show_float x))

  loaded-elevations :
      (l : Locals F) (t : AngleTable F) (n i j : ℕ)
      → (loaded l t i n).elevations j ≡ (
          if leb i j && ltb j (i + n)
          then double_of l.elev (show_float (t.elevation j))
          else l.elevations j)
  unfolding loaded
  loaded-elevations l t zero i j = ground arith
  loaded-elevations l t (suc n) i j =
      ground (arith, loaded-elevations (with_laser l t i) t n (i + 1) j)

  loaded-azimuths :
      (l : Locals F) (t : AngleTable F) (n i j : ℕ)
      → (loaded l t i n).azimuths j ≡ (
          if leb i j && ltb j (i + n)
          then double_of l.azimuth (show_float (t.azimuth_offset j))
          else l.azimuths j)
  unfolding loaded
  loaded-azimuths l t zero i j = ground arith
  loaded-azimuths l t (suc n) i j = ground (arith, loaded-azimuths (with_laser l t i) t n (i + 1) j)

  lines_of-correction_content :
      (t : AngleTable F) (n : ℕ) (rest : List ℕ)
      → below_heading (lines_of (correction_content F num t n ++ rest))
        ≡ lines_of (save_lines F num t 0 n ++ rest)
  unfolding lines_of
  lines_of-correction_content t n rest = refl

  -- The table after a text for `n` lasers, whatever it was before.
  pub record IsReread (l : Locals F) (t before after : AngleTable F) (n : ℕ) : Type 0 where
    pub size : after.size ≡ n
    pub elevation :
        (j : ℕ)
        → after.elevation j
          ≡ (if ltb j n then reread l.elev (t.elevation j) else before.elevation j)
    pub azimuth_offset :
        (j : ℕ)
        → after.azimuth_offset j
          ≡ (if ltb j n then reread l.azimuth (t.azimuth_offset j) else before.azimuth_offset j)
    pub sin_elevation :
        (j : ℕ)
        → after.sin_elevation j ≡ (
            if ltb j n then sin_degrees (reread l.elev (t.elevation j)) else before.sin_elevation j)
    pub cos_elevation :
        (j : ℕ)
        → after.cos_elevation j ≡ (
            if ltb j n then cos_degrees (reread l.elev (t.elevation j)) else before.cos_elevation j)

  fill_table-loaded :
      (l : Locals F) (t before : AngleTable F) (n : ℕ)
      → n ≤ 64
      → (after : AngleTable F) × (fill_table F num n (loaded l t 0 n) before ≡ ok after)
        × IsReread l t before after n
  unfolding fill_table
  fill_table-loaded l t before n room =
      let e : ltb 64 n ≡ false = ground arith in
      (
        filled F num n (loaded l t 0 n) before,
        rw e,
        record {
          size = refl;
          elevation = λ j. ground (arith, loaded-elevations l t n 0 j);
          azimuth_offset = λ j. ground (arith, loaded-azimuths l t n 0 j);
          sin_elevation = λ j. ground (arith, loaded-elevations l t n 0 j);
          cos_elevation = λ j. ground (arith, loaded-elevations l t n 0 j);
        },
      )

  load_lines-EndsShort :
      (n : ℕ) (l : Locals F) (ls : List (List ℕ))
      → EndsShort ls
      → load_lines F num n l ls ≡ ok (n, l)
  unfolding load_lines
  load_lines-EndsShort n l [] h = refl
  load_lines-EndsShort n l (line ∷ ls) h = let e : ltb (length line) 5 ≡ true = ground arith in rw e

  pub load_correction_file-save :
      (l : Locals F) (t before : AngleTable F) (n : ℕ) (rest : List ℕ)
      → PrintsFields
      → n ≤ 64
      → EndsShort (lines_of rest)
      → (after : AngleTable F) × (load_correction_file F num l
            (correction_content F num t n ++ rest)
            before
          ≡ ok after)
        × IsReread l t before after n
  unfolding load_correction_file
  load_correction_file-save l t before n rest h room short =
      let (after, e, r) = fill_table-loaded l t before n room in
      (
        after,
        rw
            (
              lines_of-correction_content t n rest,
              load_lines-save_lines l t rest n 0 h (omega arith),
            )
            (let z : 0 + n ≡ n = omega arith in
              rw (z, load_lines-EndsShort n (loaded l t 0 n) (lines_of rest) short) e),
        r,
      )

  -- What stands behind the text is taken for one more laser: the line is long enough, but its number is
  -- not the next one.
  pub record IsStray (l : Locals F) (n : ℕ) (lines : List (List ℕ)) : Type 0 where
    pub line : List ℕ
    pub more : List (List ℕ)
    pub first : lines ≡ line ∷ more
    pub long : 5 ≤ length line
    pub wrong : equals (parse_line F num l line).0 (n + 1) ≡ false

  load_lines-stray :
      (l l' : Locals F) (n : ℕ) (line : List ℕ) (more : List (List ℕ))
      → 5 ≤ length line
      → equals (parse_line F num l line).0 (n + 1) ≡ false
      → load_lines F num n l' (line ∷ more) ≡ ok (n + 1, l')
  unfolding load_lines parse_line
  load_lines-stray l l' n line more long wrong =
      let e : ltb (length line) 5 ≡ false = ground arith in rw (e, wrong)

  pub load_correction_file-stray :
      (l : Locals F) (t before : AngleTable F) (n : ℕ) (rest : List ℕ)
      → PrintsFields
      → n < 64
      → IsStray l n (lines_of rest)
      → (after : AngleTable F) × (load_correction_file F num l
            (correction_content F num t n ++ rest)
            before
          ≡ ok after)
        × (after.size ≡ n + 1)
        × (after.elevation n ≡ narrow (l.elevations n))
        × (after.azimuth_offset n ≡ narrow (l.azimuths n))
  unfolding load_correction_file fill_table
  load_correction_file-stray l t before n rest h room s =
      let l' = loaded l t 0 n in
      let z : 0 + n ≡ n = omega arith in
      let e : load_lines F num n l' (lines_of rest) ≡ ok (n + 1, l') =
        rw s.first (load_lines-stray l l' n s.line s.more s.long s.wrong) in
      let f : ltb 64 (n + 1) ≡ false = ground arith in
      (
        filled F num (n + 1) l' before,
        rw (
          lines_of-correction_content t n rest,
          load_lines-save_lines l t rest n 0 h (omega arith),
          z,
          e,
          f,
        ),
        refl,
        ground (arith, loaded-elevations l t n 0 n),
        ground (arith, loaded-azimuths l t n 0 n),
      )
