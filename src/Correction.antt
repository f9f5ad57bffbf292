-- ===== src/Correction.antt =====
-- The table of elevations and azimuth offsets: `LoadCorrectionFile` and `SaveCorrectionFile` of
-- pandarGeneral_internal.cc. A text is the list of its bytes; how the stream library prints and reads
-- numbers is a parameter, and so is what uninitialised memory holds.
pub mod RoundTrip
use go2_setup.Shared.{
  ℕ, zero, suc, ◌+◌, ◌-◌, Bool, true, false, not, List, [], ◌∷◌, ◌++◌, Option, none, some, ltb,
  ◌==◌, if◌then◌else◌, length, update, byte_of, ℤ, pos, negsuc,
}
use go2_setup.Wire.{Parsed, ok, rejected, fault, fault_unless, ◌>>=◌, ◌>>◌}
use go2_setup.Points.{Floats}

-- `std::getline` up to a delimiter, which it takes too: the characters before it, and those behind it;
-- none if the text ended first.
unfoldable pub until : ℕ → List ℕ → List ℕ × Option (List ℕ)
until d [] = ([], none)
until d (c ∷ cs) =
    let (field, rest) = until d cs in if c == d then ([], some cs) else (c ∷ field, rest)

-- A character in front of the first line.
abbrev pub in_front : ℕ → List (List ℕ) → List (List ℕ)
in_front c [] = (c ∷ []) ∷ []
in_front c (l ∷ ls) = (c ∷ l) ∷ ls

-- The lines that `while (std::getline(ifs, line))` goes through.
unfoldable pub lines_of : List ℕ → List (List ℕ)
lines_of [] = []
lines_of (c ∷ cs) = let rest = lines_of cs in if c == b'\n' then [] ∷ rest else in_front c rest

-- The lines below the first.
abbrev pub below_heading : List (List ℕ) → List (List ℕ)
below_heading [] = []
below_heading (l ∷ ls) = ls

-- `std::getline(ss, subline, ',')` on what is left of the line: at its end `subline` stays as it was.
abbrev pub next_field : List ℕ → Option (List ℕ) → List ℕ × Option (List ℕ)
next_field subline none = (subline, none)
next_field subline (some cs) = until b',' cs

abbrev pub equals : ℤ → ℕ → Bool
equals (pos m) n = m == n
equals (negsuc m) n = false

module _ (F : Floats) where
  open F use {Double, Float, narrow}

  -- `std::stringstream(t) >> x` for an `int` that was 0 and for a double that had a value, and `<<`.
  pub record Numerals : Type 0 where
    pub int_of : List ℕ → ℤ
    pub double_of : Double → List ℕ → Double
    pub show_int : ℕ → List ℕ
    pub show_float : Float → List ℕ
    -- `sinf(degreeToRadian(e))` and the cosine
    pub sin_degrees : Float → Float
    pub cos_degrees : Float → Float

  -- `azimuthOffset`, `elev_angle`, `elev` and `azimuth` before anything is written into them.
  pub record Locals : Type 0 where
    pub azimuths : ℕ → Double
    pub elevations : ℕ → Double
    pub elev : Double
    pub azimuth : Double

  -- `General_elev_angle_map_`, `General_horizatal_azimuth_offset_map_` and the two vectors, of one size.
  pub record AngleTable : Type 0 where
    pub elevation : ℕ → Float
    pub azimuth_offset : ℕ → Float
    pub sin_elevation : ℕ → Float
    pub cos_elevation : ℕ → Float
    pub size : ℕ

-- The first line, with the newline of `std::endl`.
abbrev pub heading : List ℕ
heading =
    b'L' ∷ b'a' ∷ b's' ∷ b'e' ∷ b'r' ∷ b' ' ∷ b'i' ∷ b'd' ∷ b',' ∷ b'E' ∷ b'l' ∷ b'e' ∷ b'v' ∷ b'a'
    ∷ b't' ∷ b'i' ∷ b'o' ∷ b'n' ∷ b',' ∷ b'A' ∷ b'z' ∷ b'i' ∷ b'm' ∷ b'u' ∷ b't' ∷ b'h' ∷ b'\n' ∷ []

module _ (F : Floats) (num : Numerals F) where
  open F use {Double, Float, narrow}
  open num use {int_of, double_of, show_int, show_float, sin_degrees, cos_degrees}

  -- The three fields of a line: `lineId`, `elev`, `azimuth`.
  unfoldable pub parse_line : Locals F → List ℕ → ℤ × Double × Double
  parse_line l line =
      let (a, r1) = next_field [] (some line) in
      let (b, r2) = next_field a r1 in
      let (c, r3) = next_field b r2 in (int_of a, double_of l.elev b, double_of l.azimuth c)

  -- The loop of `LoadCorrectionFile` with `lineCounter` and the arrays, which have 64 elements.
  unfoldable pub load_lines : ℕ → Locals F → List (List ℕ) → Parsed (ℕ × Locals F)
  load_lines counter l [] = ok (counter, l)
  load_lines counter l (line ∷ lines) =
      let (id, elev, azimuth) = parse_line l line in
      let rest =
        load_lines (counter + 1)
          (record l {
            elevations = update l.elevations counter elev;
            azimuths = update l.azimuths counter azimuth;
          })
          lines in
      if ltb (length line) 5
      then ok (counter, l)
      else if not (equals id (counter + 1))
      then ok (counter + 1, l)
      else if ltb counter 64
      then rest
      else fault

  -- The loop over the lasers that fills the member tables; entries behind `counter` stay.
  abbrev pub filled : ℕ → Locals F → AngleTable F → AngleTable F
  filled counter l t = record {
    elevation = λ i. if ltb i counter then narrow (l.elevations i) else t.elevation i;
    azimuth_offset = λ i. if ltb i counter then narrow (l.azimuths i) else t.azimuth_offset i;
    sin_elevation =
        λ i. if ltb i counter then sin_degrees (narrow (l.elevations i)) else t.sin_elevation i;
    cos_elevation =
        λ i. if ltb i counter then cos_degrees (narrow (l.elevations i)) else t.cos_elevation i;
    size = counter;
  }

  unfoldable pub fill_table : ℕ → Locals F → AngleTable F → Parsed (AngleTable F)
  fill_table counter l t = if ltb 64 counter then fault else ok (filled counter l t)

  -- `LoadCorrectionFile`, which returns 0 whenever it returns.
  unfoldable pub load_correction_file : Locals F → List ℕ → AngleTable F → Parsed (AngleTable F)
  load_correction_file l content t = do
    (counter, l') ← load_lines 0 l (below_heading (lines_of content))
    fill_table counter l' t

  unfoldable pub save_line : AngleTable F → ℕ → List ℕ
  save_line t i =
      show_int (i + 1)
      ++ (b',' ∷ (show_float (t.elevation i) ++ (b',' ∷ show_float (t.azimuth_offset i))))

  -- The lines from laser `i` on, `n` of them.
  unfoldable pub save_lines : AngleTable F → ℕ → ℕ → List ℕ
  save_lines t i zero = []
  save_lines t i (suc n) = save_line t i ++ (b'\n' ∷ save_lines t (i + 1) n)

  abbrev pub correction_content : AngleTable F → ℕ → List ℕ
  correction_content t laser_number = heading ++ save_lines t 0 laser_number

  -- The bytes and the `size` of the packet that `SaveCorrectionFile` makes: eight bytes in front.
  unfoldable pub save_correction_file : AngleTable F → ℕ → List ℕ × ℕ
  save_correction_file t laser_number =
      let content = correction_content t laser_number in
      let len = length content in
      (
        0x47
            ∷ 0x74
            ∷ 0x05
            ∷ 0x00
            ∷ byte_of len 3
            ∷ byte_of len 2
            ∷ byte_of len 1
            ∷ byte_of len 0
            ∷ content,
        len,
      )
