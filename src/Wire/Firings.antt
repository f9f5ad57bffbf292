-- ===== src/Wire/Firings.antt =====
-- The bytes of blocks and units, and what the parser's loops make of them.
use go2_setup.Shared.{
  ℕ, suc, ◌+◌, ◌*◌, ◌%◌, ◌^◌, ◌≤◌, ◌<◌, ◌≡◌, ◌∙◌, Bool, true, false, List, [], ◌∷◌, ◌++◌, map, none,
  some, arith, length, drop, All, if◌then◌else◌, byte_of, drop-add, append_assoc,
}
use go2_setup.Wire.{ok, LidarUnit, Block, Layout, unit_size, parse_unit, parse_units, parse_blocks}
use go2_setup.Wire.Read.{read_at, read_first}

-- What the lidar measured, before the parser scales it.
pub record Return : Type 0 where
  pub range : ℕ
  pub intensity : ℕ
  pub confidence : ℕ

pub record Firing : Type 0 where
  pub azimuth : ℕ
  pub returns : List Return

module _ (l : Layout) where
  abbrev pub confidence_bytes : Bool → ℕ → List ℕ
  confidence_bytes true c = c ∷ []
  confidence_bytes false c = []

  -- The bytes that the lidar sends.
  abbrev pub write_return : Return → List ℕ
  write_return r =
      byte_of r.range 0
      ∷ byte_of r.range 1
      ∷ r.intensity
      ∷ confidence_bytes l.has_confidence r.confidence

  abbrev pub write_returns : List Return → List ℕ
  write_returns [] = []
  write_returns (r ∷ rs) = write_return r ++ write_returns rs

  abbrev pub write_firings : List Firing → List ℕ
  write_firings [] = []
  write_firings (f ∷ fs) =
      byte_of f.azimuth 0 ∷ byte_of f.azimuth 1 ∷ (write_returns f.returns ++ write_firings fs)

  -- The structure that stands for a return, a firing.
  abbrev pub unit_of : ℕ → Return → LidarUnit
  unit_of factor r = record {
    distance = r.range * factor % 2 ^ 32;
    intensity = r.intensity;
    confidence = if l.has_confidence then some r.confidence else none;
  }

  abbrev pub block_of : ℕ → Firing → Block
  block_of factor f = record { azimuth = f.azimuth; units = map (unit_of factor) f.returns }

  parse_unit-write :
      (buf rest : List ℕ) (factor index : ℕ) (r : Return)
      → r.range < 65536
      → drop index buf ≡ write_return r ++ rest
      → parse_unit l buf factor index ≡ ok (unit_of factor r)
  unfolding parse_unit
  parse_unit-write buf rest factor index r h e = ground (
    arith,
    read_first buf (write_return r ++ rest) index e,
    read_at buf (write_return r ++ rest) index 1 e,
    read_at buf (write_return r ++ rest) index 2 e,
    read_at buf (write_return r ++ rest) index 3 e,
  )

  drop-write_return :
      (r : Return) (rest : List ℕ) → drop (unit_size l) (write_return r ++ rest) ≡ rest
  drop-write_return r rest = ground arith

  pub drop-write_returns :
      (rs : List Return) (rest : List ℕ)
      → drop (unit_size l * length rs) (write_returns rs ++ rest) ≡ rest
  drop-write_returns [] rest = let z : unit_size l * 0 ≡ 0 = omega arith in rw z
  drop-write_returns (r ∷ rs) rest =
      let z : unit_size l * suc (length rs) ≡ unit_size l + unit_size l * length rs = grind arith in
      rw (z, append_assoc (write_return r) (write_returns rs) rest)
        (drop-add (write_return r ++ (write_returns rs ++ rest)) (write_returns rs ++ rest)
            (unit_size l) (unit_size l * length rs) (drop-write_return r (write_returns rs ++ rest))
          ∙ drop-write_returns rs rest)

  -- The units of a block, and the index behind them.
  parse_units-write :
      (buf rest : List ℕ) (factor : ℕ) (rs : List Return) (unit index : ℕ)
      → All (λ r. r.range < 65536) rs
      → unit + length rs ≤ l.unit_cap
      → drop index buf ≡ write_returns rs ++ rest
      → parse_units l buf factor (length rs) unit index
        ≡ ok (map (unit_of factor) rs, index + unit_size l * length rs)
  unfolding parse_units
  parse_units-write buf rest factor [] unit index hr hc e = ground arith
  parse_units-write buf rest factor (r ∷ rs) unit index hr hc e = ground (
    arith,
    parse_unit-write buf (write_returns rs ++ rest) factor index r hr.0 e',
    parse_units-write buf rest factor rs (unit + 1) (index + unit_size l) hr.1 (omega arith) later,
  )
    where
      e' : drop index buf ≡ write_return r ++ (write_returns rs ++ rest)
      e' = e ∙ append_assoc (write_return r) (write_returns rs) rest

      later : drop (index + unit_size l) buf ≡ write_returns rs ++ rest
      later = drop-add buf _ index (unit_size l) e' ∙ drop-write_return r (write_returns rs ++ rest)

  -- Every firing has `lasers` returns, and every number fits its bytes.
  abbrev pub FiresAll : ℕ → List Firing → Type 0
  FiresAll lasers = All (λ f.
      (f.azimuth < 65536) × (length f.returns ≡ lasers) × All (λ r. r.range < 65536) f.returns)

  pub parse_blocks-write :
      (buf rest : List ℕ) (factor lasers : ℕ) (fs : List Firing) (block index : ℕ)
      → FiresAll lasers fs
      → lasers ≤ l.unit_cap
      → block + length fs ≤ l.block_cap
      → drop index buf ≡ write_firings fs ++ rest
      → parse_blocks l buf factor lasers (length fs) block index
        ≡ ok (map (block_of factor) fs, index + (2 + unit_size l * lasers) * length fs)
  unfolding parse_blocks
  parse_blocks-write buf rest factor lasers [] block index hf hl hc e = ground arith
  parse_blocks-write buf rest factor lasers (f ∷ fs) block index hf hl hc e = ground (
    arith,
    read_first buf _ index e,
    read_at buf _ index 1 e,
    parse_units-write buf (write_firings fs ++ rest) factor f.returns 0 (index + 2) hf.0.2
        (omega arith) body,
    parse_blocks-write buf rest factor lasers fs (block + 1)
        (index + 2 + unit_size l * length f.returns) hf.1 hl (omega arith) later,
  )
    where
      body : drop (index + 2) buf ≡ write_returns f.returns ++ (write_firings fs ++ rest)
      body =
          drop-add buf _ index 2 e ∙ append_assoc (write_returns f.returns) (write_firings fs) rest

      later : drop (index + 2 + unit_size l * length f.returns) buf ≡ write_firings fs ++ rest
      later =
          drop-add buf _ (index + 2) (unit_size l * length f.returns) body
          ∙ drop-write_returns f.returns (write_firings fs ++ rest)
