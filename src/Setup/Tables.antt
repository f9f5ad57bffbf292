-- ===== src/Setup/Tables.antt =====
-- The tables of sines and cosines that `Init` of pandarGeneral_internal.cc fills. `sinf`, `cosf` and
-- `M_PI` are parameters; an index outside a vector gives what is in memory there, `stray`.
pub mod Aimed
use go2_setup.Shared.{
  if◌then◌else◌, ℕ, zero, suc, ◌+◌, ◌≤◌, ◌<◌, ◌≡◌, ◌⊎◌, ◌∙◌, refl, sym, Bool-cases, inl, inr, ltb,
  ltb→lt, ap, Bool, true, false, List, [], ◌∷◌, ◌++◌, map, Option, none, some, arith, length,
  get_elem?, get_or, get_elem?-eq-get_or, length-append, ℤ, pos, negsuc, pos_part, ◌≤ℤ◌, ◌+ℤ◌, ◌-ℤ◌,
}
use go2_setup.Points.{Floats, Tables, wrap_azimuth}
use go2_setup.Frame.{first_of}
use go2_setup.Pcap.{FrameId, pandar_xtm}
use go2_setup.Angles.{elev_angle_map, horizatal_azimuth_offset_map}
use go2_setup.Angles.Chosen.{IsNear, wrap_azimuth-chosen}

pub record Trig (F : Floats) : Type 0 where
  pub sinf : F.Float → F.Float
  pub cosf : F.Float → F.Float
  pub m_pi : F.Double

abbrev pub max_azimuth_degree_num : ℕ
max_azimuth_degree_num = 36000

abbrev pub is_xtm : FrameId → Bool
is_xtm pandar_xtm = true
is_xtm _ = false

module _ (F : Floats) (t : Trig F) where
  open F use {Double, Float, of_ℤ, decimal, mul, div, widen, narrow, negf}

  -- `degreeToRadian`
  unfoldable pub degree_to_radian : Double → Double
  degree_to_radian degree = div (mul degree t.m_pi) (of_ℤ (pos 180))

  -- `i * M_PI / 18000` as a float
  abbrev pub hundredths : ℕ → Float
  hundredths i = narrow (div (mul (of_ℤ (pos i)) t.m_pi) (of_ℤ (pos 18000)))

  -- A float literal of the tables, by its thousandths.
  abbrev pub thousandths : ℤ → Float
  thousandths (pos n) = narrow (decimal n 3)
  thousandths (negsuc n) = negf (narrow (decimal (n + 1) 3))

  unfoldable pub correction_h : FrameId → Double
  correction_h id = if is_xtm id then decimal 305 7 else decimal 315 7

  unfoldable pub correction_b : FrameId → Double
  correction_b id = if is_xtm id then decimal 13 6 else decimal 13 6

  abbrev pub scaled : Double → Float → Float
  scaled factor x = narrow (mul (widen x) factor)

  -- `m_sin_azimuth_map_` and the others, with one element for each hundredth of a degree.
  unfoldable pub azimuth_map : (ℕ → Float) → List Float
  azimuth_map f = first_of f max_azimuth_degree_num

  abbrev pub at : (ℤ → Float) → List Float → ℤ → Float
  at stray xs (pos n) = get_or xs n (stray (pos n))
  at stray xs (negsuc n) = stray (negsuc n)

  -- `m_sin_elevation_map_` of the chosen angles, with the members' types.
  abbrev pub elevation_map : (Float → Float) → List ℤ → List Float
  elevation_map f [] = []
  elevation_map f (v ∷ vs) =
      f (narrow (degree_to_radian (widen (thousandths v)))) ∷ elevation_map f vs

  unfoldable pub init_tables : (ℤ → Float) → FrameId → Tables F → Tables F
  init_tables stray id before = record before {
    sin_azimuth = at stray (azimuth_map (λ i. t.sinf (hundredths i)));
    cos_azimuth = at stray (azimuth_map (λ i. t.cosf (hundredths i)));
    sin_azimuth_h = at stray (azimuth_map (λ i. scaled (correction_h id) (t.sinf (hundredths i))));
    cos_azimuth_h = at stray (azimuth_map (λ i. scaled (correction_h id) (t.cosf (hundredths i))));
    sin_azimuth_b = at stray (azimuth_map (λ i. scaled (correction_b id) (t.sinf (hundredths i))));
    cos_azimuth_b = at stray (azimuth_map (λ i. scaled (correction_b id) (t.cosf (hundredths i))));
    sin_elevation = λ i. at stray (elevation_map t.sinf (elev_angle_map id)) (pos i);
    cos_elevation = λ i. at stray (elevation_map t.cosf (elev_angle_map id)) (pos i);
    azimuth_offset = λ i. at stray (map thousandths (horizatal_azimuth_offset_map id)) (pos i);
  }
