-- ===== src/Setup/Tables/Aimed.antt =====
-- What the points find in the tables of `Init`.
use go2_setup.Shared.{
  ℕ, zero, suc, ◌<◌, ◌≡◌, ◌⊎◌, ◌∙◌, refl, sym, Bool-cases, inl, inr, ltb, ltb→lt, ap, List, [], ◌∷◌,
  ◌++◌, some, arith, length, get_elem?, get_or, length-append, ℤ, pos, negsuc, pos_part, ◌≤ℤ◌, ◌+ℤ◌,
  ◌-ℤ◌,
}
use go2_setup.Points.{Floats, Tables, wrap_azimuth}
use go2_setup.Frame.{first_of}
use go2_setup.Pcap.{FrameId}
use go2_setup.Angles.{elev_angle_map, horizatal_azimuth_offset_map}
use go2_setup.Angles.Chosen.{IsNear, wrap_azimuth-chosen}
use go2_setup.Setup.Tables.{
  Trig, max_azimuth_degree_num, degree_to_radian, hundredths, thousandths, correction_h,
  correction_b, scaled, azimuth_map, at, elevation_map, init_tables,
}

module _ {A : Type 0} where
  get_or-append :
      (xs ys : List A) (i : ℕ) (d : A) → i < length xs → get_or (xs ++ ys) i d ≡ get_or xs i d
  get_or-append [] ys i d h = absurd (omega arith)
  get_or-append (x ∷ xs) ys zero d h = refl
  get_or-append (x ∷ xs) ys (suc i) d h = get_or-append xs ys i d (omega arith)

  get_or-last : (xs : List A) (y d : A) → get_or (xs ++ (y ∷ [])) (length xs) d ≡ y
  get_or-last [] y d = refl
  get_or-last (x ∷ xs) y d = get_or-last xs y d

  length-first_of : (f : ℕ → A) (n : ℕ) → length (first_of f n) ≡ n
  length-first_of f zero = refl
  length-first_of f (suc n) =
      omega (arith, length-append (first_of f n) (f n ∷ []), length-first_of f n)

  get_or-first_of : (f : ℕ → A) (n i : ℕ) (d : A) → i < n → get_or (first_of f n) i d ≡ f i
  get_or-first_of f zero i d h = absurd (omega arith)
  get_or-first_of f (suc n) i d h = elim (Bool-cases (ltb i n)) [
    | inl below ↦
        get_or-append (first_of f n) (f n ∷ []) i d
          (omega (arith, length-first_of f n, ltb→lt i n below))
        ∙ get_or-first_of f n i d (ltb→lt i n below)
    | inr last ↦
        let e : i ≡ n = ground arith in
        rw e (
          ap (λ (k : ℕ). get_or (first_of f n ++ (f n ∷ [])) k d) (sym (length-first_of f n))
          ∙ get_or-last (first_of f n) (f n) d)
  ]

module _ (F : Floats) (t : Trig F) (stray : ℤ → F.Float) where
  open F use {Float}

  at-azimuth_map :
      (f : ℕ → Float) (a : ℤ)
      → pos 0 ≤ℤ a
      → a ≤ℤ pos 35999
      → at F t stray (azimuth_map F t f) a ≡ f (pos_part a)
  unfolding azimuth_map
  at-azimuth_map f (pos n) low high =
      get_or-first_of f max_azimuth_degree_num n (stray (pos n)) (omega arith)
  at-azimuth_map f (negsuc n) low high = absurd (omega arith)

  at-elevation_map :
      (f : Float → Float) (vs : List ℤ) (i : ℕ) (v : ℤ) (d : Float)
      → get_elem? vs i ≡ some v
      → get_or (elevation_map F t f vs) i d
        ≡ f (F.narrow (degree_to_radian F t (F.widen (thousandths F t v))))
  at-elevation_map f [] i v d e = cc
  at-elevation_map f (w ∷ vs) zero v d e = cc
  at-elevation_map f (w ∷ vs) (suc i) v d e = at-elevation_map f vs i v d e

  -- What the tables give for a laser at a truncated azimuth: the sines and cosines of one direction.
  pub record IsAimed (id : FrameId) (s : Tables F) (laser : ℕ) (elevation raw : ℤ) (n : ℕ)
      : Type 0 where
    pub direction : (pos n ≡ raw) ⊎ ((pos n ≡ raw +ℤ pos 36000) ⊎ (pos n ≡ raw -ℤ pos 36000))
    pub index : wrap_azimuth raw ≡ pos n
    pub inside : n < 36000
    pub sin_azimuth : s.sin_azimuth (wrap_azimuth raw) ≡ t.sinf (hundredths F t n)
    pub cos_azimuth : s.cos_azimuth (wrap_azimuth raw) ≡ t.cosf (hundredths F t n)
    pub sin_azimuth_h :
        s.sin_azimuth_h (wrap_azimuth raw)
        ≡ scaled F t (correction_h F t id) (t.sinf (hundredths F t n))
    pub cos_azimuth_h :
        s.cos_azimuth_h (wrap_azimuth raw)
        ≡ scaled F t (correction_h F t id) (t.cosf (hundredths F t n))
    pub sin_azimuth_b :
        s.sin_azimuth_b (wrap_azimuth raw)
        ≡ scaled F t (correction_b F t id) (t.sinf (hundredths F t n))
    pub cos_azimuth_b :
        s.cos_azimuth_b (wrap_azimuth raw)
        ≡ scaled F t (correction_b F t id) (t.cosf (hundredths F t n))
    pub sin_elevation :
        s.sin_elevation laser
        ≡ t.sinf (F.narrow (degree_to_radian F t (F.widen (thousandths F t elevation))))
    pub cos_elevation :
        s.cos_elevation laser
        ≡ t.cosf (F.narrow (degree_to_radian F t (F.widen (thousandths F t elevation))))

  pos_part_pos : (a : ℤ) → pos 0 ≤ℤ a → a ≡ pos (pos_part a)
  pos_part_pos (pos n) h = refl
  pos_part_pos (negsuc n) h = absurd (omega arith)

  pos_part_below : (a : ℤ) → a ≤ℤ pos 35999 → pos_part a < 36000
  pos_part_below (pos n) h = omega arith
  pos_part_below (negsuc n) h = omega arith

  -- With the tables that `Init` fills for any lidar's type, for each laser that it has angles for
  -- and every azimuth of 16 bits: if the sum that the source truncates comes out less than a
  -- hundredth of a degree off, the index lies in the six vectors of 36000 elements, it names the
  -- direction of the sum, all six give the sine or the cosine of that one direction, scaled for the
  -- type where they should be, and the vectors of elevations give those of the laser.
  pub init_tables-IsAimed :
      (id : FrameId) (before : Tables F) (laser azimuth : ℕ) (offset elevation raw : ℤ)
      → get_elem? (horizatal_azimuth_offset_map id) laser ≡ some offset
      → get_elem? (elev_angle_map id) laser ≡ some elevation
      → azimuth < 65536
      → IsNear raw azimuth offset
      → IsAimed id
          (init_tables F t stray id before)
          laser
          elevation
          raw
          (pos_part (wrap_azimuth raw))
  unfolding init_tables
  init_tables-IsAimed id before laser azimuth offset elevation raw o e a h =
      let (low, high, direction) = wrap_azimuth-chosen id laser azimuth offset raw o a h in
      record {
        direction = rw⁻¹ (pos_part_pos (wrap_azimuth raw) low) direction;
        index = pos_part_pos (wrap_azimuth raw) low;
        inside = pos_part_below (wrap_azimuth raw) high;
        sin_azimuth = at-azimuth_map _ (wrap_azimuth raw) low high;
        cos_azimuth = at-azimuth_map _ (wrap_azimuth raw) low high;
        sin_azimuth_h = at-azimuth_map _ (wrap_azimuth raw) low high;
        cos_azimuth_h = at-azimuth_map _ (wrap_azimuth raw) low high;
        sin_azimuth_b = at-azimuth_map _ (wrap_azimuth raw) low high;
        cos_azimuth_b = at-azimuth_map _ (wrap_azimuth raw) low high;
        sin_elevation = at-elevation_map t.sinf (elev_angle_map id) laser elevation _ e;
        cos_elevation = at-elevation_map t.cosf (elev_angle_map id) laser elevation _ e;
      }
