-- ===== src/Angles/Chosen.antt =====
-- What the chosen tables of angles have in common.
use go2_setup.Shared.{
  ℕ, zero, suc, ◌+◌, ◌*◌, ◌<◌, ◌≡◌, ◌⊎◌, refl, arith, Bool, true, ◌&&◌, List, [], ◌∷◌, some, length,
  get_elem?, ℤ, pos, negsuc, pos_part, neg_part, ◌≤ℤ◌, ltb_ℤ, ◌+ℤ◌, ◌-ℤ◌,
}
use go2_setup.Points.{wrap_azimuth}
use go2_setup.Points.Azimuth.{wrap_azimuth_in}
use go2_setup.Pcap.{
  FrameId, pandar40p, pandar40m, pandar64, pandar_qt, pandar20a, pandar20b, pandar_xt32,
  pandar_xt16, pandar_xtm, other,
}
use go2_setup.Angles.Constants.{minus}
use go2_setup.Angles.{elev_angle_map, horizatal_azimuth_offset_map}

-- At most ten degrees to either side.
abbrev pub is_small : ℤ → Bool
is_small o = ltb_ℤ (minus 10000) o && ltb_ℤ o (pos 10000)

abbrev all_of : (ℤ → Bool) → List ℤ → Bool
all_of p [] = true
all_of p (x ∷ xs) = p x && all_of p xs

all_of-get_elem? :
    (p : ℤ → Bool) (xs : List ℤ) (i : ℕ) (x : ℤ)
    → all_of p xs ≡ true
    → get_elem? xs i ≡ some x
    → p x ≡ true
all_of-get_elem? p [] i x h e = ground arith
all_of-get_elem? p (y ∷ ys) zero x h e = ground arith
all_of-get_elem? p (y ∷ ys) (suc i) x h e = all_of-get_elem? p ys i x (ground arith) e

offsets_small : (id : FrameId) → all_of is_small (horizatal_azimuth_offset_map id) ≡ true
unfolding horizatal_azimuth_offset_map
offsets_small pandar40p = refl
offsets_small pandar40m = refl
offsets_small pandar64 = refl
offsets_small pandar20a = refl
offsets_small pandar20b = refl
offsets_small pandar_qt = refl
offsets_small pandar_xt32 = refl
offsets_small pandar_xt16 = refl
offsets_small pandar_xtm = refl
offsets_small other = refl

-- The raw azimuth, in hundredths of a degree, is less than one off the sum of the packet's azimuth and
-- the laser's offset, which is in thousandths.
pub record IsNear (raw : ℤ) (azimuth : ℕ) (offset : ℤ) : Type 0 where
  pub above :
      pos_part raw * 10 + neg_part offset < pos_part offset + azimuth * 10 + 10 + neg_part raw * 10
  pub below :
      pos_part offset + azimuth * 10 + neg_part raw * 10 < pos_part raw * 10 + neg_part offset + 10

near_low :
    (raw : ℤ) (azimuth : ℕ) (offset : ℤ)
    → is_small offset ≡ true
    → IsNear raw azimuth offset
    → negsuc 35999 ≤ℤ raw
near_low (pos r) azimuth (pos o) s h = ground (arith, h.below)
near_low (pos r) azimuth (negsuc o) s h = ground (arith, h.below)
near_low (negsuc r) azimuth (pos o) s h = ground (arith, h.below)
near_low (negsuc r) azimuth (negsuc o) s h = ground (arith, h.below)

near_high :
    (raw : ℤ) (azimuth : ℕ) (offset : ℤ)
    → is_small offset ≡ true
    → azimuth < 65536
    → IsNear raw azimuth offset
    → raw ≤ℤ pos 71999
near_high (pos r) azimuth (pos o) s a h = ground (arith, h.above)
near_high (pos r) azimuth (negsuc o) s a h = ground (arith, h.above)
near_high (negsuc r) azimuth (pos o) s a h = ground (arith, h.above)
near_high (negsuc r) azimuth (negsuc o) s a h = ground (arith, h.above)

-- With the table of any lidar's type, for each laser that it has an offset for and for every
-- azimuth of 16 bits that a packet can hold: if the sum that the source truncates comes out less
-- than a hundredth of a degree off, the index lies in the tables of 36000 elements, and it names
-- the direction of the sum.
pub wrap_azimuth-chosen :
    (id : FrameId) (laser azimuth : ℕ) (offset raw : ℤ)
    → get_elem? (horizatal_azimuth_offset_map id) laser ≡ some offset
    → azimuth < 65536
    → IsNear raw azimuth offset
    → (pos 0 ≤ℤ wrap_azimuth raw)
      × (wrap_azimuth raw ≤ℤ pos 35999)
      × ((wrap_azimuth raw ≡ raw)
          ⊎ ((wrap_azimuth raw ≡ raw +ℤ pos 36000) ⊎ (wrap_azimuth raw ≡ raw -ℤ pos 36000)))
wrap_azimuth-chosen id laser azimuth offset raw e a h =
    let s =
      all_of-get_elem? is_small (horizatal_azimuth_offset_map id) laser offset (offsets_small id)
        e in
    wrap_azimuth_in raw (near_low raw azimuth offset s h) (near_high raw azimuth offset s a h)

-- Each element stands in this relation to the next.
abbrev chained : (ℤ → ℤ → Bool) → List ℤ → Bool
chained r [] = true
chained r (x ∷ []) = true
chained r (x ∷ y ∷ xs) = r x y && chained r (y ∷ xs)

ltb_ℤ_trans : (a b c : ℤ) → ltb_ℤ b a ≡ true → ltb_ℤ c b ≡ true → ltb_ℤ c a ≡ true
ltb_ℤ_trans a b c h g = ground arith

-- The lasers of a lidar's full packet.
abbrev pub lasers_of : FrameId → ℕ
lasers_of pandar40p = 40
lasers_of pandar40m = 40
lasers_of pandar64 = 64
lasers_of pandar_qt = 64
lasers_of pandar20a = 20
lasers_of pandar20b = 20
lasers_of pandar_xt32 = 32
lasers_of pandar_xt16 = 16
lasers_of pandar_xtm = 32
lasers_of other = 0

-- The second elevation lies below the first; for the PandarQT, whose lasers are counted from the lowest
-- one up, above it.
abbrev pub comes_before : FrameId → ℤ → ℤ → Bool
comes_before pandar_qt a b = ltb_ℤ a b
comes_before pandar40p a b = ltb_ℤ b a
comes_before pandar40m a b = ltb_ℤ b a
comes_before pandar64 a b = ltb_ℤ b a
comes_before pandar20a a b = ltb_ℤ b a
comes_before pandar20b a b = ltb_ℤ b a
comes_before pandar_xt32 a b = ltb_ℤ b a
comes_before pandar_xt16 a b = ltb_ℤ b a
comes_before pandar_xtm a b = ltb_ℤ b a
comes_before other a b = ltb_ℤ b a

comes_before_trans :
    (id : FrameId) (a b c : ℤ)
    → comes_before id a b ≡ true
    → comes_before id b c ≡ true
    → comes_before id a c ≡ true
comes_before_trans pandar_qt a b c h g = ltb_ℤ_trans c b a g h
comes_before_trans pandar40p a b c h g = ltb_ℤ_trans a b c h g
comes_before_trans pandar40m a b c h g = ltb_ℤ_trans a b c h g
comes_before_trans pandar64 a b c h g = ltb_ℤ_trans a b c h g
comes_before_trans pandar20a a b c h g = ltb_ℤ_trans a b c h g
comes_before_trans pandar20b a b c h g = ltb_ℤ_trans a b c h g
comes_before_trans pandar_xt32 a b c h g = ltb_ℤ_trans a b c h g
comes_before_trans pandar_xt16 a b c h g = ltb_ℤ_trans a b c h g
comes_before_trans pandar_xtm a b c h g = ltb_ℤ_trans a b c h g
comes_before_trans other a b c h g = ltb_ℤ_trans a b c h g

elevations_chained : (id : FrameId) → chained (comes_before id) (elev_angle_map id) ≡ true
unfolding elev_angle_map
elevations_chained pandar40p = refl
elevations_chained pandar40m = refl
elevations_chained pandar64 = refl
elevations_chained pandar20a = refl
elevations_chained pandar20b = refl
elevations_chained pandar_qt = refl
elevations_chained pandar_xt32 = refl
elevations_chained pandar_xt16 = refl
elevations_chained pandar_xtm = refl
elevations_chained other = refl

chained-first :
    (r : ℤ → ℤ → Bool) (x : ℤ) (xs : List ℤ) (i : ℕ) (b : ℤ)
    → ((a b c : ℤ) → r a b ≡ true → r b c ≡ true → r a c ≡ true)
    → chained r (x ∷ xs) ≡ true
    → get_elem? xs i ≡ some b
    → r x b ≡ true
chained-first r x [] i b t h e = ground arith
chained-first r x (y ∷ ys) zero b t h e = ground arith
chained-first r x (y ∷ ys) (suc i) b t h e =
    let p : r x y ≡ true = ground (arith, h) in
    let q : chained r (y ∷ ys) ≡ true = ground (arith, h) in
    t x y b p (chained-first r y ys i b t q e)

chained-tail :
    (r : ℤ → ℤ → Bool) (x : ℤ) (xs : List ℤ) → chained r (x ∷ xs) ≡ true → chained r xs ≡ true
chained-tail r x [] h = refl
chained-tail r x (y ∷ ys) h = ground (arith, h)

chained-get_elem? :
    (r : ℤ → ℤ → Bool) (xs : List ℤ) (i j : ℕ) (a b : ℤ)
    → ((a b c : ℤ) → r a b ≡ true → r b c ≡ true → r a c ≡ true)
    → chained r xs ≡ true
    → i < j
    → get_elem? xs i ≡ some a
    → get_elem? xs j ≡ some b
    → r a b ≡ true
chained-get_elem? r [] i j a b t h lt e f = ground arith
chained-get_elem? r (x ∷ xs) i zero a b t h lt e f = ground arith
chained-get_elem? r (x ∷ xs) zero (suc j) a b t h lt e f =
    let k : x ≡ a = ground (arith, e) in rw⁻¹ k (chained-first r x xs j b t h f)
chained-get_elem? r (x ∷ xs) (suc i) (suc j) a b t h lt e f =
    chained-get_elem? r xs i j a b t (chained-tail r x xs h) (omega arith) e f

-- The elevations are in strict order from laser to laser, downwards or, for the PandarQT, upwards.
pub elev_angle_map-chained :
    (id : FrameId) (i j : ℕ) (a b : ℤ)
    → i < j
    → get_elem? (elev_angle_map id) i ≡ some a
    → get_elem? (elev_angle_map id) j ≡ some b
    → comes_before id a b ≡ true
elev_angle_map-chained id i j a b lt e f =
    chained-get_elem? (comes_before id) (elev_angle_map id) i j a b (comes_before_trans id)
      (elevations_chained id) lt e f

-- Both tables have an element for each laser of a full packet.
pub tables-length :
    (id : FrameId)
    → (length (elev_angle_map id) ≡ lasers_of id)
      × (length (horizatal_azimuth_offset_map id) ≡ lasers_of id)
unfolding elev_angle_map horizatal_azimuth_offset_map
tables-length pandar40p = (refl, refl)
tables-length pandar40m = (refl, refl)
tables-length pandar64 = (refl, refl)
tables-length pandar20a = (refl, refl)
tables-length pandar20b = (refl, refl)
tables-length pandar_qt = (refl, refl)
tables-length pandar_xt32 = (refl, refl)
tables-length pandar_xt16 = (refl, refl)
tables-length pandar_xtm = (refl, refl)
tables-length other = (refl, refl)
