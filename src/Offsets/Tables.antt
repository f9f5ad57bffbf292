-- ===== src/Offsets/Tables.antt =====
-- Which elements of the offset arrays are set, and what the dual tables have in common.
use go2_setup.Shared.{
  ℕ, zero, suc, ◌+◌, ◌*◌, ◌<◌, ◌≡◌, ◌↔◌, refl, ◌&&◌, Bool, true, false, List, Option, none, some,
  ◌==◌, if◌then◌else◌, arith, get_elem?, ℤ, pos, negsuc,
}
use go2_setup.Offsets.{assigned, block20_offset_dual}
use go2_setup.Offsets.Pandar40.{block40_offset_single, block40_offset_dual, laser40_offset}
use go2_setup.Offsets.Pandar64.{block64_offset_single, block64_offset_dual, laser64_offset}
use go2_setup.Offsets.Pandar20.{laser20a_offset, laser20b_offset}
use go2_setup.Offsets.PandarQt.{block_qt_offset_single, block_qt_offset_dual, laser_qt_offset}
use go2_setup.Offsets.PandarXt.{block_xt_offset_dual, block_xtm_offset_dual}

abbrev pub is_some : {A : Type 0} → Option A → Bool
is_some none = false
is_some (some a) = true

-- A test that holds below a bound, by evaluation.
all_below : ℕ → (ℕ → Bool) → Bool
all_below zero p = true
all_below (suc n) p = p n && all_below n p

all_below_sound : (n : ℕ) (p : ℕ → Bool) → all_below n p ≡ true → (x : ℕ) → x < n → p x ≡ true
unfolding all_below
all_below_sound zero p h x lt = absurd (omega arith)
all_below_sound (suc n) p h x lt = ground (arith, all_below_sound n p (ground arith) x)

-- Each of the first `n` elements is set.
abbrev pub AllSet : ℕ → List (ℕ × ℕ) → Type 0
AllSet n as' = (i : ℕ) → i < n → is_some (assigned as' i) ≡ true

all_set :
    (n : ℕ) (as' : List (ℕ × ℕ)) → all_below n (λ i. is_some (assigned as' i)) ≡ true → AllSet n as'
all_set n as' h i lt = all_below_sound n (λ i. is_some (assigned as' i)) h i lt

-- Every block and every laser of the Pandar64 and the PandarQT, every laser of the Pandar20A and
-- 20B and every block of the Pandar40 gets an offset from the assignments.
pub offsets_set :
    AllSet 10 block40_offset_single
    × AllSet 10 block40_offset_dual
    × AllSet 6 block64_offset_single
    × AllSet 6 block64_offset_dual
    × AllSet 64 laser64_offset
    × AllSet 20 laser20a_offset
    × AllSet 20 laser20b_offset
    × AllSet 4 block_qt_offset_single
    × AllSet 4 block_qt_offset_dual
    × AllSet 64 laser_qt_offset
unfolding all_below assigned
offsets_set = (
  all_set 10 block40_offset_single refl,
  all_set 10 block40_offset_dual refl,
  all_set 6 block64_offset_single refl,
  all_set 6 block64_offset_dual refl,
  all_set 64 laser64_offset refl,
  all_set 20 laser20a_offset refl,
  all_set 20 laser20b_offset refl,
  all_set 4 block_qt_offset_single refl,
  all_set 4 block_qt_offset_dual refl,
  all_set 64 laser_qt_offset refl,
)

laser40_table :
    all_below 40 (λ i.
      if is_some (assigned laser40_offset i) then (if i == 7 then false else true) else (i == 7))
    ≡ true
unfolding all_below assigned
laser40_table = refl

-- Of the 40 lasers of a Pandar40, exactly the one with index 7 gets no offset from the assignments.
laser40_offset_gap : (i : ℕ) → i < 40 → (assigned laser40_offset i ≡ none) ↔ (i ≡ 7)
laser40_offset_gap i h = ground (arith, all_below_sound 40 _ laser40_table i h)

same_ℕ : Option ℕ → Option ℕ → Bool
same_ℕ none none = true
same_ℕ (some a) (some b) = a == b
same_ℕ _ _ = false

same_ℕ_sound : (o p : Option ℕ) → same_ℕ o p ≡ true → o ≡ p
unfolding same_ℕ
same_ℕ_sound none none h = refl
same_ℕ_sound (some a) (some b) h = ground arith
same_ℕ_sound none (some b) h = cc
same_ℕ_sound (some a) none h = cc

same_ℤ : Option ℤ → Option ℤ → Bool
same_ℤ none none = true
same_ℤ (some (pos a)) (some (pos b)) = a == b
same_ℤ (some (negsuc a)) (some (negsuc b)) = a == b
same_ℤ _ _ = false

same_ℤ_sound : (o p : Option ℤ) → same_ℤ o p ≡ true → o ≡ p
unfolding same_ℤ
same_ℤ_sound none none h = refl
same_ℤ_sound (some (pos a)) (some (pos b)) h = ground arith
same_ℤ_sound (some (negsuc a)) (some (negsuc b)) h = ground arith
same_ℤ_sound none (some b) h = cc
same_ℤ_sound (some (pos a)) none h = cc
same_ℤ_sound (some (negsuc a)) none h = cc
same_ℤ_sound (some (pos a)) (some (negsuc b)) h = cc
same_ℤ_sound (some (negsuc a)) (some (pos b)) h = cc

-- Elements 2k and 2k + 1 are one, for each k below the bound.
abbrev pub Paired : {A : Type 0} → ℕ → (ℕ → A) → Type 0
Paired n f = (k : ℕ) → k < n → f (2 * k) ≡ f (2 * k + 1)

table_pairs_ℕ :
    (n : ℕ) (f : ℕ → Option ℕ)
    → all_below n (λ k. same_ℕ (f (2 * k)) (f (2 * k + 1))) ≡ true
    → Paired n f
table_pairs_ℕ n f h k lt =
    same_ℕ_sound _ _ (all_below_sound n (λ k. same_ℕ (f (2 * k)) (f (2 * k + 1))) h k lt)

table_pairs_ℤ :
    (n : ℕ) (f : ℕ → Option ℤ)
    → all_below n (λ k. same_ℤ (f (2 * k)) (f (2 * k + 1))) ≡ true
    → Paired n f
table_pairs_ℤ n f h k lt =
    same_ℤ_sound _ _ (all_below_sound n (λ k. same_ℤ (f (2 * k)) (f (2 * k + 1))) h k lt)

-- In dual return mode the blocks 2k and 2k + 1 have one offset, for every format's table.
pub dual_blocks_pair :
    Paired 5 (assigned block40_offset_dual)
    × Paired 3 (assigned block64_offset_dual)
    × Paired 10 block20_offset_dual
    × Paired 2 (assigned block_qt_offset_dual)
    × Paired 4 (get_elem? block_xt_offset_dual)
    × Paired 4 (get_elem? block_xtm_offset_dual)
unfolding all_below assigned same_ℕ same_ℤ block20_offset_dual
dual_blocks_pair = (
  table_pairs_ℕ 5 (assigned block40_offset_dual) refl,
  table_pairs_ℕ 3 (assigned block64_offset_dual) refl,
  λ k h. omega arith,
  table_pairs_ℕ 2 (assigned block_qt_offset_dual) refl,
  table_pairs_ℤ 4 (get_elem? block_xt_offset_dual) refl,
  table_pairs_ℤ 4 (get_elem? block_xtm_offset_dual) refl,
)
