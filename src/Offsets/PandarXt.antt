-- ===== src/Offsets/PandarXt.antt =====
-- The constant arrays of pandarXT.h with the time offsets of PandarXT-32 and PandarXTM, in
-- ten-thousandths of a microsecond.
use go2_setup.Shared.{ℕ, ◌+◌, ◌*◌, List, [], ◌∷◌, ℤ, sub_ℕ}

-- `blockXTOffsetDual`
abbrev pub block_xt_offset_dual : List ℤ
block_xt_offset_dual =
    sub_ℕ 56320 (500000 * 3)
    ∷ sub_ℕ 56320 (500000 * 3)
    ∷ sub_ℕ 56320 (500000 * 2)
    ∷ sub_ℕ 56320 (500000 * 2)
    ∷ sub_ℕ 56320 (500000 * 1)
    ∷ sub_ℕ 56320 (500000 * 1)
    ∷ sub_ℕ 56320 (500000 * 0)
    ∷ sub_ℕ 56320 (500000 * 0)
    ∷ []

-- `blockXTOffsetSingle`
abbrev pub block_xt_offset_single : List ℤ
block_xt_offset_single =
    sub_ℕ 56320 (500000 * 7)
    ∷ sub_ℕ 56320 (500000 * 6)
    ∷ sub_ℕ 56320 (500000 * 5)
    ∷ sub_ℕ 56320 (500000 * 4)
    ∷ sub_ℕ 56320 (500000 * 3)
    ∷ sub_ℕ 56320 (500000 * 2)
    ∷ sub_ℕ 56320 (500000 * 1)
    ∷ sub_ℕ 56320 (500000 * 0)
    ∷ []

-- `laserXTOffset`
abbrev pub laser_xt_offset : List ℕ
laser_xt_offset =
    (15120 * 0 + 3680)
    ∷ (15120 * 1 + 3680)
    ∷ (15120 * 2 + 3680)
    ∷ (15120 * 3 + 3680)
    ∷ (15120 * 4 + 3680)
    ∷ (15120 * 5 + 3680)
    ∷ (15120 * 6 + 3680)
    ∷ (15120 * 7 + 3680)
    ∷ (15120 * 8 + 3680)
    ∷ (15120 * 9 + 3680)
    ∷ (15120 * 10 + 3680)
    ∷ (15120 * 11 + 3680)
    ∷ (15120 * 12 + 3680)
    ∷ (15120 * 13 + 3680)
    ∷ (15120 * 14 + 3680)
    ∷ (15120 * 15 + 3680)
    ∷ (15120 * 16 + 3680)
    ∷ (15120 * 17 + 3680)
    ∷ (15120 * 18 + 3680)
    ∷ (15120 * 19 + 3680)
    ∷ (15120 * 20 + 3680)
    ∷ (15120 * 21 + 3680)
    ∷ (15120 * 22 + 3680)
    ∷ (15120 * 23 + 3680)
    ∷ (15120 * 24 + 3680)
    ∷ (15120 * 25 + 3680)
    ∷ (15120 * 26 + 3680)
    ∷ (15120 * 27 + 3680)
    ∷ (15120 * 28 + 3680)
    ∷ (15120 * 29 + 3680)
    ∷ (15120 * 30 + 3680)
    ∷ (15120 * 31 + 3680)
    ∷ []

-- `blockXTMOffsetTriple`
abbrev pub block_xtm_offset_triple : List ℤ
block_xtm_offset_triple =
    sub_ℕ 56320 (500000 * 1)
    ∷ sub_ℕ 56320 (500000 * 1)
    ∷ sub_ℕ 56320 (500000 * 1)
    ∷ sub_ℕ 56320 (500000 * 0)
    ∷ sub_ℕ 56320 (500000 * 0)
    ∷ sub_ℕ 56320 (500000 * 0)
    ∷ sub_ℕ 56320 (500000 * 0)
    ∷ sub_ℕ 56320 (500000 * 0)
    ∷ []

-- `blockXTMOffsetDual`
abbrev pub block_xtm_offset_dual : List ℤ
block_xtm_offset_dual =
    sub_ℕ 56320 (500000 * 2)
    ∷ sub_ℕ 56320 (500000 * 2)
    ∷ sub_ℕ 56320 (500000 * 1)
    ∷ sub_ℕ 56320 (500000 * 1)
    ∷ sub_ℕ 56320 (500000 * 0)
    ∷ sub_ℕ 56320 (500000 * 0)
    ∷ sub_ℕ 56320 (500000 * 0)
    ∷ sub_ℕ 56320 (500000 * 0)
    ∷ []

-- `blockXTMOffsetSingle`
abbrev pub block_xtm_offset_single : List ℤ
block_xtm_offset_single =
    sub_ℕ 56320 (500000 * 5)
    ∷ sub_ℕ 56320 (500000 * 4)
    ∷ sub_ℕ 56320 (500000 * 3)
    ∷ sub_ℕ 56320 (500000 * 2)
    ∷ sub_ℕ 56320 (500000 * 1)
    ∷ sub_ℕ 56320 (500000 * 0)
    ∷ sub_ℕ 56320 (500000 * 0)
    ∷ sub_ℕ 56320 (500000 * 0)
    ∷ []

-- `laserXTMOffset`
abbrev pub laser_xtm_offset : List ℕ
laser_xtm_offset =
    (28560 * 0 + 3680)
    ∷ (28560 * 1 + 3680)
    ∷ (28560 * 2 + 3680)
    ∷ (28560 * 3 + 3680)
    ∷ (28560 * 4 + 3680)
    ∷ (28560 * 5 + 3680)
    ∷ (28560 * 6 + 3680)
    ∷ (28560 * 7 + 3680)
    ∷ (28560 * 8 + 3680)
    ∷ (28560 * 9 + 3680)
    ∷ (28560 * 10 + 3680)
    ∷ (28560 * 11 + 3680)
    ∷ (28560 * 12 + 3680)
    ∷ (28560 * 13 + 3680)
    ∷ (28560 * 14 + 3680)
    ∷ (28560 * 15 + 3680)
    ∷ (28560 * 0 + 3680)
    ∷ (28560 * 1 + 3680)
    ∷ (28560 * 2 + 3680)
    ∷ (28560 * 3 + 3680)
    ∷ (28560 * 4 + 3680)
    ∷ (28560 * 5 + 3680)
    ∷ (28560 * 6 + 3680)
    ∷ (28560 * 7 + 3680)
    ∷ (28560 * 8 + 3680)
    ∷ (28560 * 9 + 3680)
    ∷ (28560 * 10 + 3680)
    ∷ (28560 * 11 + 3680)
    ∷ (28560 * 12 + 3680)
    ∷ (28560 * 13 + 3680)
    ∷ (28560 * 14 + 3680)
    ∷ (28560 * 15 + 3680)
    ∷ []
