-- ===== src/Offsets/Pandar40.antt =====
-- The assignments of `Init` to the time offsets of Pandar40P and Pandar40M, in the source's order and
-- in ten-thousandths of a microsecond.
use go2_setup.Shared.{ℕ, ◌+◌, ◌*◌, List, [], ◌∷◌}

-- `block40OffsetSingle_`
abbrev pub block40_offset_single : List (ℕ × ℕ)
block40_offset_single =
    (9, 555600 * 0 + 285800)
    ∷ (8, 555600 * 1 + 285800)
    ∷ (7, 555600 * 2 + 285800)
    ∷ (6, 555600 * 3 + 285800)
    ∷ (5, 555600 * 4 + 285800)
    ∷ (4, 555600 * 5 + 285800)
    ∷ (3, 555600 * 6 + 285800)
    ∷ (2, 555600 * 7 + 285800)
    ∷ (1, 555600 * 8 + 285800)
    ∷ (0, 555600 * 9 + 285800)
    ∷ []

-- `block40OffsetDual_`
abbrev pub block40_offset_dual : List (ℕ × ℕ)
block40_offset_dual =
    (9, 555600 * 0 + 285800)
    ∷ (8, 555600 * 0 + 285800)
    ∷ (7, 555600 * 1 + 285800)
    ∷ (6, 555600 * 1 + 285800)
    ∷ (5, 555600 * 2 + 285800)
    ∷ (4, 555600 * 2 + 285800)
    ∷ (3, 555600 * 3 + 285800)
    ∷ (2, 555600 * 3 + 285800)
    ∷ (1, 555600 * 4 + 285800)
    ∷ (0, 555600 * 4 + 285800)
    ∷ []

-- `laser40Offset_`
abbrev pub laser40_offset : List (ℕ × ℕ)
laser40_offset =
    (3, 36200)
    ∷ (39, 36200)
    ∷ (35, 49200)
    ∷ (27, 62300)
    ∷ (11, 81900)
    ∷ (15, 81900)
    ∷ (31, 95000)
    ∷ (23, 114700)
    ∷ (28, 127700)
    ∷ (16, 147400)
    ∷ (2, 160400)
    ∷ (38, 160400)
    ∷ (34, 173500)
    ∷ (24, 186500)
    ∷ (8, 206200)
    ∷ (12, 206200)
    ∷ (30, 219200)
    ∷ (20, 238900)
    ∷ (25, 251900)
    ∷ (13, 271600)
    ∷ (1, 284700)
    ∷ (37, 284700)
    ∷ (33, 297700)
    ∷ (5, 317400)
    ∷ (21, 317447)
    ∷ (9, 337100)
    ∷ (29, 350100)
    ∷ (17, 369800)
    ∷ (22, 389500)
    ∷ (10, 409100)
    ∷ (0, 422200)
    ∷ (36, 422200)
    ∷ (32, 435200)
    ∷ (4, 454900)
    ∷ (18, 454900)
    ∷ (6, 474600)
    ∷ (26, 487600)
    ∷ (14, 507300)
    ∷ (19, 527000)
    ∷ (9, 546700)
    ∷ []
