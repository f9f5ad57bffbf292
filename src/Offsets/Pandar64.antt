-- ===== src/Offsets/Pandar64.antt =====
-- The assignments of `Init` to the time offsets of Pandar64, in the source's order and in
-- ten-thousandths of a microsecond.
use go2_setup.Shared.{ℕ, ◌+◌, ◌*◌, List, [], ◌∷◌}

-- `block64OffsetSingle_`
abbrev pub block64_offset_single : List (ℕ × ℕ)
block64_offset_single =
    (5, 555600 * 0 + 425800)
    ∷ (4, 555600 * 1 + 425800)
    ∷ (3, 555600 * 2 + 425800)
    ∷ (2, 555600 * 3 + 425800)
    ∷ (1, 555600 * 4 + 425800)
    ∷ (0, 555600 * 5 + 425800)
    ∷ []

-- `block64OffsetDual_`
abbrev pub block64_offset_dual : List (ℕ × ℕ)
block64_offset_dual =
    (5, 555600 * 0 + 425800)
    ∷ (4, 555600 * 0 + 425800)
    ∷ (3, 555600 * 1 + 425800)
    ∷ (2, 555600 * 1 + 425800)
    ∷ (1, 555600 * 2 + 425800)
    ∷ (0, 555600 * 2 + 425800)
    ∷ []

-- `laser64Offset_`
abbrev pub laser64_offset : List (ℕ × ℕ)
laser64_offset =
    (50, 13040 * 0 + 19680 * 0 + 36200)
    ∷ (60, 13040 * 0 + 19680 * 0 + 36200)
    ∷ (44, 13040 * 1 + 19680 * 0 + 36200)
    ∷ (59, 13040 * 1 + 19680 * 0 + 36200)
    ∷ (38, 13040 * 2 + 19680 * 0 + 36200)
    ∷ (56, 13040 * 2 + 19680 * 0 + 36200)
    ∷ (8, 13040 * 3 + 19680 * 0 + 36200)
    ∷ (54, 13040 * 3 + 19680 * 0 + 36200)
    ∷ (48, 13040 * 4 + 19680 * 0 + 36200)
    ∷ (62, 13040 * 4 + 19680 * 0 + 36200)
    ∷ (42, 13040 * 5 + 19680 * 0 + 36200)
    ∷ (58, 13040 * 5 + 19680 * 0 + 36200)
    ∷ (6, 13040 * 6 + 19680 * 0 + 36200)
    ∷ (55, 13040 * 6 + 19680 * 0 + 36200)
    ∷ (52, 13040 * 7 + 19680 * 0 + 36200)
    ∷ (63, 13040 * 7 + 19680 * 0 + 36200)
    ∷ (46, 13040 * 8 + 19680 * 0 + 36200)
    ∷ (61, 13040 * 8 + 19680 * 0 + 36200)
    ∷ (40, 13040 * 9 + 19680 * 0 + 36200)
    ∷ (57, 13040 * 9 + 19680 * 0 + 36200)
    ∷ (5, 13040 * 10 + 19680 * 0 + 36200)
    ∷ (53, 13040 * 10 + 19680 * 0 + 36200)
    ∷ (4, 13040 * 11 + 19680 * 0 + 36200)
    ∷ (47, 13040 * 11 + 19680 * 0 + 36200)
    ∷ (3, 13040 * 12 + 19680 * 0 + 36200)
    ∷ (49, 13040 * 12 + 19680 * 0 + 36200)
    ∷ (2, 13040 * 13 + 19680 * 0 + 36200)
    ∷ (51, 13040 * 13 + 19680 * 0 + 36200)
    ∷ (1, 13040 * 14 + 19680 * 0 + 36200)
    ∷ (45, 13040 * 14 + 19680 * 0 + 36200)
    ∷ (0, 13040 * 15 + 19680 * 0 + 36200)
    ∷ (43, 13040 * 15 + 19680 * 0 + 36200)
    ∷ (23, 13040 * 15 + 19680 * 1 + 36200)
    ∷ (32, 13040 * 15 + 19680 * 1 + 36200)
    ∷ (26, 13040 * 15 + 19680 * 2 + 36200)
    ∷ (41, 13040 * 15 + 19680 * 2 + 36200)
    ∷ (20, 13040 * 15 + 19680 * 3 + 36200)
    ∷ (35, 13040 * 15 + 19680 * 3 + 36200)
    ∷ (14, 13040 * 15 + 19680 * 4 + 36200)
    ∷ (29, 13040 * 15 + 19680 * 4 + 36200)
    ∷ (21, 13040 * 15 + 19680 * 5 + 36200)
    ∷ (36, 13040 * 15 + 19680 * 5 + 36200)
    ∷ (15, 13040 * 15 + 19680 * 6 + 36200)
    ∷ (30, 13040 * 15 + 19680 * 6 + 36200)
    ∷ (9, 13040 * 15 + 19680 * 7 + 36200)
    ∷ (24, 13040 * 15 + 19680 * 7 + 36200)
    ∷ (18, 13040 * 15 + 19680 * 8 + 36200)
    ∷ (33, 13040 * 15 + 19680 * 8 + 36200)
    ∷ (12, 13040 * 15 + 19680 * 9 + 36200)
    ∷ (27, 13040 * 15 + 19680 * 9 + 36200)
    ∷ (19, 13040 * 15 + 19680 * 10 + 36200)
    ∷ (34, 13040 * 15 + 19680 * 10 + 36200)
    ∷ (13, 13040 * 15 + 19680 * 11 + 36200)
    ∷ (28, 13040 * 15 + 19680 * 11 + 36200)
    ∷ (7, 13040 * 15 + 19680 * 12 + 36200)
    ∷ (22, 13040 * 15 + 19680 * 12 + 36200)
    ∷ (16, 13040 * 15 + 19680 * 13 + 36200)
    ∷ (31, 13040 * 15 + 19680 * 13 + 36200)
    ∷ (10, 13040 * 15 + 19680 * 14 + 36200)
    ∷ (25, 13040 * 15 + 19680 * 14 + 36200)
    ∷ (17, 13040 * 15 + 19680 * 15 + 36200)
    ∷ (37, 13040 * 15 + 19680 * 15 + 36200)
    ∷ (11, 13040 * 15 + 19680 * 16 + 36200)
    ∷ (39, 13040 * 15 + 19680 * 16 + 36200)
    ∷ []
