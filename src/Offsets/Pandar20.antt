-- ===== src/Offsets/Pandar20.antt =====
-- The assignments of `Init` to the time offsets of Pandar20A and Pandar20B, in the source's order and
-- in ten-thousandths of a microsecond.
use go2_setup.Shared.{ℕ, ◌+◌, ◌*◌, List, [], ◌∷◌}

-- `laser20AOffset_`
abbrev pub laser20a_offset : List (ℕ × ℕ)
laser20a_offset =
    (1, 13040 * 0 + 19680 * 0 + 36200)
    ∷ (19, 13040 * 0 + 19680 * 0 + 36200)
    ∷ (16, 13040 * 1 + 19680 * 0 + 36200)
    ∷ (14, 13040 * 3 + 19680 * 1 + 36200)
    ∷ (11, 13040 * 3 + 19680 * 2 + 36200)
    ∷ (0, 13040 * 5 + 19680 * 3 + 36200)
    ∷ (18, 13040 * 5 + 19680 * 3 + 36200)
    ∷ (5, 13040 * 7 + 19680 * 4 + 36200)
    ∷ (7, 13040 * 7 + 19680 * 4 + 36200)
    ∷ (10, 13040 * 8 + 19680 * 5 + 36200)
    ∷ (17, 13040 * 10 + 19680 * 6 + 36200)
    ∷ (15, 13040 * 11 + 19680 * 6 + 36200)
    ∷ (3, 13040 * 11 + 19680 * 7 + 36200)
    ∷ (13, 13040 * 12 + 19680 * 8 + 36200)
    ∷ (9, 13040 * 12 + 19680 * 9 + 36200)
    ∷ (6, 13040 * 12 + 19680 * 11 + 36200)
    ∷ (2, 13040 * 14 + 19680 * 12 + 36200)
    ∷ (4, 13040 * 14 + 19680 * 13 + 36200)
    ∷ (12, 13040 * 15 + 19680 * 13 + 36200)
    ∷ (8, 13040 * 15 + 19680 * 14 + 36200)
    ∷ []

-- `laser20BOffset_`
abbrev pub laser20b_offset : List (ℕ × ℕ)
laser20b_offset =
    (17, 13040 * 1 + 19680 * 0 + 36200)
    ∷ (5, 13040 * 2 + 19680 * 1 + 36200)
    ∷ (15, 13040 * 3 + 19680 * 1 + 36200)
    ∷ (11, 13040 * 3 + 19680 * 2 + 36200)
    ∷ (8, 13040 * 4 + 19680 * 3 + 36200)
    ∷ (19, 13040 * 5 + 19680 * 3 + 36200)
    ∷ (3, 13040 * 7 + 19680 * 4 + 36200)
    ∷ (6, 13040 * 7 + 19680 * 4 + 36200)
    ∷ (14, 13040 * 8 + 19680 * 4 + 36200)
    ∷ (10, 13040 * 8 + 19680 * 5 + 36200)
    ∷ (18, 13040 * 10 + 19680 * 6 + 36200)
    ∷ (16, 13040 * 11 + 19680 * 6 + 36200)
    ∷ (1, 13040 * 11 + 19680 * 7 + 36200)
    ∷ (13, 13040 * 12 + 19680 * 8 + 36200)
    ∷ (4, 13040 * 12 + 19680 * 11 + 36200)
    ∷ (0, 13040 * 14 + 19680 * 12 + 36200)
    ∷ (9, 13040 * 14 + 19680 * 12 + 36200)
    ∷ (2, 13040 * 14 + 19680 * 13 + 36200)
    ∷ (12, 13040 * 15 + 19680 * 13 + 36200)
    ∷ (7, 13040 * 15 + 19680 * 14 + 36200)
    ∷ []
