-- ===== src/Offsets/PandarQt.antt =====
-- The assignments of `Init` to the time offsets of PandarQT, in the source's order and in
-- ten-thousandths of a microsecond.
use go2_setup.Shared.{ℕ, ◌+◌, List, [], ◌∷◌}

-- `blockQTOffsetSingle_`
abbrev pub block_qt_offset_single : List (ℕ × ℕ)
block_qt_offset_single =
    (0, 257100) ∷ (1, 257100 + 1666700) ∷ (2, 257100 + 3333300) ∷ (3, 257100 + 5000000) ∷ []

-- `blockQTOffsetDual_`
abbrev pub block_qt_offset_dual : List (ℕ × ℕ)
block_qt_offset_dual =
    (0, 257100) ∷ (1, 257100) ∷ (2, 257100 + 1666700) ∷ (3, 257100 + 1666700) ∷ []

-- `laserQTOffset_`
abbrev pub laser_qt_offset : List (ℕ × ℕ)
laser_qt_offset =
    (0, 100000 + 23100)
    ∷ (1, 100000 + 43700)
    ∷ (2, 100000 + 64300)
    ∷ (3, 100000 + 84900)
    ∷ (4, 100000 + 105400)
    ∷ (5, 100000 + 126000)
    ∷ (6, 100000 + 146600)
    ∷ (7, 100000 + 167100)
    ∷ (8, 100000 + 191600)
    ∷ (9, 100000 + 212200)
    ∷ (10, 100000 + 232800)
    ∷ (11, 100000 + 253400)
    ∷ (12, 100000 + 273900)
    ∷ (13, 100000 + 294500)
    ∷ (14, 100000 + 315000)
    ∷ (15, 100000 + 335600)
    ∷ (16, 100000 + 366100)
    ∷ (17, 100000 + 386700)
    ∷ (18, 100000 + 407300)
    ∷ (19, 100000 + 427800)
    ∷ (20, 100000 + 448400)
    ∷ (21, 100000 + 469000)
    ∷ (22, 100000 + 489500)
    ∷ (23, 100000 + 510100)
    ∷ (24, 100000 + 534500)
    ∷ (25, 100000 + 555200)
    ∷ (26, 100000 + 575800)
    ∷ (27, 100000 + 596300)
    ∷ (28, 100000 + 616900)
    ∷ (29, 100000 + 637400)
    ∷ (30, 100000 + 658000)
    ∷ (31, 100000 + 678600)
    ∷ (32, 100000 + 709000)
    ∷ (33, 100000 + 729700)
    ∷ (34, 100000 + 750200)
    ∷ (35, 100000 + 770800)
    ∷ (36, 100000 + 791400)
    ∷ (37, 100000 + 811900)
    ∷ (38, 100000 + 832500)
    ∷ (39, 100000 + 853000)
    ∷ (40, 100000 + 877500)
    ∷ (41, 100000 + 898200)
    ∷ (42, 100000 + 918700)
    ∷ (43, 100000 + 939300)
    ∷ (44, 100000 + 959800)
    ∷ (45, 100000 + 980400)
    ∷ (46, 100000 + 1001000)
    ∷ (47, 100000 + 1021500)
    ∷ (48, 100000 + 1052000)
    ∷ (49, 100000 + 1072600)
    ∷ (50, 100000 + 1093200)
    ∷ (51, 100000 + 1113800)
    ∷ (52, 100000 + 1134300)
    ∷ (53, 100000 + 1154900)
    ∷ (54, 100000 + 1175400)
    ∷ (55, 100000 + 1196000)
    ∷ (56, 100000 + 1220500)
    ∷ (57, 100000 + 1241100)
    ∷ (58, 100000 + 1261700)
    ∷ (59, 100000 + 1282200)
    ∷ (60, 100000 + 1302800)
    ∷ (61, 100000 + 1323400)
    ∷ (62, 100000 + 1343900)
    ∷ (63, 100000 + 1364500)
    ∷ []
