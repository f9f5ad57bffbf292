-- ===== src/Offsets.antt =====
-- The time offsets that `Init` of pandarGeneral_internal.cc and pandarXT.h give to the blocks of a
-- packet and to the lasers of a block, in ten-thousandths of a microsecond.
pub mod Pandar40
pub mod Pandar64
pub mod Pandar20
pub mod PandarQt
pub mod PandarXt
pub mod Tables
use go2_setup.Shared.{
  ℕ, zero, suc, ◌+◌, ◌-◌, ◌*◌, ◌/◌, ◌&&◌, Bool, true, false, List, [], ◌∷◌, Option, none, some,
  ◌==◌, if◌then◌else◌,
}

-- An array after these assignments, in order; an element that none of them sets is uninitialised.
unfoldable pub assigned : List (ℕ × ℕ) → ℕ → Option ℕ
assigned [] i = none
assigned ((j, v) ∷ as') i =
    let later = assigned as' i in
    elim later [ some w ↦ some w | none ↦ if j == i then some v else none ]

-- The loop for Pandar20: block `i` of 20.
unfoldable pub block20_offset_single : ℕ → ℕ
block20_offset_single i = 285800 + (20 - 1 - i) * 555600

unfoldable pub block20_offset_dual : ℕ → ℕ
block20_offset_dual i = 285800 + (20 - 1 - i) / 2 * 555600
