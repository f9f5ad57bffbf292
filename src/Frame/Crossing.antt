-- ===== src/Frame/Crossing.antt =====
-- Which steps of the azimuth end a frame.
use go2_setup.Shared.{
  ℕ, ◌+◌, ◌≤◌, ◌<◌, ◌≡◌, refl, ◌↔◌, ◌⊎◌, true, ◌&&◌, List, [], ◌∷◌, arith, ltb, leb, if◌then◌else◌,
}
use go2_setup.Frame.{crosses}

-- The azimuth test before a frame is emitted holds exactly where the azimuth goes forward, by less
-- than 6 degrees, from before the start angle onto or past it, or goes back and is then at or past
-- it.
pub crosses_iff :
    (start last azimuth : ℕ)
    → (crosses start last azimuth ≡ true) ↔ (
        ((last < start) × (start ≤ azimuth) × (azimuth < last + 600))
        ⊎ ((azimuth < last) × (start ≤ azimuth)))
unfolding crosses
crosses_iff start last azimuth = ground arith

-- The blocks at which frames end, counted from a first azimuth on.
unfoldable pub crossings : ℕ → ℕ → List ℕ → ℕ
crossings start last [] = 0
crossings start last (a ∷ as') = (if crosses start last a then 1 else 0) + crossings start a as'

-- One turn: the azimuth goes up, by less than 6 degrees from block to block.
abbrev pub Turns : ℕ → List ℕ → Type 0
Turns last [] = Unit
Turns last (a ∷ as') = (last < a) × (a < last + 600) × Turns a as'

abbrev pub final : ℕ → List ℕ → ℕ
final last [] = last
final last (a ∷ as') = final a as'

Turns-le : (last : ℕ) (azimuths : List ℕ) → Turns last azimuths → last ≤ final last azimuths
Turns-le last [] t = omega arith
Turns-le last (a ∷ as') t = omega (arith, Turns-le a as' t.2)

crossings_past :
    (start last : ℕ) (azimuths : List ℕ)
    → Turns last azimuths
    → start ≤ last
    → crossings start last azimuths ≡ 0
unfolding crossings crosses
crossings_past start last [] t h = refl
crossings_past start last (a ∷ as') t h = ground (arith, crossings_past start a as' t.2)

-- Among azimuths that rise by less than 6 degrees from each to the next, the test for a frame's end
-- holds exactly once if the first lies before the start angle and the last does not, and never
-- otherwise.
pub crossings_turn :
    (start last : ℕ) (azimuths : List ℕ)
    → Turns last azimuths
    → crossings start last azimuths
      ≡ (if ltb last start && leb start (final last azimuths) then 1 else 0)
unfolding crossings crosses
crossings_turn start last [] t = ground arith
crossings_turn start last (a ∷ as') t =
    ground
      (arith, crossings_turn start a as' t.2, crossings_past start a as' t.2, Turns-le a as' t.2)
