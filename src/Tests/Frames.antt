-- ===== src/Tests/Frames.antt =====
-- Frame cutting on concrete turns.
use go2_setup.Shared.{
  ℕ, ◌+◌, ◌*◌, ◌<◌, ◌≤◌, ◌≡◌, refl, true, false, some, List, [], ◌∷◌, arith, ◌↔◌, ◌⊎◌, All,
}
use go2_setup.Frame.{
  Emission, Framer, azimuth_gap, crosses, add_point, add_points, emit_back_message, unless_overrun,
  frame_ends, process_block, process_blocks, process_packet,
}
use go2_setup.Frame.Crossing.{crosses_iff}
use go2_setup.Frame.Conservation.{recorded, process_packet-recorded}
use go2_setup.Frame.Stamp.{oldest, callback_timestamp, process_block-timestamp}
use go2_setup.Frame.Cutter.{Cutter, frame_of, cut_blocks}
use go2_setup.Frame.Cutter.Refine.{Refines, process_blocks-Refines}
use go2_setup.Frame.Overrun.{process_blocks-stalled}
use go2_setup.Wire.{ok, fault}
use go2_setup.Frame.Silent.{process_blocks-silent}
use go2_setup.Frame.Modes.{UsesMode, HoldsPoints, process_blocks-HoldsPoints}

-- Numbers for points and packets; 99 for the correction packet.
abbrev fresh : ℕ → Framer ℕ ℕ
fresh index = record {
  last_azimuth = 35900;
  clouds = record { lists = λ r. []; cloud = λ i. i; index = index; out_msg = []; overrun = false };
  scan = 1 ∷ [];
  emitted = [];
}

abbrev two_blocks : List (ℕ × List (ℕ × ℕ))
two_blocks = (20, (0, 5) ∷ (1, 6) ∷ []) ∷ (40, (0, 7) ∷ []) ∷ []

crosses_iff_example :
    (crosses 100 50 120 ≡ true)
    ↔ (((50 < 100) × (100 ≤ 120) × (120 < 50 + 600)) ⊎ ((120 < 50) × (100 ≤ 120)))
crosses_iff_example = crosses_iff 100 50 120

process_packet-recorded_example :
    recorded (process_packet false true 0 (λ n. 99) (add_point false) 2 (fresh 2) 3 two_blocks)
    ≡ 1 ∷ 3 ∷ []
process_packet-recorded_example =
    process_packet-recorded false true 0 (λ n. 99) (add_point false) 2 (fresh 2) 3 two_blocks

abbrev after_two : Framer ℕ ℕ
after_two = process_blocks false true 0 (λ n. 99) (add_point false) 2 (fresh 2) two_blocks

no_overrun : unless_overrun after_two ≡ ok after_two
unfolding process_blocks process_block frame_ends crosses azimuth_gap add_points add_point
    emit_back_message
no_overrun = refl

process_blocks-HoldsPoints_example :
    All HoldsPoints after_two.emitted × UsesMode false after_two.clouds
process_blocks-HoldsPoints_example =
    process_blocks-HoldsPoints false true 0 (λ n. 99) 2 (fresh 2) after_two two_blocks (omega arith)
      (λ r. refl) tt no_overrun

-- One place is left in `PointCloud`, and two points come.
process_blocks-stalled_example :
    unless_overrun (
      process_blocks false true 0
        (λ n. 99)
        (add_point false)
        2
        (fresh 999999)
        ((35900, (0, 5) ∷ []) ∷ (35900, (0, 7) ∷ []) ∷ []))
    ≡ fault
process_blocks-stalled_example =
    process_blocks-stalled true 0 (λ n. 99) 2 (fresh 999999)
      ((35900, (0, 5) ∷ []) ∷ (35900, (0, 7) ∷ []) ∷ []) (refl, (refl, tt)) (omega arith)
      (omega arith)

-- The state of a thread that has just begun, with nothing that waits.
abbrev begun : Framer ℕ ℕ
begun = fresh 0

abbrev nothing_waits : Cutter ℕ ℕ
nothing_waits = record { last_azimuth = 35900; waiting = []; scan = 1 ∷ []; emitted = [] }

process_blocks-Refines_example :
    Refines true 2
      (process_blocks true true 30 (λ n. 99) (add_point true) 2 begun two_blocks)
      (cut_blocks true true 30 (λ n. 99) 2 nothing_waits two_blocks)
process_blocks-Refines_example =
    process_blocks-Refines true true 30 (λ n. 99) 2 (omega arith) begun nothing_waits two_blocks
      ((omega arith, (omega arith, tt)), ((omega arith, tt), tt))
      (record {
        azimuth = refl;
        clouds = (refl, refl, λ r. refl);
        below = tt;
        scan = refl;
        emitted = refl;
        in_bounds = refl;
      })
      (tt, (tt, tt))

process_blocks-silent_example :
    (process_blocks true true 30
      (λ n. 99)
      (add_point true)
      2
      begun
      ((20, (1, 5) ∷ []) ∷ (40, (1, 6) ∷ []) ∷ [])).emitted
    ≡ []
process_blocks-silent_example =
    process_blocks-silent true 30 (λ n. 99) 2 begun ((20, (1, 5) ∷ []) ∷ (40, (1, 6) ∷ []) ∷ [])
      refl refl ((omega arith, tt), ((omega arith, tt), tt))

-- One point waits, of the time 70, and the next block ends the frame.
abbrev one_point : Framer ℕ ℕ
one_point = record {
  last_azimuth = 35900;
  clouds = record { lists = λ r. []; cloud = λ i. 7; index = 1; out_msg = []; overrun = false };
  scan = 1 ∷ [];
  emitted = [];
}

abbrev one_waits : Cutter ℕ ℕ
one_waits = record { last_azimuth = 35900; waiting = (0, 7) ∷ []; scan = 1 ∷ []; emitted = [] }

it_ends : frame_ends true 30 one_point 40 ≡ true
unfolding frame_ends crosses azimuth_gap
it_ends = refl

process_block-timestamp_example :
    (e : Emission ℕ ℕ) × (p : ℕ) × ((process_block false true 30
        (λ n. 99)
        (add_point false)
        2
        one_point
        (40, [])).emitted
      ≡ e ∷ [])
    × (e.points ≡ frame_of false 2 ((0, 7) ∷ []))
    × (oldest false ((0, 7) ∷ []) ≡ some p)
    × (callback_timestamp (λ q. q * 10) e ≡ some (p * 10))
process_block-timestamp_example =
    process_block-timestamp false true 30 (λ n. 99) 2 (λ q. q * 10) one_point one_waits (40, [])
      (omega arith)
      (record {
        azimuth = refl;
        clouds = (refl, λ r. refl);
        below = (omega arith, tt);
        scan = refl;
        emitted = refl;
        in_bounds = refl;
      })
      it_ends
