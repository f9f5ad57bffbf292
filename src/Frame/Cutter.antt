-- ===== src/Frame/Cutter.antt =====
-- The frames as cuts of one list of points: what the buffers, the index and the lists for each laser
-- are there to do, in either mode.
pub mod Buffers
pub mod Refine
use go2_setup.Shared.{
  ℕ, zero, suc, ◌+◌, ◌<◌, ◌≤◌, ◌≡◌, ◌∙◌, refl, sym, ap, Bool, true, false, not, ◌&&◌, ◌||◌, List,
  [], ◌∷◌, ◌++◌, arith, append_assoc, append-nil, ltb, ◌==◌, if◌then◌else◌, update, All, Bool-cases,
  inl, inr, lt→ltb, length,
}
use go2_setup.Frame.{
  max_point_cloud_num, Clouds, Emission, Framer, add_point, add_points, first_of, joined, cleared,
  is_empty, crosses, frame_ends, emit_back_message, process_block, process_blocks,
}
use go2_setup.Frame.Conservation.{bare, add_points-pending}

-- What waits is one list, each point with its laser.
pub record Cutter (P R : Type 0) : Type 0 where
  pub last_azimuth : ℕ
  pub waiting : List (ℕ × P)
  pub scan : List R
  pub emitted : List (Emission P R)

module _ {P : Type 0} where
  -- The points of one laser.
  abbrev pub of_laser : ℕ → List (ℕ × P) → List P
  of_laser r [] = []
  of_laser r ((l, p) ∷ ps) = let rest = of_laser r ps in if l == r then p ∷ rest else rest

  -- The points laser by laser, for the first `n` lasers.
  abbrev pub by_laser : ℕ → List (ℕ × P) → List P
  by_laser zero ps = []
  by_laser (suc n) ps = by_laser n ps ++ of_laser n ps

  abbrev pub frame_of : Bool → ℕ → List (ℕ × P) → List P
  frame_of true lasers ps = by_laser lasers ps
  frame_of false lasers ps = bare ps

  -- In the mode with a list for each laser a frame takes a point of the first laser.
  abbrev pub fills : Bool → List (ℕ × P) → Bool
  fills true ps = not (is_empty (of_laser 0 ps))
  fills false ps = not (is_empty ps)

  abbrev pub LasersBelow : ℕ → List (ℕ × P) → Type 0
  LasersBelow n ps = All (λ (p : ℕ × P). p.0 < n) ps

-- What waits fits `PointCloud`, where that buffer is in use.
abbrev pub HasRoom : {P : Type 0} → Bool → List (ℕ × P) → Type 0
HasRoom true ws = Unit
HasRoom false ws = length ws ≤ max_point_cloud_num

module _ {P R : Type 0} (structured has_callback : Bool) (start : ℕ) (correction : ℕ → R)
    (lasers : ℕ) where
  -- One block: where it ends a frame, all that waits becomes the frame.
  unfoldable pub cut : Cutter P R → ℕ × List (ℕ × P) → Cutter P R
  cut t (azimuth, points) =
      if crosses start t.last_azimuth azimuth && has_callback && fills structured t.waiting
      then record {
        last_azimuth = azimuth;
        waiting = points;
        scan = [];
        emitted =
            t.emitted
            ++ (record {
              points = frame_of structured lasers t.waiting;
              packets = t.scan ++ (correction lasers ∷ []);
            }
                ∷ []);
      }
      else record t { last_azimuth = azimuth; waiting = t.waiting ++ points }

  unfoldable pub cut_blocks : Cutter P R → List (ℕ × List (ℕ × P)) → Cutter P R
  cut_blocks t [] = t
  cut_blocks t (b ∷ bs) = cut_blocks (cut t b) bs

  -- After each of the blocks, what waits fits.
  abbrev pub RoomFor : Cutter P R → List (ℕ × List (ℕ × P)) → Type 0
  RoomFor t [] = Unit
  RoomFor t (b ∷ bs) = HasRoom structured (cut t b).waiting × RoomFor (cut t b) bs

module _ {P : Type 0} where
  -- The buffers of the mode hold just these points.
  abbrev pub Holds : Bool → Clouds P → List (ℕ × P) → Type 0
  Holds true c ps = (c.index ≡ 0) × (c.out_msg ≡ []) × ((r : ℕ) → c.lists r ≡ of_laser r ps)
  Holds false c ps = (first_of c.cloud c.index ≡ bare ps) × ((r : ℕ) → c.lists r ≡ [])
