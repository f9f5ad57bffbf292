-- ===== src/Frame/Cutter/Refine.antt =====
-- The framer against the cutter, in either mode.
use go2_setup.Shared.{
  ℕ, ◌<◌, ◌≡◌, ◌∙◌, false, refl, Bool, ◌&&◌, List, [], ◌∷◌, All, Bool-cases, inl, inr,
}
use go2_setup.Frame.{
  Framer, add_point, crosses, frame_ends, emit_back_message, process_block, process_blocks,
}
use go2_setup.Frame.Cutter.Buffers.{
  add_points-Holds, add_points-room, emit-overrun, emit-frame_of, emit-Holds, Holds-fills,
  LasersBelow-append,
}
use go2_setup.Frame.Cutter.{HasRoom, RoomFor, Cutter, fills, LasersBelow, cut, cut_blocks, Holds}

module _ {P R : Type 0} where
  pub record Refines (structured : Bool) (lasers : ℕ) (s : Framer P R) (t : Cutter P R)
      : Type 0 where
    pub azimuth : s.last_azimuth ≡ t.last_azimuth
    pub clouds : Holds structured s.clouds t.waiting
    pub below : LasersBelow lasers t.waiting
    pub scan : s.scan ≡ t.scan
    pub emitted : s.emitted ≡ t.emitted
    pub in_bounds : s.clouds.overrun ≡ false

module _ {P R : Type 0} (structured has_callback : Bool) (start : ℕ) (correction : ℕ → R)
    (lasers : ℕ) (pos : 0 < lasers) where
  frame_ends-Refines :
      (s : Framer P R) (t : Cutter P R) (a : ℕ)
      → Refines structured lasers s t
      → frame_ends has_callback start s a
        ≡ (crosses start t.last_azimuth a && has_callback && fills structured t.waiting)
  unfolding frame_ends
  frame_ends-Refines s t a h =
      rw (h.azimuth, Holds-fills structured s.clouds t.waiting h.clouds) refl

  process_block-Refines :
      (s : Framer P R) (t : Cutter P R) (b : ℕ × List (ℕ × P))
      → LasersBelow lasers b.1
      → Refines structured lasers s t
      → HasRoom structured (cut structured has_callback start correction lasers t b).waiting
      → Refines structured lasers
          (process_block structured has_callback start correction (add_point structured) lasers s b)
          (cut structured has_callback start correction lasers t b)
  unfolding process_block cut
  process_block-Refines s t (a, ps) new h =
      elim (Bool-cases
        (crosses start t.last_azimuth a && has_callback && fills structured t.waiting)) [
          | inl ends ↦
              rw (frame_ends-Refines s t a h, ends)
                (λ room. record {
                  azimuth = refl;
                  clouds =
                      add_points-Holds structured (emit_back_message structured lasers s.clouds).1
                        [] ps
                        (emit-Holds structured lasers s.clouds t.waiting pos h.below h.clouds);
                  below = new;
                  scan = refl;
                  emitted =
                      rw
                        (
                          h.emitted,
                          h.scan,
                          emit-frame_of structured lasers s.clouds t.waiting h.clouds,
                        )
                        refl;
                  in_bounds =
                      add_points-room structured (emit_back_message structured lasers s.clouds).1 []
                        ps (emit-Holds structured lasers s.clouds t.waiting pos h.below h.clouds)
                        room (emit-overrun structured lasers s.clouds ∙ h.in_bounds);
                })
          | inr more ↦
              rw (frame_ends-Refines s t a h, more)
                (λ room. record {
                  azimuth = refl;
                  clouds = add_points-Holds structured s.clouds t.waiting ps h.clouds;
                  below = LasersBelow-append lasers t.waiting ps h.below new;
                  scan = h.scan;
                  emitted = h.emitted;
                  in_bounds =
                      add_points-room structured s.clouds t.waiting ps h.clouds room h.in_bounds;
                })
        ]

  -- In either mode, with the formats other than QT and at least one laser, whose points are all of
  -- lasers below the number that is joined, with no write past `PointCloud` so far: let
  -- `PointCloud`, in the mode that uses it, have room after each block for the points that then
  -- wait. Then the framer goes through the blocks as one that keeps a single list of points does,
  -- which, where the azimuths cross and the callback is given and the list is not empty (or, with a
  -- list for each laser, has a point of the first one), makes that list the frame, as it stands or
  -- laser by laser, and begins again with the block's points. The same frames go out, with the same
  -- packets, the buffers hold the list at the end, and no write has gone past `PointCloud`.
  pub process_blocks-Refines :
      (s : Framer P R) (t : Cutter P R) (bs : List (ℕ × List (ℕ × P)))
      → All (λ (b : ℕ × List (ℕ × P)). LasersBelow lasers b.1) bs
      → Refines structured lasers s t
      → RoomFor structured has_callback start correction lasers t bs
      → Refines structured lasers
          (process_blocks structured has_callback start correction
            (add_point structured)
            lasers
            s
            bs)
          (cut_blocks structured has_callback start correction lasers t bs)
  unfolding process_blocks cut_blocks
  process_blocks-Refines s t [] new h room = h
  process_blocks-Refines s t (b ∷ bs) new h room =
      process_blocks-Refines
        (process_block structured has_callback start correction (add_point structured) lasers s b)
        (cut structured has_callback start correction lasers t b) bs new.1
        (process_block-Refines s t b new.0 h room.0) room.1
