-- ===== src/Frame/Stamp.antt =====
-- The timestamp that a frame's callback is given: `points[0].timestamp` in `EmitBackMessege`.
use go2_setup.Shared.{
  ℕ, zero, suc, ◌<◌, ◌≡◌, refl, sym, ap, ◌∙◌, Bool, true, false, not, ◌&&◌, List, [], ◌∷◌, ◌++◌,
  Option, none, some, arith,
}
use go2_setup.Frame.{
  Emission, Framer, add_point, is_empty, frame_ends, emit_back_message, process_block, crosses,
}
use go2_setup.Frame.Conservation.{bare}
use go2_setup.Frame.Cutter.{Cutter, of_laser, by_laser, frame_of, fills}
use go2_setup.Frame.Cutter.Buffers.{emit-frame_of, Holds-fills}
use go2_setup.Frame.Cutter.Refine.{Refines}

-- The element 0, which is there if the points are not empty.
abbrev pub first : {P : Type 0} → List P → Option P
first [] = none
first (p ∷ ps) = some p

-- What `pcl_callback_` gets as its timestamp; none is a read outside the points.
unfoldable pub callback_timestamp : {P R D : Type 0} → (P → D) → Emission P R → Option D
callback_timestamp timestamp e = elim (first e.points) [ none ↦ none | some p ↦ some (timestamp p) ]

module _ {P : Type 0} where
  -- The point that came first of those that wait, with a list for each laser of those of the first.
  abbrev pub oldest : Bool → List (ℕ × P) → Option P
  oldest true ws = first (of_laser 0 ws)
  oldest false ws = first (bare ws)

  first-append : (xs ys : List P) (p : P) → first xs ≡ some p → first (xs ++ ys) ≡ some p
  first-append [] ys p h = cc
  first-append (x ∷ xs) ys p h = h

  nonempty-first : (xs : List P) → not (is_empty xs) ≡ true → (p : P) × (first xs ≡ some p)
  nonempty-first [] h = cc
  nonempty-first (x ∷ xs) h = (x, refl)

  by_laser-first :
      (n : ℕ) (ws : List (ℕ × P)) (p : P)
      → first (of_laser 0 ws) ≡ some p
      → first (by_laser (suc n) ws) ≡ some p
  by_laser-first zero ws p h = h
  by_laser-first (suc n) ws p h =
      first-append (by_laser (suc n) ws) (of_laser (suc n) ws) p (by_laser-first n ws p h)

  frame_of-first :
      (structured : Bool) (lasers : ℕ) (ws : List (ℕ × P)) (p : P)
      → 0 < lasers
      → oldest structured ws ≡ some p
      → first (frame_of structured lasers ws) ≡ some p
  frame_of-first true (suc n) ws p pos h = by_laser-first n ws p h
  frame_of-first true zero ws p pos h = absurd (omega arith)
  frame_of-first false lasers ws p pos h = h

  fills-oldest :
      (structured : Bool) (ws : List (ℕ × P))
      → fills structured ws ≡ true
      → (p : P) × (oldest structured ws ≡ some p)
  fills-oldest true ws h = nonempty-first (of_laser 0 ws) h
  fills-oldest false [] h = cc
  fills-oldest false ((l, p) ∷ ws) h = (p, refl)

and_last : (a b : Bool) {c : Bool} → (a && b && c) ≡ true → c ≡ true
and_last true true h = h
and_last true false h = cc
and_last false true h = cc
and_last false false h = cc

module _ {P R D : Type 0} (structured has_callback : Bool) (start : ℕ) (correction : ℕ → R)
    (lasers : ℕ) (timestamp : P → D) where
  -- With the formats other than QT, in either mode, for at least one laser, whose points that wait
  -- are of lasers below the number that is joined, with no write past `PointCloud` so far: where a
  -- block ends a frame, the frame is the points that wait, as they came or laser by laser, and the
  -- callback's timestamp, which is read from its first point, is there and is the one of the point
  -- that came first, in the mode with a list for each laser of the first laser's points.
  pub process_block-timestamp :
      (s : Framer P R) (t : Cutter P R) (block : ℕ × List (ℕ × P))
      → 0 < lasers
      → Refines structured lasers s t
      → frame_ends has_callback start s block.0 ≡ true
      → (e : Emission P R) × (p : P) × ((process_block structured has_callback start correction
            (add_point structured)
            lasers
            s
            block).emitted
          ≡ s.emitted ++ (e ∷ []))
        × (e.points ≡ frame_of structured lasers t.waiting)
        × (oldest structured t.waiting ≡ some p)
        × (callback_timestamp timestamp e ≡ some (timestamp p))
  unfolding process_block callback_timestamp frame_ends
  process_block-timestamp s t block pos h ends =
      let out = (emit_back_message structured lasers s.clouds).0 in
      let e : Emission P R = record {
        points = out;
        packets = s.scan ++ (correction lasers ∷ []);
      } in
      let points = emit-frame_of structured lasers s.clouds t.waiting h.clouds in
      let (p, is_oldest) = fills-oldest structured t.waiting (
        sym (Holds-fills structured s.clouds t.waiting h.clouds)
        ∙ and_last (crosses start s.last_azimuth block.0) has_callback ends) in
      (
        e,
        p,
        simp (ends) (refl),
        points,
        is_oldest,
        ap (λ (o : Option P). elim o [ none ↦ none | some q ↦ some (timestamp q) ])
            (ap first points ∙ frame_of-first structured lasers t.waiting p pos is_oldest),
      )
