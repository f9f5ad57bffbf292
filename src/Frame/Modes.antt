-- ===== src/Frame/Modes.antt =====
-- Whether a frame that is emitted holds a point, so that the callback's `points[0]` is there.
use go2_setup.Shared.{
  ℕ, zero, suc, if◌then◌else◌, ◌≤◌, ◌<◌, ◌≡◌, refl, Bool, true, false, not, ◌||◌, List, [], ◌∷◌,
  ◌++◌, arith, ltb, All, Bool-cases, inl, inr, length, length-append,
}
use mathlib.Core.Path.{subst}
use go2_setup.Wire.{ok, fault}
use go2_setup.Frame.{
  unless_overrun, Clouds, Emission, Framer, add_point, add_points, first_of, joined, frame_ends,
  emit_back_message, is_empty, process_block, process_blocks,
}

module _ {P : Type 0} where
  -- Only the buffer of the mode is in use.
  abbrev pub UsesMode : Bool → Clouds P → Type 0
  UsesMode true c = c.index ≡ 0
  UsesMode false c = (r : ℕ) → c.lists r ≡ []

  add_point-UsesMode :
      (structured : Bool) (c : Clouds P) (p : ℕ × P)
      → UsesMode structured c
      → UsesMode structured (add_point structured c p)
  unfolding add_point
  add_point-UsesMode true c p h = h
  add_point-UsesMode false c p h = h

  add_points-UsesMode :
      (structured : Bool) (c : Clouds P) (ps : List (ℕ × P))
      → UsesMode structured c
      → UsesMode structured (add_points (add_point structured) c ps)
  unfolding add_points
  add_points-UsesMode structured c [] h = h
  add_points-UsesMode structured c (p ∷ ps) h =
      add_points-UsesMode structured (add_point structured c p) ps
        (add_point-UsesMode structured c p h)

  emit-UsesMode :
      (structured : Bool) (lasers : ℕ) (c : Clouds P)
      → UsesMode structured c
      → UsesMode structured (emit_back_message structured lasers c).1
  unfolding emit_back_message
  emit-UsesMode true lasers c h = h
  emit-UsesMode false lasers c h = h

  length-joined : (f : ℕ → List P) (n r : ℕ) → r < n → length (f r) ≤ length (joined f n)
  length-joined f zero r h = absurd (omega arith)
  length-joined f (suc n) r h =
      ground (arith, length-joined f n r, length-append (joined f n) (f n))

  length-first_of : (f : ℕ → P) (n : ℕ) → length (first_of f n) ≡ n
  length-first_of f zero = refl
  length-first_of f (suc n) =
      omega (arith, length-append (first_of f n) (f n ∷ []), length-first_of f n)

  nonempty : (xs : List P) → is_empty xs ≡ false → 0 < length xs
  nonempty [] h = cc
  nonempty (x ∷ xs) h = omega arith

  -- A frame that ends has a point in it.
  emit-nonempty :
      (structured : Bool) (lasers : ℕ) (c : Clouds P)
      → UsesMode structured c
      → 0 < lasers
      → (ltb 0 c.index || not (is_empty (c.lists 0))) ≡ true
      → 0 < length (emit_back_message structured lasers c).0
  unfolding emit_back_message
  emit-nonempty true lasers c h hl e = ground (
    arith,
    length-append c.out_msg (joined c.lists lasers),
    length-joined c.lists lasers 0,
    nonempty (c.lists 0),
  )
  emit-nonempty false lasers c h hl e = ground (arith, length-first_of c.cloud c.index, h 0)

module _ {P R : Type 0} where
  abbrev pub HoldsPoints : Emission P R → Type 0
  HoldsPoints e = 0 < length e.points

module _ {P R : Type 0} (structured has_callback : Bool) (start : ℕ) (correction : ℕ → R) where
  process_block-UsesMode :
      (lasers : ℕ) (s : Framer P R) (b : ℕ × List (ℕ × P))
      → UsesMode structured s.clouds
      → UsesMode structured
          (process_block structured has_callback start correction
            (add_point structured)
            lasers
            s
            b).clouds
  unfolding process_block
  process_block-UsesMode lasers s (a, ps) h =
      elim (Bool-cases (frame_ends has_callback start s a)) [
        | inr open' ↦ rw open' (add_points-UsesMode structured s.clouds ps h)
        | inl ends ↦
            rw ends
              (add_points-UsesMode structured _ ps (emit-UsesMode structured lasers s.clouds h))
      ]

  All-append :
      (es : List (Emission P R)) (e : Emission P R)
      → All HoldsPoints es
      → HoldsPoints e
      → All HoldsPoints (es ++ (e ∷ []))
  All-append [] e h k = (k, tt)
  All-append (x ∷ es) e h k = (h.0, All-append es e h.1 k)

  ends-has_points :
      (s : Framer P R) (a : ℕ)
      → frame_ends has_callback start s a ≡ true
      → (ltb 0 s.clouds.index || not (is_empty (s.clouds.lists 0))) ≡ true
  unfolding frame_ends
  ends-has_points s a h = ground arith

  process_blocks-UsesMode :
      (lasers : ℕ) (s : Framer P R) (bs : List (ℕ × List (ℕ × P)))
      → 0 < lasers
      → UsesMode structured s.clouds
      → All HoldsPoints s.emitted
      → let s' =
          process_blocks structured has_callback start correction
            (add_point structured)
            lasers
            s
            bs in
        All HoldsPoints s'.emitted × UsesMode structured s'.clouds
  unfolding process_blocks
  process_blocks-UsesMode lasers s [] hl u h = (h, u)
  process_blocks-UsesMode lasers s ((a, ps) ∷ bs) hl u h =
      process_blocks-UsesMode lasers
        (process_block structured has_callback start correction (add_point structured) lasers s
          (a, ps))
        bs hl (process_block-UsesMode lasers s (a, ps) u)
        (elim (Bool-cases (frame_ends has_callback start s a)) [
          | inr open' ↦ unfold process_block in rw open' h
          | inl ends ↦
              unfold process_block in
              rw ends (
                All-append s.emitted _ h
                  (emit-nonempty structured lasers s.clouds u hl (ends-has_points s a ends)))
        ])

  if_ok : (b : Bool) (s s' : Framer P R) → (if b then fault else ok s) ≡ ok s' → s ≡ s'
  if_ok true s s' e = cc
  if_ok false s s' e = cc

  unless_overrun-ok : (s s' : Framer P R) → unless_overrun s ≡ ok s' → s ≡ s'
  unless_overrun-ok s s' = if_ok s.clouds.overrun s s'

  -- With the formats other than QT, in either mode, for at least one laser: if only that mode's
  -- buffer is in use and every frame so far holds a point, so it is after any blocks through which
  -- no write goes past `PointCloud`, and the callback's `points[0]` is there.
  pub process_blocks-HoldsPoints :
      (lasers : ℕ) (s s' : Framer P R) (bs : List (ℕ × List (ℕ × P)))
      → 0 < lasers
      → UsesMode structured s.clouds
      → All HoldsPoints s.emitted
      → unless_overrun (
          process_blocks structured has_callback start correction
            (add_point structured)
            lasers
            s
            bs)
        ≡ ok s'
      → All HoldsPoints s'.emitted × UsesMode structured s'.clouds
  process_blocks-HoldsPoints lasers s s' bs hl u h e =
      subst (λ (z : Framer P R). All HoldsPoints z.emitted × UsesMode structured z.clouds)
        (unless_overrun-ok _ s' e) (process_blocks-UsesMode lasers s bs hl u h)
