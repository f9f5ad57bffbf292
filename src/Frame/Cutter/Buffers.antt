-- ===== src/Frame/Cutter/Buffers.antt =====
-- The point buffers against one list of points.
use go2_setup.Shared.{
  ℕ, zero, suc, ◌<◌, ◌≤◌, ◌≡◌, ◌∙◌, refl, sym, ap, Bool, true, false, not, ◌||◌, List, [], ◌∷◌,
  ◌++◌, arith, append_assoc, append-nil, ltb, ◌==◌, if◌then◌else◌, Bool-cases, inl, inr, lt→ltb,
  ◌+◌, leb, length, length-append,
}
use go2_setup.Frame.{
  max_point_cloud_num, Clouds, add_point, add_points, first_of, joined, cleared, is_empty,
  emit_back_message,
}
use go2_setup.Frame.Conservation.{bare, add_points-pending}
use go2_setup.Frame.Cutter.{HasRoom, of_laser, by_laser, frame_of, fills, LasersBelow, Holds}

module _ {P : Type 0} where
  of_laser-append :
      (r : ℕ) (ps qs : List (ℕ × P)) → of_laser r (ps ++ qs) ≡ of_laser r ps ++ of_laser r qs
  of_laser-append r [] qs = refl
  of_laser-append r ((l, p) ∷ ps) qs = ground (arith, of_laser-append r ps qs)

  bare-append : (ps qs : List (ℕ × P)) → bare (ps ++ qs) ≡ bare ps ++ bare qs
  bare-append [] qs = refl
  bare-append ((l, p) ∷ ps) qs = ap (◌∷◌ p) (bare-append ps qs)

  pub LasersBelow-append :
      (n : ℕ) (ps qs : List (ℕ × P))
      → LasersBelow n ps
      → LasersBelow n qs
      → LasersBelow n (ps ++ qs)
  LasersBelow-append n [] qs h k = k
  LasersBelow-append n (p ∷ ps) qs h k = (h.0, LasersBelow-append n ps qs h.1 k)

  add_point-lists :
      (c : Clouds P) (l r : ℕ) (p : P) (rest : List P)
      → (add_point true c (l, p)).lists r ++ rest ≡ c.lists r ++ (if l == r then p ∷ rest else rest)
  unfolding add_point
  add_point-lists c l r p rest = ground (arith, append_assoc (c.lists r) (p ∷ []) rest)

  pub add_points-lists :
      (c : Clouds P) (ps : List (ℕ × P)) (r : ℕ)
      → (add_points (add_point true) c ps).lists r ≡ c.lists r ++ of_laser r ps
  unfolding add_points
  add_points-lists c [] r = sym (append-nil (c.lists r))
  add_points-lists c ((l, p) ∷ ps) r =
      add_points-lists (add_point true c (l, p)) ps r ∙ add_point-lists c l r p (of_laser r ps)

  pub add_points-index :
      (c : Clouds P) (ps : List (ℕ × P)) → (add_points (add_point true) c ps).index ≡ c.index
  unfolding add_points add_point
  add_points-index c [] = refl
  add_points-index c (p ∷ ps) = add_points-index (add_point true c p) ps

  add_points-out_msg :
      (structured : Bool) (c : Clouds P) (ps : List (ℕ × P))
      → (add_points (add_point structured) c ps).out_msg ≡ c.out_msg
  unfolding add_points add_point
  add_points-out_msg structured c [] = refl
  add_points-out_msg true c (p ∷ ps) = add_points-out_msg true (add_point true c p) ps
  add_points-out_msg false c (p ∷ ps) = add_points-out_msg false (add_point false c p) ps

  add_points-no_lists :
      (c : Clouds P) (ps : List (ℕ × P)) (r : ℕ)
      → (add_points (add_point false) c ps).lists r ≡ c.lists r
  unfolding add_points add_point
  add_points-no_lists c [] r = refl
  add_points-no_lists c (p ∷ ps) r = add_points-no_lists (add_point false c p) ps r

  pub add_points-Holds :
      (structured : Bool) (c : Clouds P) (ws ps : List (ℕ × P))
      → Holds structured c ws
      → Holds structured (add_points (add_point structured) c ps) (ws ++ ps)
  add_points-Holds true c ws ps h = (
    add_points-index c ps ∙ h.0,
    add_points-out_msg true c ps ∙ h.1,
    λ r. add_points-lists c ps r ∙ rw (h.2 r) (sym (of_laser-append r ws ps)),
  )
  add_points-Holds false c ws ps h = (
    add_points-pending c ps ∙ rw (h.0) (sym (bare-append ws ps)),
    λ r. add_points-no_lists c ps r ∙ h.1 r,
  )

  joined-by_laser :
      (f : ℕ → List P) (ws : List (ℕ × P)) (n : ℕ)
      → ((r : ℕ) → f r ≡ of_laser r ws)
      → joined f n ≡ by_laser n ws
  joined-by_laser f ws zero h = refl
  joined-by_laser f ws (suc n) h = rw (joined-by_laser f ws n h, h n)

  of_laser-beyond : (n r : ℕ) (ws : List (ℕ × P)) → LasersBelow n ws → n ≤ r → of_laser r ws ≡ []
  of_laser-beyond n r [] h k = refl
  of_laser-beyond n r ((l, p) ∷ ws) h k = ground (arith, h.0, of_laser-beyond n r ws h.1 k)

  cleared-nil : (f : ℕ → List P) (n r : ℕ) → (n ≤ r → f r ≡ []) → cleared f n r ≡ []
  cleared-nil f n r h = elim (Bool-cases (ltb r n)) [
    | inl below ↦ rw below
    | inr above ↦ rw above (h (ground arith))
  ]

  pub emit-frame_of :
      (structured : Bool) (lasers : ℕ) (c : Clouds P) (ws : List (ℕ × P))
      → Holds structured c ws
      → (emit_back_message structured lasers c).0 ≡ frame_of structured lasers ws
  unfolding emit_back_message
  emit-frame_of true lasers c ws h = rw (h.1) (joined-by_laser c.lists ws lasers h.2)
  emit-frame_of false lasers c ws h = h.0

  pub emit-Holds :
      (structured : Bool) (lasers : ℕ) (c : Clouds P) (ws : List (ℕ × P))
      → 0 < lasers
      → LasersBelow lasers ws
      → Holds structured c ws
      → Holds structured (emit_back_message structured lasers c).1 []
  unfolding emit_back_message
  emit-Holds true lasers c ws pos below h = (
    h.0,
    rw (lt→ltb 0 lasers pos),
    λ r. cleared-nil c.lists lasers r (λ k. h.2 r ∙ of_laser-beyond lasers r ws below k),
  )
  emit-Holds false lasers c ws pos below h = (refl, h.1)

  is_empty-bare : (ws : List (ℕ × P)) → is_empty (bare ws) ≡ is_empty ws
  is_empty-bare [] = refl
  is_empty-bare (w ∷ ws) = refl

  is_empty-append : (xs : List P) (x : P) → is_empty (xs ++ (x ∷ [])) ≡ false
  is_empty-append [] x = refl
  is_empty-append (y ∷ xs) x = refl

  is_empty-first_of : (f : ℕ → P) (n : ℕ) → not (is_empty (first_of f n)) ≡ ltb 0 n
  is_empty-first_of f zero = refl
  is_empty-first_of f (suc n) = ground (arith, is_empty-append (first_of f n) (f n))

  pub Holds-fills :
      (structured : Bool) (c : Clouds P) (ws : List (ℕ × P))
      → Holds structured c ws
      → (ltb 0 c.index || not (is_empty (c.lists 0))) ≡ fills structured ws
  Holds-fills true c ws h = rw (h.0, h.2 0)
  Holds-fills false c ws h =
      ground (arith, h.0, h.1 0, is_empty-first_of c.cloud c.index, is_empty-bare ws)

  length-first_of : (f : ℕ → P) (n : ℕ) → length (first_of f n) ≡ n
  length-first_of f zero = refl
  length-first_of f (suc n) =
      omega (arith, length-append (first_of f n) (f n ∷ []), length-first_of f n)

  length-bare : (ws : List (ℕ × P)) → length (bare ws) ≡ length ws
  length-bare [] = refl
  length-bare ((l, p) ∷ ws) = ap suc (length-bare ws)

  add_points-lists_overrun :
      (c : Clouds P) (ps : List (ℕ × P)) → (add_points (add_point true) c ps).overrun ≡ c.overrun
  unfolding add_points add_point
  add_points-lists_overrun c [] = refl
  add_points-lists_overrun c (p ∷ ps) = add_points-lists_overrun (add_point true c p) ps

  pub add_points-stays_overrun :
      (c : Clouds P) (ps : List (ℕ × P))
      → c.overrun ≡ true
      → (add_points (add_point false) c ps).overrun ≡ true
  unfolding add_points add_point
  add_points-stays_overrun c [] h = h
  add_points-stays_overrun c (p ∷ ps) h =
      add_points-stays_overrun (add_point false c p) ps (rw h refl)

  -- More points than there is room for raise the flag, and only those.
  pub add_points-too_many :
      (c : Clouds P) (ps : List (ℕ × P))
      → c.index ≤ max_point_cloud_num
      → max_point_cloud_num < c.index + length ps
      → (add_points (add_point false) c ps).overrun ≡ true
  unfolding add_points add_point
  add_points-too_many c [] h k = absurd (omega arith)
  add_points-too_many c (p ∷ ps) h k = elim (Bool-cases (leb max_point_cloud_num c.index)) [
    | inl full ↦ add_points-stays_overrun (add_point false c p) ps (ground (arith, full))
    | inr room ↦ add_points-too_many (add_point false c p) ps (ground arith) (omega arith)
  ]

  add_points-fit :
      (c : Clouds P) (ps : List (ℕ × P))
      → c.index + length ps ≤ max_point_cloud_num
      → c.overrun ≡ false
      → (add_points (add_point false) c ps).overrun ≡ false
  unfolding add_points add_point
  add_points-fit c [] h e = e
  add_points-fit c (p ∷ ps) h e =
      add_points-fit (add_point false c p) ps (omega arith) (ground arith)

  pub emit-overrun :
      (structured : Bool) (lasers : ℕ) (c : Clouds P)
      → (emit_back_message structured lasers c).1.overrun ≡ c.overrun
  unfolding emit_back_message
  emit-overrun true lasers c = refl
  emit-overrun false lasers c = refl

  -- Points that fit keep the flag down.
  pub add_points-room :
      (structured : Bool) (c : Clouds P) (ws ps : List (ℕ × P))
      → Holds structured c ws
      → HasRoom structured (ws ++ ps)
      → c.overrun ≡ false
      → (add_points (add_point structured) c ps).overrun ≡ false
  add_points-room true c ws ps h room e = add_points-lists_overrun c ps ∙ e
  add_points-room false c ws ps h room e =
      add_points-fit c ps
        (omega (
          arith,
          room,
          length-append ws ps,
          length-first_of c.cloud c.index,
          length-bare ws,
          ap length h.0,
        ))
        e
