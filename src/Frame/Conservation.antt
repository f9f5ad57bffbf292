-- ===== src/Frame/Conservation.antt =====
-- The points and packets that go in and those in the frames.
use go2_setup.Shared.{
  ℕ, zero, suc, ◌+◌, ◌≤◌, ◌≡◌, ◌∙◌, refl, sym, ap, Bool, false, List, [], ◌∷◌, ◌++◌, arith,
  append_assoc, append-nil, update, Bool-cases, inl, inr,
}
use go2_setup.Frame.{
  Clouds, Emission, Framer, add_point, add_points, first_of, frame_ends, emit_back_message,
  process_block, process_blocks, process_packet,
}

module _ {P : Type 0} where
  -- The points without their lasers.
  abbrev pub bare : List (ℕ × P) → List P
  bare [] = []
  bare ((r, p) ∷ ps) = p ∷ bare ps

  abbrev pub blocks_points : List (ℕ × List (ℕ × P)) → List P
  blocks_points [] = []
  blocks_points ((a, ps) ∷ bs) = bare ps ++ blocks_points bs

  -- The points of the frame under way.
  abbrev pub pending : Clouds P → List P
  pending c = first_of c.cloud c.index

  first_of-update : (f : ℕ → P) (i n : ℕ) (x : P) → n ≤ i → first_of (update f i x) n ≡ first_of f n
  first_of-update f i zero x h = refl
  first_of-update f i (suc n) x h = ground (arith, first_of-update f i n x)

  add_point-pending :
      (c : Clouds P) (p : ℕ × P) → pending (add_point false c p) ≡ pending c ++ (p.1 ∷ [])
  unfolding add_point
  add_point-pending c (r, x) =
      let z : c.index + 1 ≡ suc c.index = omega arith in
      rw z (ground (arith, first_of-update c.cloud c.index c.index x))

  -- The points of a block go behind those of the frame under way, in their order.
  pub add_points-pending :
      (c : Clouds P) (ps : List (ℕ × P))
      → pending (add_points (add_point false) c ps) ≡ pending c ++ bare ps
  unfolding add_points
  add_points-pending c [] = sym (append-nil (pending c))
  add_points-pending c ((r, x) ∷ ps) =
      add_points-pending (add_point false c (r, x)) ps
      ∙ rw (add_point-pending c (r, x)) (append_assoc (pending c) (x ∷ []) (bare ps))

module _ {P R : Type 0} where
  abbrev pub frames_points : List (Emission P R) → List P
  frames_points [] = []
  frames_points (e ∷ es) = e.points ++ frames_points es

  frames_points-append :
      (es fs : List (Emission P R))
      → frames_points (es ++ fs) ≡ frames_points es ++ frames_points fs
  frames_points-append [] fs = refl
  frames_points-append (e ∷ es) fs =
      rw (frames_points-append es fs)
        (sym (append_assoc e.points (frames_points es) (frames_points fs)))

  -- Everything that the thread has been given so far: the frames and what is pending.
  abbrev pub seen : Framer P R → List P
  seen s = frames_points s.emitted ++ pending s.clouds

module _ {P R : Type 0} (has_callback : Bool) (start : ℕ) (correction : ℕ → R) where
  process_block-seen :
      (lasers : ℕ) (s : Framer P R) (b : ℕ × List (ℕ × P))
      → seen (process_block false has_callback start correction (add_point false) lasers s b)
        ≡ seen s ++ bare b.1
  unfolding process_block emit_back_message
  process_block-seen lasers s (a, ps) = elim (Bool-cases (frame_ends has_callback start s a)) [
    | inr open' ↦
        rw (open', add_points-pending s.clouds ps)
          (sym (append_assoc (frames_points s.emitted) (pending s.clouds) (bare ps)))
    | inl ends ↦
        rw (ends, add_points-pending, frames_points-append) (simp (append_assoc, append-nil))
  ]

  -- In the mode without a list for each laser, with the formats other than QT, the points of the
  -- frames and those still pending are after any blocks those before them and then the blocks'
  -- points, each once and in order.
  pub process_blocks-seen :
      (lasers : ℕ) (s : Framer P R) (bs : List (ℕ × List (ℕ × P)))
      → seen (process_blocks false has_callback start correction (add_point false) lasers s bs)
        ≡ seen s ++ blocks_points bs
  unfolding process_blocks
  process_blocks-seen lasers s [] = sym (append-nil (seen s))
  process_blocks-seen lasers s ((a, ps) ∷ bs) =
      process_blocks-seen lasers
        (process_block false has_callback start correction (add_point false) lasers s (a, ps)) bs
      ∙ rw (process_block-seen lasers s (a, ps))
          (append_assoc (seen s) (bare ps) (blocks_points bs))

module _ {R : Type 0} where
  -- The raw packets of a scan, without the correction packet that ends it.
  abbrev pub but_last : List R → List R
  but_last [] = []
  but_last (x ∷ []) = []
  but_last (x ∷ y ∷ xs) = x ∷ but_last (y ∷ xs)

  but_last-append : (xs : List R) (x : R) → but_last (xs ++ (x ∷ [])) ≡ xs
  but_last-append [] x = refl
  but_last-append (y ∷ []) x = refl
  but_last-append (y ∷ z ∷ xs) x = ap (◌∷◌ y) (but_last-append (z ∷ xs) x)

module _ {P R : Type 0} where
  abbrev pub frames_packets : List (Emission P R) → List R
  frames_packets [] = []
  frames_packets (e ∷ es) = but_last e.packets ++ frames_packets es

  frames_packets-append :
      (es fs : List (Emission P R))
      → frames_packets (es ++ fs) ≡ frames_packets es ++ frames_packets fs
  frames_packets-append [] fs = refl
  frames_packets-append (e ∷ es) fs =
      rw (frames_packets-append es fs)
        (sym (append_assoc (but_last e.packets) (frames_packets es) (frames_packets fs)))

  -- The raw packets of the frames and of the scan under way.
  abbrev pub recorded : Framer P R → List R
  recorded s = frames_packets s.emitted ++ s.scan

module _ {P R : Type 0} (structured has_callback : Bool) (start : ℕ) (correction : ℕ → R)
    (add : Clouds P → ℕ × P → Clouds P) (lasers : ℕ) where
  process_block-recorded :
      (s : Framer P R) (b : ℕ × List (ℕ × P))
      → recorded (process_block structured has_callback start correction add lasers s b)
        ≡ recorded s
  unfolding process_block
  process_block-recorded s (a, ps) = elim (Bool-cases (frame_ends has_callback start s a)) [
    | inr open' ↦ rw open'
    | inl ends ↦
        rw (ends, frames_packets-append, but_last-append s.scan (correction lasers))
          (simp append-nil)
  ]

  process_blocks-recorded :
      (s : Framer P R) (bs : List (ℕ × List (ℕ × P)))
      → recorded (process_blocks structured has_callback start correction add lasers s bs)
        ≡ recorded s
  unfolding process_blocks
  process_blocks-recorded s [] = refl
  process_blocks-recorded s (b ∷ bs) =
      process_blocks-recorded
        (process_block structured has_callback start correction add lasers s b) bs
      ∙ process_block-recorded s b

  -- In either mode and for every format, the raw packets of all frames, without the correction
  -- packet that ends each, and of the scan under way are after a packet those before it, in order,
  -- with this packet behind them.
  pub process_packet-recorded :
      (s : Framer P R) (raw : R) (bs : List (ℕ × List (ℕ × P)))
      → recorded (process_packet structured has_callback start correction add lasers s raw bs)
        ≡ recorded s ++ (raw ∷ [])
  unfolding process_packet
  process_packet-recorded s raw bs =
      process_blocks-recorded (record s { scan = s.scan ++ (raw ∷ []) }) bs
      ∙ sym (append_assoc (frames_packets s.emitted) s.scan (raw ∷ []))
