-- ===== src/Driver/Cuts/Refine.antt =====
-- A packet that the thread processes against the cutter.
use go2_setup.Shared.{
  ℕ, zero, suc, drop, ◌+◌, ◌<◌, ◌≤◌, ◌≡◌, refl, sym, ap, ◌∙◌, Bool, false, List, [], ◌∷◌, ◌++◌,
  arith, inl, inr, map, length, length-map, All, Bool-cases, get_or,
}
use mathlib.Core.Path.{subst}
use go2_setup.Wire.{ok, LidarUnit, Packet, Block, char_rounds}
use go2_setup.Wire.Firings.{Firing, Return, FiresAll, unit_of}
use go2_setup.Wire.Firings as Firings
use go2_setup.Wire.RoundTrip.{packet_in, parse_packet-Holds, char_rounds_small}
use go2_setup.Frame.{unless_overrun, Clouds, Framer, add_point, process_packet}
use go2_setup.Wire.Pandar40.RoundTrip as Pandar40
use go2_setup.Points.Calc.{as_unit}
use go2_setup.Wire.Pandar40.{laser_count}
use go2_setup.Wire.Pandar40.RoundTrip.{Shot, ShotFits, write_shots, block_of, packet_with}
use go2_setup.Frame.Cutter.{Cutter, LasersBelow}
use go2_setup.Frame.Cutter.Refine.{Refines, process_blocks-Refines}
use go2_setup.Points.{Floats, Point, Tables, calc_units, in_range}
use go2_setup.Points.Calc.{
  calc_point_xyzit, calc_l64_point_xyzit, calc_l20_point_xyzit, calc_qt_point_xyzit,
  calc_xt_point_xyzit,
}
use go2_setup.Driver.{
  l64_block_number, overreads, Headed, pandar64, pandar20, pandar_qt, pandar_xt, headed, UdpPacket,
  Device, indexed, stamped, calc_of, blocks_of, add_of, process_parsed, process_parsed40, blocks40,
  process_lidar_packet,
}
use go2_setup.Driver.Routing.{layout_of, route-Accepts}
use go2_setup.Driver.Stream.{
  layout_of-HeaderFits, add_of-plain, process_lidar_packet-headed, process_lidar_packet-pandar40,
  process_lidar_packet-ignored,
}
use go2_setup.Driver.Cuts.{
  Content, of_firings, of_shots, ignored, Delivered, is_qt, IsPlain, HasOffsets, IsContent, IsSound,
  cut_with, cut_content, RoomWith, RoomContent, cut_packet,
}

calc_units-below :
    (F : Floats) (make : ℕ → LidarUnit → Point F) (ring n : ℕ) (us : List LidarUnit)
    → ring + length us ≤ n
    → LasersBelow n (calc_units F make ring us)
unfolding calc_units
calc_units-below F make ring n [] h = tt
calc_units-below F make ring n (u ∷ us) h = elim (Bool-cases (in_range u.distance)) [
  | inl keep ↦ rw keep (omega arith, calc_units-below F make (ring + 1) n us (omega arith))
  | inr skip ↦ rw skip (calc_units-below F make (ring + 1) n us (omega arith))
]

module _ (F : Floats) (d : Device F) where
  calc_of-below :
      (f : Headed) (t : Tables F) (pkt : Packet) (i n : ℕ) (b : Block)
      → length b.units ≤ n
      → LasersBelow n (calc_of F d f t pkt i b)
  unfolding calc_l64_point_xyzit calc_l20_point_xyzit calc_qt_point_xyzit calc_xt_point_xyzit
  calc_of-below pandar64 t pkt i n b h = calc_units-below F _ 0 n b.units (omega arith)
  calc_of-below pandar20 t pkt i n b h = calc_units-below F _ 0 n b.units (omega arith)
  calc_of-below pandar_qt t pkt i n b h = calc_units-below F _ 0 n b.units (omega arith)
  calc_of-below pandar_xt t pkt i n b h = calc_units-below F _ 0 n b.units (omega arith)

  -- Blocks that come of a list, with points of lasers below `n`.
  indexed-below :
      {A B : Type 0} (n i : ℕ) (block : A → B) (azimuth : B → ℕ) (calc : ℕ → B → List (ℕ × Point F))
      (P : A → Type 0)
      → ((a : A) (i : ℕ) → P a → LasersBelow n (calc i (block a)))
      → (xs : List A) → All P xs
      → All
          (λ (b : ℕ × List (ℕ × Point F)). LasersBelow n b.1)
          (indexed (λ i b. (azimuth b, calc i b)) i (map block xs))
  indexed-below n i block azimuth calc P below [] h = tt
  indexed-below n i block azimuth calc P below (x ∷ xs) h =
      (below x i h.0, indexed-below n (i + 1) block azimuth calc P below xs h.1)

module _ (F : Floats) (d : Device F) {R : Type 0} (correction : ℕ → R) (raw : UdpPacket F → R)
    (lasers : ℕ) where
  add_of-other : (g : Headed) → is_qt g ≡ false → add_of F d g ≡ add_point d.structured
  add_of-other pandar_qt h = cc
  add_of-other pandar64 h = refl
  add_of-other pandar20 h = refl
  add_of-other pandar_xt h = refl

  add_of-IsPlain :
      (f : Headed) → IsPlain F d correction raw lasers f → add_of F d f ≡ add_point d.structured
  add_of-IsPlain f (inl h) =
      add_of-plain F d correction raw f h ∙ ap (λ (b : Bool). add_point b) (sym h)
  add_of-IsPlain f (inr h) = add_of-other f h

  blocks_of-below :
      (f : Headed) (t : Tables F) (buf : List ℕ) (fs : List Firing) (tail : List ℕ)
      → FiresAll (layout_of f) lasers fs
      → All
          (λ (b : ℕ × List (ℕ × Point F)). LasersBelow lasers b.1)
          (blocks_of F d f t (packet_in (layout_of f) buf fs tail))
  unfolding blocks_of
  blocks_of-below f t buf fs tail h =
      let pkt = packet_in (layout_of f) buf fs tail in
      indexed-below F d lasers 0
        (Firings.block_of (layout_of f) (get_or buf ((layout_of f).laser_at + 3) 0))
        (λ b. b.azimuth) (calc_of F d f t pkt)
        (λ g.
          (g.azimuth < 65536) × (length g.returns ≡ lasers) × All (λ r. r.range < 65536) g.returns)
        (λ g i fires. calc_of-below F d f t pkt i lasers _ (
          omega (
            arith,
            fires.1,
            length-map (unit_of (layout_of f) (get_or buf ((layout_of f).laser_at + 3) 0))
                g.returns,
          )))
        fs h

  blocks40-below :
      (t : Tables F) (ss : List Shot) (tail : List ℕ)
      → All ShotFits ss
      → All
          (λ (b : ℕ × List (ℕ × Point F)). LasersBelow laser_count b.1)
          (blocks40 F d t (packet_with (map block_of ss) tail))
  unfolding blocks40 calc_point_xyzit
  blocks40-below t ss tail h =
      let pkt = packet_with (map block_of ss) tail in
      indexed-below F d laser_count 0 block_of (λ b. b.azimuth) (calc_point_xyzit F t pkt) ShotFits
        (λ s i fits. calc_units-below F _ 0 laser_count _ (
          omega (
            arith,
            fits.2,
            length-map (as_unit F t) (block_of s).units,
            length-map Pandar40.unit_of s.echoes,
          )))
        ss h

  module _ (pos : 0 < lasers) where
    process_packet-Refines :
        (s : Framer (Point F) R) (t : Cutter (Point F) R) (p : UdpPacket F)
        (blocks : List (ℕ × List (ℕ × Point F)))
        (add : Clouds (Point F) → ℕ × Point F → Clouds (Point F)) (n : ℕ)
        → add ≡ add_point d.structured
        → n ≡ lasers
        → All (λ (b : ℕ × List (ℕ × Point F)). LasersBelow lasers b.1) blocks
        → Refines d.structured lasers s t
        → RoomWith F d correction raw lasers t p blocks
        → Refines d.structured lasers
            (process_packet d.structured d.has_callback d.start_angle correction add n s
              (raw p)
              blocks)
            (cut_with F d correction raw lasers t p blocks)
    unfolding process_packet
    process_packet-Refines s t p blocks add n ea en below h room =
        subst
          (λ (a : Clouds (Point F) → ℕ × Point F → Clouds (Point F)).
            Refines d.structured lasers
              (process_packet d.structured d.has_callback d.start_angle correction a n s (raw p)
                blocks)
              (cut_with F d correction raw lasers t p blocks))
          (sym ea)
          (subst
            (λ (k : ℕ).
              Refines d.structured lasers
                (process_packet d.structured d.has_callback d.start_angle correction
                  (add_point d.structured) k s (raw p) blocks)
                (cut_with F d correction raw lasers t p blocks))
            (sym en)
            (process_blocks-Refines d.structured d.has_callback d.start_angle correction lasers pos
              (record s { scan = s.scan ++ (raw p ∷ []) })
              (record t { scan = t.scan ++ (raw p ∷ []) }) blocks below
              (record {
                azimuth = h.azimuth;
                clouds = h.clouds;
                below = h.below;
                scan = ap (λ (r : List R). r ++ (raw p ∷ [])) h.scan;
                emitted = h.emitted;
                in_bounds = h.in_bounds;
              })
              room))

    -- The blocks of a packet that has been parsed, with the test on the writes.
    outcome-Refines :
        (s : Framer (Point F) R) (t : Cutter (Point F) R)
        → Refines d.structured lasers s t
        → unless_overrun s ≡ ok s
    outcome-Refines s t h = rw (h.in_bounds) refl

    drop-short : {A : Type 0} (n : ℕ) (xs : List A) → length xs ≤ n → drop n xs ≡ []
    drop-short zero [] h = refl
    drop-short zero (x ∷ xs) h = absurd (omega arith)
    drop-short (suc n) [] h = refl
    drop-short (suc n) (x ∷ xs) h = drop-short n xs (omega arith)

    length-indexed :
        {A B : Type 0} (f : ℕ → A → B) (i : ℕ) (xs : List A) → length (indexed f i xs) ≡ length xs
    length-indexed f i [] = refl
    length-indexed f i (x ∷ xs) = ap suc (length-indexed f (i + 1) xs)

    overreads-HasOffsets :
        (f : Headed) (blocks : List (ℕ × List (ℕ × Point F)))
        → HasOffsets F d correction raw lasers f (length blocks)
        → overreads F d f blocks ≡ false
    overreads-HasOffsets pandar64 blocks h =
        rw (drop-short l64_block_number blocks h) (ground arith)
    overreads-HasOffsets pandar20 blocks h = refl
    overreads-HasOffsets pandar_qt blocks h = refl
    overreads-HasOffsets pandar_xt blocks h = refl

    length-blocks_of :
        (f : Headed) (t : Tables F) (buf : List ℕ) (fs : List Firing) (tail : List ℕ)
        → length (blocks_of F d f t (packet_in (layout_of f) buf fs tail)) ≡ length fs
    unfolding blocks_of
    length-blocks_of f t buf fs tail =
        length-indexed _ 0 (packet_in (layout_of f) buf fs tail).blocks
        ∙ length-map (Firings.block_of (layout_of f) (get_or buf ((layout_of f).laser_at + 3) 0)) fs

    process_content-Refines :
        (s : Framer (Point F) R) (t : Cutter (Point F) R) (p : UdpPacket F) (c : Content)
        → IsContent F d correction raw lasers p c
        → RoomContent F d correction raw lasers t p c
        → Refines d.structured lasers s t
        → (s' : Framer (Point F) R) × (process_lidar_packet F d correction raw s p ≡ ok s')
          × Refines d.structured lasers s' (cut_content F d correction raw lasers t p c)
    unfolding process_parsed process_parsed40
    process_content-Refines s t p (of_firings f fs tail) (routed, holds, plain, offsets) room h =
        let blocks =
          blocks_of F d f (stamped F d p) (packet_in (layout_of f) p.data_bytes fs tail) in
        let refined =
          process_packet-Refines s t p blocks (add_of F d f)
            (char_rounds d.signed_char (get_or p.data_bytes (layout_of f).laser_at 0))
            (add_of-IsPlain f plain)
            (ap (char_rounds d.signed_char) holds.lasers_in
              ∙ char_rounds_small d.signed_char lasers holds.few_lasers)
            (blocks_of-below f _ p.data_bytes fs tail holds.fires) h room in
        let few =
          subst (HasOffsets F d correction raw lasers f)
            (sym (length-blocks_of f (stamped F d p) p.data_bytes fs tail)) offsets in
        (
          _,
          process_lidar_packet-headed F d correction raw s p f _ routed (
                parse_packet-Holds (layout_of f) d.signed_char p.data_bytes p.size lasers fs tail
                  (layout_of-HeaderFits f) (route-Accepts d.lidar_type p.size (headed f) routed)
                  holds)
              ∙ rw (overreads-HasOffsets f blocks few) (outcome-Refines _ _ refined),
          refined,
        )
    process_content-Refines s t p (of_shots ss tail) (routed, bytes, count, fits, long, forty) room
          h =
        let blocks = blocks40 F d (stamped F d p) (packet_with (map block_of ss) tail) in
        let refined =
          process_packet-Refines s t p blocks (add_point d.structured) laser_count refl (sym forty)
            (subst (λ (n : ℕ). All (λ (b : ℕ × List (ℕ × Point F)). LasersBelow n b.1) blocks)
              (sym forty) (blocks40-below _ ss tail fits))
            h room in
        (
          _,
          process_lidar_packet-pandar40 F d correction raw s p ss tail routed bytes count fits long
              ∙ outcome-Refines _ _ refined,
          refined,
        )
    process_content-Refines s t p ignored none_read room h =
        (s, process_lidar_packet-ignored F d correction raw s p none_read, h)

    -- One packet, from its bytes on.
    pub process_lidar_packet-Refines :
        (s : Framer (Point F) R) (t : Cutter (Point F) R) (x : Delivered F)
        → IsSound F d correction raw lasers x
        → RoomContent F d correction raw lasers t x.packet x.content
        → Refines d.structured lasers s t
        → (s' : Framer (Point F) R) × (process_lidar_packet F d correction raw s x.packet ≡ ok s')
          × Refines d.structured lasers s' (cut_packet F d correction raw lasers t x)
    process_lidar_packet-Refines s t x = process_content-Refines s t x.packet x.content
