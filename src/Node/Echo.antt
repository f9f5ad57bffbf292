-- ===== src/Node/Echo.antt =====
-- What becomes of the scans that the node publishes.
use go2_setup.Shared.{
  ℕ, ◌≡◌, refl, ap, ◌∙◌, Bool, true, false, List, [], ◌∷◌, ◌++◌, Option, All, if◌then◌else◌,
  Bool-cases, inl, inr,
}
use go2_setup.PacketsBuffer.{PacketsBuffer}
use go2_setup.Wire.{ok, read, ◌>>=◌}
use go2_setup.Points.{Floats}
use go2_setup.Driver.{UdpPacket}
use go2_setup.Frame.{Clouds, Emission, Framer, frame_ends, process_block, emit_back_message}
use go2_setup.Correction.{Numerals, Locals, AngleTable, save_correction_file}
use go2_setup.Replay.{ScanPacket, Replay, is_correction, push_one}
use go2_setup.Replay.Saved.{saved_message}
use go2_setup.Replay.Frames.{IsRaw, push_each, push_scan_packet-IsRaw}
use go2_setup.Sdk.{Sdk}
use go2_setup.Node.{
  Mode, capture, bag, live, Message, scan, points, raw, publishes, lidar_callback, scan_callback,
  hear,
}

abbrev pub only_scan : {P : Type 0} → Bool → List ScanPacket → List (Message P)
only_scan published ps = if published then scan ps ∷ [] else []

module _ (F : Floats) (num : Numerals F) (locals : Locals F) (behind : List ℕ)
    (file : Option (List ℕ)) where
  -- The ring after the node has heard what it published.
  abbrev pub heard :
      Mode → Bool → PacketsBuffer (UdpPacket F) → List ScanPacket → PacketsBuffer (UdpPacket F)
  heard bag true b ps = push_each F b ps
  heard bag false b ps = b
  heard capture published b ps = b
  heard live published b ps = b

  push_one-corrected :
      (r : Replay F) (t : AngleTable F) (n : ℕ)
      → r.got_correction ≡ true
      → push_one F num locals behind file r (saved_message F num t n 0 0) ≡ ok r
  unfolding push_one is_correction read save_correction_file
  push_one-corrected r t n h = simp (h) (refl)

  hear-callback :
      {P : Type 0} (mode : Mode) (s : Sdk F) (publish_type : List ℕ) (e : Emission P ScanPacket)
      → hear F num locals behind file mode s (lidar_callback publish_type e)
        ≡ hear F num locals behind file mode s
            (only_scan {P = P} (publishes publish_type raw) e.packets)
  unfolding lidar_callback hear
  hear-callback mode s publish_type e = elim (Bool-cases (publishes publish_type points)) [
    | inl h ↦ rw h refl
    | inr h ↦ rw h refl
  ]

  scan_callback-raws :
      (s : Sdk F) (t : AngleTable F) (lasers : ℕ) (ps : List ScanPacket)
      → s.general.got_correction ≡ true
      → All IsRaw ps
      → scan_callback F num locals behind file s (ps ++ (saved_message F num t lasers 0 0 ∷ []))
        ≡ ok (record s { general = record s.general { ring = push_each F s.general.ring ps } })
  unfolding scan_callback
  scan_callback-raws s t lasers ps flag raws =
      let pushed : Replay F = record s.general { ring = push_each F s.general.ring ps } in
      ap (λ o. o >>= λ g. ok (record s { general = g }))
        (push_scan_packet-IsRaw F num locals behind file s.general ps
            (saved_message F num t lasers 0 0) raws
          ∙ push_one-corrected pushed t lasers flag)

  hear-raws :
      (P : Type 0) (mode : Mode) (published : Bool) (s : Sdk F) (t : AngleTable F) (lasers : ℕ)
      (ps : List ScanPacket)
      → s.general.got_correction ≡ true
      → All IsRaw ps
      → hear F num locals behind file mode s
          (only_scan {P = P} published (ps ++ (saved_message F num t lasers 0 0 ∷ [])))
        ≡ ok (record s {
          general = record s.general { ring = heard mode published s.general.ring ps };
        })
  unfolding hear
  hear-raws P capture true s t lasers ps flag raws = refl
  hear-raws P capture false s t lasers ps flag raws = refl
  hear-raws P live true s t lasers ps flag raws = refl
  hear-raws P live false s t lasers ps flag raws = refl
  hear-raws P bag false s t lasers ps flag raws = refl
  hear-raws P bag true s t lasers ps flag raws =
      rw (scan_callback-raws s t lasers ps flag raws) refl

  module _ {P : Type 0} (structured has_callback : Bool) (start : ℕ) (t : AngleTable F) where
    -- Where a block ends a frame and the flag is set, the node that plays a recorded topic and
    -- publishes raw scans hears its own scan and puts every raw packet of the frame, in order, into
    -- the ring again; in the other modes, or where it publishes points only, nothing changes.
    pub process_block-heard :
        (add : Clouds P → ℕ × P → Clouds P) (lasers : ℕ) (f : Framer P ScanPacket)
        (block : ℕ × List (ℕ × P)) (mode : Mode) (publish_type : List ℕ) (s : Sdk F)
        → s.general.got_correction ≡ true
        → frame_ends has_callback start f block.0 ≡ true
        → All IsRaw f.scan
        → (e : Emission P ScanPacket) × ((process_block structured has_callback start
              (λ n. saved_message F num t n 0 0)
              add
              lasers
              f
              block).emitted
            ≡ f.emitted ++ (e ∷ []))
          × (hear F num locals behind file mode s (lidar_callback publish_type e)
              ≡ ok (record s {
                general = record s.general {
                  ring = heard mode (publishes publish_type raw) s.general.ring f.scan;
                };
              }))
    unfolding process_block
    process_block-heard add lasers f block mode publish_type s flag ends raws =
        let out = emit_back_message structured lasers f.clouds in
        let e : Emission P ScanPacket = record {
          points = out.0;
          packets = f.scan ++ (saved_message F num t lasers 0 0 ∷ []);
        } in
        (
          e,
          simp (ends) (refl),
          hear-callback mode s publish_type e
              ∙ hear-raws P mode (publishes publish_type raw) s t lasers f.scan flag raws,
        )
