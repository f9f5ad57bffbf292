-- ===== src/Wire/Pandar40/RoundTrip.antt =====
-- What `ParseRawData` makes of the bytes that a Pandar40 sends.
use go2_setup.Shared.{
  ℕ, zero, suc, ◌+◌, ◌*◌, ◌%◌, ◌<◌, ◌≤◌, ◌≡◌, refl, ◌∙◌, ◌⊎◌, List, [], ◌∷◌, ◌++◌, map, arith,
  length, drop, get_or, All, IsByte, byte_of, le32, drop-add, append_assoc,
}
use go2_setup.Wire.{ok}
use go2_setup.Wire.Read.{read_at, read_first}
use go2_setup.Wire.Utc.{tm_of_addtime}
use go2_setup.Wire.Pandar40.{
  Pandar40Unit, Pandar40Block, Pandar40Packet, laser_count, blocks_per_packet, packet_size,
  seq_num_size, filter_unit, parse_raw_units, parse_raw_blocks, parse_raw_tail, parse_raw_data,
}

-- What the lidar measured with one laser, and in one block.
pub record Echo : Type 0 where
  pub range : ℕ
  pub intensity : ℕ

pub record Shot : Type 0 where
  pub sob : ℕ
  pub azimuth : ℕ
  pub echoes : List Echo

abbrev pub write_echoes : List Echo → List ℕ
write_echoes [] = []
write_echoes (e ∷ es) = byte_of e.range 0 ∷ byte_of e.range 1 ∷ e.intensity ∷ write_echoes es

abbrev pub write_shots : List Shot → List ℕ
write_shots [] = []
write_shots (s ∷ ss) =
    byte_of s.sob 0
    ∷ byte_of s.sob 1
    ∷ byte_of s.azimuth 0
    ∷ byte_of s.azimuth 1
    ∷ (write_echoes s.echoes ++ write_shots ss)

abbrev pub unit_of : Echo → Pandar40Unit
unit_of e = record { distance = e.range * 4; intensity = e.intensity }

abbrev pub block_of : Shot → Pandar40Block
block_of s = record { azimuth = s.azimuth; sob = s.sob; units = map unit_of s.echoes }

-- The structure for these blocks and the bytes behind the body.
abbrev pub packet_with : List Pandar40Block → List ℕ → Pandar40Packet
packet_with bs tail = record {
  blocks = bs;
  t = tm_of_addtime (
      get_or tail 16 0
      ∷ get_or tail 17 0
      ∷ get_or tail 18 0
      ∷ get_or tail 19 0
      ∷ get_or tail 20 0
      ∷ get_or tail 21 0
      ∷ []);
  usec = le32 (get_or tail 10 0) (get_or tail 11 0) (get_or tail 12 0) (get_or tail 13 0) % 1000000;
  echo = get_or tail 14 0;
}

-- No unit with a 16-bit range and an 8-bit intensity meets the filter for wrong data: it is stored
-- as it was sent.
pub filter_unit_inert :
    (e : Echo)
    → e.range < 65536
    → IsByte e.intensity
    → filter_unit (e.range * 4) e.intensity ≡ unit_of e
unfolding filter_unit
filter_unit_inert e hr hi = ground arith

abbrev pub EchoFits : Echo → Type 0
EchoFits e = (e.range < 65536) × IsByte e.intensity

abbrev pub ShotFits : Shot → Type 0
ShotFits s =
    (s.sob < 65536) × (s.azimuth < 65536) × (length s.echoes ≡ laser_count) × All EchoFits s.echoes

drop-write_echoes :
    (es : List Echo) (rest : List ℕ) → drop (3 * length es) (write_echoes es ++ rest) ≡ rest
drop-write_echoes [] rest = refl
drop-write_echoes (e ∷ es) rest =
    let z : 3 * suc (length es) ≡ suc (suc (suc (3 * length es))) = omega arith in
    rw z (drop-write_echoes es rest)

drop_echoes :
    (es : List Echo) (rest : List ℕ) (n : ℕ)
    → n ≡ 3 * length es
    → drop n (write_echoes es ++ rest) ≡ rest
drop_echoes es rest n e = rw e (drop-write_echoes es rest)

module _ (buf : List ℕ) where
  parse_raw_units-write :
      (rest : List ℕ) (es : List Echo) (n index : ℕ)
      → n ≡ length es
      → All EchoFits es
      → drop index buf ≡ write_echoes es ++ rest
      → parse_raw_units buf n index ≡ ok (map unit_of es, index + 3 * n)
  unfolding parse_raw_units
  parse_raw_units-write rest [] zero index hn h e = ground arith
  parse_raw_units-write rest [] (suc n) index hn h e = absurd (omega arith)
  parse_raw_units-write rest (x ∷ es) zero index hn h e = absurd (omega arith)
  parse_raw_units-write rest (x ∷ es) (suc n) index hn h e = ground (
    arith,
    read_first buf _ index e,
    read_at buf _ index 1 e,
    read_at buf _ index 2 e,
    filter_unit_inert x h.0.0 h.0.1,
    parse_raw_units-write rest es n (index + 3) (omega arith) h.1 (drop-add buf _ index 3 e),
  )

  parse_raw_blocks-write :
      (rest : List ℕ) (ss : List Shot) (n index : ℕ)
      → n ≡ length ss
      → All ShotFits ss
      → drop index buf ≡ write_shots ss ++ rest
      → (parse_raw_blocks buf n index ≡ ok (map block_of ss, index + 124 * n))
        × (drop (index + 124 * n) buf ≡ rest)
  unfolding parse_raw_blocks
  parse_raw_blocks-write rest [] zero index hn h e =
      (ground arith, let z : index + 124 * 0 ≡ index = omega arith in rw z e)
  parse_raw_blocks-write rest [] (suc n) index hn h e = absurd (omega arith)
  parse_raw_blocks-write rest (x ∷ ss) zero index hn h e = absurd (omega arith)
  parse_raw_blocks-write rest (x ∷ ss) (suc n) index hn h e =
      let body : drop (index + 4) buf ≡ write_echoes x.echoes ++ (write_shots ss ++ rest) =
        drop-add buf _ index 4 e ∙ append_assoc (write_echoes x.echoes) (write_shots ss) rest in
      let later : drop (index + 4 + 120) buf ≡ write_shots ss ++ rest =
        drop-add buf _ (index + 4) 120 body
        ∙ drop_echoes x.echoes (write_shots ss ++ rest) 120 (omega (arith, h.0.2)) in
      let z : index + 124 * suc n ≡ index + 4 + 120 + 124 * n = omega arith in
      let (p, q) = parse_raw_blocks-write rest ss n (index + 4 + 120) (omega arith) h.1 later in
      (
        ground (
          arith,
          read_first buf _ index e,
          read_at buf _ index 1 e,
          read_at buf _ index 2 e,
          read_at buf _ index 3 e,
          parse_raw_units-write (write_shots ss ++ rest) x.echoes laser_count (index + 4)
              (omega arith) h.0.3 body,
          p,
        ),
        rw z q,
      )

  parse_raw_tail_lem :
      (tail : List ℕ) (bs : List Pandar40Block) (end : ℕ)
      → drop end buf ≡ tail
      → 22 ≤ length tail
      → parse_raw_tail buf bs end ≡ ok (packet_with bs tail)
  unfolding parse_raw_tail
  parse_raw_tail_lem tail bs end e h = rw (
    read_at buf tail end 10 e (omega arith),
    read_at buf tail end 11 e (omega arith),
    read_at buf tail end 12 e (omega arith),
    read_at buf tail end 13 e (omega arith),
    read_at buf tail end 14 e (omega arith),
    read_at buf tail end 16 e (omega arith),
    read_at buf tail end 17 e (omega arith),
    read_at buf tail end 18 e (omega arith),
    read_at buf tail end 19 e (omega arith),
    read_at buf tail end 20 e (omega arith),
    read_at buf tail end 21 e (omega arith),
  )

  -- A buffer of ten shots of forty echoes, each number in its field's range, with at least 22 bytes
  -- behind them, parses at either accepted size to exactly those azimuths, ranges and intensities,
  -- with the UTC time, the microseconds and the return mode of the tail.
  pub parse_raw_data-write :
      (tail : List ℕ) (ss : List Shot) (len : ℕ)
      → (len ≡ packet_size) ⊎ (len ≡ packet_size + seq_num_size)
      → length ss ≡ blocks_per_packet
      → All ShotFits ss
      → buf ≡ write_shots ss ++ tail
      → 22 ≤ length tail
      → parse_raw_data buf len ≡ ok (packet_with (map block_of ss) tail)
  unfolding parse_raw_data
  parse_raw_data-write tail ss len size count h e long =
      let (p, q) = parse_raw_blocks-write tail ss blocks_per_packet 0 (omega arith) h e in
      ground (arith, p, parse_raw_tail_lem tail (map block_of ss) (0 + 124 * 10) q long)
