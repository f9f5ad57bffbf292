-- ===== src/Wire/Bounds.antt =====
-- When the parsers stay inside the packet's buffer and the structure's arrays, and when they do not:
-- the counts of blocks and lasers come from the packet and are never checked against the arrays.
use go2_setup.Shared.{
  ℕ, zero, suc, ◌+◌, ◌*◌, ◌%◌, ◌^◌, ◌≤◌, ◌<◌, ◌≡◌, ◌≢◌, refl, ap, ◌∙◌, ◌⊎◌, Bool, true, false, List,
  [], ◌∷◌, none, some, arith, length, drop, length-drop, get_or, if◌then◌else◌, le16,
}
use go2_setup.Wire.{
  ok, rejected, Header, LidarUnit, Block, Packet, Layout, unit_size, parse_unit, parse_units,
  parse_blocks, parse_tail, parse_packet, contains, char_rounds, char_factor,
}
use go2_setup.Wire.Read.{read_within}
use go2_setup.Wire.RoundTrip.{HeaderFits, header_in, parse_header_lem, packet_with, parse_tail_lem}

-- How many bytes a packet of so many blocks and lasers takes, up to the last one read.
abbrev pub extent : Layout → ℕ → ℕ → ℕ
extent l blocks lasers = l.head_size + (2 + unit_size l * lasers) * blocks

module _ (l : Layout) (buf : List ℕ) where
  parse_unit-total :
      (factor index : ℕ)
      → index + unit_size l ≤ length buf
      → (u : LidarUnit) × (parse_unit l buf factor index ≡ ok u)
  unfolding parse_unit
  parse_unit-total factor index h = (
    record {
      distance = le16 (get_or buf index 0) (get_or buf (index + 1) 0) * factor % 2 ^ 32;
      intensity = get_or buf (index + 2) 0;
      confidence = if l.has_confidence then some (get_or buf (index + 3) 0) else none;
    },
    ground (
      arith,
      read_within buf index,
      read_within buf (index + 1),
      read_within buf (index + 2),
      read_within buf (index + 3),
    ),
  )

  parse_units-total :
      (factor n unit index : ℕ)
      → unit + n ≤ l.unit_cap
      → index + unit_size l * n ≤ length buf
      → (us : List LidarUnit) × (parse_units l buf factor n unit index
          ≡ ok (us, index + unit_size l * n))
  unfolding parse_units
  parse_units-total factor zero unit index hc hb = ([], ground arith)
  parse_units-total factor (suc n) unit index hc hb =
      let (u, p) = parse_unit-total factor index (grind arith) in
      let (us, q) =
        parse_units-total factor n (unit + 1) (index + unit_size l) (omega arith) (grind arith) in
      (u ∷ us, ground (arith, p, q))

  parse_blocks-total :
      (factor lasers n block index : ℕ)
      → lasers ≤ l.unit_cap
      → block + n ≤ l.block_cap
      → index + (2 + unit_size l * lasers) * n ≤ length buf
      → (bs : List Block) × (parse_blocks l buf factor lasers n block index
          ≡ ok (bs, index + (2 + unit_size l * lasers) * n))
        × (length bs ≡ n)
  unfolding parse_blocks
  parse_blocks-total factor lasers zero block index hl hc hb = ([], ground arith, refl)
  parse_blocks-total factor lasers (suc n) block index hl hc hb =
      let (us, p) = parse_units-total factor lasers 0 (index + 2) (omega arith) (grind arith) in
      let (bs, q, r) =
        parse_blocks-total factor lasers n (block + 1) (index + 2 + unit_size l * lasers) hl
          (omega arith) (grind arith) in
      (
        record { azimuth = le16 (get_or buf index 0) (get_or buf (index + 1) 0); units = us } ∷ bs,
        ground (arith, p, q, read_within buf index, read_within buf (index + 1)),
        ap suc r,
      )

  parse_tail-total :
      (h : Header) (bs : List Block) (end : ℕ)
      → end + l.timestamp_at + 3 < length buf
      → end + l.echo_at < length buf
      → end + l.addtime_at + 5 < length buf
      → (p : Packet) × (parse_tail l buf h bs end ≡ ok p) × (p.header ≡ h) × (p.blocks ≡ bs)
  parse_tail-total h bs end ht he ha = (
    packet_with l h bs (drop end buf),
    parse_tail_lem l buf (drop end buf) h bs end (omega (arith, length-drop end buf)) refl,
    refl,
    refl,
  )

  -- The rounds that the parser makes over blocks and over a block's units.
  abbrev pub block_rounds : Bool → ℕ
  block_rounds signed = char_rounds signed (get_or buf (l.laser_at + 1) 0)

  abbrev pub laser_rounds : Bool → ℕ
  laser_rounds signed = char_rounds signed (get_or buf l.laser_at 0)

  abbrev pub sob_in : ℕ
  sob_in = le16 (get_or buf 1 0) (get_or buf 0 0)

  pub record Counts (signed : Bool) : Type 0 where
    pub blocks : block_rounds signed ≤ l.block_cap
    pub lasers : laser_rounds signed ≤ l.unit_cap
    pub timestamp :
        extent l (block_rounds signed) (laser_rounds signed) + l.timestamp_at + 3 < length buf
    pub echo : extent l (block_rounds signed) (laser_rounds signed) + l.echo_at < length buf
    pub addtime :
        extent l (block_rounds signed) (laser_rounds signed) + l.addtime_at + 5 < length buf

  -- Where the counts that a packet announces fit the arrays and the blocks and tail that they make
  -- fit the buffer, a packet of an accepted size that starts with 0xEEFF is parsed without a fault,
  -- with the header that stands in the buffer and as many blocks as it announces.
  pub parse_packet-total :
      (signed : Bool) (len : ℕ)
      → HeaderFits l
      → l.head_size ≤ length buf
      → contains l.sizes len ≡ true
      → sob_in ≡ 0xEEFF
      → Counts signed
      → (p : Packet) × (parse_packet l buf signed len ≡ ok p)
        × (p.header ≡ header_in l buf)
        × (length p.blocks ≡ block_rounds signed)
  unfolding parse_packet
  parse_packet-total signed len fits long size sob c =
      let (bs, q, r) =
        parse_blocks-total (char_factor signed (get_or buf (l.laser_at + 3) 0))
          (laser_rounds signed) (block_rounds signed) 0 l.head_size c.lasers (omega arith)
          (omega arith) in
      let (p, t, e, f) =
        parse_tail-total (header_in l buf) bs (extent l (block_rounds signed) (laser_rounds signed))
          c.timestamp c.echo c.addtime in
      (p, ground (arith, parse_header_lem l buf fits long, q, t), e, ap length f ∙ r)

  -- When the size is not one of the format's, or a buffer that is as long as the header does not
  -- start with 0xEEFF, the parser answers -1, whatever the counts are.
  pub parse_packet-rejected :
      (signed : Bool) (len : ℕ)
      → HeaderFits l
      → l.head_size ≤ length buf
      → (contains l.sizes len ≡ false) ⊎ (sob_in ≢ 0xEEFF)
      → parse_packet l buf signed len ≡ rejected
  unfolding parse_packet
  parse_packet-rejected signed len fits long bad = ground (arith, parse_header_lem l buf fits long)
