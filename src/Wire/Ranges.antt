-- ===== src/Wire/Ranges.antt =====
-- The C types of the parsed structures: where the numbers of a packet lie, and how many of its array
-- elements are written, whatever the bytes are.
use go2_setup.Shared.{
  ℕ, zero, suc, ◌+◌, ◌^◌, ◌≤◌, ◌<◌, ◌≡◌, refl, ap, Bool, true, false, List, [], ◌∷◌, Option, none,
  some, arith, length, All, IsByte, ltb, ◌==◌, get_elem?,
}
use go2_setup.Wire.Outcome.{Where, Where-bind, Where-map, unless-Where, reject-Where}
use go2_setup.Wire.{
  Parsed, ◌>>=◌, reject_unless, fault_unless, present, read, Header, LidarUnit, Block, Packet,
  Layout, unit_size, read_protocol, read_confidence, parse_header, parse_unit, parse_units,
  parse_blocks, parse_tail, parse_packet, contains, char_rounds, char_factor,
}

present-Where : (buf : List ℕ) (i : ℕ) → All IsByte buf → Where IsByte (present (get_elem? buf i))
present-Where [] i h = tt
present-Where (x ∷ xs) zero h = h.0
present-Where (x ∷ xs) (suc i) h = present-Where xs i h.1

-- A byte that need not be there.
abbrev pub OptionalByte : Option ℕ → Type 0
OptionalByte none = Unit
OptionalByte (some c) = IsByte c

-- The distance is the unsigned product that is then divided by 1000.0.
pub record UnitInRange (u : LidarUnit) : Type 0 where
  pub distance : u.distance < 2 ^ 32
  pub intensity : IsByte u.intensity
  pub confidence : OptionalByte u.confidence

-- As many units as the loop over the lasers has rounds, inside the array.
pub record BlockInRange (l : Layout) (lasers : ℕ) (b : Block) : Type 0 where
  pub azimuth : b.azimuth < 65536
  pub units : All UnitInRange b.units
  pub rounds : length b.units ≡ lasers
  pub capacity : lasers ≤ l.unit_cap

-- The counts are `char`s, of which the loops make `char_rounds`.
pub record PacketInRange (l : Layout) (signed : Bool) (p : Packet) : Type 0 where
  pub sob : p.header.sob ≡ 0xEEFF
  pub laser_number : IsByte p.header.laser_number
  pub block_number : IsByte p.header.block_number
  pub dis_unit : IsByte p.header.dis_unit
  pub blocks : All (BlockInRange l (char_rounds signed p.header.laser_number)) p.blocks
  pub rounds : length p.blocks ≡ char_rounds signed p.header.block_number
  pub capacity : length p.blocks ≤ l.block_cap
  pub timestamp : p.timestamp < 2 ^ 32
  pub echo : IsByte p.echo
  pub addtime : All IsByte p.addtime

module _ (l : Layout) (buf : List ℕ) (bytes : All IsByte buf) where
  read-Where : (i : ℕ) → Where IsByte (read buf i)
  unfolding read
  read-Where i = present-Where buf i bytes

  read-bind :
      {B : Type 0} (Q : B → Type 0) (i : ℕ) (k : ℕ → Parsed B)
      → ((a : ℕ) → IsByte a → Where Q (k a))
      → Where Q (read buf i >>= k)
  read-bind Q i k next = Where-bind IsByte Q (read buf i) k (read-Where i) next

  confidence-Where : (b : Bool) (index : ℕ) → Where OptionalByte (read_confidence l buf b index)
  unfolding read_confidence
  confidence-Where false index = tt
  confidence-Where true index = read-bind OptionalByte (index + 3) _ (λ c h. h)

  parse_unit-InRange : (factor index : ℕ) → Where UnitInRange (parse_unit l buf factor index)
  unfolding parse_unit
  parse_unit-InRange factor index = read-bind UnitInRange index _ (λ lo _.
      read-bind UnitInRange (index + 1) _ (λ hi _. read-bind UnitInRange (index + 2) _ (λ i bound.
        Where-bind OptionalByte UnitInRange (read_confidence l buf l.has_confidence index) _
          (confidence-Where l.has_confidence index)
          (λ c h. record { distance = omega arith; intensity = bound; confidence = h }))))

  -- What `n` rounds from `unit` on come to.
  abbrev UnitsInRange : ℕ → ℕ → List LidarUnit × ℕ → Type 0
  UnitsInRange n unit r =
      All UnitInRange r.0 × (length r.0 ≡ n) × (unit ≤ l.unit_cap → unit + n ≤ l.unit_cap)

  parse_units-InRange :
      (factor n unit index : ℕ)
      → Where (UnitsInRange n unit) (parse_units l buf factor n unit index)
  unfolding parse_units
  parse_units-InRange factor zero unit index = (tt, refl, λ h. omega arith)
  parse_units-InRange factor (suc n) unit index =
      Where-bind (λ u. ltb unit l.unit_cap ≡ true) (UnitsInRange (suc n) unit)
        (fault_unless (ltb unit l.unit_cap)) _ (unless-Where _)
        (λ _ room.
          Where-bind UnitInRange (UnitsInRange (suc n) unit) (parse_unit l buf factor index) _
            (parse_unit-InRange factor index)
            (λ u hu.
              Where-bind (UnitsInRange n (unit + 1)) (UnitsInRange (suc n) unit)
                (parse_units l buf factor n (unit + 1) (index + unit_size l)) _
                (parse_units-InRange factor n (unit + 1) (index + unit_size l))
                (λ r h. ((hu, h.0), ap suc h.1, λ _. ground (arith, room, h.2)))))

  abbrev BlocksInRange : ℕ → ℕ → ℕ → List Block × ℕ → Type 0
  BlocksInRange lasers n block r =
      All (BlockInRange l lasers) r.0
      × (length r.0 ≡ n)
      × (block ≤ l.block_cap → block + n ≤ l.block_cap)

  parse_blocks-InRange :
      (factor lasers n block index : ℕ)
      → Where (BlocksInRange lasers n block) (parse_blocks l buf factor lasers n block index)
  unfolding parse_blocks
  parse_blocks-InRange factor lasers zero block index = (tt, refl, λ h. omega arith)
  parse_blocks-InRange factor lasers (suc n) block index =
      let Q = BlocksInRange lasers (suc n) block in
      Where-bind (λ u. ltb block l.block_cap ≡ true) Q (fault_unless (ltb block l.block_cap)) _
        (unless-Where _)
        (λ _ room. read-bind Q index _ (λ lo hlo. read-bind Q (index + 1) _ (λ hi hhi.
          Where-bind (UnitsInRange lasers 0) Q (parse_units l buf factor lasers 0 (index + 2)) _
            (parse_units-InRange factor lasers 0 (index + 2))
            (λ us hus.
              Where-bind (BlocksInRange lasers n (block + 1)) Q
                (parse_blocks l buf factor lasers n (block + 1) us.1) _
                (parse_blocks-InRange factor lasers n (block + 1) us.1)
                (λ r h. (
                  (
                    record {
                      azimuth = omega (arith, hlo, hhi);
                      units = hus.0;
                      rounds = hus.1;
                      capacity = omega (arith, hus.2 (omega arith));
                    },
                    h.0,
                  ),
                  ap suc h.1,
                  λ _. ground (arith, room, h.2),
                ))))))

  abbrev HeaderInRange : Header → Type 0
  HeaderInRange h = IsByte h.laser_number × IsByte h.block_number × IsByte h.dis_unit

  protocol-Where : (at : Option ℕ) → Where (λ p. Unit {0}) (read_protocol l buf at)
  unfolding read_protocol
  protocol-Where none = tt
  protocol-Where (some at) =
      read-bind (λ p. Unit {0}) at _
        (λ major _. read-bind (λ p. Unit {0}) (at + 1) _ (λ minor _. tt))

  parse_header-InRange : Where HeaderInRange (parse_header l buf)
  unfolding parse_header
  parse_header-InRange =
      let Q = HeaderInRange in
      read-bind Q 0 _ (λ hi _. read-bind Q 1 _ (λ lo _.
        Where-bind (λ p. Unit {0}) Q (read_protocol l buf l.protocol_at) _
          (protocol-Where l.protocol_at)
          (λ p _. read-bind Q l.laser_at _ (λ lasers hl.
            read-bind Q (l.laser_at + 1) _ (λ blocks hb.
              read-bind Q (l.laser_at + 2) _
                (λ ret _. read-bind Q (l.laser_at + 3) _ (λ dis hd. (hl, hb, hd))))))))

  -- What the tail adds to the header and the blocks.
  abbrev TailInRange : Header → List Block → Packet → Type 0
  TailInRange h bs p =
      (p.header ≡ h)
      × (p.blocks ≡ bs)
      × (p.timestamp < 2 ^ 32)
      × IsByte p.echo
      × All IsByte p.addtime

  parse_tail-InRange :
      (h : Header) (bs : List Block) (end : ℕ)
      → Where (TailInRange h bs) (parse_tail l buf h bs end)
  unfolding parse_tail
  parse_tail-InRange h bs end =
      let Q = TailInRange h bs in
      read-bind Q _ _ (λ t0 h0. read-bind Q _ _ (λ t1 h1. read-bind Q _ _ (λ t2 h2.
        read-bind Q _ _ (λ t3 h3. read-bind Q _ _ (λ echo he. read-bind Q _ _ (λ a ha.
          read-bind Q _ _ (λ b hb. read-bind Q _ _ (λ c hc. read-bind Q _ _ (λ d hd.
            read-bind Q _ _ (λ e he'. read-bind Q _ _ (λ f hf. (
              refl,
              refl,
              omega (arith, h0, h1, h2, h3),
              he,
              (ha, (hb, (hc, (hd, (he', (hf, tt)))))),
            ))))))))))))

  packet-InRange :
      (signed : Bool) (h : Header) (bs : List Block) (end : ℕ) (p : Packet)
      → (h.sob == 0xEEFF) ≡ true
      → HeaderInRange h
      → BlocksInRange
          (char_rounds signed h.laser_number)
          (char_rounds signed h.block_number)
          0
          (bs, end)
      → TailInRange h bs p
      → PacketInRange l signed p
  packet-InRange signed h bs end p sob hh hb t =
      rw (t.0, t.1)
        record {
          sob = ground arith;
          laser_number = hh.0;
          block_number = hh.1;
          dis_unit = hh.2;
          blocks = hb.0;
          rounds = hb.1;
          capacity = omega (arith, hb.1, hb.2 (omega arith));
          timestamp = t.2;
          echo = t.3;
          addtime = t.4;
        }

  -- For any layout, size and buffer of bytes: if the parser fills a structure, it starts with
  -- 0xEEFF and has just as many blocks, and in each just as many units, as the loops make of the
  -- counts in its header, which fit the arrays; azimuths lie below 2 ^ 16, the products for the
  -- distances and the timestamp below 2 ^ 32, and intensities, confidences, the echo, the time of
  -- day, the counts and the distance unit below 256.
  pub parse_packet-InRange :
      (signed : Bool) (len : ℕ) → Where (PacketInRange l signed) (parse_packet l buf signed len)
  unfolding parse_packet
  parse_packet-InRange signed len =
      let Q = PacketInRange l signed in
      Where-bind (λ u. contains l.sizes len ≡ true) Q (reject_unless (contains l.sizes len)) _
        (reject-Where _)
        (λ _ size. Where-bind HeaderInRange Q (parse_header l buf) _ parse_header-InRange (λ h hh.
          Where-bind (λ u. (h.sob == 0xEEFF) ≡ true) Q (reject_unless (h.sob == 0xEEFF)) _
            (reject-Where _)
            (λ _ sob.
              let lasers = char_rounds signed h.laser_number in
              let blocks = char_rounds signed h.block_number in
              let factor = char_factor signed h.dis_unit in
              Where-bind (BlocksInRange lasers blocks 0) Q
                (parse_blocks l buf factor lasers blocks 0 l.head_size) _
                (parse_blocks-InRange factor lasers blocks 0 l.head_size)
                (λ r hr.
                  Where-map (TailInRange h r.0) Q (parse_tail l buf h r.0 r.1)
                    (parse_tail-InRange h r.0 r.1)
                    (λ p t. packet-InRange signed h r.0 r.1 p sob hh hr t)))))
