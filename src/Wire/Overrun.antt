-- ===== src/Wire/Overrun.antt =====
-- What a packet does whose header announces more blocks than the structure has room for.
use go2_setup.Shared.{
  ℕ, zero, suc, ◌+◌, ◌≤◌, ◌<◌, ◌≡◌, refl, ◌⊎◌, inl, inr, Bool, true, false, List, arith, length,
  get_or, ltb, get_elem?, none, some, Option-cases, Bool-cases,
}
use go2_setup.Wire.{
  Parsed, ok, rejected, fault, ◌>>=◌, read, Layout, unit_size, parse_unit, parse_units,
  parse_blocks, parse_packet, contains, char_factor, fault_unless, read_confidence,
}
use go2_setup.Wire.RoundTrip.{HeaderFits, parse_header_lem}
use go2_setup.Wire.Bounds.{block_rounds, laser_rounds, sob_in}

-- A computation that never answers -1.
abbrev Settles : {A : Type 0} → Parsed A → Type 0
Settles {A} p = ((a : A) × (p ≡ ok a)) ⊎ (p ≡ fault)

Settles-bind :
    {A B : Type 0} (p : Parsed A) (f : A → Parsed B)
    → Settles p
    → ((a : A) → Settles (f a))
    → Settles (p >>= f)
Settles-bind (ok a) f s h = h a
Settles-bind rejected f (inl (a, e)) h = cc
Settles-bind rejected f (inr e) h = cc
Settles-bind fault f s h = inr refl

Settles-ok : {A : Type 0} (a : A) → Settles (ok a)
Settles-ok a = inl (a, refl)

-- A fault after a computation that settles is a fault.
fault-bind :
    {A B : Type 0} (p : Parsed A) (f : A → Parsed B)
    → Settles p
    → ((a : A) → f a ≡ fault)
    → (p >>= f) ≡ fault
fault-bind (ok a) f s h = h a
fault-bind rejected f (inl (a, e)) h = cc
fault-bind rejected f (inr e) h = cc
fault-bind fault f s h = refl

module _ (l : Layout) (buf : List ℕ) where
  read-Settles : (i : ℕ) → Settles (read buf i)
  unfolding read
  read-Settles i = elim (Option-cases (get_elem? buf i)) [
    | inl e ↦ rw e (inr refl)
    | inr (x, e) ↦ rw e (inl (x, refl))
  ]

  read_confidence-Settles : (c : Bool) (index : ℕ) → Settles (read_confidence l buf c index)
  unfolding read_confidence
  read_confidence-Settles false index = Settles-ok none
  read_confidence-Settles true index =
      Settles-bind (read buf (index + 3)) _ (read-Settles (index + 3)) (λ c. Settles-ok (some c))

  parse_unit-Settles : (factor index : ℕ) → Settles (parse_unit l buf factor index)
  unfolding parse_unit
  parse_unit-Settles factor index = Settles-bind (read buf index) _ (read-Settles index) λ lo.
      Settles-bind (read buf (index + 1)) _ (read-Settles (index + 1)) λ hi.
        Settles-bind (read buf (index + 2)) _ (read-Settles (index + 2)) λ i.
          Settles-bind (read_confidence l buf l.has_confidence index) _
            (read_confidence-Settles l.has_confidence index) (λ c. Settles-ok _)

  fault_unless-Settles : (b : Bool) → Settles (fault_unless b)
  fault_unless-Settles true = Settles-ok tt
  fault_unless-Settles false = inr refl

  parse_units-Settles : (factor n unit index : ℕ) → Settles (parse_units l buf factor n unit index)
  unfolding parse_units
  parse_units-Settles factor zero unit index = Settles-ok _
  parse_units-Settles factor (suc n) unit index =
      Settles-bind (fault_unless (ltb unit l.unit_cap)) _ (fault_unless-Settles _) λ _.
        Settles-bind (parse_unit l buf factor index) _ (parse_unit-Settles factor index) λ u.
          Settles-bind (parse_units l buf factor n (unit + 1) (index + unit_size l)) _
            (parse_units-Settles factor n (unit + 1) (index + unit_size l)) (λ p. Settles-ok _)

  parse_blocks_overrun :
      (factor lasers n block index : ℕ)
      → block ≤ l.block_cap
      → l.block_cap < block + n
      → parse_blocks l buf factor lasers n block index ≡ fault
  unfolding parse_blocks
  parse_blocks_overrun factor lasers zero block index hb hn = absurd (omega arith)
  parse_blocks_overrun factor lasers (suc n) block index hb hn =
      elim (Bool-cases (ltb block l.block_cap)) [
        | inr full ↦ rw full
        | inl room ↦ rw room (
            fault-bind (read buf index) _ (read-Settles index) λ lo.
              fault-bind (read buf (index + 1)) _ (read-Settles (index + 1)) λ hi.
                fault-bind (parse_units l buf factor lasers 0 (index + 2)) _
                  (parse_units-Settles factor lasers 0 (index + 2))
                  λ p. rw (
                    parse_blocks_overrun factor lasers n (block + 1) p.1 (ground arith)
                      (omega arith)))
      ]

  -- A packet of an accepted size that starts with 0xEEFF and announces more blocks than the
  -- structure has is not answered by -1: the parser writes outside the structure, or reads outside
  -- the buffer before that.
  pub parse_packet_overrun :
      (signed : Bool) (len : ℕ)
      → HeaderFits l
      → l.head_size ≤ length buf
      → contains l.sizes len ≡ true
      → sob_in l buf ≡ 0xEEFF
      → l.block_cap < block_rounds l buf signed
      → parse_packet l buf signed len ≡ fault
  unfolding parse_packet
  parse_packet_overrun signed len fits long size sob many = ground (
    arith,
    parse_header_lem l buf fits long,
    parse_blocks_overrun (char_factor signed (get_or buf (l.laser_at + 3) 0))
        (laser_rounds l buf signed) (block_rounds l buf signed) 0 l.head_size,
  )
