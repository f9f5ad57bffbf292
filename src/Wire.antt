-- ===== src/Wire.antt =====
-- The wire formats of pandarGeneral_internal.h, pandarQT.h and pandarXT.h, and the parsers of
-- pandarGeneral_internal.cc for them. The four formats with a header (L64, L20, QT, XT) differ in
-- the numbers that a `Layout` holds, and their parsers are one loop at four layouts.
-- Distances are in millimetres (the source divides them by 1000.0 into a double).
pub mod Read
pub mod Formats
pub mod Firings
pub mod RoundTrip
pub mod Bounds
pub mod Outcome
pub mod Ranges
pub mod Overrun
pub mod Utc
pub mod Pandar40
use go2_setup.Shared.{
  ℕ, zero, suc, ◌+◌, ◌-◌, ◌*◌, ◌%◌, ◌^◌, Bool, true, false, ◌&&◌, ◌||◌, List, [], ◌∷◌, Option, none,
  some, ltb, leb, ◌==◌, if◌then◌else◌, get_elem?, le16, le32,
}

-- What a parser comes to: 0 with the filled structure, -1, or an access outside an array.
pub data Parsed (A : Type 0) : Type 0 where
  ok : A → Parsed A
  rejected : Parsed A
  fault : Parsed A

infixl 5 ◌>>=◌ ◌>>◌
abbrev pub ◌>>=◌ : {A B : Type 0} → Parsed A → (A → Parsed B) → Parsed B
ok a >>= f = f a
rejected >>= f = rejected
fault >>= f = fault

abbrev pub ◌>>◌ : {B : Type 0} → Parsed (Unit {0}) → Parsed B → Parsed B
m >> k = m >>= λ _. k

abbrev pub reject_unless : Bool → Parsed (Unit {0})
reject_unless true = ok tt
reject_unless false = rejected

abbrev pub fault_unless : Bool → Parsed (Unit {0})
fault_unless true = ok tt
fault_unless false = fault

abbrev pub present : {A : Type 0} → Option A → Parsed A
present none = fault
present (some a) = ok a

-- `buf[i]` of the packet's 1500 bytes, whatever its size is.
unfoldable pub read : List ℕ → ℕ → Parsed ℕ
read buf i = present (get_elem? buf i)

pub record Header : Type 0 where
  pub sob : ℕ
  pub protocol : Option (ℕ × ℕ)
  pub laser_number : ℕ
  pub block_number : ℕ
  pub return_type : ℕ
  pub dis_unit : ℕ

-- `confidence` is absent in the formats whose units have none.
pub record LidarUnit : Type 0 where
  pub distance : ℕ
  pub intensity : ℕ
  pub confidence : Option ℕ

-- `units` and `blocks` hold the array elements that were written; the others are uninitialised.
pub record Block : Type 0 where
  pub azimuth : ℕ
  pub units : List LidarUnit

pub record Packet : Type 0 where
  pub header : Header
  pub blocks : List Block
  pub timestamp : ℕ
  pub echo : ℕ
  pub addtime : List ℕ

-- Positions in the header are from the packet's start, those of the tail from the body's end.
pub record Layout : Type 0 where
  pub sizes : List ℕ
  pub head_size : ℕ
  pub protocol_at : Option ℕ
  pub laser_at : ℕ
  pub has_confidence : Bool
  pub block_cap : ℕ
  pub unit_cap : ℕ
  pub timestamp_at : ℕ
  pub echo_at : ℕ
  pub addtime_at : ℕ

abbrev pub unit_size : Layout → ℕ
unit_size l = if l.has_confidence then 4 else 3

unfoldable pub contains : List ℕ → ℕ → Bool
contains [] n = false
contains (x ∷ xs) n = n == x || contains xs n

-- The rounds of `for (i = 0; i < ch; i++)` for a `char` of these bits, where `char` is signed or not.
unfoldable pub char_rounds : Bool → ℕ → ℕ
char_rounds signed b = if signed && leb 128 b then 0 else b

-- The same `char` as a factor of an unsigned product.
unfoldable pub char_factor : Bool → ℕ → ℕ
char_factor signed b = if signed && leb 128 b then 2 ^ 32 - 256 + b else b

module _ (l : Layout) (buf : List ℕ) where
  read_protocol : Option ℕ → Parsed (Option (ℕ × ℕ))
  read_protocol none = ok none
  read_protocol (some at) = do
    major ← read buf at
    minor ← read buf (at + 1)
    ok (some (major, minor))

  unfoldable pub parse_header : Parsed Header
  unfolding read_protocol
  parse_header = do
    hi ← read buf 0
    lo ← read buf 1
    protocol ← read_protocol l.protocol_at
    lasers ← read buf l.laser_at
    blocks ← read buf (l.laser_at + 1)
    return_type ← read buf (l.laser_at + 2)
    dis_unit ← read buf (l.laser_at + 3)
    ok (record {
      sob = le16 lo hi;
      protocol = protocol;
      laser_number = lasers;
      block_number = blocks;
      return_type = return_type;
      dis_unit = dis_unit;
    })

  read_confidence : Bool → ℕ → Parsed (Option ℕ)
  read_confidence false index = ok none
  read_confidence true index = do c ← read buf (index + 3); ok (some c)

  -- The body of the loop over units; `factor` is the distance unit.
  unfoldable pub parse_unit : ℕ → ℕ → Parsed LidarUnit
  unfolding read_confidence
  parse_unit factor index = do
    lo ← read buf index
    hi ← read buf (index + 1)
    intensity ← read buf (index + 2)
    confidence ← read_confidence l.has_confidence index
    ok (record {
      distance = le16 lo hi * factor % 2 ^ 32;
      intensity = intensity;
      confidence = confidence;
    })

  -- `n` rounds from round `unit` on, each of which writes `units[unit]`.
  unfoldable pub parse_units : ℕ → ℕ → ℕ → ℕ → Parsed (List LidarUnit × ℕ)
  parse_units factor zero unit index = ok ([], index)
  parse_units factor (suc n) unit index = do
    fault_unless (ltb unit l.unit_cap)
    u ← parse_unit factor index
    (us, end) ← parse_units factor n (unit + 1) (index + unit_size l)
    ok (u ∷ us, end)

  unfoldable pub parse_blocks : ℕ → ℕ → ℕ → ℕ → ℕ → Parsed (List Block × ℕ)
  parse_blocks factor lasers zero block index = ok ([], index)
  parse_blocks factor lasers (suc n) block index = do
    fault_unless (ltb block l.block_cap)
    lo ← read buf index
    hi ← read buf (index + 1)
    (us, next) ← parse_units factor lasers 0 (index + 2)
    (bs, end) ← parse_blocks factor lasers n (block + 1) next
    ok (record { azimuth = le16 lo hi; units = us } ∷ bs, end)

  -- `end` is the index behind the body.
  unfoldable pub parse_tail : Header → List Block → ℕ → Parsed Packet
  parse_tail h bs end = do
    t0 ← read buf (end + l.timestamp_at)
    t1 ← read buf (end + l.timestamp_at + 1)
    t2 ← read buf (end + l.timestamp_at + 2)
    t3 ← read buf (end + l.timestamp_at + 3)
    echo ← read buf (end + l.echo_at)
    year ← read buf (end + l.addtime_at)
    month ← read buf (end + l.addtime_at + 1)
    day ← read buf (end + l.addtime_at + 2)
    hour ← read buf (end + l.addtime_at + 3)
    min ← read buf (end + l.addtime_at + 4)
    sec ← read buf (end + l.addtime_at + 5)
    ok (record {
      header = h;
      blocks = bs;
      timestamp = le32 t0 t1 t2 t3;
      echo = echo;
      addtime = year ∷ month ∷ day ∷ hour ∷ min ∷ sec ∷ [];
    })

  unfoldable pub parse_packet : Bool → ℕ → Parsed Packet
  parse_packet signed len = do
    reject_unless (contains l.sizes len)
    h ← parse_header
    reject_unless (h.sob == 0xEEFF)
    (bs, end) ←
        parse_blocks (char_factor signed h.dis_unit) (char_rounds signed h.laser_number)
          (char_rounds signed h.block_number) 0 l.head_size
    parse_tail h bs end
