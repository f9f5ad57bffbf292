-- ===== src/Wire/Pandar40.antt =====
-- Pandar40P and Pandar40M: ten blocks of forty units and no header, `ParseRawData`.
pub mod RoundTrip
use go2_setup.Shared.{
  ℕ, zero, suc, ◌+◌, ◌*◌, ◌/◌, ◌%◌, ◌&&◌, ◌||◌, List, [], ◌∷◌, ltb, ◌==◌, if◌then◌else◌, le16, le32,
}
use go2_setup.Wire.{Parsed, ok, ◌>>=◌, ◌>>◌, reject_unless, read}
use go2_setup.Wire.Utc.{Tm, tm_of_addtime}

-- `distance` in millimetres: a count of the lidar is 0.004 m.
pub record Pandar40Unit : Type 0 where
  pub intensity : ℕ
  pub distance : ℕ

pub record Pandar40Block : Type 0 where
  pub azimuth : ℕ
  pub sob : ℕ
  pub units : List Pandar40Unit

pub record Pandar40Packet : Type 0 where
  pub blocks : List Pandar40Block
  pub t : Tm
  pub usec : ℕ
  pub echo : ℕ

abbrev pub laser_count : ℕ
laser_count = 40

abbrev pub blocks_per_packet : ℕ
blocks_per_packet = 10

abbrev pub block_size : ℕ
block_size = 3 * laser_count + 4

-- Timestamp, factory, echo, reserved bytes and revolution.
abbrev pub info_size : ℕ
info_size = 4 + 1 + 1 + 8 + 2

abbrev pub packet_size : ℕ
packet_size = block_size * blocks_per_packet + info_size + 6

abbrev pub seq_num_size : ℕ
seq_num_size = 4

-- The filter for wrong data, on the metres 0x010101 and 200 * 1000 / 2.
unfoldable pub filter_unit : ℕ → ℕ → Pandar40Unit
filter_unit distance intensity =
    if (distance == 0x010101 * 1000) && (intensity == 0x0101)
      || ltb (200 * 1000 / 2 * 1000) distance
    then record { distance = 0; intensity = 0 }
    else record { distance = distance; intensity = intensity }

module _ (buf : List ℕ) where
  unfoldable pub parse_raw_units : ℕ → ℕ → Parsed (List Pandar40Unit × ℕ)
  parse_raw_units zero index = ok ([], index)
  parse_raw_units (suc n) index = do
    lo ← read buf index
    hi ← read buf (index + 1)
    intensity ← read buf (index + 2)
    (us, end) ← parse_raw_units n (index + 3)
    ok (filter_unit (le16 lo hi * 4) intensity ∷ us, end)

  unfoldable pub parse_raw_blocks : ℕ → ℕ → Parsed (List Pandar40Block × ℕ)
  parse_raw_blocks zero index = ok ([], index)
  parse_raw_blocks (suc n) index = do
    s0 ← read buf index
    s1 ← read buf (index + 1)
    a0 ← read buf (index + 2)
    a1 ← read buf (index + 3)
    (us, next) ← parse_raw_units laser_count (index + 4)
    (bs, end) ← parse_raw_blocks n next
    ok (record { azimuth = le16 a0 a1; sob = le16 s0 s1; units = us } ∷ bs, end)

  -- The reserved bytes and the revolution are skipped, then the factory byte behind the echo.
  unfoldable pub parse_raw_tail : List Pandar40Block → ℕ → Parsed Pandar40Packet
  parse_raw_tail bs end = do
    t0 ← read buf (end + 10)
    t1 ← read buf (end + 11)
    t2 ← read buf (end + 12)
    t3 ← read buf (end + 13)
    echo ← read buf (end + 14)
    year ← read buf (end + 16)
    month ← read buf (end + 17)
    day ← read buf (end + 18)
    hour ← read buf (end + 19)
    min ← read buf (end + 20)
    sec ← read buf (end + 21)
    ok (record {
      blocks = bs;
      t = tm_of_addtime (year ∷ month ∷ day ∷ hour ∷ min ∷ sec ∷ []);
      usec = le32 t0 t1 t2 t3 % 1000000;
      echo = echo;
    })

  unfoldable pub parse_raw_data : ℕ → Parsed Pandar40Packet
  parse_raw_data len = do
    reject_unless ((len == packet_size) || (len == packet_size + seq_num_size))
    (bs, end) ← parse_raw_blocks blocks_per_packet 0
    parse_raw_tail bs end
