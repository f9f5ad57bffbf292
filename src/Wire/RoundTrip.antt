-- ===== src/Wire/RoundTrip.antt =====
-- The header, blocks and tail of a packet that a buffer holds by a layout, and its parse.
use go2_setup.Shared.{
  ℕ, suc, ◌+◌, ◌*◌, ◌≤◌, ◌<◌, ◌≡◌, refl, ap, ◌∙◌, Bool, true, List, [], ◌∷◌, ◌++◌, map, Option,
  none, some, arith, length, drop, get_or, le16, le32, drop-add, append_assoc,
}
use go2_setup.Wire.{
  ok, read, Header, Block, Packet, Layout, unit_size, read_protocol, parse_header, parse_tail,
  parse_packet, contains, char_rounds, char_factor,
}
use go2_setup.Wire.Read.{read_at, read_within}
use go2_setup.Wire.Firings.{
  FiresAll, Firing, block_of, drop-write_returns, parse_blocks-write, write_firings, write_returns,
}

-- The header, tail and packet that stand at the layout's positions of a buffer.
abbrev pub protocol_in : List ℕ → Option ℕ → Option (ℕ × ℕ)
protocol_in buf none = none
protocol_in buf (some at) = some (get_or buf at 0, get_or buf (at + 1) 0)

abbrev pub header_in : Layout → List ℕ → Header
header_in l buf = record {
  sob = le16 (get_or buf 1 0) (get_or buf 0 0);
  protocol = protocol_in buf l.protocol_at;
  laser_number = get_or buf l.laser_at 0;
  block_number = get_or buf (l.laser_at + 1) 0;
  return_type = get_or buf (l.laser_at + 2) 0;
  dis_unit = get_or buf (l.laser_at + 3) 0;
}

abbrev pub packet_with : Layout → Header → List Block → List ℕ → Packet
packet_with l h bs tail = record {
  header = h;
  blocks = bs;
  timestamp =
      le32 (get_or tail l.timestamp_at 0) (get_or tail (l.timestamp_at + 1) 0)
        (get_or tail (l.timestamp_at + 2) 0) (get_or tail (l.timestamp_at + 3) 0);
  echo = get_or tail l.echo_at 0;
  addtime =
      get_or tail l.addtime_at 0
      ∷ get_or tail (l.addtime_at + 1) 0
      ∷ get_or tail (l.addtime_at + 2) 0
      ∷ get_or tail (l.addtime_at + 3) 0
      ∷ get_or tail (l.addtime_at + 4) 0
      ∷ get_or tail (l.addtime_at + 5) 0
      ∷ [];
}

abbrev pub packet_in : Layout → List ℕ → List Firing → List ℕ → Packet
packet_in l buf fs =
    packet_with l (header_in l buf) (map (block_of l (get_or buf (l.laser_at + 3) 0)) fs)

-- The positions of the header's fields lie in the header.
abbrev pub ProtocolWithin : ℕ → Option ℕ → Type 0
ProtocolWithin n none = Unit
ProtocolWithin n (some at) = at + 1 < n

pub record HeaderFits (l : Layout) : Type 0 where
  pub head : l.laser_at + 3 < l.head_size
  pub protocol : ProtocolWithin l.head_size l.protocol_at

read_protocol_lem :
    (l : Layout) (buf : List ℕ) (at : Option ℕ) (n : ℕ)
    → ProtocolWithin n at
    → n ≤ length buf
    → read_protocol l buf at ≡ ok (protocol_in buf at)
unfolding read_protocol
read_protocol_lem l buf none n h hn = refl
read_protocol_lem l buf (some at) n h hn =
    ground (arith, read_within buf at, read_within buf (at + 1))

pub parse_header_lem :
    (l : Layout) (buf : List ℕ)
    → HeaderFits l
    → l.head_size ≤ length buf
    → parse_header l buf ≡ ok (header_in l buf)
unfolding parse_header
parse_header_lem l buf h n = ground (
  arith,
  read_within buf 0,
  read_within buf 1,
  read_protocol_lem l buf l.protocol_at l.head_size h.protocol n,
  read_within buf l.laser_at,
  read_within buf (l.laser_at + 1),
  read_within buf (l.laser_at + 2),
  read_within buf (l.laser_at + 3),
)

-- The tail is long enough for every field that is read from it.
pub record TailFits (l : Layout) (n : ℕ) : Type 0 where
  pub timestamp : l.timestamp_at + 3 < n
  pub echo : l.echo_at < n
  pub addtime : l.addtime_at + 5 < n

pub read_far :
    (buf tail : List ℕ) (end p k : ℕ)
    → drop end buf ≡ tail
    → p + k < length tail
    → read buf (end + p + k) ≡ ok (get_or tail (p + k) 0)
read_far buf tail end p k e h = ap (read buf) (omega arith) ∙ read_at buf tail end (p + k) e h

pub parse_tail_lem :
    (l : Layout) (buf tail : List ℕ) (h : Header) (bs : List Block) (end : ℕ)
    → TailFits l (length tail)
    → drop end buf ≡ tail
    → parse_tail l buf h bs end ≡ ok (packet_with l h bs tail)
unfolding parse_tail
parse_tail_lem l buf tail h bs end fits e = rw (
  read_at buf tail end l.timestamp_at e (omega arith),
  read_far buf tail end l.timestamp_at 1 e (omega arith),
  read_far buf tail end l.timestamp_at 2 e (omega arith),
  read_far buf tail end l.timestamp_at 3 e (omega arith),
  read_at buf tail end l.echo_at e (omega arith),
  read_at buf tail end l.addtime_at e (omega arith),
  read_far buf tail end l.addtime_at 1 e (omega arith),
  read_far buf tail end l.addtime_at 2 e (omega arith),
  read_far buf tail end l.addtime_at 3 e (omega arith),
  read_far buf tail end l.addtime_at 4 e (omega arith),
  read_far buf tail end l.addtime_at 5 e (omega arith),
)

-- A buffer that holds the packet of these firings and this tail.
pub record Holds (l : Layout) (buf : List ℕ) (lasers : ℕ) (fs : List Firing) (tail : List ℕ)
    : Type 0 where
  pub sob_hi : get_or buf 0 0 ≡ 0xEE
  pub sob_lo : get_or buf 1 0 ≡ 0xFF
  pub lasers_in : get_or buf l.laser_at 0 ≡ lasers
  pub blocks_in : get_or buf (l.laser_at + 1) 0 ≡ length fs
  pub dis_unit : get_or buf (l.laser_at + 3) 0 < 128
  pub few_lasers : lasers < 128
  pub few_blocks : length fs < 128
  pub unit_room : lasers ≤ l.unit_cap
  pub block_room : length fs ≤ l.block_cap
  pub fires : FiresAll l lasers fs
  pub long : l.head_size ≤ length buf
  pub body : drop l.head_size buf ≡ write_firings l fs ++ tail
  pub tail_room : TailFits l (length tail)

drop-write_firings :
    (l : Layout) (lasers : ℕ) (fs : List Firing) (tail : List ℕ)
    → FiresAll l lasers fs
    → drop ((2 + unit_size l * lasers) * length fs) (write_firings l fs ++ tail) ≡ tail
drop-write_firings l lasers [] tail h =
    let z : (2 + unit_size l * lasers) * 0 ≡ 0 = omega arith in rw z
drop-write_firings l lasers (f ∷ fs) tail h =
    let z : (2 + unit_size l * lasers) * suc (length fs)
        ≡ suc (suc (unit_size l * length f.returns + (2 + unit_size l * lasers) * length fs)) =
      grind arith in
    rw (z, append_assoc (write_returns l f.returns) (write_firings l fs) tail)
      (drop-add _ (write_firings l fs ++ tail) (unit_size l * length f.returns) _
          (drop-write_returns l f.returns (write_firings l fs ++ tail))
        ∙ drop-write_firings l lasers fs tail h.1)

pub char_rounds_small : (signed : Bool) (b : ℕ) → b < 128 → char_rounds signed b ≡ b
unfolding char_rounds
char_rounds_small signed b h = ground arith

char_factor_small : (signed : Bool) (b : ℕ) → b < 128 → char_factor signed b ≡ b
unfolding char_factor
char_factor_small signed b h = ground arith

-- The tail stands behind the last firing.
pub Holds-tail :
    (l : Layout) (buf : List ℕ) (lasers : ℕ) (fs : List Firing) (tail : List ℕ)
    → Holds l buf lasers fs tail
    → drop (l.head_size + (2 + unit_size l * lasers) * length fs) buf ≡ tail
Holds-tail l buf lasers fs tail h =
    drop-add buf _ l.head_size _ h.body ∙ drop-write_firings l lasers fs tail h.fires

-- A buffer that starts with 0xEEFF and a header with counts below 128 that fit the arrays and a
-- distance unit below 128, and goes on with that many firings, each number in its field's range,
-- and a tail as long as the layout's, parses, for an accepted size, to exactly the packet of these
-- firings, for either sign of `char`.
pub parse_packet-Holds :
    (l : Layout) (signed : Bool) (buf : List ℕ) (len lasers : ℕ) (fs : List Firing) (tail : List ℕ)
    → HeaderFits l
    → contains l.sizes len ≡ true
    → Holds l buf lasers fs tail
    → parse_packet l buf signed len ≡ ok (packet_in l buf fs tail)
unfolding parse_packet
parse_packet-Holds l signed buf len lasers fs tail fits size h = ground (
  arith,
  parse_header_lem l buf fits h.long,
  char_rounds_small signed lasers h.few_lasers,
  char_rounds_small signed (length fs) h.few_blocks,
  char_factor_small signed (get_or buf (l.laser_at + 3) 0) h.dis_unit,
  parse_blocks-write l buf tail (get_or buf (l.laser_at + 3) 0) lasers fs 0 l.head_size h.fires
      h.unit_room (omega arith) h.body,
  parse_tail_lem l buf tail (header_in l buf) (map (block_of l (get_or buf (l.laser_at + 3) 0)) fs)
      (l.head_size + (2 + unit_size l * lasers) * length fs) h.tail_room
      (Holds-tail l buf lasers fs tail h),
)
