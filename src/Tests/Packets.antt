-- ===== src/Tests/Packets.antt =====
-- The parsers on small packets.
use go2_setup.Shared.{
  ◌<◌, Bool, ◌&&◌, ltb, IsByte, ℕ, zero, suc, ◌≡◌, refl, true, false, List, [], ◌∷◌, ◌++◌, arith,
  length, inl, All, replicate, map,
}
use go2_setup.Wire.{ok, fault, Packet, contains, parse_packet, char_rounds}
use go2_setup.Wire.Formats.{l64, l64_6packet_size}
use go2_setup.Wire.Firings.{Firing, write_firings}
use go2_setup.Wire.RoundTrip.{HeaderFits, Holds, packet_in, header_in, parse_packet-Holds}
use go2_setup.Wire.Bounds.{Counts, block_rounds, parse_packet-total}
use go2_setup.Wire.Outcome.{Where}
use go2_setup.Wire.Ranges.{PacketInRange, parse_packet-InRange}
use go2_setup.Wire.Overrun.{parse_packet_overrun}
use go2_setup.Wire.Pandar40.{laser_count, blocks_per_packet, packet_size, parse_raw_data}
use go2_setup.Wire.Pandar40.RoundTrip.{
  Echo, Shot, EchoFits, ShotFits, write_shots, block_of, packet_with, parse_raw_data-write,
}

-- Two firings of two lasers each.
abbrev pub firings : List Firing
firings =
    record {
      azimuth = 1000;
      returns =
          record { range = 500; intensity = 7; confidence = 0 }
          ∷ record { range = 300; intensity = 9; confidence = 0 }
          ∷ [];
    }
    ∷ record {
      azimuth = 1020;
      returns =
          record { range = 501; intensity = 6; confidence = 0 }
          ∷ record { range = 60000; intensity = 255; confidence = 0 }
          ∷ [];
    }
    ∷ []

abbrev pub tail22 : List ℕ
tail22 = replicate 10 0 ++ (1 ∷ 2 ∷ 3 ∷ 4 ∷ 0x39 ∷ 0 ∷ 21 ∷ 6 ∷ 15 ∷ 12 ∷ 30 ∷ 59 ∷ [])

abbrev pub head : ℕ → List ℕ
head blocks = 0xEE ∷ 0xFF ∷ 2 ∷ blocks ∷ 0 ∷ 4 ∷ 0 ∷ 0 ∷ []

abbrev pub small_packet : List ℕ
small_packet = head 2 ++ (write_firings l64 firings ++ tail22)

l64-HeaderFits : HeaderFits l64
l64-HeaderFits = record { head = omega arith; protocol = tt }

pub small-Holds : Holds l64 small_packet 2 firings tail22
small-Holds = record {
  sob_hi = refl;
  sob_lo = refl;
  lasers_in = refl;
  blocks_in = refl;
  dis_unit = omega arith;
  few_lasers = omega arith;
  few_blocks = omega arith;
  unit_room = omega arith;
  block_room = omega arith;
  fires = (
    (omega arith, refl, (omega arith, (omega arith, tt))),
    ((omega arith, refl, (omega arith, (omega arith, tt))), tt),
  );
  long = omega arith;
  body = refl;
  tail_room = record { timestamp = omega arith; echo = omega arith; addtime = omega arith };
}

accepted : contains l64.sizes l64_6packet_size ≡ true
unfolding contains
accepted = refl

parse_packet-Holds_example :
    parse_packet l64 small_packet true l64_6packet_size
    ≡ ok (packet_in l64 small_packet firings tail22)
parse_packet-Holds_example =
    parse_packet-Holds l64 true small_packet l64_6packet_size 2 firings tail22 l64-HeaderFits
      accepted small-Holds

small-Counts : Counts l64 small_packet true
unfolding char_rounds
small-Counts = record {
  blocks = omega arith;
  lasers = omega arith;
  timestamp = omega arith;
  echo = omega arith;
  addtime = omega arith;
}

parse_packet-total_example :
    (p : Packet) × (parse_packet l64 small_packet true l64_6packet_size ≡ ok p)
    × (p.header ≡ header_in l64 small_packet)
    × (length p.blocks ≡ block_rounds l64 small_packet true)
parse_packet-total_example =
    parse_packet-total l64 small_packet true l64_6packet_size l64-HeaderFits (omega arith) accepted
      refl small-Counts

not_accepted : contains l64.sizes 100 ≡ false
unfolding contains
not_accepted = refl

abbrev many_blocks : List ℕ
many_blocks = head 9 ++ (write_firings l64 firings ++ tail22)

many : 7 < block_rounds l64 many_blocks true
unfolding char_rounds
many = omega arith

parse_packet_overrun_example : parse_packet l64 many_blocks true l64_6packet_size ≡ fault
parse_packet_overrun_example =
    parse_packet_overrun l64 many_blocks true l64_6packet_size l64-HeaderFits (omega arith) accepted
      refl many

-- A Pandar40 packet of ten equal blocks.
abbrev pub echo : Echo
echo = record { range = 1500; intensity = 30 }

abbrev pub shot : Shot
shot = record { sob = 0xEEFF; azimuth = 4500; echoes = replicate laser_count echo }

echo-EchoFits : EchoFits echo
echo-EchoFits = (omega arith, omega arith)

pub All-replicate : {A : Type 0} (P : A → Type 0) (n : ℕ) (a : A) → P a → All P (replicate n a)
All-replicate P zero a h = tt
All-replicate P (suc n) a h = (h, All-replicate P n a h)

pub shot-ShotFits : ShotFits shot
shot-ShotFits =
    (omega arith, omega arith, refl, All-replicate EchoFits laser_count echo echo-EchoFits)

abbrev pub shots : List Shot
shots = replicate blocks_per_packet shot

parse_raw_data-write_example :
    parse_raw_data (write_shots shots ++ tail22) packet_size
    ≡ ok (packet_with (map block_of shots) tail22)
parse_raw_data-write_example =
    parse_raw_data-write (write_shots shots ++ tail22) tail22 shots packet_size (inl refl) refl
      (All-replicate ShotFits blocks_per_packet shot shot-ShotFits) refl (omega arith)

abbrev all_bytes : List ℕ → Bool
all_bytes [] = true
all_bytes (x ∷ xs) = ltb x 256 && all_bytes xs

all_bytes_sound : (xs : List ℕ) → all_bytes xs ≡ true → All IsByte xs
all_bytes_sound [] h = tt
all_bytes_sound (x ∷ xs) h = (ground arith, all_bytes_sound xs (ground arith))

parse_packet-InRange_example :
    Where (PacketInRange l64 true) (parse_packet l64 small_packet true l64_6packet_size)
parse_packet-InRange_example =
    parse_packet-InRange l64 small_packet (all_bytes_sound small_packet refl) true l64_6packet_size
