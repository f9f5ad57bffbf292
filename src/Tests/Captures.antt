-- ===== src/Tests/Captures.antt =====
-- A capture of 101 packets, and one QT packet in whose place its time stands.
use go2_setup.Shared.{ℕ, zero, suc, ◌≡◌, refl, arith, List, [], ◌∷◌, ◌++◌, ℤ, pos, negsuc}
use go2_setup.Wire.{ok, read}
use go2_setup.Wire.Utc.{Tm}
use go2_setup.Wire.Formats.{qt}
use go2_setup.Wire.Firings.{Firing, write_firings}
use go2_setup.Pcap.{Captured, Player, packet_ts, parse_pcap}
use go2_setup.Pcap.Schedule.{AllWhole, IsWhole, over, and_then, pass_all, parse_pcap-turns}
use go2_setup.Tests.Measures.{whole}
use go2_setup.Tests.Receiving.{idle}

abbrev seconds : Tm → ℤ
seconds t = pos t.tm_sec

abbrev pub times : {A : Type 0} → ℕ → A → List A → List A
times zero x xs = xs
times (suc n) x xs = x ∷ times n x xs

-- 42 bytes of headers, five microseconds, and the time of day.
abbrev captured : ℕ → ℕ → Captured whole
captured second now = record {
  len = 58;
  packet_buf = times 48 0 (5 ∷ 0 ∷ 0 ∷ 0 ∷ 21 ∷ 6 ∷ 15 ∷ 12 ∷ 0 ∷ second ∷ []);
  time = pos now;
  current_time = pos now;
}

abbrev positions_16 : ℕ × ℕ
positions_16 = (6, 10)

abbrev hundred_packets : List (Captured whole)
hundred_packets = times 100 (captured 1 500) (captured 3 1000000 ∷ [])

abbrev their_times : List ℤ
their_times = times 100 (pos 1000005) (pos 3000005 ∷ [])

first-IsWhole : IsWhole seconds whole positions_16 (captured 1 500) (pos 1000005)
unfolding packet_ts read
first-IsWhole = record {
  header = omega arith;
  short = omega arith;
  there = omega arith;
  stamp = refl;
}

last-IsWhole : IsWhole seconds whole positions_16 (captured 3 1000000) (pos 3000005)
unfolding packet_ts read
last-IsWhole = record {
  header = omega arith;
  short = omega arith;
  there = omega arith;
  stamp = refl;
}

many-AllWhole :
    (n : ℕ)
    → AllWhole seconds whole positions_16
        (times n (captured 1 500) (captured 3 1000000 ∷ []))
        (times n (pos 1000005) (pos 3000005 ∷ []))
many-AllWhole zero = and_then _ _ _ _ last-IsWhole over
many-AllWhole (suc n) = and_then _ _ _ _ first-IsWhole (many-AllWhole n)

abbrev beginning : Player whole
beginning = record {
  receiver = idle;
  count = pos 99;
  pacer = record { last_pkt_ts = pos 0; last_time = negsuc 6; waits = [] };
}

parse_pcap-turns_example :
    (q : Player whole) × (parse_pcap seconds whole positions_16 beginning hundred_packets ≡ ok q)
    × (q.receiver ≡ pass_all seconds whole positions_16 idle hundred_packets)
    × (q.pacer.waits ≡ pos 1000500 ∷ [])
parse_pcap-turns_example =
    parse_pcap-turns seconds whole positions_16 beginning hundred_packets their_times (pos 1000005)
      (pos 500) ((pos 3000005, pos 1000000) ∷ []) (omega arith) refl (many-AllWhole 100) refl refl
      refl (refl, (refl, tt))

-- Four firings of 64 lasers.
abbrev full_firing : Firing
full_firing = record {
  azimuth = 100;
  returns = times 64 (record { range = 500; intensity = 7; confidence = 1 }) [];
}

abbrev four_firings : List Firing
four_firings = full_firing ∷ full_firing ∷ full_firing ∷ full_firing ∷ []

abbrev tail28 : List ℕ
tail28 = times 12 0 (5 ∷ 0 ∷ 0 ∷ 0 ∷ 0x39 ∷ 0 ∷ 21 ∷ 6 ∷ 15 ∷ 12 ∷ 30 ∷ 59 ∷ 0 ∷ 0 ∷ 0 ∷ 0 ∷ [])

abbrev qt_packet : List ℕ
qt_packet =
    0xEE ∷ 0xFF ∷ 3 ∷ 1 ∷ 0 ∷ 0 ∷ 64 ∷ 4 ∷ 0 ∷ 4 ∷ 0 ∷ 0 ∷ (write_firings qt four_firings ++ tail28)
