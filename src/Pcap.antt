-- ===== src/Pcap.antt =====
-- The player of recorded captures, pcap_reader.cpp. What libpcap and the clocks answer for each packet
-- is a record; `mktime` is a parameter.
pub mod Integers
pub mod Schedule
pub mod Positions
use go2_setup.Shared.{
  ℕ, zero, suc, ◌+◌, ◌-◌, ◌*◌, ◌^◌, Bool, true, false, not, ◌&&◌, ◌||◌, List, [], ◌∷◌, ◌++◌, Option,
  none, some, ltb, leb, ◌==◌, if◌then◌else◌, length, take, drop, ℤ, pos, negsuc, ltb_ℤ, ◌+ℤ◌, ◌-ℤ◌,
  sub_ℕ, le32,
}
use go2_setup.Wire.{Parsed, ok, rejected, fault, fault_unless, read, ◌>>=◌, ◌>>◌}
use go2_setup.Wire.Utc.{Tm}
use go2_setup.Points.{Floats}
use go2_setup.Driver.{UdpPacket}
use go2_setup.Replay.{ethernet_mtu}
use go2_setup.Receiver.{gps_packet_size, Receiver, fill_packet}

-- The strings that `m_timeIndexMap` has, and all others.
pub data FrameId : Type 0 where
  pandar40p : FrameId
  pandar40m : FrameId
  pandar64 : FrameId
  pandar_qt : FrameId
  pandar20a : FrameId
  pandar20b : FrameId
  pandar_xt32 : FrameId
  pandar_xt16 : FrameId
  pandar_xtm : FrameId
  other : FrameId

-- `m_iTsIndex` and `m_iUTCIndex`.
unfoldable pub time_index : FrameId → ℕ × ℕ
time_index pandar40p = (1250, 1256)
time_index pandar40m = (1250, 1256)
time_index pandar64 = (1182, 1188)
time_index pandar_qt = (1056, 1062)
time_index pandar20a = (1258, 1264)
time_index pandar20b = (1258, 1264)
time_index pandar_xt32 = (1071, 1065)
time_index pandar_xt16 = (559, 553)
time_index pandar_xtm = (811, 805)
time_index other = (0, 0)

-- The headers of Ethernet, IP and UDP.
abbrev pub pkt_header_size : ℕ
pkt_header_size = 42

abbrev pub gap : ℕ
gap = 100

-- The bits of an `int`.
abbrev pub int32 : ℕ → ℤ
int32 n = if ltb n (2 ^ 31) then pos n else sub_ℕ n (2 ^ 32)

abbrev pub micros : ℤ → ℤ
micros (pos n) = pos (n * 1000000)
micros (negsuc n) = negsuc (n * 1000000 + 999999)

abbrev pub is_zero : ℤ → Bool
is_zero (pos n) = n == 0
is_zero (negsuc n) = false

-- `last_pkt_ts`, `last_time`, and the times that `select` was asked to wait for, newest last.
pub record Pacer : Type 0 where
  pub last_pkt_ts : ℤ
  pub last_time : ℤ
  pub waits : List ℤ

-- The branches on `last_pkt_ts`, from the packet's time and the clock's.
unfoldable pub pace : Pacer → ℤ → ℤ → Pacer
pace p pkt_ts current_time =
    let sleep_time = (pkt_ts -ℤ p.last_pkt_ts) -ℤ (current_time -ℤ p.last_time) in
    if is_zero p.last_pkt_ts
    then record p { last_pkt_ts = pkt_ts; last_time = current_time }
    else record {
      last_pkt_ts = pkt_ts;
      last_time = current_time +ℤ sleep_time;
      waits = if ltb_ℤ (pos 0) sleep_time then p.waits ++ (sleep_time ∷ []) else p.waits;
    }

abbrev pub is_timed : ℤ → ℕ × ℕ → Bool
is_timed count index = not (ltb_ℤ count (pos gap)) && not (index.1 == 0)

module _ (F : Floats) where
  open F use {Double}

  -- A packet of the file: the length in its header, the bytes that are there, and the clocks when
  -- it is passed on and when it is timed.
  pub record Captured : Type 0 where
    pub len : ℕ
    pub packet_buf : List ℕ
    pub time : Double
    pub current_time : ℤ

  -- `count` is an `int` that nothing sets at first.
  pub record Player : Type 0 where
    pub receiver : Receiver F
    pub count : ℤ
    pub pacer : Pacer

  abbrev pub payload : Captured → List ℕ
  payload c = drop pkt_header_size c.packet_buf

  -- The call of `FillPacket`, which copies all but a GPS packet into an array of 1500 bytes.
  unfoldable pub call_back : Receiver F → Captured → Parsed (Receiver F)
  call_back r c = do
    fault_unless (leb pkt_header_size c.len)
    fault_unless (
        c.len - pkt_header_size == gps_packet_size
        || leb (c.len - pkt_header_size) ethernet_mtu && leb c.len (length c.packet_buf))
    ok (
        fill_packet F false (λ t. c.time) r
          (record {
            stamp = c.time;
            data_bytes = take (c.len - pkt_header_size) (payload c);
            size = c.len - pkt_header_size;
          }))

  abbrev pub timed : Player → Captured → ℤ → Player
  timed p c ts = record p { count = pos 0; pacer = pace p.pacer ts c.current_time }

module _ (mktime : Tm → ℤ) where
  -- `pkt_ts` of a packet, at the positions of the timestamp and of the time of day.
  unfoldable pub packet_ts : ℕ × ℕ → List ℕ → Parsed ℤ
  packet_ts (ts, utc) packet = do
    year ← read packet utc
    month ← read packet (utc + 1)
    day ← read packet (utc + 2)
    hour ← read packet (utc + 3)
    minute ← read packet (utc + 4)
    second ← read packet (utc + 5)
    t0 ← read packet ts
    t1 ← read packet (ts + 1)
    t2 ← read packet (ts + 2)
    t3 ← read packet (ts + 3)
    ok (
        micros (
          mktime (record {
            tm_year = year;
            tm_mon = sub_ℕ month 1;
            tm_mday = day;
            tm_hour = hour;
            tm_min = minute;
            tm_sec = second;
          }))
        +ℤ int32 (le32 t0 t1 t2 t3))

  module _ (F : Floats) where
    -- What follows the callback: `count++` and every hundredth packet's time.
    unfoldable pub keep_pace : ℕ × ℕ → Player F → Captured F → Parsed (Player F)
    keep_pace index p c =
        fault_unless (ltb_ℤ p.count (pos (2 ^ 31 - 1)))
        >> (if is_timed (p.count +ℤ pos 1) index
            then (packet_ts index (payload F c) >>= λ ts. ok (timed F p c ts))
            else ok (record p { count = p.count +ℤ pos 1 }))

    unfoldable pub play_one : ℕ × ℕ → Player F → Captured F → Parsed (Player F)
    play_one index p c = do
      r ← call_back F p.receiver c
      keep_pace index (record p { receiver = r }) c

    -- The loop of `parsePcap`, over the packets that it gets before `pcap_next_ex` ends it or `loop` is
    -- cleared.
    unfoldable pub parse_pcap : ℕ × ℕ → Player F → List (Captured F) → Parsed (Player F)
    parse_pcap index p [] = ok p
    parse_pcap index p (c ∷ cs) = do q ← play_one index p c; parse_pcap index q cs
