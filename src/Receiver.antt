-- ===== src/Receiver.antt =====
-- The receiving thread, `RecvTask` of pandarGeneral_internal.cc, with the GPS packets that it handles
-- itself (`ParseGPS`, `ProcessGps`), and `FillPacket`, which takes its place in a replay.
pub mod Gps
use go2_setup.Shared.{
  ℕ, ◌+◌, ◌-◌, ◌*◌, ◌/◌, ◌%◌, List, [], ◌∷◌, ◌++◌, Option, none, some, Bool, true, false, ◌==◌,
  if◌then◌else◌, le16, le32, sub_ℕ,
}
use go2_setup.PacketsBuffer.{PacketsBuffer, push_back}
use go2_setup.Wire.{Parsed, ok, rejected, fault, reject_unless, read, ◌>>=◌, ◌>>◌}
use go2_setup.Wire.Utc.{Tm}
use go2_setup.Points.{Floats}
use go2_setup.Driver.{UdpPacket}

-- `PandarGPS`
pub record PandarGps : Type 0 where
  pub flag : ℕ
  pub year : ℕ
  pub month : ℕ
  pub day : ℕ
  pub second : ℕ
  pub minute : ℕ
  pub hour : ℕ
  pub fine_time : ℕ

abbrev pub gps_packet_size : ℕ
gps_packet_size = 512

-- `b & 0xff - 0x30` of a byte: `-` binds tighter than `&`, so this is the mask 0xcf, without the bits
-- of 16 and 32.
abbrev pub masked : ℕ → ℕ
masked b = b - b / 16 % 4 * 16

module _ (recvbuf : List ℕ) where
  -- Two digits at `index`, the lower one first.
  unfoldable pub two_digits : ℕ → Parsed ℕ
  two_digits index = do
    lo ← read recvbuf index
    hi ← read recvbuf (index + 1)
    ok (masked lo + masked hi * 10)

  unfoldable pub parse_gps : ℕ → Parsed PandarGps
  parse_gps size = do
    reject_unless (size == gps_packet_size)
    f0 ← read recvbuf 0
    f1 ← read recvbuf 1
    year ← two_digits 2
    month ← two_digits 4
    day ← two_digits 6
    second ← two_digits 8
    minute ← two_digits 10
    hour ← two_digits 12
    t0 ← read recvbuf 14
    t1 ← read recvbuf 15
    t2 ← read recvbuf 16
    t3 ← read recvbuf 17
    ok (record {
      flag = le16 f0 f1;
      year = year;
      month = month;
      day = day;
      second = second;
      minute = minute;
      hour = hour;
      fine_time = le32 t0 t1 t2 t3;
    })

-- The `struct tm` of `ProcessGps`, whose `tm_isdst` is 0.
unfoldable pub tm_of_gps : PandarGps → Tm
tm_of_gps g = record {
  tm_year = g.year + 100;
  tm_mon = sub_ℕ g.month 1;
  tm_mday = g.day;
  tm_hour = g.hour;
  tm_min = g.minute;
  tm_sec = g.second;
}

module _ (F : Floats) where
  open F use {Double}

  -- The ring, and what `gps_callback_` was given so far, newest last.
  pub record Receiver : Type 0 where
    pub ring : PacketsBuffer (UdpPacket F)
    pub gps_calls : List Double

  -- `unix_second` is `mktime` with `tz_second_` added.
  module _ (has_callback : Bool) (unix_second : Tm → Double) where
    unfoldable pub process_gps : Receiver → PandarGps → Receiver
    process_gps r g =
        if has_callback
        then record r { gps_calls = r.gps_calls ++ (unix_second (tm_of_gps g) ∷ []) }
        else r

    unfoldable pub push_lidar_data : Receiver → UdpPacket F → Receiver
    push_lidar_data r p = record r { ring = (push_back r.ring p).0 }

    abbrev pub if_parsed : Receiver → Parsed PandarGps → Parsed Receiver
    if_parsed r (ok g) = ok (process_gps r g)
    if_parsed r rejected = ok r
    if_parsed r fault = fault

    -- One round of the loop; none for a `getPacket` that answers -1.
    unfoldable pub recv_round : Receiver → Option (UdpPacket F) → Parsed Receiver
    recv_round r none = ok r
    recv_round r (some p) =
        if p.size == gps_packet_size
        then if_parsed r (parse_gps p.data_bytes p.size)
        else ok (push_lidar_data r p)

    -- `FillPacket`: here a GPS packet is dropped.
    unfoldable pub fill_packet : Receiver → UdpPacket F → Receiver
    fill_packet r p = if p.size == gps_packet_size then r else push_lidar_data r p
