-- ===== src/Pcap/Positions.antt =====
-- The positions at which the reader looks for a packet's time, against the parsers' positions.
use go2_setup.Shared.{ℕ, ◌+◌, ◌<◌, ◌≤◌, ◌⊎◌, ◌≡◌, Option, none, some, ℤ, ◌+ℤ◌}
use go2_setup.Wire.{Layout, Packet}
use go2_setup.Wire.Bounds.{extent}
use go2_setup.Wire.Formats.{l64, l20, qt, xt}
use go2_setup.Wire.Utc.{Tm, tm_of_addtime}
use go2_setup.Pcap.{
  FrameId, pandar40p, pandar40m, pandar64, pandar_qt, pandar20a, pandar20b, pandar_xt32,
  pandar_xt16, pandar_xtm, other, int32, micros,
}

-- The format of a lidar's packets, and how many blocks and lasers a full one has; none for Pandar40,
-- whose packets have no header, and for a name that the table lacks.
abbrev pub shape : FrameId → Option (Layout × ℕ × ℕ)
shape pandar40p = none
shape pandar40m = none
shape pandar64 = some (l64, 6, 64)
shape pandar_qt = some (qt, 4, 64)
shape pandar20a = some (l20, 20, 20)
shape pandar20b = some (l20, 20, 20)
shape pandar_xt32 = some (xt, 8, 32)
shape pandar_xt16 = some (xt, 8, 16)
shape pandar_xtm = some (xt, 6, 32)
shape other = none

abbrev pub positions : Option (Layout × ℕ × ℕ) → ℕ × ℕ → ℕ × ℕ
positions none index = index
positions (some (l, blocks, lasers)) index =
    (extent l blocks lasers + l.timestamp_at, extent l blocks lasers + l.addtime_at)

-- The time that a packet carries, as the parser puts it together, but for the year.
abbrev pub time_in : (Tm → ℤ) → ℕ → Packet → ℤ
time_in mktime year p =
    micros (mktime (record (tm_of_addtime p.addtime) { tm_year = year })) +ℤ int32 p.timestamp

-- The parser adds 100 years to a year below 100, which counts from 2000; the reader adds none.
abbrev pub IsCenturyEarly : ℕ → ℕ → Type 0
IsCenturyEarly year parsed =
    ((year < 100) × (year + 100 ≡ parsed)) ⊎ ((100 ≤ year) × (year ≡ parsed))
