-- ===== src/Receiver/Gps.antt =====
-- What the receiving thread does with GPS packets and with the others.
use go2_setup.Shared.{
  ℕ, ◌+◌, ◌*◌, ◌/◌, ◌%◌, ◌^◌, ◌<◌, ◌≡◌, ap, sym, List, [], ◌∷◌, ◌++◌, some, arith, Bool, true,
  false, ◌==◌, if◌then◌else◌, byte_of, le16-byte_of, le32-byte_of,
}
use go2_setup.PacketsBuffer.{PacketsBuffer}
use go2_setup.Wire.{Parsed, ok, rejected, fault, read}
use go2_setup.Wire.Utc.{Tm}
use go2_setup.Points.{Floats}
use go2_setup.Driver.{UdpPacket}
use go2_setup.Receiver.{
  PandarGps, gps_packet_size, masked, two_digits, parse_gps, tm_of_gps, Receiver, process_gps,
  push_lidar_data, if_parsed, recv_round, fill_packet,
}

-- The two ASCII digits of a number, the lower one first.
abbrev pub write_digits : ℕ → List ℕ → List ℕ
write_digits n rest = (0x30 + n % 10) ∷ (0x30 + n / 10) ∷ rest

abbrev pub write_gps : PandarGps → List ℕ → List ℕ
write_gps g rest =
    byte_of g.flag 0
    ∷ byte_of g.flag 1
    ∷ write_digits g.year (
        write_digits g.month (
          write_digits g.day (
            write_digits g.second (
              write_digits g.minute (
                write_digits g.hour (
                  byte_of g.fine_time 0
                  ∷ byte_of g.fine_time 1
                  ∷ byte_of g.fine_time 2
                  ∷ byte_of g.fine_time 3
                  ∷ rest))))))

pub record GpsFits (g : PandarGps) : Type 0 where
  pub flag : g.flag < 65536
  pub year : g.year < 100
  pub month : g.month < 100
  pub day : g.day < 100
  pub second : g.second < 100
  pub minute : g.minute < 100
  pub hour : g.hour < 100
  pub fine_time : g.fine_time < 2 ^ 32

masked-digits : (n : ℕ) → n < 100 → masked (0x30 + n % 10) + masked (0x30 + n / 10) * 10 ≡ n
masked-digits n h = omega arith

parse_gps-write :
    (g : PandarGps) (rest : List ℕ)
    → GpsFits g
    → parse_gps (write_gps g rest) gps_packet_size ≡ ok g
unfolding parse_gps two_digits read
parse_gps-write g rest fits = rw (
  le16-byte_of g.flag fits.flag,
  masked-digits g.year fits.year,
  masked-digits g.month fits.month,
  masked-digits g.day fits.day,
  masked-digits g.second fits.second,
  masked-digits g.minute fits.minute,
  masked-digits g.hour fits.hour,
  le32-byte_of g.fine_time fits.fine_time,
)

module _ (F : Floats) where
  -- A packet of the GPS size whose bytes are a flag, six numbers below 100 in ASCII digits with the
  -- lower one first, and a 32-bit time gives the callback, if there is one, the time of these
  -- numbers, with the month counted from 0 and the year from 1900, and leaves the ring alone.
  pub recv_round-write_gps :
      (unix_second : Tm → F.Double) (r : Receiver F) (p : UdpPacket F) (g : PandarGps)
      (rest : List ℕ)
      → p.size ≡ gps_packet_size
      → p.data_bytes ≡ write_gps g rest
      → GpsFits g
      → recv_round F true unix_second r (some p)
        ≡ ok (record r { gps_calls = r.gps_calls ++ (unix_second (tm_of_gps g) ∷ []) })
  unfolding recv_round process_gps
  recv_round-write_gps unix_second r p g rest size e fits =
      rw (size, e, parse_gps-write g rest fits)

  ring_or : PacketsBuffer (UdpPacket F) → Parsed (Receiver F) → PacketsBuffer (UdpPacket F)
  ring_or d (ok s) = s.ring
  ring_or d rejected = d
  ring_or d fault = d

  parsed-ring :
      (has_callback : Bool) (unix_second : Tm → F.Double) (r s : Receiver F) (o : Parsed PandarGps)
      → if_parsed F has_callback unix_second r o ≡ ok s
      → s.ring ≡ r.ring
  unfolding process_gps ring_or
  parsed-ring true unix_second r s (ok g) e = sym (ap (ring_or r.ring) e)
  parsed-ring false unix_second r s (ok g) e = sym (ap (ring_or r.ring) e)
  parsed-ring has_callback unix_second r s rejected e = sym (ap (ring_or r.ring) e)
  parsed-ring has_callback unix_second r s fault e = cc

  branches-ring :
      (has_callback : Bool) (unix_second : Tm → F.Double) (r s : Receiver F) (p : UdpPacket F)
      (is_gps : Bool) (o : Parsed PandarGps)
      → (if is_gps
          then if_parsed F has_callback unix_second r o
          else ok (push_lidar_data F has_callback unix_second r p))
        ≡ ok s
      → s.ring ≡ (if is_gps then r else push_lidar_data F has_callback unix_second r p).ring
  unfolding ring_or
  branches-ring has_callback unix_second r s p true o e =
      parsed-ring has_callback unix_second r s o e
  branches-ring has_callback unix_second r s p false o e = sym (ap (ring_or r.ring) e)

  -- Whenever the receiving thread's round ends without a fault, it has done the same to the ring as
  -- `FillPacket`: a packet of the GPS size never enters it, whether it parses or not, and any other
  -- does.
  pub recv_round-fill_packet :
      (has_callback : Bool) (unix_second : Tm → F.Double) (r s : Receiver F) (p : UdpPacket F)
      → recv_round F has_callback unix_second r (some p) ≡ ok s
      → s.ring ≡ (fill_packet F has_callback unix_second r p).ring
  unfolding recv_round fill_packet
  recv_round-fill_packet has_callback unix_second r s p e =
      branches-ring has_callback unix_second r s p (p.size == gps_packet_size)
        (parse_gps p.data_bytes p.size) e
