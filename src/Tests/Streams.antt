-- ===== src/Tests/Streams.antt =====
-- A device, two packets and their routes.
use go2_setup.Shared.{ℕ, ◌≡◌, refl, true, false, [], pos, some, none}
use go2_setup.Wire.Formats.{l64_6packet_size}
use go2_setup.Wire.Pandar40.{packet_size}
use go2_setup.Frame.{Framer}
use go2_setup.Points.{Point, Tables}
use go2_setup.Driver.{pandar64, pandar40, headed, other, route, is_xt_packet, UdpPacket, Device}
use go2_setup.Tests.Measures.{whole}
use go2_setup.Tests.Packets.{small_packet}

abbrev pub tables : Tables whole
tables = record {
  sin_azimuth = λ a. a;
  cos_azimuth = λ a. a;
  sin_azimuth_h = λ a. pos 0;
  cos_azimuth_h = λ a. pos 0;
  sin_azimuth_b = λ a. pos 0;
  cos_azimuth_b = λ a. pos 0;
  sin_elevation = λ r. pos r;
  cos_elevation = λ r. pos r;
  azimuth_offset = λ r. pos 0;
  block_offset_single = λ b. pos b;
  block_offset_dual = λ b. pos 0;
  block_offset_triple = λ b. pos 0;
  laser_offset = λ r. pos r;
  unix_second = λ t. pos 0;
  realtime = false;
  coordinate_correction = false;
  pkt_timestamp = pos 0;
}

abbrev pub device : Device whole
device = record {
  lidar_type = other;
  structured = false;
  has_callback = true;
  start_angle = 0;
  signed_char = true;
  tables = tables;
}

abbrev pub first_round : Framer (Point whole) ℕ
first_round = record {
  last_azimuth = 0;
  clouds = record {
    lists = λ r. [];
    cloud = λ i. record {
      x = pos 0;
      y = pos 0;
      z = pos 0;
      intensity = pos 0;
      timestamp = pos 0;
      ring = 0;
    };
    index = 0;
    out_msg = [];
    overrun = false;
  };
  scan = [];
  emitted = [];
}

abbrev pub packet64 : UdpPacket whole
packet64 = record { stamp = pos 9; data_bytes = small_packet; size = l64_6packet_size }

abbrev pub stray : UdpPacket whole
stray = record { stamp = pos 9; data_bytes = small_packet; size = 568 }

pub first_route : route other l64_6packet_size ≡ some (headed pandar64)
unfolding route
first_route = refl

pub second_route : route other packet_size ≡ some pandar40
unfolding route
second_route = refl

pub no_route : route other 568 ≡ none
unfolding route is_xt_packet
no_route = refl
