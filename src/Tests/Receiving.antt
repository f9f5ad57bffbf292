-- ===== src/Tests/Receiving.antt =====
-- The receiving thread on a GPS packet and on a lidar's.
use go2_setup.Shared.{◌≡◌, refl, true, [], ◌∷◌, some, arith, pos}
use go2_setup.Wire.{ok}
use go2_setup.Driver.{UdpPacket}
use go2_setup.Receiver.{PandarGps, Receiver, push_lidar_data, recv_round}
use go2_setup.Receiver.Gps.{write_gps, GpsFits}
use go2_setup.Tests.Measures.{whole}

abbrev pub noon : PandarGps
noon = record {
  flag = 0xFFEE;
  year = 21;
  month = 6;
  day = 15;
  second = 30;
  minute = 0;
  hour = 12;
  fine_time = 1000;
}

pub noon-GpsFits : GpsFits noon
noon-GpsFits = record {
  flag = omega arith;
  year = omega arith;
  month = omega arith;
  day = omega arith;
  second = omega arith;
  minute = omega arith;
  hour = omega arith;
  fine_time = omega arith;
}

abbrev gps_packet : UdpPacket whole
gps_packet = record { stamp = pos 0; data_bytes = write_gps noon []; size = 512 }

abbrev pub lidar_packet : UdpPacket whole
lidar_packet = record { stamp = pos 0; data_bytes = 1 ∷ 2 ∷ []; size = 1194 }

abbrev pub idle : Receiver whole
idle = record {
  ring = record { buffers = λ i. gps_packet; iter_push = 0; iter_calc = 0; start_flag = true };
  gps_calls = [];
}

pushed :
    recv_round whole true (λ t. pos 0) idle (some lidar_packet)
    ≡ ok (push_lidar_data whole true (λ t. pos 0) idle lidar_packet)
unfolding recv_round
pushed = refl
