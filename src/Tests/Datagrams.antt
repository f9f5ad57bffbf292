-- ===== src/Tests/Datagrams.antt =====
-- Two datagrams of a Pandar40, from the socket to the frames.
use go2_setup.Shared.{ℕ, true, false, List, [], ◌∷◌, ◌++◌, pos}
use go2_setup.Wire.Pandar40.RoundTrip.{write_shots}
use go2_setup.Driver.Cuts.{Delivered, of_shots}
use go2_setup.Receiver.{Receiver}
use go2_setup.Input.{arrived, ready, Round}
use go2_setup.Input.Delivery.{whole_packet}
use go2_setup.Tests.Measures.{whole}
use go2_setup.Tests.Receiving.{idle}
use go2_setup.Tests.Packets.{tail22, shots}

abbrev datagram : List ℕ
datagram = write_shots shots ++ tail22

abbrev brings : Round whole
brings = record {
  time = pos 8;
  before = [];
  answer = ready (record { has_error = false; readable = true; datagram = arrived datagram } ∷ []);
}

abbrev turn_packet : Delivered whole
turn_packet = record {
  packet = whole_packet whole (pos 8) datagram;
  content = of_shots shots tail22;
}

abbrev empty : Receiver whole
empty = record idle { ring = record idle.ring { start_flag = false } }
