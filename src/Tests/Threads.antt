-- ===== src/Tests/Threads.antt =====
-- The two threads on a few turns.
use go2_setup.Shared.{ℕ, ◌≡◌, refl, arith, true, false, List, [], ◌∷◌, ◌++◌, inl, pos}
use go2_setup.PacketsBuffer.{push_back, poll, has_enough_packets, move_iter_calc}
use go2_setup.PacketsBuffer.Invariant.{IsValid, held}
use go2_setup.Wire.{ok}
use go2_setup.Driver.{UdpPacket, process_lidar_packet, route, is_xt_packet}
use go2_setup.Receiver.{push_lidar_data, recv_round}
use go2_setup.Pipeline.{Turn, receives, processes, System, process_round, turn, run_turns}
use go2_setup.Pipeline.Refine.{Refines, FewWait, model_of, model_turns, run_turns-Refines}
use go2_setup.Pipeline.Order.{process_all, lidar_packets, run_turns-Ordered}
use go2_setup.Frame.Cutter.{Cutter}
use go2_setup.Frame.Cutter.Refine as Cut
use go2_setup.Points.{Point}
use go2_setup.Driver.{pandar64}
use go2_setup.Driver.Cuts.{Delivered, of_firings, ignored}
use go2_setup.Tests.Packets.{firings, tail22}
use go2_setup.Tests.Measures.{whole}
use go2_setup.Tests.Receiving.{idle}
use go2_setup.Tests.Streams.{device, first_round, stray, packet64}

abbrev at_first : System whole ℕ
at_first = record { receiver = idle; framer = first_round }

abbrev three_turns : List (Turn whole)
three_turns = receives stray ∷ receives stray ∷ processes ∷ []

at_first-IsValid : IsValid at_first.receiver.ring
at_first-IsValid = record { push_in = omega arith; calc_in = omega arith; idle = inl refl }

at_first-FewWait :
    FewWait whole device
      (λ n. 99)
      (λ p. p.size)
      (λ t. pos 0)
      true
      (model_of whole device (λ n. 99) (λ p. p.size) (λ t. pos 0) true at_first)
      three_turns
unfolding FewWait process_lidar_packet route is_xt_packet
at_first-FewWait = (omega arith, (omega arith, (omega arith, omega arith)))

run_turns-Refines_example :
    Refines whole device
      (λ n. 99)
      (λ p. p.size)
      (λ t. pos 0)
      true
      (run_turns whole device (λ n. 99) (λ p. p.size) (λ t. pos 0) true at_first three_turns)
      (model_turns whole device
        (λ n. 99)
        (λ p. p.size)
        (λ t. pos 0)
        true
        (model_of whole device (λ n. 99) (λ p. p.size) (λ t. pos 0) true at_first)
        three_turns)
run_turns-Refines_example =
    run_turns-Refines whole device (λ n. 99) (λ p. p.size) (λ t. pos 0) true three_turns at_first
      at_first-IsValid at_first-FewWait

abbrev at_last : System whole ℕ
at_last = record {
  receiver = record idle { ring = (poll (push_back (push_back idle.ring stray).0 stray).0).0 };
  framer = first_round;
}

their_end :
    run_turns whole device (λ n. 99) (λ p. p.size) (λ t. pos 0) true at_first three_turns
    ≡ ok at_last
unfolding run_turns turn process_round recv_round push_lidar_data poll push_back has_enough_packets
    move_iter_calc process_lidar_packet route is_xt_packet
their_end = refl

run_turns-Ordered_example :
    (taken : List (UdpPacket whole)) × (process_all whole device
        (λ n. 99)
        (λ p. p.size)
        first_round
        taken
      ≡ ok first_round)
    × (taken ++ held at_last.receiver.ring ≡ held idle.ring ++ lidar_packets whole three_turns)
run_turns-Ordered_example =
    run_turns-Ordered whole device (λ n. 99) (λ p. p.size) (λ t. pos 0) true three_turns at_first
      at_last at_first-IsValid at_first-FewWait their_end

-- Nothing has been pushed yet.
abbrev from_new : System whole ℕ
from_new = record {
  receiver = record idle { ring = record idle.ring { start_flag = false } };
  framer = first_round;
}

abbrev arrivals : List (Turn whole)
arrivals = receives packet64 ∷ receives packet64 ∷ processes ∷ []

abbrev full_packet : Delivered whole
full_packet = record { packet = packet64; content = of_firings pandar64 firings tail22 }

abbrev stray_packet : Delivered whole
stray_packet = record { packet = stray; content = ignored }

abbrev pub nothing_cut : Cutter (Point whole) ℕ
nothing_cut = record { last_azimuth = 0; waiting = []; scan = []; emitted = [] }

pub first_round-Refines : (lasers : ℕ) → Cut.Refines false lasers first_round nothing_cut
first_round-Refines lasers = record {
  azimuth = refl;
  clouds = (refl, λ r. refl);
  below = tt;
  scan = refl;
  emitted = refl;
  in_bounds = refl;
}

abbrev three_arrivals : List (Turn whole)
three_arrivals = receives packet64 ∷ receives stray ∷ receives packet64 ∷ []
