-- ===== src/Tests/Inputs.antt =====
-- Sockets, rounds of the receiving thread, threads and angles at concrete values.
use go2_setup.Shared.{
  ℕ, ◌≡◌, refl, arith, true, false, List, [], ◌∷◌, none, some, Bool, get_elem?, ℤ, pos,
}
use go2_setup.Wire.{ok}
use go2_setup.Driver.{UdpPacket}
use go2_setup.Receiver.Gps.{write_gps}
use go2_setup.Input.{
  Opening, Input, failed_socket, open_input, close_input, arrived, would_block, PollFd, Poll,
  timed_out, ready, get_packet, Round, recv_task,
}
use go2_setup.Input.Bounds.{IsBounded, fds_of, get_packet-IsBounded}
use go2_setup.Input.Delivery.{
  Event, nothing, lidar, gps, times_out, brings_lidar, brings_gps, AllGive, over, and_then,
  recv_task-AllGive,
}
use go2_setup.Lifecycle.{General, SdkThreads, destroy, destroy_sdk, stop_sdk}
use go2_setup.Lifecycle.Runs.{calls, new, Phase, running, held, calls-new}
use go2_setup.Lifecycle.Doubled.{destroy_sdk-stop_sdk}
use go2_setup.Pcap.{pandar64}
use go2_setup.Angles.{horizatal_azimuth_offset_map}
use go2_setup.PacketsBuffer.Invariant.{IsValid}
use go2_setup.PacketsBuffer.Invariant as Invariant
use go2_setup.Receiver.{Receiver}
use go2_setup.Shared.{inl, ◌++◌}
use go2_setup.Tests.Measures.{whole}
use go2_setup.Tests.Captures.{times}
use go2_setup.Tests.Receiving.{idle, noon, noon-GpsFits}

abbrev fine : ℕ → Opening
fine d = record { descriptor = pos d; binds = true; nonblocking = true }

abbrev unset : ℤ → Input
unset d = record { socket_for_lidar = pos 0; socket_for_gps = d; socket_number = 77 }

abbrev quiet_fd : PollFd
quiet_fd = record { has_error = false; readable = false; datagram = would_block }

abbrev full_fd : List ℕ → PollFd
full_fd bs = record { has_error = false; readable = true; datagram = arrived bs }

abbrev three_bytes : Poll
three_bytes = ready (quiet_fd ∷ full_fd (1 ∷ 2 ∷ 3 ∷ []) ∷ [])

abbrev three_packet : UdpPacket whole
three_packet = record { stamp = pos 8; data_bytes = 1 ∷ 2 ∷ 3 ∷ []; size = 3 }

received : get_packet whole (pos 8) [] three_bytes ≡ ok three_packet
unfolding get_packet go2_setup.Input.receive_first go2_setup.Input.accept
received = refl

get_packet-IsBounded_example : IsBounded whole [] (fds_of three_bytes) three_packet
get_packet-IsBounded_example =
    get_packet-IsBounded whole (pos 8) [] three_bytes three_packet received

abbrev gps_bytes : List ℕ
gps_bytes = write_gps noon (times 494 0 [])

abbrev rounds : List (Round whole)
rounds =
    record { time = pos 7; before = []; answer = timed_out }
    ∷ record { time = pos 8; before = []; answer = three_bytes }
    ∷ record { time = pos 9; before = []; answer = ready (full_fd gps_bytes ∷ quiet_fd ∷ []) }
    ∷ []

abbrev events : List Event
events = nothing ∷ lidar (1 ∷ 2 ∷ 3 ∷ []) ∷ gps noon ∷ []

rounds-AllGive : AllGive whole rounds events
rounds-AllGive = and_then _ _ _ _ times_out (
    and_then _ _ _ _ (brings_lidar _ (1 ∷ 2 ∷ 3 ∷ []) refl refl (omega arith) (omega arith))
      (and_then _ _ _ _ (brings_gps _ noon (times 494 0 []) refl refl refl noon-GpsFits) over))

idle-IsValid : IsValid idle.ring
idle-IsValid = record { push_in = omega arith; calc_in = omega arith; idle = inl refl }

recv_task-AllGive_example :
    (r' : Receiver whole) × (recv_task whole true (λ t. pos t.tm_hour) idle rounds ≡ ok r')
    × (Invariant.held r'.ring ≡ Invariant.held idle.ring ++ (three_packet ∷ []))
    × (r'.gps_calls ≡ pos 12 ∷ [])
    × IsValid r'.ring
unfolding go2_setup.Receiver.tm_of_gps
recv_task-AllGive_example =
    recv_task-AllGive whole (λ t. pos t.tm_hour) idle rounds events idle-IsValid (omega arith)
      rounds-AllGive

abbrev start_twice_and_stop : List Bool
start_twice_and_stop = true ∷ true ∷ false ∷ true ∷ []

calls-new_example :
    (g : General) × (calls start_twice_and_stop (some (new false)) ≡ some g)
    × Phase g true
    × (running [] g.log ≡ some (held g))
    × (running [] (destroy g).log ≡ some [])
calls-new_example = calls-new false start_twice_and_stop

abbrev calibrating : SdkThreads
calibrating = record {
  general = new true;
  get_calibration_thr = some 2;
  enable_get_calibration_thr = true;
}

destroy_sdk-stop_sdk_example : running [] (destroy_sdk (stop_sdk calibrating)) ≡ none
destroy_sdk-stop_sdk_example = destroy_sdk-stop_sdk calibrating 2 refl

laser_8 : get_elem? (horizatal_azimuth_offset_map pandar64) 8 ≡ some (pos 5208)
unfolding horizatal_azimuth_offset_map
laser_8 = refl
