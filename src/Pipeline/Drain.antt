-- ===== src/Pipeline/Drain.antt =====
-- How far the processing thread gets while nothing arrives.
mod Waiting
use go2_setup.Shared.{
  zero, suc, ◌+◌, ◌*◌, ◌≤◌, refl, true, false, Option, none, some, take, ◌==◌, if◌then◌else◌,
  Bool-cases, inl, inr,
}
use go2_setup.PacketsBuffer.Fifo.{take_oldest}
use go2_setup.Wire.{Parsed, rejected, fault}
use go2_setup.Wire.Outcome.{Where, Where-bind, Where-map}
use go2_setup.Frame.Cutter.{Cutter}
use go2_setup.Driver.{process_lidar_packet}
use go2_setup.Receiver.{PandarGps, gps_packet_size, parse_gps}
use go2_setup.Pipeline.{receives}
use go2_setup.Pipeline.Refine.{
  Model, with_gps, with_oldest, model_turn, model_turns, run_turns-Refines,
}
use go2_setup.Pipeline.Refine as Refine
