-- ===== src/Lib.antt =====
-- The lidar driver of go2_sensors_docker/hesai_lidar_src, in its part HesaiLidar_General_SDK: what
-- happens to a packet of a Hesai Pandar lidar from the ring buffer to the point cloud, and the command
-- client that reads and writes the lidar's calibration. In the paths below SDK stands for
-- go2_sensors_docker/hesai_lidar_src/src/HesaiLidar_General_SDK/src and RAW for
-- SDK/PandarGeneralRaw/src.
--
-- The receiving thread pushes UDP packets into a ring of 36000; the processing thread polls it, chooses
-- a parser by the packet's size and the lidar's type, parses, computes points, and cuts the stream of
-- blocks into frames by azimuth, which go to a callback with the raw packets they came from.
--
-- Shared: names of the libraries, tests, lists, bytes and integers over the native numbers.
-- PacketsBuffer (RAW/pandarGeneral_internal.h, PacketsBuffer_s): the ring, with the array as a function
--   of the index and the two iterators as indices; one call of `poll` is a round of the reader up to
--   moveIterCalc. The two threads are a list of events in the order in which they happen, each whole.
-- Wire (RAW/pandarGeneral_internal.{h,cc}, pandarQT.h, pandarXT.h): ParseL64Data, ParseL20Data,
--   ParseQTData and ParseXTData are one loop, `parse_packet`, at the four layouts of Wire.Formats, since
--   they differ only in sizes and positions; Wire.Pandar40 is ParseRawData. A parser gives a packet, a
--   rejection for -1, or a fault for an access outside the buffer or the structure's arrays. Distances
--   are in millimetres; `char` is signed or not by a parameter. Numbers wrap at 2 ^ 32 where the source
--   multiplies unsigned.
-- Points (the five Calc...PointXYZIT of RAW/pandarGeneral_internal.cc): floating point arithmetic, the
--   tables of sines and mktime are parameters (`Floats`, `Tables`); the integer steps, the choice of
--   units and the choice of offsets are written out.
-- Offsets (Init of RAW/pandarGeneral_internal.cc, RAW/pandarXT.h): the tables of firing times, in units
--   of 10^-4 microseconds, as lists of assignments or array literals.
-- Frame (ProcessLiarPacket, EmitBackMessege; Frame.Cutter is the specification): the azimuth test, the
--   point buffers PointCloud and PointCloudList, the scan, the emitted frames and the timestamp that goes
--   with them. SaveCorrectionFile is a parameter. PointCloud has 1000000 elements; a write past them
--   raises a flag, `overrun`, from where on the state is not the program's.
-- Driver (ProcessLiarPacket): one whole round of the thread with a packet in hand. It is a fault if a
--   write went past PointCloud, or a point of a seventh block of a Pandar64 asked for an offset. Driver.Cuts
--   is the specification of it.
-- Receiver (RecvTask, ParseGPS, ProcessGps, FillPacket): one round of the receiving thread; a
--   `getPacket` that answers -1 is none.
-- Pipeline (RecvTask, ProcessLiarPacket): the receiving and the processing thread with the ring between
--   them, as a list of rounds in the order in which they happen, each whole. Pipeline.Refine puts a
--   queue in the place of the ring, and Pipeline.Frames is the specification of both threads together;
--   Pipeline.Sockets begins at the answers of the socket calls.
-- Util (SDK/util.c): sys_readn and sys_writen over lists of what read and write answer, tcp_open and
--   select_fd over the answers of their calls.
-- Tcp (SDK/tcp_command_client.c): the header, ReadCommand, SendCmd with its lock and socket as a list of
--   actions, the four calibration commands, the making of a client, and SendCmd together with tcp_open;
--   the server's answers are a record.
-- Correction (LoadCorrectionFile, SaveCorrectionFile of RAW/pandarGeneral_internal.cc): texts are lists
--   of bytes; how the stream library prints and reads numbers, and what uninitialised arrays hold, are
--   parameters (`Numerals`, `Locals`).
-- Replay (PushScanPacket of RAW/pandarGeneral_internal.cc): the packets of a recorded scan, with the
--   memory behind the buffers that get no null byte as a parameter.
-- Input (RAW/input.cc, RecvTask): the sockets, `getPacket` over the answers of poll and recvfrom, and
--   the loop of the receiving thread over it, round by round.
-- Pcap (RAW/pcap_reader.cpp): the positions of a packet's time by the lidar's type, the pacing in
--   microseconds as integers, and the loop, over the packets that libpcap gives.
-- Sdk (SDK/pandarGeneral_sdk.cc): GetCalibrationFromDevice, which joins Tcp, Correction and Replay.
-- Lifecycle (RAW/pandarGeneral_internal.cc, RAW/pcap_reader.cpp, SDK/pandarGeneral_sdk.cc): Start, Stop
--   and the destructors, with threads as numbers and a log of what is done to them; a join is taken to
--   return, since the flag of the thread's loop is cleared before.
-- Angles (Init of RAW/pandarGeneral_internal.cc, pandarQT.h, pandarXT.h): the built-in tables of angles,
--   in thousandths of a degree, and the choice among them.
-- Setup (the constructors of SDK/pandarGeneral_sdk.cc, RAW/pandarGeneral.cc and
--   RAW/pandarGeneral_internal.cc, and Init): the arguments in the order of the source, the tables of
--   sines and cosines with sinf, cosf and M_PI as parameters (`Trig`), and the variable TZ.
-- Facade (SDK/pandarGeneral_sdk.cc, RAW/pandarGeneral.cc): the calls that two classes pass on.
-- Node (go2_sensors_docker/hesai_lidar_src/src/main_ros2.cc, main.cc): the parameters of the nodes, the
--   modes of the ROS 2 node, the SDK that it makes, the source of the table of
--   angles at its start, its messages, and the topic that it hears itself on.
-- Tests: the theorems at concrete inputs.
--
-- All loops are structural recursion on a count or a list; no fuel is used.
--
-- Not modelled: libpcap, the socket calls, PCL and ROS themselves; the conversion of a cloud to a message
-- in the nodes; the loading of a capture's correction file in the ROS 1 node (main.cc), which the build
-- file does not build, and the nodelet around it; sin_lookup_table_ and cos_lookup_table_, which are never
-- read. The header fields that ROS gets with a cloud (frame_id, height, width) are left out of the frames.
pub mod Shared
pub mod PacketsBuffer
pub mod Wire
pub mod Frame
pub mod Offsets
pub mod Points
pub mod Driver
pub mod Receiver
pub mod Correction
pub mod Replay
pub mod Input
pub mod Pcap
pub mod Sdk
pub mod Lifecycle
pub mod Angles
pub mod Pipeline
pub mod Setup
pub mod Facade
pub mod Node
pub mod Util
pub mod Tcp
pub mod Tests
