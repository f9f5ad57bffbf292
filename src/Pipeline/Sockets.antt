-- ===== src/Pipeline/Sockets.antt =====
-- From the answers of the socket calls to the frames: the receiving thread's loop, and the processing
-- thread on what it brought.
use go2_setup.Frame.Cutter.{Cutter}
use go2_setup.Receiver.{Receiver}
