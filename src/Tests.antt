-- ===== src/Tests.antt =====
-- The theorems at concrete inputs, by component.
mod Buffer
mod Packets
mod Frames
mod Measures
mod Streams
mod Commands
mod Receiving
mod Sockets
mod Corrections
mod Captures
mod Inputs
mod Recordings
mod Threads
mod Datagrams
mod Nodes
