-- ===== src/Tcp/Header.antt =====
-- The eight bytes in front of every command and reply.
use go2_setup.Shared.{◌+◌, ◌*◌, ◌^◌, ◌<◌, ◌≡◌, arith, drop, byte_of}
use go2_setup.Tcp.{TcpCommandHeader, header_parser, build_header}

-- The header that `TcpCommand_buildHeader` writes is the one that `tcpCommandHeaderParser` reads
-- behind the two bytes of the magic number, if its length fits 32 bits.
pub header_parser-build_header :
    (h : TcpCommandHeader) → h.len < 2 ^ 32 → header_parser (drop 2 (build_header h)) ≡ h
unfolding header_parser build_header
header_parser-build_header h hl =
    let e : byte_of h.len 3 * 16777216
          + byte_of h.len 2 * 65536
          + byte_of h.len 1 * 256
          + byte_of h.len 0
        ≡ h.len =
      omega arith in
    rw e
