-- ===== src/Tests/Commands.antt =====
-- The command client against concrete servers.
use go2_setup.Shared.{
  ℕ, ◌<◌, ◌≤◌, ◌≡◌, ◌⊎◌, refl, true, List, [], ◌∷◌, none, some, arith, length, pos, inr,
}
use go2_setup.Util.{bytes, interrupted}
use go2_setup.Tcp.{TcpCommandHeader, Server, send_cmd, command, c_string, set_calibration}
use go2_setup.Tcp.Client.{
  TcpCommandClient, ip_size, tcp_command_client_new, tcp_command_client_new-text,
}
use go2_setup.Tcp.Session.{Closes, send_cmd-Closes}
use go2_setup.Util.Sockets.{Network, tcp_open}
use go2_setup.Wire.{ok, fault}
use go2_setup.Replay.{c_text}
use go2_setup.Tcp.Payload.{set_calibration_overread}

abbrev reply : TcpCommandHeader
reply = record { cmd = 5; ret_code = 0; len = 3 }

-- A reply of three bytes in three pieces.
abbrev server : Server
server = record {
  connects = true;
  header_written = some 8;
  payload_written = some 3;
  incoming =
      bytes 0x47 []
      ∷ interrupted
      ∷ bytes 0x74 (5 ∷ 0 ∷ 0 ∷ 0 ∷ [])
      ∷ bytes 0 (3 ∷ 65 ∷ 66 ∷ 67 ∷ [])
      ∷ [];
  stack_byte = 0;
  has_memory = λ n. true;
}

abbrev seven : List ℕ
seven = 7 ∷ 0 ∷ 8 ∷ []

set_calibration_overread_example :
    ((c_string seven ≡ none) × (set_calibration true server seven 3 ≡ none))
    ⊎ ((text : List ℕ) × (c_string seven ≡ some text)
        × (((length text < 3) × (set_calibration true server seven 3 ≡ none))
            ⊎ ((3 ≤ length text)
                × ((code : ℕ) × (set_calibration true server seven 3 ≡ some code)))))
set_calibration_overread_example = set_calibration_overread server seven 3 (omega arith) refl refl

abbrev network : Network
network = record { socket = pos 7; is_address = λ ip. true; connects = true }

abbrev address : List ℕ
address = b'1' ∷ b'0' ∷ b'.' ∷ b'0' ∷ b'.' ∷ b'0' ∷ b'.' ∷ b'9' ∷ []

send_cmd-Closes_example :
    Closes network address 9347 (send_cmd server (command 1 3 (some (7 ∷ 8 ∷ 9 ∷ []))))
unfolding tcp_open
send_cmd-Closes_example =
    send_cmd-Closes network address 9347 server (command 1 3 (some (7 ∷ 8 ∷ 9 ∷ []))) (inr refl)
      refl

tcp_command_client_new-text_example :
    ((length address < ip_size)
      × ((c : TcpCommandClient) × (tcp_command_client_new true (some address) 9347 ≡ ok c)
          × (c_text c.ip ≡ some address)
          × (length c.ip ≡ ip_size)
          × (c.port ≡ 9347)))
    ⊎ ((length address ≡ ip_size)
        × ((c : TcpCommandClient) × (tcp_command_client_new true (some address) 9347 ≡ ok c)
            × (c_text c.ip ≡ none)))
    ⊎ ((ip_size < length address) × (tcp_command_client_new true (some address) 9347 ≡ fault))
tcp_command_client_new-text_example = tcp_command_client_new-text address 9347 (
  omega arith,
  (
    omega arith,
    (omega arith, (omega arith, (omega arith, (omega arith, (omega arith, (omega arith, tt)))))),
  ),
)
