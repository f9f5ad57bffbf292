-- ===== src/Tcp.antt =====
-- The command client of tcp_command_client.c, which reads and writes a lidar's calibration. What the
-- system calls answer is in a `Server`; what the client does to its lock and its socket is a list of
-- actions. The pointers to the client and the command are given, as in every call of `SendCmd`.
pub mod Header
pub mod Reply
pub mod Lock
pub mod Payload
pub mod Client
pub mod Session
use go2_setup.Shared.{
  ℕ, zero, suc, ◌+◌, ◌-◌, ◌*◌, ◌/◌, ◌%◌, ◌^◌, Bool, true, false, not, ◌&&◌, ◌||◌, List, [], ◌∷◌,
  ◌++◌, Option, none, some, ltb, leb, ◌==◌, if◌then◌else◌, length, take, get_or, byte_of,
}
use go2_setup.Util.{Arrival, sys_readn}

pub record TcpCommandHeader : Type 0 where
  pub cmd : ℕ
  pub ret_code : ℕ
  pub len : ℕ

-- None for a null pointer.
pub record TcCommand : Type 0 where
  pub header : TcpCommandHeader
  pub payload : Option (List ℕ)
  pub ret_data : Option (List ℕ)
  pub ret_size : ℕ

-- `PTC_ErrCode`
abbrev pub no_error : ℕ
no_error = 0

abbrev pub bad_parameter : ℕ
bad_parameter = 1

abbrev pub connect_server_failed : ℕ
connect_server_failed = 2

abbrev pub transfer_failed : ℕ
transfer_failed = 3

-- `PTC_COMMAND`
abbrev pub command_get_calibration : ℕ
command_get_calibration = 0

abbrev pub command_set_calibration : ℕ
command_set_calibration = 1

abbrev pub command_reset_calibration : ℕ
command_reset_calibration = 3

abbrev pub command_get_lidar_calibration : ℕ
command_get_lidar_calibration = 5

-- What `tcp_open`, the two calls of `write` (none for -1) and `malloc` answer, what arrives, and the
-- byte that `buffer[1]` holds before anything is read into it.
pub record Server : Type 0 where
  pub connects : Bool
  pub header_written : Option ℕ
  pub payload_written : Option ℕ
  pub incoming : List Arrival
  pub stack_byte : ℕ
  pub has_memory : ℕ → Bool

pub data Action : Type 0 where
  locked : Action
  opened : Action
  sent : List ℕ → Action
  closed : Action
  unlocked : Action

-- `tcpCommandHeaderParser` on the six bytes behind the magic number.
unfoldable pub header_parser : List ℕ → TcpCommandHeader
header_parser buffer = record {
  cmd = get_or buffer 0 0;
  ret_code = get_or buffer 1 0;
  len =
      get_or buffer 2 0 * 16777216
      + get_or buffer 3 0 * 65536
      + get_or buffer 4 0 * 256
      + get_or buffer 5 0;
}

unfoldable pub build_header : TcpCommandHeader → List ℕ
build_header h =
    0x47
    ∷ 0x74
    ∷ h.cmd
    ∷ h.ret_code
    ∷ byte_of h.len 3
    ∷ byte_of h.len 2
    ∷ byte_of h.len 1
    ∷ byte_of h.len 0
    ∷ []

-- The header and data of a reply; the data are null if the header announces none.
pub record Feedback : Type 0 where
  pub header : TcpCommandHeader
  pub reply_data : Option (List ℕ)

-- `sys_readn` in a chain of calls that each give up with -1: the bytes, if `good` accepts them.
abbrev pub reading :
    {B : Type 0}
    → (List ℕ → Bool)
    → Option (List ℕ) × List Arrival
    → (List ℕ → List Arrival → Option B)
    → Option B
reading good (none, rest) k = none
reading good (some bs, rest) k = if good bs then k bs rest else none

-- `ret <= 0 || buffer[0] != 0x47 || buffer[1] != 0x74`, negated.
abbrev pub is_magic : ℕ → List ℕ → Bool
is_magic stack_byte bs =
    not (length bs == 0) && get_or bs 0 0 == 0x47 && get_or bs 1 stack_byte == 0x74

-- The end of `tcpCommandReadCommand`: a length of 2 ^ 31 or more is a negative `int` for `sys_readn`,
-- which then reads nothing.
unfoldable pub read_payload : Server → TcpCommandHeader → List Arrival → Option Feedback
read_payload v h stream =
    if ltb 0 h.len && not (v.has_memory h.len) || leb (2 ^ 31) h.len
    then none
    else reading (λ bs. length bs == h.len) (sys_readn stream h.len)
        λ bs rest. some (record { header = h; reply_data = if ltb 0 h.len then some bs else none })

-- `tcpCommandReadCommand`, none for -1.
unfoldable pub read_command : Server → Option Feedback
read_command v = reading (is_magic v.stack_byte) (sys_readn v.incoming 2) λ magic rest.
    reading (λ bs. length bs == 6) (sys_readn rest 6)
      λ bs rest'. read_payload v (header_parser bs) rest'

-- What `SendCmd` comes to: its error code, the command after it and what it did; or a payload that is
-- shorter than its announced length, which `write` reads past.
pub data Outcome : Type 0 where
  returned : ℕ → TcCommand → List Action → Outcome
  overread : Outcome

abbrev pub wrote : Option ℕ → ℕ → Bool
wrote none n = false
wrote (some k) n = k == n

-- From the reply on.
unfoldable pub finish : TcCommand → List Action → Option Feedback → Outcome
finish c done none = returned transfer_failed c (done ++ (closed ∷ unlocked ∷ []))
finish c done (some r) =
    returned no_error
      (record c {
        header = record c.header { ret_code = r.header.ret_code };
        ret_data = r.reply_data;
        ret_size = r.header.len;
      })
      (done ++ (closed ∷ unlocked ∷ []))

-- The payload, then the reply.
unfoldable pub send_payload : Server → TcCommand → List Action → Option (List ℕ) → Outcome
send_payload v c done none = finish c done (read_command v)
send_payload v c done (some bytes) =
    if not (ltb 0 c.header.len)
    then finish c done (read_command v)
    else if ltb (length bytes) c.header.len
    then overread
    else if wrote v.payload_written c.header.len
    then finish c (done ++ (sent (take c.header.len bytes) ∷ [])) (read_command v)
    else returned transfer_failed c
        (done ++ (sent (take c.header.len bytes) ∷ closed ∷ unlocked ∷ []))

abbrev pub is_null : Option (List ℕ) → Bool
is_null none = true
is_null (some bs) = false

unfoldable pub send_cmd : Server → TcCommand → Outcome
send_cmd v c =
    if not (c.header.len == 0) && is_null c.payload
    then returned bad_parameter c []
    else if not v.connects
    then returned connect_server_failed c (locked ∷ unlocked ∷ [])
    else if wrote v.header_written 8
    then send_payload v c (locked ∷ opened ∷ sent (build_header c.header) ∷ []) c.payload
    else returned transfer_failed c
        (locked ∷ opened ∷ sent (build_header c.header) ∷ closed ∷ unlocked ∷ [])

-- `memset(&cmd, 0, sizeof(TC_Command))`, with the command, length and payload set.
abbrev pub command : ℕ → ℕ → Option (List ℕ) → TcCommand
command cmd len payload = record {
  header = record { cmd = cmd; ret_code = 0; len = len };
  payload = payload;
  ret_data = none;
  ret_size = 0;
}

-- What `printf` and `strdup` read: up to the first null byte, that one included; none if there is none,
-- where they read past the buffer.
abbrev pub c_string : List ℕ → Option (List ℕ)
c_string [] = none
c_string (b ∷ bs) =
    let rest = c_string bs in
    if b == 0 then some (b ∷ []) else elim rest [ none ↦ none | some cs ↦ some (b ∷ cs) ]

-- The code that an API function returns: the lidar's, unless `SendCmd` failed.
abbrev pub code_of : Outcome → Option ℕ
code_of (returned code c done) = some (if code == no_error then c.header.ret_code else code)
code_of overread = none

-- `set_calibration` once the buffer has been printed, with what it reads as.
unfoldable pub set_calibration_text : Server → ℕ → Option (List ℕ) → Option ℕ
set_calibration_text v len none = none
set_calibration_text v len (some text) =
    if len == 0
    then some bad_parameter
    else code_of (send_cmd v (command command_set_calibration len (some text)))

-- None for a read past the end. `given` says that no pointer is null; a null buffer is taken to be
-- printed without harm.
unfoldable pub set_calibration : Bool → Server → List ℕ → ℕ → Option ℕ
set_calibration given v buffer len =
    if not given then some bad_parameter else set_calibration_text v len (c_string buffer)

abbrev pub bytes_of : Option (List ℕ) → List ℕ
bytes_of none = []
bytes_of (some bs) = bs

-- The code with, after a success of `SendCmd`, what `*buffer` and `*len` are set to.
abbrev pub got : Outcome → Option (ℕ × Option (List ℕ × ℕ))
got overread = none
got (returned code c done) = some (
    if code == no_error
    then (c.header.ret_code, some (bytes_of c.ret_data ++ (0 ∷ []), c.ret_size + 1))
    else (code, none))

unfoldable pub get_calibration : Bool → Server → Option (ℕ × Option (List ℕ × ℕ))
get_calibration given v =
    if not given
    then some (bad_parameter, none)
    else got (send_cmd v (command command_get_calibration 0 none))

unfoldable pub get_lidar_calibration : Bool → Server → Option (ℕ × Option (List ℕ × ℕ))
get_lidar_calibration given v =
    if not given
    then some (bad_parameter, none)
    else got (send_cmd v (command command_get_lidar_calibration 0 none))

unfoldable pub reset_calibration : Bool → Server → Option ℕ
reset_calibration given v =
    if not given
    then some bad_parameter
    else code_of (send_cmd v (command command_reset_calibration 0 none))
