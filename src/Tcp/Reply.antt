-- ===== src/Tcp/Reply.antt =====
-- What the client makes of a reply, however its bytes arrive.
use go2_setup.Shared.{
  ℕ, zero, suc, ◌+◌, ◌^◌, ◌<◌, ◌≡◌, refl, ap, ◌∙◌, Bool, true, false, not, ◌&&◌, List, [], ◌∷◌,
  ◌++◌, Option, none, some, arith, ltb, leb, ◌==◌, ==_refl, if◌then◌else◌, length, take, drop,
}
use go2_setup.Util.{Arrival, sys_readn}
use go2_setup.Util.Readn.{payload, IsSound, Returns, sys_readn_lem}
use go2_setup.Tcp.{
  TcpCommandHeader, Server, Feedback, header_parser, build_header, reading, is_magic, read_payload,
  read_command, finish, send_payload, send_cmd, command, got, bytes_of, get_calibration,
  get_lidar_calibration, command_get_calibration, command_get_lidar_calibration,
}
use go2_setup.Tcp.Header.{header_parser-build_header}

reading-Returns :
    {B : Type 0} (good : List ℕ → Bool) (n : ℕ) (xs : List ℕ) (o : Option (List ℕ) × List Arrival)
    (k : List ℕ → List Arrival → Option B)
    → Returns n xs o
    → good (take n xs) ≡ true
    → reading good o k ≡ k (take n xs) o.1
reading-Returns good n xs (none, r) k (e, f, s) g = cc
reading-Returns good n xs (some bs, r) k (e, f, s) g = ap (λ o. reading good (o, r) k) e ∙ rw g

-- The reply that the lidar sends.
abbrev pub reply_in : TcpCommandHeader → List ℕ → Feedback
reply_in h content = record { header = h; reply_data = if ltb 0 h.len then some content else none }

-- The stream holds this reply, with no failing read, and the reply's data can be stored.
pub record Replies (v : Server) (h : TcpCommandHeader) (content more : List ℕ) : Type 0 where
  pub sound : IsSound v.incoming
  pub stream : payload v.incoming ≡ build_header h ++ (content ++ more)
  pub short : h.len < 2 ^ 31
  pub size : length content ≡ h.len
  pub memory : v.has_memory h.len ≡ true

take-exact : (n : ℕ) (xs ys : List ℕ) → length xs ≡ n → take n (xs ++ ys) ≡ xs
take-exact zero [] ys e = refl
take-exact zero (x ∷ xs) ys e = absurd (omega arith)
take-exact (suc n) [] ys e = absurd (omega arith)
take-exact (suc n) (x ∷ xs) ys e = ap (◌∷◌ x) (take-exact n xs ys (omega arith))

read_payload-Returns :
    (v : Server) (h : TcpCommandHeader) (content more : List ℕ) (stream : List Arrival)
    → IsSound stream
    → payload stream ≡ content ++ more
    → h.len < 2 ^ 31
    → length content ≡ h.len
    → v.has_memory h.len ≡ true
    → read_payload v h stream ≡ some (reply_in h content)
unfolding read_payload
read_payload-Returns v h content more stream s e small size m =
    let e1 : (ltb 0 h.len && not (v.has_memory h.len)) ≡ false = ground (arith, m) in
    let e2 : leb (2 ^ 31) h.len ≡ false = ground arith in
    let e3 : take h.len (payload stream) ≡ content = rw e (take-exact h.len content more size) in
    let e4 : (length (take h.len (payload stream)) == h.len) ≡ true =
      rw (e3, size) (==_refl h.len) in
    rw (e1, e2)
      (reading-Returns (λ bs. length bs == h.len) h.len (payload stream) (sys_readn stream h.len) _
          (sys_readn_lem stream h.len s) e4
        ∙ rw e3)

-- A reply with a length below 2 ^ 31 that stands at the front of a stream without failing reads is
-- read as it was sent, in whatever pieces it arrives, if the client can allocate its data.
pub read_command-Replies :
    (v : Server) (h : TcpCommandHeader) (content more : List ℕ)
    → Replies v h content more
    → read_command v ≡ some (reply_in h content)
unfolding read_command build_header
read_command-Replies v h content more r =
    let p = sys_readn_lem v.incoming 2 r.sound in
    let stream1 = (sys_readn v.incoming 2).1 in
    let q = sys_readn_lem stream1 6 p.2 in
    let e1 : payload stream1 ≡ drop 2 (build_header h) ++ (content ++ more) =
      p.1 ∙ ap (drop 2) r.stream in
    let e2 : payload (sys_readn stream1 6).1 ≡ content ++ more = q.1 ∙ ap (drop 6) e1 in
    reading-Returns (is_magic v.stack_byte) 2 (payload v.incoming) (sys_readn v.incoming 2) _ p
      (ap (λ b. is_magic v.stack_byte (take 2 b)) r.stream)
    ∙ reading-Returns (λ bs. length bs == 6) 6 (payload stream1) (sys_readn stream1 6) _ q
        (ap (λ b. length (take 6 b) == 6) e1)
    ∙ ap (λ b. read_payload v (header_parser (take 6 b)) (sys_readn stream1 6).1) e1
    ∙ ap (λ k. read_payload v k (sys_readn stream1 6).1)
        (header_parser-build_header h (omega (arith, r.short)))
    ∙ read_payload-Returns v h content more (sys_readn stream1 6).1 q.2 e2 r.short r.size r.memory

content_of :
    (h : TcpCommandHeader) (content : List ℕ)
    → length content ≡ h.len
    → bytes_of (reply_in h content).reply_data ≡ content
content_of h [] e = let z : ltb 0 h.len ≡ false = ground arith in rw z
content_of h (x ∷ xs) e = let z : ltb 0 h.len ≡ true = ground arith in rw z

got_reply :
    (v : Server) (h : TcpCommandHeader) (content more : List ℕ) (cmd : ℕ)
    → v.connects ≡ true
    → v.header_written ≡ some 8
    → Replies v h content more
    → got (send_cmd v (command cmd 0 none))
      ≡ some (h.ret_code, some (content ++ (0 ∷ []), h.len + 1))
unfolding send_cmd send_payload finish
got_reply v h content more cmd c w r =
    simp (c, w, read_command-Replies v h content more r, content_of h content r.size)

-- If the client connects and its eight bytes are written, and a reply with a length below 2 ^ 31
-- waits on a stream without failing reads, with memory for it, then `GetCalibration` and
-- `GetLidarCalibration` return the reply's code and give out, whatever that code is, its content
-- with a null byte behind it and the length that counts this byte.
pub get_calibration-Replies :
    (v : Server) (h : TcpCommandHeader) (content more : List ℕ)
    → v.connects ≡ true
    → v.header_written ≡ some 8
    → Replies v h content more
    → (get_calibration true v ≡ some (h.ret_code, some (content ++ (0 ∷ []), h.len + 1)))
      × (get_lidar_calibration true v ≡ some (h.ret_code, some (content ++ (0 ∷ []), h.len + 1)))
unfolding get_calibration get_lidar_calibration
get_calibration-Replies v h content more c w r = (
  got_reply v h content more command_get_calibration c w r,
  got_reply v h content more command_get_lidar_calibration c w r,
)
