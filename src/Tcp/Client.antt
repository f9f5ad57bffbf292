-- ===== src/Tcp/Client.antt =====
-- `TcpCommandClientNew` of tcp_command_client.c, which copies the lidar's address into the client.
use go2_setup.Shared.{
  ℕ, suc, ◌-◌, ◌<◌, ◌≡◌, refl, Bool, true, false, not, List, [], ◌∷◌, ◌++◌, Option, none, some,
  arith, ltb, ◌==◌, if◌then◌else◌, length, replicate, ◌⊎◌, inl, inr, Bool-cases, ltb→lt, append-nil,
  length-append, length-replicate, ℤ, negsuc,
}
use go2_setup.Wire.{Parsed, ok, rejected, fault}
use go2_setup.Replay.{c_text}
use go2_setup.Replay.Saved.{NoNull, c_text-append}

-- `ip` is the array of 256 bytes.
pub record TcpCommandClient : Type 0 where
  pub ip : List ℕ
  pub port : ℕ
  pub fd : ℤ

abbrev pub ip_size : ℕ
ip_size = 256

-- `strncpy(client->ip, ip, strlen(ip))` onto an array of zeros: a fault for a copy beyond its end. The
-- text comes without its null byte; a null pointer, or no memory, gives null.
unfoldable pub tcp_command_client_new : Bool → Option (List ℕ) → ℕ → Parsed TcpCommandClient
tcp_command_client_new has_memory none port = rejected
tcp_command_client_new has_memory (some ip) port =
    if not has_memory
    then rejected
    else if ltb ip_size (length ip)
    then fault
    else ok (record { ip = ip ++ replicate (ip_size - length ip) 0; port = port; fd = negsuc 0 })

c_text-unended : (bs : List ℕ) → NoNull bs → c_text bs ≡ none
unfolding c_text
c_text-unended [] h = refl
c_text-unended (b ∷ bs) h =
    let e : (b == 0) ≡ false = ground (arith, h.0) in rw (e, c_text-unended bs h.1)

-- For an address without null bytes, with memory: one of fewer than 256 bytes makes a client of
-- that port whose array reads back as the address; one of 256 makes a client whose array has no
-- end; and a longer one is written past the array.
pub tcp_command_client_new-text :
    (ip : List ℕ) (port : ℕ)
    → NoNull ip
    → let made = tcp_command_client_new true (some ip) port in
      ((length ip < ip_size)
        × ((c : TcpCommandClient) × (made ≡ ok c)
            × (c_text c.ip ≡ some ip)
            × (length c.ip ≡ ip_size)
            × (c.port ≡ port)))
      ⊎ ((length ip ≡ ip_size) × ((c : TcpCommandClient) × (made ≡ ok c) × (c_text c.ip ≡ none)))
      ⊎ ((ip_size < length ip) × (made ≡ fault))
unfolding tcp_command_client_new
tcp_command_client_new-text ip port h = elim (Bool-cases (ltb (length ip) ip_size)) [
  | inl fits ↦
      let room : 256 - length ip ≡ suc (255 - length ip) = ground arith in
      inl (
        ground arith,
        (
          record { ip = ip ++ replicate (ip_size - length ip) 0; port = port; fd = negsuc 0 },
          ground arith,
          rw room (c_text-append ip (replicate (255 - length ip) 0) h),
          omega (
            arith,
            length-append ip (replicate (ip_size - length ip) 0),
            length-replicate {A = ℕ} (ip_size - length ip) 0,
            ltb→lt (length ip) ip_size fits,
          ),
          refl,
        ),
      )
  | inr full ↦ elim (Bool-cases (length ip == ip_size)) [
    | inl exact ↦
        let none_left : 256 - length ip ≡ 0 = ground arith in
        inr (
          inl (
            ground arith,
            (
              record { ip = ip ++ replicate (ip_size - length ip) 0; port = port; fd = negsuc 0 },
              ground arith,
              rw (none_left, append-nil ip) (c_text-unended ip h),
            ),
          ))
    | inr over ↦ inr (inr (ground arith, ground arith))
  ]
]
