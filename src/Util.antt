-- ===== src/Util.antt =====
-- The reading and writing loops of util.c over a socket. What `read` and `write` answer is a list of
-- events, in the order of the calls.
pub mod Readn
pub mod Writen
pub mod Sockets
use go2_setup.Shared.{
  ℕ, zero, suc, ◌+◌, ◌-◌, ◌^◌, Bool, true, false, List, [], ◌∷◌, ◌++◌, Option, none, some, leb, ltb,
  if◌then◌else◌, length, take, drop,
}

-- What arrives at a socket: one or more bytes, an interrupted call, or an error. The end of the list
-- is the end of the stream, where `read` answers 0.
pub data Arrival : Type 0 where
  bytes : ℕ → List ℕ → Arrival
  interrupted : Arrival
  failed : Arrival

-- The first bytes joined to what the rest of the loop comes to.
abbrev pub prepend : List ℕ → Option (List ℕ) × List Arrival → Option (List ℕ) × List Arrival
prepend xs (none, r) = (none, r)
prepend xs (some ys, r) = (some (xs ++ ys), r)

-- The bytes that a `read` has left in the socket.
abbrev pub unread : List ℕ → List Arrival → List Arrival
unread [] r = r
unread (x ∷ xs) r = bytes x xs ∷ r

-- The loop of `sys_readn` with `nleft` bytes to go: the bytes that were read, none for the return of
-- -1, and what is left of the stream. `read` delivers at most `nleft` bytes of what has arrived.
unfoldable pub sys_readn : List Arrival → ℕ → Option (List ℕ) × List Arrival
sys_readn [] nleft = (some [], [])
sys_readn (interrupted ∷ as') nleft =
    let rest = sys_readn as' nleft in if leb nleft 0 then (some [], interrupted ∷ as') else rest
sys_readn (failed ∷ as') nleft = if leb nleft 0 then (some [], failed ∷ as') else (none, as')
sys_readn (bytes b bs ∷ as') nleft =
    let rest = sys_readn as' (nleft - suc (length bs)) in
    if leb nleft 0
    then (some [], bytes b bs ∷ as')
    else if leb (suc (length bs)) nleft
    then prepend (b ∷ bs) rest
    else (some (take nleft (b ∷ bs)), unread (drop nleft (b ∷ bs)) as')

-- What `write` answers: some bytes taken, at least one; an interrupted call; an error or 0.
pub data Answer : Type 0 where
  took : ℕ → Answer
  again : Answer
  refused : Answer

-- The loop of `sys_writen` with these bytes to go: whether it returns `n` (or -1), and the bytes that
-- went out. `write` takes at most the bytes that are left; a socket that answers no more blocks.
unfoldable pub sys_writen : List Answer → List ℕ → Option Bool × List ℕ
sys_writen answers [] = (some true, [])
sys_writen [] (x ∷ xs) = (none, [])
sys_writen (again ∷ as') (x ∷ xs) = sys_writen as' (x ∷ xs)
sys_writen (refused ∷ as') (x ∷ xs) = (some false, [])
sys_writen (took k ∷ as') (x ∷ xs) =
    let (r, sent) = sys_writen as' (drop (suc k) (x ∷ xs)) in (r, take (suc k) (x ∷ xs) ++ sent)
