-- ===== src/Util/Readn.antt =====
-- `sys_readn` against the bytes of the stream as one list.
use go2_setup.Shared.{
  ℕ, zero, suc, ◌-◌, ◌≤◌, ◌≡◌, refl, ap, sym, ◌∙◌, Bool-cases, inl, inr, false, List, [], ◌∷◌, ◌++◌,
  Option, none, some, arith, leb, length, take, drop,
}
use go2_setup.Util.{Arrival, bytes, interrupted, failed, prepend, unread, sys_readn}

-- All bytes of a stream.
abbrev pub payload : List Arrival → List ℕ
payload [] = []
payload (bytes b bs ∷ as') = b ∷ (bs ++ payload as')
payload (interrupted ∷ as') = payload as'
payload (failed ∷ as') = payload as'

-- No read of the stream fails.
abbrev pub IsSound : List Arrival → Type 0
IsSound [] = Unit {0}
IsSound (bytes b bs ∷ as') = IsSound as'
IsSound (interrupted ∷ as') = IsSound as'
IsSound (failed ∷ as') = ⊥

payload-unread : (xs : List ℕ) (as' : List Arrival) → payload (unread xs as') ≡ xs ++ payload as'
payload-unread [] as' = refl
payload-unread (x ∷ xs) as' = refl

unread-IsSound : (xs : List ℕ) (as' : List Arrival) → IsSound as' → IsSound (unread xs as')
unread-IsSound [] as' h = h
unread-IsSound (x ∷ xs) as' h = h

take-append :
    (n : ℕ) (xs ys : List ℕ) → length xs ≤ n → take n (xs ++ ys) ≡ xs ++ take (n - length xs) ys
take-append n [] ys h = ap (λ k. take k ys) (omega arith)
take-append zero (x ∷ xs) ys h = absurd (omega arith)
take-append (suc n) (x ∷ xs) ys h =
    let z : suc n - suc (length xs) ≡ n - length xs = omega arith in
    rw z (ap (◌∷◌ x) (take-append n xs ys (omega arith)))

drop-append_long :
    (n : ℕ) (xs ys : List ℕ) → length xs ≤ n → drop n (xs ++ ys) ≡ drop (n - length xs) ys
drop-append_long n [] ys h = ap (λ k. drop k ys) (omega arith)
drop-append_long zero (x ∷ xs) ys h = absurd (omega arith)
drop-append_long (suc n) (x ∷ xs) ys h =
    let z : suc n - suc (length xs) ≡ n - length xs = omega arith in
    rw z (drop-append_long n xs ys (omega arith))

take-append_short : (n : ℕ) (xs ys : List ℕ) → n ≤ length xs → take n (xs ++ ys) ≡ take n xs
take-append_short zero xs ys h = refl
take-append_short (suc n) [] ys h = absurd (omega arith)
take-append_short (suc n) (x ∷ xs) ys h = ap (◌∷◌ x) (take-append_short n xs ys (omega arith))

drop-append_short : (n : ℕ) (xs ys : List ℕ) → n ≤ length xs → drop n (xs ++ ys) ≡ drop n xs ++ ys
drop-append_short zero xs ys h = refl
drop-append_short (suc n) [] ys h = absurd (omega arith)
drop-append_short (suc n) (x ∷ xs) ys h = drop-append_short n xs ys (omega arith)

-- A loop's result that is the first `n` bytes of these, and leaves the others in a sound stream.
abbrev pub Returns : ℕ → List ℕ → Option (List ℕ) × List Arrival → Type 0
Returns n xs (r, rest) = (r ≡ some (take n xs)) × (payload rest ≡ drop n xs) × IsSound rest

Returns-prepend :
    (ys : List ℕ) (n : ℕ) (xs : List ℕ) (o : Option (List ℕ) × List Arrival)
    → length ys ≤ n
    → Returns (n - length ys) xs o
    → Returns n (ys ++ xs) (prepend ys o)
Returns-prepend ys n xs (none, r) h (e1, e2, e3) = cc
Returns-prepend ys n xs (some zs, r) h (e1, e2, e3) =
    rw (take-append n ys xs h, drop-append_long n ys xs h)
      (ap (λ o. (prepend ys (o, r)).0) e1, e2, e3)

Returns-short :
    (ys : List ℕ) (n : ℕ) (as' : List Arrival)
    → n ≤ length ys
    → IsSound as'
    → Returns n (ys ++ payload as') (some (take n ys), unread (drop n ys) as')
Returns-short ys n as' h s = (
  ap some (sym (take-append_short n ys (payload as') h)),
  payload-unread (drop n ys) as' ∙ sym (drop-append_short n ys (payload as') h),
  unread-IsSound (drop n ys) as' s,
)

-- On a stream without errors `sys_readn` returns the next `n` bytes, fewer only at the stream's end,
-- and leaves the others, whatever pieces they arrive in and however often a call is interrupted.
pub sys_readn_lem :
    (as' : List Arrival) (n : ℕ) → IsSound as' → Returns n (payload as') (sys_readn as' n)
unfolding sys_readn
sys_readn_lem [] zero h = (refl, refl, tt)
sys_readn_lem [] (suc n) h = (refl, refl, tt)
sys_readn_lem (interrupted ∷ as') zero h = (refl, refl, h)
sys_readn_lem (interrupted ∷ as') (suc n) h =
    let t : leb (suc n) 0 ≡ false = ground arith in rw t (sys_readn_lem as' (suc n) h)
sys_readn_lem (failed ∷ as') n h = absurd h
sys_readn_lem (bytes b bs ∷ as') zero h = (refl, refl, h)
sys_readn_lem (bytes b bs ∷ as') (suc n) h =
    let t : leb (suc n) 0 ≡ false = ground arith in
    elim (Bool-cases (leb (suc (length bs)) (suc n))) [
      | inl e ↦
          rw (t, e)
            (Returns-prepend (b ∷ bs) (suc n) (payload as')
              (sys_readn as' (suc n - suc (length bs))) (ground arith)
              (sys_readn_lem as' (suc n - suc (length bs)) h))
      | inr e ↦ rw (t, e) (Returns-short (b ∷ bs) (suc n) as' (ground arith) h)
    ]
