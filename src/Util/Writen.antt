-- ===== src/Util/Writen.antt =====
-- `sys_writen` and the bytes that go out.
use go2_setup.Shared.{
  ℕ, zero, suc, ◌≡◌, ◌≢◌, ◌⊎◌, inl, inr, refl, ap, sym, ◌∙◌, true, List, [], ◌∷◌, ◌++◌, some, take,
  drop, append_assoc, ◌≤◌, arith, length, length-drop,
}
use go2_setup.Util.{Answer, took, again, refused, sys_writen}

take-append-drop : (n : ℕ) (xs : List ℕ) → take n xs ++ drop n xs ≡ xs
take-append-drop zero xs = refl
take-append-drop (suc n) [] = refl
take-append-drop (suc n) (x ∷ xs) = ap (◌∷◌ x) (take-append-drop n xs)

-- Whatever the socket answers, the bytes that went out are a front part of those to send, with
-- nothing left out or repeated after a short or interrupted write; when `n` is returned they are all.
pub sys_writen_lem :
    (answers : List Answer) (xs : List ℕ)
    → let (r, sent) = sys_writen answers xs in
      (back : List ℕ) × (xs ≡ sent ++ back) × ((back ≡ []) ⊎ (r ≢ some true))
unfolding sys_writen
sys_writen_lem [] [] = ([], refl, inl refl)
sys_writen_lem (a ∷ as') [] = ([], refl, inl refl)
sys_writen_lem [] (x ∷ xs) = (x ∷ xs, refl, inr λ h. cc)
sys_writen_lem (again ∷ as') (x ∷ xs) = sys_writen_lem as' (x ∷ xs)
sys_writen_lem (refused ∷ as') (x ∷ xs) = (x ∷ xs, refl, inr λ h. cc)
sys_writen_lem (took k ∷ as') (x ∷ xs) =
    let (back, e, f) = sys_writen_lem as' (drop (suc k) (x ∷ xs)) in
    (
      back,
      ap (◌∷◌ x) (
          sym (take-append-drop k xs)
          ∙ ap (λ u. take k xs ++ u) e
          ∙ sym (append_assoc (take k xs) (sys_writen as' (drop k xs)).1 back)),
      f,
    )

-- No call of `write` fails.
abbrev pub IsWilling : List Answer → Type 0
IsWilling [] = Unit
IsWilling (took k ∷ as') = IsWilling as'
IsWilling (again ∷ as') = IsWilling as'
IsWilling (refused ∷ as') = ⊥

-- How many calls take a byte or more.
abbrev pub takers : List Answer → ℕ
takers [] = 0
takers (took k ∷ as') = suc (takers as')
takers (again ∷ as') = takers as'
takers (refused ∷ as') = takers as'

-- If no call of `write` fails and as many of them as there are bytes take some, `sys_writen` returns `n`
-- and has sent all the bytes, in order, however the calls divide them and are interrupted.
pub sys_writen-IsWilling :
    (answers : List Answer) (xs : List ℕ)
    → IsWilling answers
    → length xs ≤ takers answers
    → sys_writen answers xs ≡ (some true, xs)
unfolding sys_writen
sys_writen-IsWilling [] [] w h = refl
sys_writen-IsWilling (a ∷ as') [] w h = refl
sys_writen-IsWilling [] (x ∷ xs) w h = absurd (omega arith)
sys_writen-IsWilling (again ∷ as') (x ∷ xs) w h = sys_writen-IsWilling as' (x ∷ xs) w h
sys_writen-IsWilling (refused ∷ as') (x ∷ xs) w h = absurd w
sys_writen-IsWilling (took k ∷ as') (x ∷ xs) w h =
    rw (sys_writen-IsWilling as' (drop k xs) w (omega (arith, length-drop k xs, h)))
      (ap (λ s. (some true, x ∷ s)) (take-append-drop k xs))
