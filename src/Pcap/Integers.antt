-- ===== src/Pcap/Integers.antt =====
-- Sums and differences of integers, by natural numbers that differ as much.
use go2_setup.Shared.{
  ℕ, ◌+◌, ◌≡◌, refl, ap, arith, ℤ, pos, negsuc, pos_part, neg_part, ◌+ℤ◌, ◌-ℤ◌, sub_ℕ,
}

-- `x` is `m` less `n`.
abbrev pub Differs : ℤ → ℕ → ℕ → Type 0
Differs x m n = pos_part x + n ≡ m + neg_part x

Differs-parts : (x : ℤ) → Differs x (pos_part x) (neg_part x)
Differs-parts x = refl

Differs-sub_ℕ : (m n : ℕ) → Differs (sub_ℕ m n) m n
Differs-sub_ℕ m n = ground arith

Differs-sub :
    (x y : ℤ) (m n k l : ℕ) → Differs x m n → Differs y k l → Differs (x -ℤ y) (m + l) (n + k)
Differs-sub x y m n k l h g =
    omega (arith, Differs-sub_ℕ (pos_part x + neg_part y) (neg_part x + pos_part y))

Differs-add :
    (x y : ℤ) (m n k l : ℕ) → Differs x m n → Differs y k l → Differs (x +ℤ y) (m + k) (n + l)
Differs-add x y m n k l h g =
    omega (arith, Differs-sub_ℕ (pos_part x + pos_part y) (neg_part x + neg_part y))

Differs-same : (x y : ℤ) (m n k l : ℕ) → Differs x m n → Differs y k l → m + l ≡ n + k → x ≡ y
Differs-same (pos x) (pos y) m n k l h g e = ap pos (omega arith)
Differs-same (pos x) (negsuc y) m n k l h g e = ground arith
Differs-same (negsuc x) (pos y) m n k l h g e = ground arith
Differs-same (negsuc x) (negsuc y) m n k l h g e = ap negsuc (omega arith)

Differs-equal : (x y : ℤ) (m n k l : ℕ) → x ≡ y → Differs x m n → Differs y k l → m + l ≡ n + k
Differs-equal x y m n k l e h g =
    let p : pos_part x ≡ pos_part y = ap pos_part e in
    let q : neg_part x ≡ neg_part y = ap neg_part e in omega arith

less : (x y : ℤ) → Differs (x -ℤ y) (pos_part x + neg_part y) (neg_part x + pos_part y)
less x y = Differs-sub x y (pos_part x) (neg_part x) (pos_part y) (neg_part y) refl refl

sub_less : (x y : ℤ) (m n : ℕ) → Differs x m n → Differs (x -ℤ y) (m + neg_part y) (n + pos_part y)
sub_less x y m n h = Differs-sub x y m n (pos_part y) (neg_part y) h refl

less-equal :
    (a b c d : ℤ)
    → a -ℤ b ≡ c -ℤ d
    → pos_part a + neg_part b + (neg_part c + pos_part d)
      ≡ neg_part a + pos_part b + (pos_part c + neg_part d)
less-equal a b c d h = Differs-equal (a -ℤ b) (c -ℤ d) _ _ _ _ h (less a b) (less c d)

wait-Differs :
    (a b e f : ℤ)
    → Differs
        ((e -ℤ b) -ℤ (f -ℤ a))
        (pos_part e + neg_part b + (neg_part f + pos_part a))
        (neg_part e + pos_part b + (pos_part f + neg_part a))
wait-Differs a b e f = Differs-sub (e -ℤ b) (f -ℤ a) _ _ _ _ (less e b) (less f a)

-- The wait by the last packet is the wait by the first, as long as their distances agree.
pub drift : (a b c d e f : ℤ) → a -ℤ b ≡ c -ℤ d → (e -ℤ b) -ℤ (f -ℤ a) ≡ (c +ℤ (e -ℤ d)) -ℤ f
drift a b c d e f h =
    let first = Differs-add c (e -ℤ d) _ _ _ _ (Differs-parts c) (less e d) in
    Differs-same ((e -ℤ b) -ℤ (f -ℤ a)) ((c +ℤ (e -ℤ d)) -ℤ f) _ _ _ _ (wait-Differs a b e f)
      (sub_less (c +ℤ (e -ℤ d)) f _ _ first) (omega (arith, less-equal a b c d h))

-- The distance after the wait is the one before.
pub settled : (a b c d e f : ℤ) → a -ℤ b ≡ c -ℤ d → (f +ℤ ((e -ℤ b) -ℤ (f -ℤ a))) -ℤ e ≡ c -ℤ d
settled a b c d e f h =
    let wait = (e -ℤ b) -ℤ (f -ℤ a) in
    let after = Differs-add f wait _ _ _ _ (Differs-parts f) (wait-Differs a b e f) in
    Differs-same ((f +ℤ wait) -ℤ e) (c -ℤ d) _ _ _ _ (sub_less (f +ℤ wait) e _ _ after) (less c d)
      (omega (arith, less-equal a b c d h))
