-- ===== src/Wire/Utc.antt =====
-- The six bytes of UTC time at the end of every packet, as the `struct tm` that goes to `mktime`.
use go2_setup.Shared.{
  ℕ, ◌+◌, ◌-◌, ◌≤◌, ◌<◌, ◌≡◌, ◌≢◌, ◌⊎◌, arith, leb, if◌then◌else◌, ℤ, sub_ℕ, List, get_or,
}

-- `tm_isdst` is 0. A month byte of 0 gives `tm_mon` -1.
pub record Tm : Type 0 where
  pub tm_year : ℕ
  pub tm_mon : ℤ
  pub tm_mday : ℕ
  pub tm_hour : ℕ
  pub tm_min : ℕ
  pub tm_sec : ℕ

-- `tm_year = b + 100; if (tm_year >= 200) tm_year -= 100;`
unfoldable pub tm_year_of : ℕ → ℕ
tm_year_of b = if leb 200 (b + 100) then b + 100 - 100 else b + 100

-- From the bytes of `addtime`.
unfoldable pub tm_of_addtime : List ℕ → Tm
tm_of_addtime t = record {
  tm_year = tm_year_of (get_or t 0 0);
  tm_mon = sub_ℕ (get_or t 1 0) 1;
  tm_mday = get_or t 2 0;
  tm_hour = get_or t 3 0;
  tm_min = get_or t 4 0;
  tm_sec = get_or t 5 0;
}

-- For two year bytes below 200, the first one's `tm_year` lies from 100, the year 2000, to 199, and
-- the two years differ unless the bytes are equal or 100 apart.
pub tm_year_of_lem :
    (a b : ℕ)
    → a < 200
    → b < 200
    → (100 ≤ tm_year_of a)
      × (tm_year_of a < 200)
      × ((tm_year_of a ≢ tm_year_of b) ⊎ ((a ≡ b) ⊎ ((a ≡ b + 100) ⊎ (b ≡ a + 100))))
unfolding tm_year_of
tm_year_of_lem a b ha hb = ground arith
