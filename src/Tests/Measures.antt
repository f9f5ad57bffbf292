-- ===== src/Tests/Measures.antt =====
-- Points at concrete values; integers stand for the floating point numbers.
use go2_setup.Shared.{false, ℕ, List, [], ◌∷◌, none, ℤ, pos, ◌+ℤ◌, ◌-ℤ◌}
use go2_setup.Wire.{LidarUnit}
use go2_setup.Points.{Floats, Point}

abbrev pub whole : Floats
whole = record {
  Double = ℤ;
  Float = ℤ;
  of_ℤ = λ a. a;
  decimal = λ m k. pos m;
  add = λ a b. a +ℤ b;
  sub = λ a b. a -ℤ b;
  mul = λ a b. a;
  div = λ a b. a;
  addf = λ a b. a +ℤ b;
  subf = λ a b. a -ℤ b;
  mulf = λ a b. a;
  negf = λ a. pos 0 -ℤ a;
  widen = λ a. a;
  narrow = λ a. a;
  divf = λ a b. a;
  sqrtf = λ a. a;
  sqrt = λ a. a;
  is_zerof = λ a. false;
  non_positive = λ a. false;
  truncate = λ a. a;
}

abbrev point_at : ℕ → LidarUnit → Point whole
point_at ring u = record {
  x = pos u.distance;
  y = pos 0;
  z = pos 0;
  intensity = pos u.intensity;
  timestamp = pos 0;
  ring = ring;
}

abbrev three_units : List LidarUnit
three_units =
    record { distance = 5000; intensity = 7; confidence = none }
    ∷ record { distance = 50; intensity = 8; confidence = none }
    ∷ record { distance = 9000; intensity = 9; confidence = none }
    ∷ []
