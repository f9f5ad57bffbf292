-- ===== src/Wire/Outcome.antt =====
-- What can be said of a parser's outcome when there is a result.
use go2_setup.Shared.{◌≡◌, refl, Bool, true, false}
use go2_setup.Wire.{Parsed, ok, rejected, fault, ◌>>=◌, reject_unless, fault_unless}

-- What holds of the result, if there is one.
abbrev pub Where : {A : Type 0} → (A → Type 0) → Parsed A → Type 0
Where P (ok a) = P a
Where P rejected = Unit
Where P fault = Unit

pub Where-bind :
    {A B : Type 0} (P : A → Type 0) (Q : B → Type 0) (m : Parsed A) (k : A → Parsed B)
    → Where P m
    → ((a : A) → P a → Where Q (k a))
    → Where Q (m >>= k)
Where-bind P Q (ok a) k h next = next a h
Where-bind P Q rejected k h next = tt
Where-bind P Q fault k h next = tt

pub Where-map :
    {A : Type 0} (P Q : A → Type 0) (m : Parsed A) → Where P m → ((a : A) → P a → Q a) → Where Q m
Where-map P Q (ok a) h next = next a h
Where-map P Q rejected h next = tt
Where-map P Q fault h next = tt

pub unless-Where : (b : Bool) → Where (λ u. b ≡ true) (fault_unless b)
unless-Where true = refl
unless-Where false = tt

pub reject-Where : (b : Bool) → Where (λ u. b ≡ true) (reject_unless b)
reject-Where true = refl
reject-Where false = tt
