-- ===== src/Setup/TimeZone.antt =====
-- `SetEnvironmentVariableTZ` of pandarGeneral_internal.cc, which ends `Init`.
use go2_setup.Shared.{ℕ, ◌≡◌, refl, List, [], ◌∷◌, ◌++◌, Option, none, some, arith}
use go2_setup.Replay.{c_text}
use go2_setup.Replay.Saved.{NoNull, c_text-append}
use go2_setup.Setup.{Text}

-- `"TZ=UTC" + std::to_string(0)`, whose value is behind the equals sign.
abbrev pub utc0 : Text
utc0 = b'U' ∷ b'T' ∷ b'C' ∷ b'0' ∷ []

-- The value of `TZ` afterwards; none where no null byte ends the text. `std::string::copy` writes no
-- null byte, so the text goes on into the memory behind it, from the last byte of `malloc` on.
unfoldable pub set_environment_variable_tz : List ℕ → Option Text → Option Text
set_environment_variable_tz behind none = c_text (utc0 ++ behind)
set_environment_variable_tz behind (some tz) = some tz

-- A variable that is set stays; else it becomes "UTC0" with all that stands in memory behind the copy up
-- to the next null byte.
pub set_environment_variable_tz-append :
    (stray rest tz : Text)
    → NoNull stray
    → (set_environment_variable_tz (stray ++ (0 ∷ rest)) none ≡ some (utc0 ++ stray))
      × (set_environment_variable_tz (stray ++ (0 ∷ rest)) (some tz) ≡ some tz)
unfolding set_environment_variable_tz
set_environment_variable_tz-append stray rest tz h = (
  c_text-append (utc0 ++ stray) rest (omega arith, (omega arith, (omega arith, (omega arith, h)))),
  refl,
)
