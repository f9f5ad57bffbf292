-- ===== src/Wire/Read.antt =====
-- Reads of a buffer whose contents from some index on are known, and reads within its bounds.
use go2_setup.Shared.{
  ℕ, ◌+◌, ◌<◌, ◌≡◌, ◌∙◌, ap, List, arith, length, drop, get_or, get_elem?-drop, get_elem?-eq-get_or,
}
use go2_setup.Wire.{ok, read, present}

pub read_at :
    (buf ys : List ℕ) (i k : ℕ)
    → drop i buf ≡ ys
    → k < length ys
    → read buf (i + k) ≡ ok (get_or ys k 0)
unfolding read
read_at buf ys i k e h = ap present (get_elem?-drop buf ys i k 0 e h)

pub read_first :
    (buf ys : List ℕ) (i : ℕ) → drop i buf ≡ ys → 0 < length ys → read buf i ≡ ok (get_or ys 0 0)
read_first buf ys i e h = ap (read buf) (omega arith) ∙ read_at buf ys i 0 e h

pub read_within : (buf : List ℕ) (i : ℕ) → i < length buf → read buf i ≡ ok (get_or buf i 0)
unfolding read
read_within buf i h = ap present (get_elem?-eq-get_or buf i 0 h)
