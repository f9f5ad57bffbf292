-- ===== src/Shared/Bytes.antt =====
-- Bytes as numbers: the little- and big-endian words that the wire formats are made of.
-- `(b & 0xff)` of a byte is the byte, and `|` of values shifted to disjoint bits is their sum.
use Prim.Native.Nat.{ℕ, ◌+◌, ◌*◌, ◌/◌, ◌%◌, ◌^◌, ◌<◌}
use mathlib.Core.Path.{◌≡◌}
use native.Mathlib.Omega.{arith}

abbrev pub IsByte : ℕ → Type 0
IsByte b = b < 256

-- `lo | hi << 8`
abbrev pub le16 : ℕ → ℕ → ℕ
le16 lo hi = lo + hi * 256

-- `b0 | b1 << 8 | b2 << 16 | b3 << 24`
abbrev pub le32 : ℕ → ℕ → ℕ → ℕ → ℕ
le32 b0 b1 b2 b3 = b0 + b1 * 256 + b2 * 65536 + b3 * 16777216

-- byte `k` of a word, `(w >> (8 * k)) & 0xff`
abbrev pub byte_of : ℕ → ℕ → ℕ
byte_of w k = w / 256 ^ k % 256

pub le16-byte_of : (w : ℕ) → w < 65536 → le16 (byte_of w 0) (byte_of w 1) ≡ w
le16-byte_of w h = omega arith

pub le32-byte_of :
    (w : ℕ) → w < 2 ^ 32 → le32 (byte_of w 0) (byte_of w 1) (byte_of w 2) (byte_of w 3) ≡ w
le32-byte_of w h = omega arith
