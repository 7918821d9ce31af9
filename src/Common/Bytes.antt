-- ===== src/Common/Bytes.antt =====
-- Integers in the memory of the little-endian target, and what stands at an offset of it.
use Prim.Native.Nat.{ℕ, ◌+◌, ◌*◌, ◌/◌, ◌%◌}
use mathlib.Core.List.{List, [], ◌∷◌, ◌++◌}
use plhr_firmware.Common.Lists.{get_or}

abbrev pub le16 : ℕ → List ℕ
le16 n = n % 256 ∷ n / 256 % 256 ∷ []

abbrev pub le32 : ℕ → List ℕ
le32 n = le16 n ++ le16 (n / 65536)

abbrev pub le64 : ℕ → List ℕ
le64 n = le32 n ++ le32 (n / 4294967296)

-- The byte, and the little-endian words of two, four and eight bytes, at an offset.
abbrev pub byte_at : List ℕ → ℕ → ℕ
byte_at p k = get_or p k 0

abbrev pub word_at : List ℕ → ℕ → ℕ
word_at p k = byte_at p k + 256 * byte_at p (k + 1)

abbrev pub long_at : List ℕ → ℕ → ℕ
long_at p k = word_at p k + 65536 * word_at p (k + 2)

abbrev pub quad_at : List ℕ → ℕ → ℕ
quad_at p k = long_at p k + 4294967296 * long_at p (k + 4)
