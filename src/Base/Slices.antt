-- ===== src/Base/Slices.antt =====
-- Byte slices: what the sources use of Go's `copy`, `make`, `encoding/binary` (little endian) and
-- string literals. A byte is a number below 256, a string is the list of its bytes.
use Prim.Native.Nat.{ℕ, zero, suc, ◌+◌, ◌*◌, ◌/◌, ◌%◌, ◌≤◌, ◌<◌}
use Prim.Native.Char.{code}
use Prim.Native.String.{String}
use mathlib.Core.Path.{◌≡◌, refl, ap}
use mathlib.Core.List.{List, [], ◌∷◌, ◌++◌}
use native.Mathlib.Omega.{arith}
use native.Mathlib.Decide.{ℕ_discrete}
use chipfs.Base.Lists.{length, drop}

abbrev pub Bytes : Type 0
Bytes = List ℕ

pub Bytes-discrete : Discrete Bytes
Bytes-discrete = hlevel ℕ_discrete

abbrev pub IsByte : ℕ → Type 0
IsByte b = b < 256

-- The bytes of an ASCII literal.
abbrev pub text : String → Bytes
text String.[] = []
text (String.◌∷◌ c s) = code c ∷ text s

-- Appends in sequence.
abbrev pub concat : List Bytes → Bytes
concat [] = []
concat (s ∷ ss) = s ++ concat ss

-- `copy(buf, src)`: as many elements as both have.
unfoldable pub overwrite : Bytes → Bytes → Bytes
overwrite buf [] = buf
overwrite [] (s ∷ src) = []
overwrite (b ∷ buf) (s ∷ src) = s ∷ overwrite buf src

-- `copy(buf[off:], src)`
unfoldable pub copy_at : Bytes → ℕ → Bytes → Bytes
unfolding overwrite
copy_at buf zero src = overwrite buf src
copy_at [] (suc off) src = []
copy_at (b ∷ buf) (suc off) src = b ∷ copy_at buf off src

-- The conversions `uint16(n)` and `uint32(n)` of a number that is not negative.
abbrev pub uint16 : ℕ → ℕ
uint16 n = n % 65536

abbrev pub uint32 : ℕ → ℕ
uint32 n = n % 4294967296

-- The bytes that `PutUint16` and `PutUint32` write.
abbrev pub le16 : ℕ → Bytes
le16 v = (v % 256) ∷ (v / 256 % 256) ∷ []

abbrev pub le32 : ℕ → Bytes
le32 v = (v % 256) ∷ (v / 256 % 256) ∷ (v / 65536 % 256) ∷ (v / 16777216 % 256) ∷ []

-- `binary.LittleEndian.Uint32`, on a slice of at least four bytes.
abbrev pub read_uint32 : Bytes → ℕ
read_uint32 (a ∷ b ∷ c ∷ d ∷ rest) = a + 256 * b + 65536 * c + 16777216 * d
read_uint32 _ = 0

pub read_uint32-le32 : (v : ℕ) (rest : Bytes) → v < 4294967296 → read_uint32 (le32 v ++ rest) ≡ v
read_uint32-le32 v rest h = omega arith

pub length-overwrite : (buf src : Bytes) → length (overwrite buf src) ≡ length buf
unfolding overwrite
length-overwrite buf [] = refl
length-overwrite [] (s ∷ src) = refl
length-overwrite (b ∷ buf) (s ∷ src) = ap suc (length-overwrite buf src)

pub length-copy_at :
    (buf : Bytes) (off : ℕ) (src : Bytes) → length (copy_at buf off src) ≡ length buf
unfolding copy_at
length-copy_at buf zero src = length-overwrite buf src
length-copy_at [] (suc off) src = refl
length-copy_at (b ∷ buf) (suc off) src = ap suc (length-copy_at buf off src)

pub overwrite_lem :
    (buf src : Bytes) → length src ≤ length buf → overwrite buf src ≡ src ++ drop (length src) buf
unfolding overwrite
overwrite_lem buf [] h = refl
overwrite_lem [] (s ∷ src) h = absurd (omega arith)
overwrite_lem (b ∷ buf) (s ∷ src) h = ap (◌∷◌ s) (overwrite_lem buf src (omega arith))

-- A copy that fits between a front and a back.
pub copy_at_lem :
    (front buf src : Bytes)
    → length src ≤ length buf
    → copy_at (front ++ buf) (length front) src ≡ front ++ (src ++ drop (length src) buf)
unfolding copy_at
copy_at_lem [] buf src h = overwrite_lem buf src h
copy_at_lem (f ∷ front) buf src h = ap (◌∷◌ f) (copy_at_lem front buf src h)
