-- ===== src/Base/Bytes.antt =====
-- 16-bit and 32-bit words in memory, on a little-endian machine.
use Prim.Native.Nat.{ℕ, ◌+◌, ◌*◌, ◌/◌, ◌%◌}
use mathlib.Core.List.{List, [], ◌∷◌}
use userface.Base.Lists.{get_or}

-- A uint16_t and a uint32_t in memory.
abbrev pub u16_bytes : ℕ → List ℕ
u16_bytes x = x % 256 ∷ x / 256 % 256 ∷ []

abbrev pub u32_bytes : ℕ → List ℕ
u32_bytes x = x % 256 ∷ x / 256 % 256 ∷ x / 65536 % 256 ∷ x / 16777216 % 256 ∷ []

-- A field of a struct, read from the buffer that it was received in.
abbrev pub read_u16 : List ℕ → ℕ → ℕ
read_u16 buf at = get_or buf at 0 + get_or buf (at + 1) 0 * 256

abbrev pub read_u32 : List ℕ → ℕ → ℕ
read_u32 buf at =
    get_or buf at 0
    + get_or buf (at + 1) 0 * 256
    + get_or buf (at + 2) 0 * 65536
    + get_or buf (at + 3) 0 * 16777216
