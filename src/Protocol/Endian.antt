-- ===== src/Protocol/Endian.antt =====
-- include/uf/protocol/endian.hpp: a 32-bit quadlet as four bytes, lowest first. A buffer is a list
-- of bytes, and a pointer into it an index; a read past the end gives 0 and a write there nothing.
pub mod Laws
use userface.Base.{ℕ, ◌+◌, ◌<◌, List, bit_and, bit_or, u8, ◌<<◌, ◌>>◌, get_or, set}

abbrev pub byte_at : List ℕ → ℕ → ℕ
byte_at buf i = get_or buf i 0

unfoldable pub le32_to_host : List ℕ → ℕ → ℕ
le32_to_host buf p =
    bit_or (bit_or (bit_or (byte_at buf p) (byte_at buf (p + 1) << 8)) (byte_at buf (p + 2) << 16))
      (byte_at buf (p + 3) << 24)

pub host_to_le32 : ℕ → List ℕ → ℕ → List ℕ
host_to_le32 v buf p =
    let b0 = set buf p (u8 (bit_and v 0xff)) in
    let b1 = set b0 (p + 1) (u8 (bit_and (v >> 8) 0xff)) in
    let b2 = set b1 (p + 2) (u8 (bit_and (v >> 16) 0xff)) in
    set b2 (p + 3) (u8 (bit_and (v >> 24) 0xff))
