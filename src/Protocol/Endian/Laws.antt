-- ===== src/Protocol/Endian/Laws.antt =====
-- What a quadlet written to a buffer leaves there, and what is read back.
use native.Mathlib.Nat.{add-zero}
use userface.Base.{
  ℕ, ◌+◌, ◌*◌, ◌/◌, ◌%◌, ◌^◌, ◌≤◌, ◌<◌, ◌≡◌, ◌≢◌, ◌⊎◌, refl, ◌∙◌, List, arith, length, set, bit_and,
  length-set, get_or-set_self, get_or-set_ne, u8, ◌>>◌,
}
use userface.Base.Bits.{bit_or_below, bit_and_ones}
use userface.Protocol.Endian.{byte_at, le32_to_host, host_to_le32}

-- A quadlet is read from its own four bytes.
pub le32_to_host_ext :
    (xs ys : List ℕ) (p : ℕ)
    → ((i : ℕ) → i < 4 → byte_at xs (p + i) ≡ byte_at ys (p + i))
    → le32_to_host xs p ≡ le32_to_host ys p
unfolding le32_to_host
le32_to_host_ext xs ys p h =
    let first : byte_at xs p ≡ byte_at ys p = rw add-zero at (h 0 (omega arith)) in
    rw (first, h 1 (omega arith), h 2 (omega arith), h 3 (omega arith))

-- Four bytes read as a quadlet are their weighted sum.
pub le32_to_host_sum :
    (buf : List ℕ) (p : ℕ)
    → byte_at buf p < 256
    → byte_at buf (p + 1) < 256
    → byte_at buf (p + 2) < 256
    → byte_at buf (p + 3) < 256
    → le32_to_host buf p
      ≡ byte_at buf p
        + byte_at buf (p + 1) * 2 ^ 8
        + byte_at buf (p + 2) * 2 ^ 16
        + byte_at buf (p + 3) * 2 ^ 24
unfolding le32_to_host
le32_to_host_sum buf p h0 h1 h2 h3 =
    rw
      (
        bit_or_below 8 (byte_at buf (p + 1)) (byte_at buf p) h0,
        bit_or_below 16 (byte_at buf (p + 2)) (byte_at buf (p + 1) * 2 ^ 8 + byte_at buf p)
            (omega arith),
        bit_or_below 24 (byte_at buf (p + 3))
            (byte_at buf (p + 2) * 2 ^ 16 + (byte_at buf (p + 1) * 2 ^ 8 + byte_at buf p))
            (omega arith),
      )
      (omega arith)

byte_of : (v k : ℕ) → u8 (bit_and (v >> k) 0xff) ≡ v / 2 ^ k % 256
byte_of v k = omega (arith, bit_and_ones 8 (v / 2 ^ k))

pub length-host_to_le32 :
    (v : ℕ) (buf : List ℕ) (p : ℕ) → length (host_to_le32 v buf p) ≡ length buf
unfolding host_to_le32
length-host_to_le32 v buf p = simp length-set

byte_at-set_ne : (buf : List ℕ) (i j v : ℕ) → i ≢ j → byte_at (set buf i v) j ≡ byte_at buf j
byte_at-set_ne buf i j v ne = get_or-set_ne buf v 0 ne

-- A byte outside the four is as it was.
pub host_to_le32_outside :
    (v : ℕ) (buf : List ℕ) (p j : ℕ)
    → (j < p) ⊎ (p + 4 ≤ j)
    → byte_at (host_to_le32 v buf p) j ≡ byte_at buf j
unfolding host_to_le32
host_to_le32_outside v buf p j h =
    rw
      (
        byte_at-set_ne _ (p + 3) j _ (omega arith),
        byte_at-set_ne _ (p + 2) j _ (omega arith),
        byte_at-set_ne _ (p + 1) j _ (omega arith),
        byte_at-set_ne _ p j _ (omega arith),
      )
      refl

-- The four bytes are the four byte digits of the value.
pub host_to_le32_inside :
    (v : ℕ) (buf : List ℕ) (p : ℕ)
    → p + 4 ≤ length buf
    → let out = host_to_le32 v buf p in
      (byte_at out p ≡ v % 256)
      × (byte_at out (p + 1) ≡ v / 2 ^ 8 % 256)
      × (byte_at out (p + 2) ≡ v / 2 ^ 16 % 256)
      × (byte_at out (p + 3) ≡ v / 2 ^ 24 % 256)
unfolding host_to_le32
host_to_le32_inside v buf p h =
    let w0 = u8 (bit_and v 0xff) in
    let w1 = u8 (bit_and (v >> 8) 0xff) in
    let w2 = u8 (bit_and (v >> 16) 0xff) in
    let w3 = u8 (bit_and (v >> 24) 0xff) in
    let b0 = set buf p w0 in
    let b1 = set b0 (p + 1) w1 in
    let b2 = set b1 (p + 2) w2 in
    let l0 = length-set buf p w0 in
    let l1 = length-set b0 (p + 1) w1 in
    let l2 = length-set b1 (p + 2) w2 in
    (
      byte_at-set_ne b2 (p + 3) p w3 (omega arith)
          ∙ byte_at-set_ne b1 (p + 2) p w2 (omega arith)
          ∙ byte_at-set_ne b0 (p + 1) p w1 (omega arith)
          ∙ get_or-set_self buf p w0 0 (omega arith)
          ∙ omega (arith, bit_and_ones 8 v),
      byte_at-set_ne b2 (p + 3) (p + 1) w3 (omega arith)
          ∙ byte_at-set_ne b1 (p + 2) (p + 1) w2 (omega arith)
          ∙ get_or-set_self b0 (p + 1) w1 0 (omega arith)
          ∙ byte_of v 8,
      byte_at-set_ne b2 (p + 3) (p + 2) w3 (omega arith)
          ∙ get_or-set_self b1 (p + 2) w2 0 (omega arith)
          ∙ byte_of v 16,
      get_or-set_self b2 (p + 3) w3 0 (omega arith) ∙ byte_of v 24,
    )

-- A 32-bit value written to a buffer with room for it is read back.
pub le32_to_host-host_to_le32 :
    (v : ℕ) (buf : List ℕ) (p : ℕ)
    → v < 2 ^ 32
    → p + 4 ≤ length buf
    → le32_to_host (host_to_le32 v buf p) p ≡ v
le32_to_host-host_to_le32 v buf p hv h =
    let bytes = host_to_le32_inside v buf p h in
    le32_to_host_sum (host_to_le32 v buf p) p (omega arith) (omega arith) (omega arith)
      (omega arith)
    ∙ omega arith
