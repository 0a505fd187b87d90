-- ===== src/Ohci/Async/Fields.antt =====
-- The fields of a request, as they are put in and read out.
use userface.Base.{
  ℕ, ◌+◌, ◌*◌, ◌/◌, ◌%◌, ◌^◌, ◌<◌, ◌≡◌, refl, arith, List, bit_and, bit_or, u32, u64, ◌<<◌,
}
use userface.Base.Bits.{bit_or_shifted, bit_and_ones, bit_and_field}
use userface.Ohci.Async.{
  hdr_tcode, hdr_tlabel, hdr_retry, hdr_destination, hdr_offset, addr_hi, addr_lo,
  set_request_common, build_at_header,
}

-- Four fields side by side.
packed :
    (a b c e : ℕ)
    → a < 2 ^ 16
    → b < 64
    → c < 4
    → e < 16
    → bit_or (bit_or (bit_or (u32 (a << 16)) (u32 (b << 10))) (u32 (c << 8))) (u32 (e << 4))
      ≡ a * 65536 + b * 1024 + c * 256 + e * 16
packed a b c e ha hb hc he =
    let w0 : u32 (a * 2 ^ 16) ≡ a * 2 ^ 16 = omega arith in
    let w1 : u32 (b * 2 ^ 10) ≡ b * 2 ^ 10 = omega arith in
    let w2 : u32 (c * 2 ^ 8) ≡ c * 2 ^ 8 = omega arith in
    let w3 : u32 (e * 2 ^ 4) ≡ e * 2 ^ 4 = omega arith in
    let one = bit_or_shifted 16 a (b * 2 ^ 10) (omega arith) in
    let two = bit_or_shifted 10 (a * 64 + b) (c * 2 ^ 8) (omega arith) in
    let three = bit_or_shifted 8 (a * 256 + b * 4 + c) (e * 2 ^ 4) (omega arith) in
    let e1 : a * 2 ^ 16 + b * 2 ^ 10 ≡ (a * 64 + b) * 2 ^ 10 = omega arith in
    let e2 : (a * 64 + b) * 2 ^ 10 + c * 2 ^ 8 ≡ (a * 256 + b * 4 + c) * 2 ^ 8 = omega arith in
    rw (w0, w1, w2, w3, one, e1, two, e2, three) (omega arith)

-- A mask of a run of ones reads the field at its place.
tcode_field : (x : ℕ) → bit_and x 0xf0 / 2 ^ 4 ≡ x / 16 % 16
tcode_field x = omega (arith, bit_and_field 4 15 x, bit_and_ones 4 (x / 2 ^ 4))

retry_field : (x : ℕ) → bit_and x 0x300 / 2 ^ 8 ≡ x / 256 % 4
retry_field x = omega (arith, bit_and_field 8 3 x, bit_and_ones 2 (x / 2 ^ 8))

tlabel_field : (x : ℕ) → bit_and x 0xfc00 / 2 ^ 10 ≡ x / 1024 % 64
tlabel_field x = omega (arith, bit_and_field 10 63 x, bit_and_ones 6 (x / 2 ^ 10))

high_field : (x : ℕ) → bit_and x 0xffff_0000 / 2 ^ 16 ≡ x / 65536 % 65536
high_field x = omega (arith, bit_and_field 16 65535 x, bit_and_ones 16 (x / 2 ^ 16))

-- The header of a request gives back what it was made of, each field whole and apart: the destination,
-- the label modulo 64, the retry code, the transaction code and all 48 bits of the offset.
pub set_request_common-fields :
    (dest tlabel tcode offset : ℕ)
    → dest < 2 ^ 16
    → tcode < 16
    → offset < 2 ^ 48
    → let h = set_request_common dest tlabel tcode offset in
      (hdr_destination h ≡ dest)
      × (hdr_tlabel h ≡ tlabel % 64)
      × (hdr_retry h ≡ 1)
      × (hdr_tcode h ≡ tcode)
      × (hdr_offset h ≡ offset)
unfolding hdr_destination hdr_tlabel hdr_retry hdr_tcode hdr_offset set_request_common addr_hi
    addr_lo
set_request_common-fields dest tlabel tcode offset hd ht ho =
    let label = bit_and_ones 6 tlabel in
    let code = bit_and_ones 4 tcode in
    let word =
      packed dest (tlabel % 64) 1 (tcode % 16) hd (omega arith) (omega arith) (omega arith) in
    let q0 = dest * 65536 + tlabel % 64 * 1024 + 1 * 256 + tcode % 16 * 16 in
    let top = bit_and_ones 16 (offset / 2 ^ 32) in
    let low = bit_and_ones 32 offset in
    let back = bit_or_shifted 32 (offset / 2 ^ 32) (offset % 2 ^ 32) (omega arith) in
    let again = bit_and_ones 16 (offset / 2 ^ 32 % 2 ^ 16 % 2 ^ 16) in
    let hi : u64 (offset / 2 ^ 32 % 2 ^ 16 % 2 ^ 16 % 2 ^ 16 * 2 ^ 32) ≡ offset / 2 ^ 32 * 2 ^ 32 =
      omega arith in
    let lo : offset % 2 ^ 32 % 2 ^ 32 ≡ offset % 2 ^ 32 = omega arith in
    (
      rw (label, code, word, high_field q0) (omega arith),
      rw (label, code, word, tlabel_field q0) (omega arith),
      rw (label, code, word, retry_field q0) (omega arith),
      rw (label, code, word, tcode_field q0) (omega arith),
      rw (top, low, again, hi, lo, back) (omega arith),
    )

-- What the controller is handed is the same request: the label, the retry and the transaction code in
-- their places with the speed above them, the destination above the top of the offset, the rest of the
-- offset, and the fourth quadlet and the count as they were.
pub build_at_header-request :
    (dest tlabel tcode offset last count speed : ℕ) (payload : List ℕ)
    → dest < 2 ^ 16
    → tcode < 16
    → offset < 2 ^ 48
    → speed < 4
    → let h = record (set_request_common dest tlabel tcode offset) { q3 = last } in
      let at = build_at_header (record { header = h; count = count; payload = payload }) speed in
      (at.quads ≡ record {
        q0 = speed * 65536 + tlabel % 64 * 1024 + 256 + tcode * 16;
        q1 = dest * 65536 + offset / 2 ^ 32;
        q2 = offset % 2 ^ 32;
        q3 = last;
      })
      × (at.quad_count ≡ count)
unfolding build_at_header hdr_destination hdr_tlabel hdr_retry hdr_tcode hdr_offset
build_at_header-request dest tlabel tcode offset last count speed payload hd ht ho hs =
    let f = set_request_common-fields dest tlabel tcode offset hd ht ho in
    let three = bit_and_ones 3 speed in
    let small : speed % 2 ^ 3 ≡ speed = omega arith in
    let word = packed speed (tlabel % 64) 1 tcode (omega arith) (omega arith) (omega arith) ht in
    let top = bit_and_ones 16 (offset / 2 ^ 32) in
    let low = bit_and_ones 32 offset in
    let q1 = bit_or_shifted 16 dest (offset / 2 ^ 32) (omega arith) in
    let d : u32 (dest * 2 ^ 16) ≡ dest * 2 ^ 16 = omega arith in
    let o : u32 (offset / 2 ^ 32 % 2 ^ 16) ≡ offset / 2 ^ 32 = omega arith in
    let l : u32 (offset % 2 ^ 32) ≡ offset % 2 ^ 32 = omega arith in
    (rw (f.0, f.1, f.2, f.3, f.4, three, small, word, top, low, d, o, l, q1) refl, refl)
