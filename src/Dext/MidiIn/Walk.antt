-- ===== src/Dext/MidiIn/Walk.antt =====
-- The walk over a buffer of whole requests.
use userface.Base.{
  ℕ, zero, suc, ◌+◌, ◌-◌, ◌*◌, ◌/◌, ◌%◌, ◌^◌, ◌≤◌, ◌<◌, ◌≡◌, refl, sym, ap, ap₂, ◌∙◌, Bool, true,
  false, not, ◌&&◌, ◌||◌, List, [], ◌∷◌, ◌++◌, length, length-append, get_or, get_or-append_left,
  get_or-append_right, bit_and, bit_or, u8, u64, ltb, leb, ◌==◌, ◌<<◌, ◌>>◌, if◌then◌else◌, arith,
  Bool-cases, inl, inr,
}
use mathlib.Core.List.{append-nil, append_assoc}
use userface.Base.Bits.{bit_and_ones, bit_and_blocks, bit_and-zero, bit_or_shifted}
use userface.Dext.MidiIn.{quad_at, tcode_at, offset_at, block_advance, block_bytes, walk}
use userface.Dext.MidiIn.Requests.{
  Header, IsHeader, Request, quadlet, block, IsRequest, is_quadlet, is_block, AreRequests, one_more,
  encode_head, encode_request, encode_requests, quadlets, total_quadlets, low_bytes, midi_of,
  midi_of_all,
}

length-low_bytes : (qs : List ℕ) → length (low_bytes qs) ≡ length qs
unfolding low_bytes
length-low_bytes [] = refl
length-low_bytes (q ∷ qs) = ap suc (length-low_bytes qs)

low_byte : (q : ℕ) → u8 (bit_and q 0xff) ≡ q % 256
low_byte q = omega (arith, bit_and_ones 8 q)

-- A quadlet of what stands at byte `4 * n` of the buffer.
quad_at_lem :
    (done todo : List ℕ) (k : ℕ) → quad_at (done ++ todo) (4 * length done) k ≡ get_or todo k 0
quad_at_lem done todo k =
    ap (λ j. get_or (done ++ todo) j 0) (omega arith) ∙ get_or-append_right done todo k 0

tcode_at_lem :
    (buf : List ℕ) (off tcode above below : ℕ)
    → tcode < 16
    → below < 16
    → quad_at buf off 0 ≡ above * 256 + tcode * 16 + below
    → tcode_at buf off ≡ tcode
unfolding tcode_at
tcode_at_lem buf off tcode above below t b e =
    omega (arith, bit_and_ones 4 (quad_at buf off 0 / 2 ^ 4))

offset_at_lem :
    (buf : List ℕ) (off source high low : ℕ)
    → high < 2 ^ 16
    → low < 2 ^ 32
    → quad_at buf off 1 ≡ source * 65536 + high
    → quad_at buf off 2 ≡ low
    → offset_at buf off >> 32 ≡ high
unfolding offset_at
offset_at_lem buf off source high low h l e1 e2 =
    let a = bit_and_ones 16 (quad_at buf off 1) in
    let at : u64 (bit_and (quad_at buf off 1) 0xffff << 32) ≡ high * 2 ^ 32 = omega arith in
    let whole = ap₂ bit_or at e2 ∙ bit_or_shifted 32 high low l in omega (arith, whole)

block_advance_lem :
    (n short : ℕ)
    → short < 4
    → short ≤ n * 4
    → n ≤ 1024
    → block_advance (n * 4 - short) ≡ n * 4 + 20
unfolding block_advance
block_advance_lem n short s b small =
    let x = n * 4 - short + 3 in
    let parts = bit_and_blocks 2 (x / 4) (2 ^ 30 - 1) (x % 4) 0 (omega arith) (omega arith) in
    let ones = bit_and_ones 30 (x / 4) in
    let none = bit_and-zero (x % 4) in
    let here : bit_and x (2 ^ 32 - 4) ≡ bit_and (x / 4) (2 ^ 30 - 1) * 2 ^ 2 + bit_and (x % 4) 0 =
      ap (λ k. bit_and k (2 ^ 32 - 4)) (omega arith) ∙ parts in
    omega arith

block_bytes_lem :
    (left i data_len capacity : ℕ) (buf : List ℕ) (off : ℕ) (out todo : List ℕ)
    → ((j : ℕ) → j < length todo → quad_at buf off (4 + (i + j)) ≡ get_or todo j 0)
    → data_len ≤ (i + length todo) * 4
    → (i + length todo) * 4 < data_len + 4
    → length todo ≤ left
    → length out + length todo < capacity
    → block_bytes left i data_len capacity buf off out ≡ out ++ low_bytes todo
unfolding block_bytes low_bytes
block_bytes_lem zero i data_len capacity buf off out [] at low high fuel room = sym (append-nil out)
block_bytes_lem zero i data_len capacity buf off out (q ∷ qs) at low high fuel room =
    absurd (omega arith)
block_bytes_lem (suc left) i data_len capacity buf off out [] at low high fuel room =
    let over : ltb (i * 4) data_len ≡ false = ground arith in rw over (sym (append-nil out))
block_bytes_lem (suc left) i data_len capacity buf off out (q ∷ qs) at low high fuel room =
    let more : (ltb (i * 4) data_len && ltb (length out) capacity) ≡ true = ground arith in
    let here : quad_at buf off (4 + i) ≡ q =
      ap (λ k. quad_at buf off (4 + k)) (omega arith) ∙ at 0 (omega arith) in
    let out' = out ++ u8 (bit_and (quad_at buf off (4 + i)) 0xff) ∷ [] in
    let byte : u8 (bit_and (quad_at buf off (4 + i)) 0xff) ≡ q % 256 =
      ap (λ x. u8 (bit_and x 0xff)) here ∙ low_byte q in
    let longer = length-append out (u8 (bit_and (quad_at buf off (4 + i)) 0xff) ∷ []) in
    let rest =
      block_bytes_lem left (i + 1) data_len capacity buf off out' qs
        (λ j h. ap (λ k. quad_at buf off (4 + k)) (omega arith) ∙ at (suc j) (omega arith))
        (omega arith) (omega arith) (omega arith) (omega arith) in
    rw more (
      rest
      ∙ append_assoc out (u8 (bit_and (quad_at buf off (4 + i)) 0xff) ∷ []) (low_bytes qs)
      ∙ ap (λ b. out ++ b ∷ low_bytes qs) byte)

encode_request_append :
    (r : Request) (rest : List ℕ) → encode_request r rest ≡ encode_request r [] ++ rest
unfolding encode_request encode_head
encode_request_append (quadlet h q status) rest = refl
encode_request_append (block h short extended payload status) rest =
    ap (λ (b : List ℕ). encode_head 1 h (((length payload * 4 - short) * 65536 + extended) ∷ b))
      (sym (append_assoc payload (status ∷ []) rest))

length-encode_request : (r : Request) → length (encode_request r []) ≡ quadlets r
unfolding encode_request encode_head quadlets
length-encode_request (quadlet h q status) = refl
length-encode_request (block h short extended payload status) =
    omega (arith, length-append payload (status ∷ []))

-- What the reader finds in a request at the cursor.
head_lem :
    (tcode : ℕ) (h : Header) (before todo : List ℕ)
    → tcode < 16
    → IsHeader h
    → let buf = before ++ encode_head tcode h todo in
      (tcode_at buf (4 * length before) ≡ tcode)
      × (offset_at buf (4 * length before) >> 32 ≡ h.high)
unfolding encode_head
head_lem tcode h before todo small v =
    let buf = before ++ encode_head tcode h todo in
    let off = 4 * length before in
    let at = quad_at_lem before (encode_head tcode h todo) in
    (
      tcode_at_lem buf off tcode h.above h.below small v.below (at 0),
      offset_at_lem buf off h.source h.high h.low v.high v.low (at 1) (at 2),
    )

-- One turn of the walk.
walk-request :
    (r : Request) (fuel written capacity port : ℕ) (before rest out : List ℕ)
    → IsRequest r
    → 4 * length before + 4 * quadlets r ≤ written
    → length out + length (midi_of port r) < capacity
    → let buf = before ++ encode_request r rest in
      walk (suc fuel) written capacity port buf (4 * length before) out
      ≡ walk fuel written capacity port buf
          (4 * length before + 4 * quadlets r)
          (out ++ midi_of port r)
unfolding walk midi_of quadlets encode_request encode_head
walk-request (quadlet h q status) fuel written capacity port before rest out (is_quadlet v) inside
      room =
    let buf = before ++ encode_request (quadlet h q status) rest in
    let off = 4 * length before in
    let at = quad_at_lem before (encode_request (quadlet h q status) rest) 3 in
    let head = head_lem 0 h before (q ∷ status ∷ rest) (omega arith) v in
    let going : not (leb (off + 16) written && ltb (length out) capacity) ≡ false = ground arith in
    let whole : ltb written (off + 20) ≡ false = ground arith in
    let byte : u8 (bit_and (quad_at buf off 3) 0xff) ≡ q % 256 =
      ap (λ x. u8 (bit_and x 0xff)) at ∙ low_byte q in
    elim (Bool-cases (h.high == port)) [
      | inl e ↦ rw (going, head.0, head.1, whole, e, byte) refl
      | inr e ↦ rw (going, head.0, head.1, whole, e, append-nil out) refl
    ]
walk-request (block h short extended payload status) fuel written capacity port before rest out
      (is_block v few ext long small) inside room =
    let data_len = length payload * 4 - short in
    let todo = (data_len * 65536 + extended) ∷ payload ++ status ∷ rest in
    let buf = before ++ encode_head 1 h todo in
    let off = 4 * length before in
    let head = head_lem 1 h before todo (omega arith) v in
    let behind : (j : ℕ)
        → j < length payload
        → get_or (encode_head 1 h todo) (4 + (0 + j)) 0 ≡ get_or payload j 0 =
      λ j b.
        let from : 4 + (0 + j) ≡ suc (suc (suc (suc j))) = omega arith in
        ap (λ k. get_or (encode_head 1 h todo) k 0) from
        ∙ get_or-append_left payload (status ∷ rest) j 0 b in
    let len : quad_at buf off 3 >> 16 ≡ data_len =
      ap (λ x. x >> 16) (quad_at_lem before (encode_head 1 h todo) 3) ∙ omega arith in
    let adv = block_advance_lem (length payload) short few long small in
    let going : not (leb (off + 16) written && ltb (length out) capacity) ≡ false = ground arith in
    let fits : (ltb 4096 data_len || ltb written (off + (length payload * 4 + 20))) ≡ false =
      ground arith in
    let on : off + (length payload * 4 + 20) ≡ off + 4 * (length payload + 5) = omega arith in
    elim (Bool-cases (h.high == port)) [
      | inl e ↦
          let size : length out + length (low_bytes payload) < capacity =
            omega
              (arith, room, ap (λ (b : Bool). length (if b then low_bytes payload else [])) e) in
          let bytes =
            block_bytes_lem (data_len / 4 + 1) 0 data_len capacity buf off out payload
              (λ j b. quad_at_lem before (encode_head 1 h todo) (4 + (0 + j)) ∙ behind j b)
              (omega arith) (omega arith) (omega arith) (omega (arith, length-low_bytes payload)) in
          rw (going, head.0, head.1, len, adv, fits, e, bytes, on) refl
      | inr e ↦ rw (going, head.0, head.1, len, adv, fits, e, append-nil out, on) refl
    ]

walk_end :
    (fuel written capacity port : ℕ) (buf : List ℕ) (off : ℕ) (out : List ℕ)
    → off ≡ written
    → walk fuel written capacity port buf off out
      ≡ record { off = written; out = out; desync = false }
unfolding walk
walk_end zero written capacity port buf off out e =
    ap (λ (k : ℕ). record { off = k; out = out; desync = false }) e
walk_end (suc fuel) written capacity port buf off out e =
    let over : not (leb (off + 16) written && ltb (length out) capacity) ≡ true = ground arith in
    rw over (ap (λ (k : ℕ). record { off = k; out = out; desync = false }) e)

-- A buffer that holds whole write requests from the cursor on, each a quadlet or a block of at most 4 KB,
-- up to what the controller has filled, whatever stands before and behind them: with a turn left for each
-- and room for more than their MIDI bytes, the walk ends where the controller is, has the bytes that were
-- written to the port, and finds no desync.
pub walk_lem :
    (reqs : List Request) (fuel written capacity port : ℕ) (before rest out buf : List ℕ)
    → AreRequests reqs
    → length reqs ≤ fuel
    → buf ≡ before ++ encode_requests reqs rest
    → written ≡ 4 * (length before + total_quadlets reqs)
    → length out + length (midi_of_all port reqs) < capacity
    → walk fuel written capacity port buf (4 * length before) out
      ≡ record { off = written; out = out ++ midi_of_all port reqs; desync = false }
unfolding encode_requests total_quadlets midi_of_all
walk_lem [] fuel written capacity port before rest out buf v f e w room =
    walk_end fuel written capacity port buf (4 * length before) out (omega arith)
    ∙ ap (λ (b : List ℕ). record { off = written; out = b; desync = false }) (sym (append-nil out))
walk_lem (r ∷ rs) zero written capacity port before rest out buf v f e w room = absurd (omega arith)
walk_lem (r ∷ rs) (suc fuel) written capacity port before rest out buf (one_more v vs) f e w room =
    let later = encode_requests rs rest in
    let split = encode_request_append r later in
    let here = before ++ encode_request r [] in
    let len = length-append before (encode_request r []) in
    let size = length-encode_request r in
    let bytes = length-append (midi_of port r) (midi_of_all port rs) in
    let more = length-append out (midi_of port r) in
    let e' : buf ≡ here ++ later =
      e ∙ ap (λ b. before ++ b) split ∙ sym (append_assoc before (encode_request r []) later) in
    let turn =
      walk-request r fuel written capacity port before later out v (omega arith) (omega arith) in
    let rest_of =
      walk_lem rs fuel written capacity port here rest (out ++ midi_of port r) buf vs (omega arith)
        e' (omega arith) (omega arith) in
    let at : 4 * length before + 4 * quadlets r ≡ 4 * length here = omega arith in
    ap (λ b. walk (suc fuel) written capacity port b (4 * length before) out) e
    ∙ turn
    ∙ ap₂ (λ b k. walk fuel written capacity port b k (out ++ midi_of port r)) (sym e) at
    ∙ rest_of
    ∙ ap (λ (b : List ℕ). record { off = written; out = b; desync = false })
        (append_assoc out (midi_of port r) (midi_of_all port rs))
