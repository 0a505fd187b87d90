-- ===== src/Protocol/Midi/Wire.antt =====
-- MIDI bytes on their way to the device and back.
use userface.Base.{
  ℕ, zero, suc, ◌*◌, ◌/◌, ◌%◌, ◌^◌, ◌≤◌, ◌<◌, ◌≡◌, refl, arith, List, [], ◌∷◌, ◌++◌, length,
  length-take, length-drop, take, drop, take-append-drop, false, u32, ltb, ◌==◌, if◌then◌else◌,
  u32_bytes,
}
use userface.Base.Bits.{bit_and_ones, bit_or-zero}
use userface.Protocol.Endian.{le32_to_host}
use userface.Protocol.Midi.{
  push_all, midi_out_quadlets, midi_throttle_ns, midi_in_byte, midi_in_bytes, midi_send,
}

abbrev pub AllBytes : List ℕ → Type 0
AllBytes [] = Unit
AllBytes (b ∷ bs) = (b < 256) × AllBytes bs

-- The bytes of the transactions, one after another.
abbrev pub all_sent : List (List ℕ × ℕ) → List ℕ
all_sent [] = []
all_sent (t ∷ ts) = t.0 ++ all_sent ts

-- Every transaction has a byte, nine at most, and is followed by the time that they take on the wire.
abbrev pub Paced : List (List ℕ × ℕ) → Type 0
Paced [] = Unit
Paced (t ∷ ts) = ((0 < length t.0) × (length t.0 ≤ 9) × (t.1 ≡ length t.0 * 256)) × Paced ts

push_all-bytes : (bs : List ℕ) → AllBytes bs → push_all bs ≡ bs
push_all-bytes [] h = refl
push_all-bytes (b ∷ bs) (l, h) =
    let small : u32 b ≡ b = omega arith in rw (small, push_all-bytes bs h)

take-AllBytes : (n : ℕ) (bs : List ℕ) → AllBytes bs → AllBytes (take n bs)
take-AllBytes zero bs h = tt
take-AllBytes (suc n) [] h = tt
take-AllBytes (suc n) (b ∷ bs) (l, h) = (l, take-AllBytes n bs h)

drop-AllBytes : (n : ℕ) (bs : List ℕ) → AllBytes bs → AllBytes (drop n bs)
drop-AllBytes zero bs h = h
drop-AllBytes (suc n) [] h = tt
drop-AllBytes (suc n) (b ∷ bs) (l, h) = drop-AllBytes n bs h

take_whole : (n : ℕ) (bs : List ℕ) → length bs ≤ n → take n bs ≡ bs
take_whole zero [] h = refl
take_whole zero (b ∷ bs) h = absurd (omega arith)
take_whole (suc n) [] h = refl
take_whole (suc n) (b ∷ bs) h = rw (take_whole n bs (omega arith))

-- One transaction takes its bytes as they are.
out-bytes : (bs : List ℕ) → length bs ≤ 9 → AllBytes bs → midi_out_quadlets bs ≡ bs
unfolding midi_out_quadlets
out-bytes bs h a =
    let all : ltb 9 (length bs) ≡ false = ground arith in
    rw (all, take_whole (length bs) bs (omega arith), push_all-bytes bs a) refl

-- Sending a stream of MIDI bytes, however long: the transactions hold the bytes once each and in order,
-- between one and nine of them, with the pause of 256 microseconds a byte that they take at 31250 baud.
-- As many turns of the loop as there are bytes are enough.
pub midi_send_lem :
    (n : ℕ) (bytes : List ℕ)
    → length bytes ≤ n
    → AllBytes bytes
    → (all_sent (midi_send n bytes) ≡ bytes) × Paced (midi_send n bytes)
unfolding midi_send midi_throttle_ns
midi_send_lem zero [] h a = (refl, tt)
midi_send_lem zero (b ∷ bs) h a = absurd (omega arith)
midi_send_lem (suc n) [] h a = (refl, tt)
midi_send_lem (suc n) (b ∷ bs) h a =
    let bytes = b ∷ bs in
    let chunk = if ltb (length bytes) 9 then length bytes else 9 in
    let bounds : (0 < chunk) × (chunk ≤ 9) × (chunk ≤ length bytes) =
      (ground arith, ground arith, ground arith) in
    let held : length (take chunk bytes) ≡ chunk = ground (arith, length-take chunk bytes) in
    let ih =
      midi_send_lem n (drop chunk bytes) (ground (arith, length-drop chunk bytes))
        (drop-AllBytes chunk bytes a) in
    let one = out-bytes (take chunk bytes) (omega arith) (take-AllBytes chunk bytes a) in
    let more : (length bytes == 0) ≡ false = ground arith in
    rw (more, one)
      (
        rw (ih.0) (take-append-drop chunk bytes),
        (rw (held) (omega arith, omega arith, omega arith), ih.1),
      )

-- The quadlets of a block as they lie on the wire.
abbrev pub wire : List ℕ → List ℕ
wire [] = []
wire (q ∷ qs) = u32_bytes q ++ wire qs

small_byte : (b : ℕ) → b < 256 → midi_in_byte (le32_to_host (u32_bytes b) 0) ≡ b
unfolding midi_in_byte le32_to_host
small_byte b h =
    let b0 : b % 256 ≡ b = omega arith in
    let b1 : b / 256 % 256 * 2 ^ 8 ≡ 0 = omega arith in
    let b2 : b / 65536 % 256 * 2 ^ 16 ≡ 0 = omega arith in
    let b3 : b / 16777216 % 256 * 2 ^ 24 ≡ 0 = omega arith in
    rw (b0, b1, b2, b3, bit_or-zero b, bit_or-zero b, bit_or-zero b, bit_and_ones 8 b) (omega arith)

decoded : (bs : List ℕ) → AllBytes bs → midi_in_bytes (wire bs) ≡ bs
unfolding midi_in_bytes
decoded [] h = refl
decoded (b ∷ bs) (l, h) = rw (small_byte b l, decoded bs h)

-- What the one side sends, the other side's decoder reads: the bytes of a block, each from the low byte
-- of its quadlet.
pub midi_in_bytes-midi_out_quadlets :
    (bytes : List ℕ)
    → length bytes ≤ 9
    → AllBytes bytes
    → midi_in_bytes (wire (midi_out_quadlets bytes)) ≡ bytes
midi_in_bytes-midi_out_quadlets bytes h a = rw (out-bytes bytes h a) (decoded bytes a)
