-- ===== src/Dext/MidiIn/Requests.antt =====
-- Write requests as the controller leaves them in the buffer, and the MIDI bytes that they carry.
use userface.Base.{
  ℕ, ◌+◌, ◌-◌, ◌*◌, ◌%◌, ◌^◌, ◌≤◌, ◌<◌, List, [], ◌∷◌, ◌++◌, length, ◌==◌, if◌then◌else◌,
}

-- A request's header: what stands around the transaction code in its first quadlet, the source, and the
-- destination's offset in its high 16 and low 32 bits.
pub record Header : Type 0 where
  pub above : ℕ
  pub below : ℕ
  pub source : ℕ
  pub high : ℕ
  pub low : ℕ

pub record IsHeader (h : Header) : Type 0 where
  pub below : h.below < 16
  pub high : h.high < 2 ^ 16
  pub low : h.low < 2 ^ 32

-- A write request as the controller leaves it in the buffer, with the status behind it. A block tells its
-- length in bytes: `short` is what it lacks to its last quadlet's end.
pub data Request : Type 0 where
  quadlet : Header → ℕ → ℕ → Request
  block : Header → ℕ → ℕ → List ℕ → ℕ → Request

pub data IsRequest : Request → Type 0 where
  is_quadlet : {h : Header} {q status : ℕ} → IsHeader h → IsRequest (quadlet h q status)
  is_block :
      {h : Header} {short extended : ℕ} {payload : List ℕ} {status : ℕ}
      → IsHeader h
      → short < 4
      → extended < 2 ^ 16
      → short ≤ length payload * 4
      → length payload ≤ 1024
      → IsRequest (block h short extended payload status)

pub data AreRequests : List Request → Type 0 where
  none_left : AreRequests []
  one_more : {r : Request} {rs : List Request} → IsRequest r → AreRequests rs → AreRequests (r ∷ rs)

unfoldable pub encode_head : ℕ → Header → List ℕ → List ℕ
encode_head tcode h rest =
    (h.above * 256 + tcode * 16 + h.below) ∷ (h.source * 65536 + h.high) ∷ h.low ∷ rest

-- The requests' quadlets, and `rest` behind them.
unfoldable pub encode_request : Request → List ℕ → List ℕ
encode_request (quadlet h q status) rest = encode_head 0 h (q ∷ status ∷ rest)
encode_request (block h short extended payload status) rest =
    encode_head 1 h (((length payload * 4 - short) * 65536 + extended) ∷ payload ++ status ∷ rest)

unfoldable pub encode_requests : List Request → List ℕ → List ℕ
encode_requests [] rest = rest
encode_requests (r ∷ rs) rest = encode_request r (encode_requests rs rest)

unfoldable pub quadlets : Request → ℕ
quadlets (quadlet h q status) = 5
quadlets (block h short extended payload status) = length payload + 5

unfoldable pub total_quadlets : List Request → ℕ
total_quadlets [] = 0
total_quadlets (r ∷ rs) = quadlets r + total_quadlets rs

-- The MIDI bytes: the low byte of each quadlet that was written to the port's 4 GB.
unfoldable pub low_bytes : List ℕ → List ℕ
low_bytes [] = []
low_bytes (q ∷ qs) = q % 256 ∷ low_bytes qs

unfoldable pub midi_of : ℕ → Request → List ℕ
midi_of port (quadlet h q status) = if h.high == port then q % 256 ∷ [] else []
midi_of port (block h short extended payload status) =
    if h.high == port then low_bytes payload else []

unfoldable pub midi_of_all : ℕ → List Request → List ℕ
midi_of_all port [] = []
midi_of_all port (r ∷ rs) = midi_of port r ++ midi_of_all port rs
