-- ===== src/Protocol/Midi.antt =====
-- include/uf/protocol/midi.hpp, and `midi_send_to_ff800` of platform/daemon/uf-daemon.cpp.
pub mod Wire
mod Tests
use userface.Base.{
  ℕ, zero, suc, ◌+◌, ◌-◌, ◌*◌, ◌/◌, ◌%◌, ◌^◌, List, [], ◌∷◌, ◌++◌, length, take, drop, Bool, true,
  false, bit_and, bit_or, u8, u32, ltb, ◌==◌, if◌then◌else◌, ◌<<◌,
}
use userface.Protocol.Endian.{le32_to_host}

abbrev pub midi_max_quads : ℕ
midi_max_quads = 9

abbrev pub midi_out_addr : ℕ
midi_out_addr = 0x8018_0000

abbrev pub midi_baud : ℕ
midi_baud = 31250

abbrev pub push_all : List ℕ → List ℕ
push_all [] = []
push_all (b ∷ bs) = u32 b ∷ push_all bs

unfoldable pub midi_out_quadlets : List ℕ → List ℕ
midi_out_quadlets bytes =
    let n = if ltb midi_max_quads (length bytes) then midi_max_quads else length bytes in
    push_all (take n bytes)

unfoldable pub midi_throttle_ns : ℕ → ℕ
midi_throttle_ns nbytes = nbytes * 8 * (1000000000 / midi_baud)

unfoldable pub midi_in_register_value : ℕ → ℕ → ℕ
midi_in_register_value node_id high_index = bit_or (u32 (node_id << 16)) high_index

unfoldable pub midi_in_byte : ℕ → ℕ
midi_in_byte quad = u8 (bit_and quad 0xff)

-- The loop of `midi_in_bytes`, a quadlet at a time while four bytes are left.
unfoldable pub midi_in_bytes : List ℕ → List ℕ
midi_in_bytes (a ∷ b ∷ c ∷ d ∷ rest) =
    midi_in_byte (le32_to_host (a ∷ b ∷ c ∷ d ∷ []) 0) ∷ midi_in_bytes rest
midi_in_bytes (a ∷ b ∷ c ∷ []) = []
midi_in_bytes (a ∷ b ∷ []) = []
midi_in_bytes (a ∷ []) = []
midi_in_bytes [] = []

-- The loop of `midi_send_to_ff800`: its transactions, the quadlets of each block write and the pause after it in
-- microseconds. There is fuel for the turns of the loop.
unfoldable pub midi_send : ℕ → List ℕ → List (List ℕ × ℕ)
midi_send zero bytes = []
midi_send (suc n) bytes =
    let chunk = if ltb (length bytes) midi_max_quads then length bytes else midi_max_quads in
    let rest = midi_send n (drop chunk bytes) in
    if length bytes == 0
    then []
    else (midi_out_quadlets (take chunk bytes), midi_throttle_ns chunk / 1000) ∷ rest

-- `midi_send_to_ff800`, which does nothing without a device, with fuel for a turn of the loop a byte.
unfoldable pub midi_send_to_ff800 : Bool → List ℕ → List (List ℕ × ℕ)
midi_send_to_ff800 connected bytes = if connected then midi_send (length bytes) bytes else []
