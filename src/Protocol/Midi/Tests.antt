-- ===== src/Protocol/Midi/Tests.antt =====
-- A run of MIDI bytes.
use userface.Base.{ℕ, ◌≡◌, arith, List, [], ◌∷◌}
use userface.Protocol.Midi.{midi_send}
use userface.Protocol.Midi.Wire.{all_sent, Paced, midi_send_lem}

abbrev note_on : List ℕ
note_on = 0x90 ∷ 60 ∷ 100 ∷ []

midi_send_example : (all_sent (midi_send 3 note_on) ≡ note_on) × Paced (midi_send 3 note_on)
midi_send_example =
    midi_send_lem 3 note_on (omega arith) (omega arith, (omega arith, (omega arith, tt)))
