-- ===== src/Dext/Tests.antt =====
-- Runs of the driver's rings on concrete data.
use userface.Base.{◌+◌, ◌%◌, ◌≤◌, ◌<◌, ◌≡◌, refl, true, false, List, [], ◌∷◌, arith}
use userface.Protocol.Channels.{is_full_packet}
use userface.Dext.Descriptor.{zeroed}
use userface.Dext.Transmit.{Transmit, Block, iso_tx_sent, iso_tx_start}
use userface.Dext.Transmit.Machine as Tx
use userface.Dext.Transmit.Position.{iso_tx_sent_bounds}
use userface.Dext.Receive.{Receive, iso_completed_count}
use userface.Dext.Receive.Machine as Rx
use userface.Dext.Receive.Ring.{iso_completed_count_lem}
use userface.Dext.MidiIn.{walk}
use userface.Dext.MidiIn.Requests.{
  Header, Request, quadlet, block, none_left, one_more, is_quadlet, is_block, encode_requests,
  total_quadlets, quadlets, midi_of_all, midi_of, low_bytes,
}
use userface.Dext.MidiIn.Walk.{walk_lem}

abbrev blank_block : Block
blank_block = record { immediate = zeroed; hdr0 = 0; hdr1 = 0; payload = zeroed }

abbrev pub idle_transmit : Transmit
idle_transmit = record {
  block = λ i. blank_block;
  it_desc_addr = 0x10000;
  it_pay_addr = 0x20000;
  speed = 2;
  it_running = false;
  it_sent = 0;
  it_fill = 0;
  it_full_count = 0;
}

-- The controller sends an empty packet and a full one.
abbrev two_sent : Tx.System
two_sent = Tx.sent_one 0x8011 (Tx.sent_one 0 (Tx.start 1 512 440 idle_transmit))

first_empty : is_full_packet 0 440 640 ≡ false
unfolding is_full_packet
first_empty = refl

second_full : is_full_packet 1 440 640 ≡ true
unfolding is_full_packet
second_full = refl

two_sent-Reach : Tx.Reach (Tx.start 1 512 440 idle_transmit) two_sent
unfolding iso_tx_start
two_sent-Reach =
    Tx.next (Tx.next Tx.here (Tx.transmit_empty 0 first_empty))
      (Tx.transmit_full 0x8011 second_full (λ e. absurd (omega arith)))

iso_tx_sent_bounds_example :
    let answer = (iso_tx_sent two_sent.tx).1 in
    (answer ≤ 3)
    × (answer ≡ 3 → Tx.is_full two_sent.tx 2 ≡ false)
    × (answer ≤ two_sent.tx.it_fill)
    × (two_sent.tx.it_fill ≤ answer + 640)
    × (two_sent.kept ≡ true → 2 ≤ answer)
iso_tx_sent_bounds_example =
    iso_tx_sent_bounds 1 512 440 idle_transmit (omega arith, omega arith) (omega arith)
      (omega arith) two_sent-Reach (omega arith)

abbrev idle_receive : Receive
idle_receive = record {
  desc = λ i. zeroed;
  iso_addr = 0x10000;
  iso_desc_addr = 0x20000;
  iso_packets = 0;
  iso_running = false;
  iso_continuous = false;
  iso_write = 0;
  iso_read = 0;
  iso_irq_every = 0;
}

abbrev two_arrived : Rx.System
two_arrived = Rx.arrived 0x8011 (Rx.arrived 0x8011 (Rx.start idle_receive (λ j. 0)))

two_arrived-Reach : Rx.Reach (Rx.start idle_receive (λ j. 0)) two_arrived
two_arrived-Reach =
    Rx.next (Rx.next Rx.here (Rx.arrive 0x8011 (λ e. absurd (omega arith))))
      (Rx.arrive 0x8011 (λ e. absurd (omega arith)))

iso_completed_count_example :
    let answer = (iso_completed_count two_arrived.rx).0 in
    (answer ≤ 2)
    × (two_arrived.rx.iso_read ≤ answer)
    × (answer ≤ two_arrived.rx.iso_read + 512)
    × (two_arrived.kept ≡ true
        → (answer ≡ 2)
          × (two_arrived.rx.iso_read ≤ 1 → 1 < answer → two_arrived.slot (1 % 512) ≡ 1))
iso_completed_count_example =
    iso_completed_count_lem idle_receive (λ j. 0) 1 two_arrived-Reach (omega arith)

abbrev to_port : Header
to_port = record { above = 0; below = 0; source = 0xffc0; high = 1; low = 8 }

abbrev elsewhere : Header
elsewhere = record { above = 0; below = 0; source = 0xffc0; high = 2; low = 8 }

-- A note on, in a block of 10 bytes; a quadlet to another address; a single byte.
abbrev three_requests : List Request
three_requests =
    block to_port 2 0 (0x90 ∷ 0x3c ∷ 0x7f ∷ []) 0x8011
    ∷ quadlet elsewhere 0x55 0x8011
    ∷ quadlet to_port 0xfe 0x8011
    ∷ []

walk_example :
    walk 4096 72 8 1 (encode_requests three_requests (0 ∷ 0 ∷ [])) 0 []
    ≡ record { off = 72; out = 0x90 ∷ 0x3c ∷ 0x7f ∷ 0xfe ∷ []; desync = false }
unfolding total_quadlets quadlets midi_of_all midi_of low_bytes
walk_example =
    walk_lem three_requests 4096 72 8 1 [] (0 ∷ 0 ∷ []) []
      (encode_requests three_requests (0 ∷ 0 ∷ []))
      (one_more
        (is_block (record { below = omega arith; high = omega arith; low = omega arith })
          (omega arith) (omega arith) (omega arith) (omega arith))
        (one_more
          (is_quadlet (record { below = omega arith; high = omega arith; low = omega arith }))
          (one_more
            (is_quadlet (record { below = omega arith; high = omega arith; low = omega arith }))
            none_left)))
      (omega arith) refl refl (omega arith)
