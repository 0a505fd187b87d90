-- ===== src/Daemon/Pace/Lead.antt =====
-- How far ahead of the controller the fill stays.
use userface.Base.{
  ℕ, zero, suc, ◌+◌, ◌-◌, ◌*◌, ◌%◌, ◌^◌, ◌≤◌, ◌<◌, ◌≡◌, ◌≢◌, refl, ap, ◌∙◌, u32, u64, arith,
  Bool-cases, inl, inr,
}
use userface.Protocol.Channels.{is_full_packet}
use userface.Dext.Transmit.{Transmit, iso_tx_set_slot_bytes, set_length}
use userface.Shared.TxFill.{begin_tick, begin_packet}
use userface.Daemon.Pace.{
  Adjust, Shape, Pace, put, frames_for, resync, program, fill_frames, fill_slot, fill_packet,
  fill_packets, fill,
}

set_slot_bytes_ne :
    (slot want j : ℕ) (t : Transmit)
    → j ≢ slot
    → (iso_tx_set_slot_bytes slot want t).1.block j ≡ t.block j
unfolding iso_tx_set_slot_bytes set_length
set_slot_bytes_ne slot want j t h = ground arith

put_ne {ℓ} : {A : Type ℓ} (i : ℕ) (x : A) (a : ℕ → A) {j : ℕ} → j ≢ i → put i x a j ≡ a j
unfolding put
put_ne i x a h = ground arith

module _ {Time Servo : Type 0} where
  -- Slot `j` of the transmit ring is left alone, by the daemon and in the driver.
  pub record Untouched (j : ℕ) (s t : Pace Time Servo) : Type 0 where
    pub bytes : t.tx_buf j ≡ s.tx_buf j
    pub size : t.slot_bytes j ≡ s.slot_bytes j
    pub block : t.driver.block j ≡ s.driver.block j

  Untouched-trans :
      (j : ℕ) (s t u : Pace Time Servo) → Untouched j s t → Untouched j t u → Untouched j s u
  Untouched-trans j s t u a b = record {
    bytes = b.bytes ∙ a.bytes;
    size = b.size ∙ a.size;
    block = b.block ∙ a.block;
  }

module _ {Time Servo : Type 0} (decide : Servo → Adjust × Servo) (g : Shape) where
  fill_frames-Untouched :
      (n slot j : ℕ) (s : Pace Time Servo)
      → j ≢ slot
      → Untouched j s (fill_frames decide g n slot s)
        × ((fill_frames decide g n slot s).tx_fill_pkt ≡ s.tx_fill_pkt)
  unfolding fill_frames
  fill_frames-Untouched zero slot j s h = (record { bytes = refl; size = refl; block = refl }, refl)
  fill_frames-Untouched (suc f) slot j s h =
      let before = fill_frames-Untouched f slot j s h in
      (
        record {
          bytes = put_ne slot _ (fill_frames decide g f slot s).tx_buf h ∙ before.0.bytes;
          size = before.0.size;
          block = before.0.block;
        },
        before.1,
      )

  program-Untouched :
      (slot want j : ℕ) (s : Pace Time Servo)
      → j ≢ slot
      → Untouched j s (program decide g slot want s)
        × ((program decide g slot want s).tx_fill_pkt ≡ s.tx_fill_pkt)
  unfolding program
  program-Untouched slot want j s h =
      let a = set_slot_bytes_ne slot want j s.driver h in
      let b = put_ne slot want s.slot_bytes h in
      (
        record { bytes = ground arith; size = ground (arith, b); block = ground (arith, a) },
        ground arith,
      )

  fill_slot-Untouched :
      (slot j : ℕ) (s : Pace Time Servo)
      → j ≢ slot
      → Untouched j s (fill_slot decide g slot s)
        × ((fill_slot decide g slot s).tx_fill_pkt ≡ s.tx_fill_pkt)
  unfolding fill_slot
  fill_slot-Untouched slot j s h =
      let (adjust, servo) = decide s.servo in
      let frames = frames_for g.syt_interval adjust in
      let ready = record s { tx_src = begin_packet s.tx_src; servo = servo } in
      let want = u32 (u32 (frames * g.dbq) * 4) in
      let programmed = program-Untouched slot want j ready h in
      let filled = fill_frames-Untouched frames slot j (program decide g slot want ready) h in
      (
        record {
          bytes = filled.0.bytes ∙ programmed.0.bytes;
          size = filled.0.size ∙ programmed.0.size;
          block = filled.0.block ∙ programmed.0.block;
        },
        filled.1 ∙ programmed.1,
      )

  fill_packet-Untouched :
      (j : ℕ) (s : Pace Time Servo)
      → j ≢ s.tx_fill_pkt % 640
      → Untouched j s (fill_packet decide g s)
        × ((fill_packet decide g s).tx_fill_pkt ≡ u64 (s.tx_fill_pkt + 1))
  unfolding fill_packet
  fill_packet-Untouched j s h =
      let slot = u32 (s.tx_fill_pkt % 640) in
      let other : j ≢ slot = λ e. h (omega arith) in
      elim (Bool-cases (is_full_packet slot g.full_count 640)) [
        | inl e ↦
            let one = fill_slot-Untouched slot j s other in
            rw e (record { bytes = one.0.bytes; size = one.0.size; block = one.0.block }, refl)
        | inr e ↦ rw e (record { bytes = refl; size = refl; block = refl }, refl)
      ]

  fill_packets-Untouched :
      (n j : ℕ) (s : Pace Time Servo)
      → ((k : ℕ) → s.tx_fill_pkt ≤ k → k < s.tx_fill_pkt + n → j ≢ k % 640)
      → s.tx_fill_pkt + n < 2 ^ 64
      → Untouched j s (fill_packets decide g n s)
        × ((fill_packets decide g n s).tx_fill_pkt ≡ s.tx_fill_pkt + n)
  unfolding fill_packets
  fill_packets-Untouched zero j s h b =
      (record { bytes = refl; size = refl; block = refl }, omega arith)
  fill_packets-Untouched (suc n) j s h b =
      let t = fill_packet decide g s in
      let one = fill_packet-Untouched j s (h s.tx_fill_pkt (omega arith) (omega arith)) in
      let at : t.tx_fill_pkt ≡ s.tx_fill_pkt + 1 = omega (arith, one.1) in
      let rest =
        fill_packets-Untouched n j t (λ k a c. h k (omega arith) (omega arith)) (omega arith) in
      (Untouched-trans j s t (fill_packets decide g n t) one.0 rest.0, omega (arith, rest.1))

  -- Where the fill starts.
  resync_lem :
      (sent : ℕ) (s : Pace Time Servo)
      → sent + 640 < 2 ^ 64
      → s.tx_fill_pkt < 2 ^ 64
      → let t = resync decide g sent s in
        (sent + 8 ≤ t.tx_fill_pkt)
        × (t.tx_fill_pkt ≤ sent + 640)
        × (t.tx_buf ≡ s.tx_buf)
        × (t.slot_bytes ≡ s.slot_bytes)
        × (t.driver ≡ s.driver)
  unfolding resync
  resync_lem sent s b f = ground arith

  -- A tick's fill, when the controller is said to have sent `sent` packets and the cursors stay below 2 ^
  -- 64: it ends 64 packets ahead of it at least and a lap at most; and the slots of the packet that is
  -- next and of the 7 after it are left alone, their bytes and their descriptors.
  pub fill_lem :
      (sent p : ℕ) (s : Pace Time Servo)
      → sent + 640 < 2 ^ 64
      → s.tx_fill_pkt < 2 ^ 64
      → sent ≤ p
      → p < sent + 8
      → let t = fill decide g sent s in
        (sent + 64 ≤ t.tx_fill_pkt) × (t.tx_fill_pkt ≤ sent + 640) × Untouched (p % 640) s t
  unfolding fill
  fill_lem sent p s b f low high =
      let from = record s { tx_last_sent = sent } in
      let start = resync decide g sent from in
      let at = resync_lem sent from b f in
      let rounds = u64 (sent + 64) - start.tx_fill_pkt in
      let ready = record start { tx_src = begin_tick start.tx_src } in
      let all =
        fill_packets-Untouched rounds (p % 640) ready (λ k a c e. omega arith) (omega arith) in
      (
        omega (arith, all.1),
        omega (arith, all.1),
        record {
          bytes = all.0.bytes ∙ ap (λ h. h (p % 640)) at.2;
          size = all.0.size ∙ ap (λ h. h (p % 640)) at.3;
          block = all.0.block ∙ ap (λ (d : Transmit). d.block (p % 640)) at.4;
        },
      )
