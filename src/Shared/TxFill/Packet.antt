-- ===== src/Shared/TxFill/Packet.antt =====
-- The frames of one packet: what a miss costs, and what a slot gives.
use userface.Base.{
  ℕ, zero, suc, ◌+◌, ◌^◌, ◌≤◌, ◌<◌, ◌≡◌, ◌⊎◌, inl, refl, ◌∙◌, ap, arith, true, false, some, u32,
  u64, ◌==◌, if◌then◌else◌,
}
use userface.Shared.Ring.{Ring, acquire_read, commit_read}
use userface.Shared.TxFill.{
  TxFill, begin_packet, slot_at, give_back, acquired, take_slot, real_frame, held_frame, next_frame,
  frame,
}

module _ {Time : Type 0} where
  -- The ring after `n` frames of a packet, with what the other process does to it before each.
  unfoldable pub packet_frames :
      ℕ → (ℕ → Ring Time → Ring Time) → TxFill → Ring Time → TxFill × Ring Time
  packet_frames zero world t r = (t, r)
  packet_frames (suc n) world t r =
      let (t', r') = packet_frames n world t r in frame t' (world n r')

  give_back_keeps :
      (t : TxFill) (r : Ring Time)
      → ((give_back t r).1.underruns ≡ r.underruns) × ((give_back t r).0.dry_packet ≡ t.dry_packet)
  unfolding give_back commit_read
  give_back_keeps t r = ground arith

  -- One attempt: it leaves the underrun counter, or it adds one and marks the packet dry.
  take_slot_underruns :
      (t : TxFill) (r : Ring Time)
      → (((take_slot t r).1.underruns ≡ r.underruns)
          × ((take_slot t r).0.dry_packet ≡ t.dry_packet))
        ⊎ (((take_slot t r).1.underruns ≡ u32 (r.underruns + 1))
            × (t.dry_packet ≡ false)
            × ((take_slot t r).0.dry_packet ≡ true))
  unfolding take_slot acquired acquire_read
  take_slot_underruns t r = ground arith

  next_frame_keeps : (t : TxFill) (r : Ring Time) → (next_frame t r).dry_packet ≡ t.dry_packet
  unfolding next_frame real_frame held_frame
  next_frame_keeps t r = ground arith

  frame_underruns :
      (t : TxFill) (r : Ring Time)
      → (((frame t r).1.underruns ≡ r.underruns) × ((frame t r).0.dry_packet ≡ t.dry_packet))
        ⊎ (((frame t r).1.underruns ≡ u32 (r.underruns + 1))
            × (t.dry_packet ≡ false)
            × ((frame t r).0.dry_packet ≡ true))
  unfolding frame
  frame_underruns t r =
      let b = give_back_keeps t r in
      let tk = take_slot_underruns (give_back t r).0 (give_back t r).1 in
      let taken = take_slot (give_back t r).0 (give_back t r).1 in
      let nf = next_frame_keeps taken.0 taken.1 in ground arith

  -- A packet costs the underrun counter at most one, however many frames it has and whatever the
  -- producer does between them, as long as it leaves the counter alone; and it costs one only in a
  -- packet that is marked dry.
  pub packet_underruns :
      (n : ℕ) (world : ℕ → Ring Time → Ring Time) (t : TxFill) (r : Ring Time)
      → ((k : ℕ) (x : Ring Time) → (world k x).underruns ≡ x.underruns)
      → (((packet_frames n world (begin_packet t) r).1.underruns ≡ r.underruns)
          × ((packet_frames n world (begin_packet t) r).0.dry_packet ≡ false))
        ⊎ (((packet_frames n world (begin_packet t) r).1.underruns ≡ u32 (r.underruns + 1))
            × ((packet_frames n world (begin_packet t) r).0.dry_packet ≡ true))
  unfolding packet_frames begin_packet
  packet_underruns zero world t r h = inl (refl, refl)
  packet_underruns (suc n) world t r h =
      let before = packet_frames n world (begin_packet t) r in
      let ih = packet_underruns n world t r h in
      let e = h n before.1 in let st = frame_underruns before.0 (world n before.1) in ground arith

  -- One frame of a held slot that has one left.
  slot_frame :
      (t : TxFill) (r : Ring Time) (i : ℕ)
      → t.slot ≡ some i
      → t.pos < (slot_at r i).frame_count
      → (slot_at r i).frame_count < 2 ^ 32
      → ((frame t r).1 ≡ r)
        × ((frame t r).0.slot ≡ some i)
        × ((frame t r).0.pos ≡ t.pos + 1)
        × ((frame t r).0.held ≡ t.held)
  unfolding frame give_back take_slot next_frame real_frame
  slot_frame t r i h hp hc = ground arith

  slot_frames_state :
      (n : ℕ) (t : TxFill) (r : Ring Time) (i : ℕ)
      → t.slot ≡ some i
      → t.pos + n ≤ (slot_at r i).frame_count
      → (slot_at r i).frame_count < 2 ^ 32
      → ((packet_frames n (λ k x. x) t r).1 ≡ r)
        × ((packet_frames n (λ k x. x) t r).0.slot ≡ some i)
        × ((packet_frames n (λ k x. x) t r).0.pos ≡ t.pos + n)
        × ((packet_frames n (λ k x. x) t r).0.held ≡ t.held)
  unfolding packet_frames
  slot_frames_state zero t r i h hp hc = (refl, h, omega arith, refl)
  slot_frames_state (suc n) t r i h hp hc =
      let t' = (packet_frames n (λ k x. x) t r).0 in
      let ih = slot_frames_state n t r i h (omega arith) hc in
      let st = slot_frame t' r i ih.1 (omega arith) hc in
      let next = ap (λ x. frame t' x) ih.0 in rw ih.0 (st.0, st.1, omega arith, st.3 ∙ ih.3)

  give_back_tail :
      (t : TxFill) (r : Ring Time) (i : ℕ)
      → t.slot ≡ some i
      → t.pos ≤ (slot_at r i).frame_count
      → (give_back t r).1.tail
        ≡ (if t.pos == (slot_at r i).frame_count then u64 (r.tail + 1) else r.tail)
  unfolding give_back commit_read
  give_back_tail t r i h hp = ground arith

  -- While a slot has frames left they are taken from it one after another: none is held, the ring and
  -- its cursors stay as they are, and the position goes on by one each time. The frame after them
  -- first gives the slot back if none is left, which moves the consumer's cursor on by exactly one, and
  -- keeps it if one is left.
  pub slot_frames :
      (n : ℕ) (t : TxFill) (r : Ring Time) (i : ℕ)
      → t.slot ≡ some i
      → t.pos + n ≤ (slot_at r i).frame_count
      → (slot_at r i).frame_count < 2 ^ 32
      → ((packet_frames n (λ k x. x) t r).1 ≡ r)
        × ((packet_frames n (λ k x. x) t r).0.pos ≡ t.pos + n)
        × ((packet_frames n (λ k x. x) t r).0.held ≡ t.held)
        × ((give_back (packet_frames n (λ k x. x) t r).0 r).1.tail
            ≡ (if t.pos + n == (slot_at r i).frame_count then u64 (r.tail + 1) else r.tail))
  slot_frames n t r i h hp hc =
      let t' = (packet_frames n (λ k x. x) t r).0 in
      let st = slot_frames_state n t r i h hp hc in
      let gone = give_back_tail t' r i st.1 (omega arith) in
      (
        st.0,
        st.2,
        st.3,
        gone ∙ ap (λ p. if p == (slot_at r i).frame_count then u64 (r.tail + 1) else r.tail) st.2,
      )
