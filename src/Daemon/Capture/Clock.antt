-- ===== src/Daemon/Capture/Clock.antt =====
-- The frame count that the clock is made of: it counts each frame that the device sent, whether the
-- capture ring had room for it or not.
use userface.Base.{
  ℕ, zero, suc, ◌+◌, ◌-◌, ◌%◌, ◌^◌, ◌≤◌, ◌<◌, ◌≡◌, refl, ap, sym, ◌≢◌, ◌∙◌, true, false, List,
  Option, none, some, u64, ◌>>◌, arith, ℕ_discrete,
}
use userface.Protocol.Endian.{le32_to_host}
use userface.Daemon.Capture.{
  Capture, packet_frames, count_packet, check_cycle, claim_slot, finish_frame, put_frame,
  capture_frame, capture_frames, drain_packet, drain, drain_to,
}

-- The frames of the packet in a slot.
abbrev frames_of : ℕ → List ℕ → ℕ
frames_of dbq bytes = packet_frames dbq (le32_to_host bytes 4 >> 16)

-- The frames of `n` packets, from packet `k` on.
unfoldable pub frames_in : ℕ → ℕ → (ℕ → List ℕ) → ℕ → ℕ
frames_in zero dbq slots k = 0
frames_in (suc n) dbq slots k = frames_of dbq (slots (k % 512)) + frames_in n dbq slots (k + 1)

frames_in-suc :
    (n dbq : ℕ) (slots : ℕ → List ℕ) (k : ℕ)
    → frames_in (suc n) dbq slots k
      ≡ frames_of dbq (slots (k % 512)) + frames_in n dbq slots (k + 1)
unfolding frames_in
frames_in-suc n dbq slots k = refl

frames_in-first :
    (dbq : ℕ) (slots : ℕ → List ℕ) (k n : ℕ)
    → n ≡ 1
    → frames_in n dbq slots k ≡ frames_of dbq (slots (k % 512))
unfolding frames_in
frames_in-first dbq slots k n e = ap (λ j. frames_in j dbq slots k) e ∙ omega arith

module _ {Time : Type 0} where
  -- What the storing of frames leaves alone.
  record SameClock (s t : Capture Time) : Type 0 where
    pub frames : t.device_frames ≡ s.device_frames
    pub count : t.consumed ≡ s.consumed
    pub snap : t.frames_at_snap ≡ s.frames_at_snap
    pub anchor : t.have_anchor ≡ s.have_anchor

  capture_frame-SameClock :
      (dbq : ℕ) (bytes : List ℕ) (k : ℕ) (s : Capture Time)
      → SameClock s (capture_frame dbq bytes k s)
  unfolding capture_frame put_frame claim_slot finish_frame
  capture_frame-SameClock dbq bytes k s = ground arith

  capture_frames-SameClock :
      (n dbq : ℕ) (bytes : List ℕ) (s : Capture Time) → SameClock s (capture_frames n dbq bytes s)
  unfolding capture_frames
  capture_frames-SameClock zero dbq bytes s = ground arith
  capture_frames-SameClock (suc n) dbq bytes s =
      let before = capture_frames-SameClock n dbq bytes s in
      let last = capture_frame-SameClock dbq bytes n (capture_frames n dbq bytes s) in
      record {
        frames = last.frames ∙ before.frames;
        count = last.count ∙ before.count;
        snap = last.snap ∙ before.snap;
        anchor = last.anchor ∙ before.anchor;
      }

  count_packet-SameClock :
      (full len q0 : ℕ) (s : Capture Time)
      → SameClock s (check_cycle q0 (count_packet full len q0 s))
  unfolding check_cycle count_packet
  count_packet-SameClock full len q0 s = ground arith

  -- A packet up to its frames.
  abbrev taken : ℕ → ℕ → List ℕ → Capture Time → Capture Time
  taken dbq full bytes s =
      let q0 = le32_to_host bytes 0 in
      let len = le32_to_host bytes 4 >> 16 in
      capture_frames (packet_frames dbq len) dbq bytes (check_cycle q0 (count_packet full len q0 s))

  taken-SameClock :
      (dbq full : ℕ) (bytes : List ℕ) (s : Capture Time) → SameClock s (taken dbq full bytes s)
  taken-SameClock dbq full bytes s =
      let q0 = le32_to_host bytes 0 in
      let len = le32_to_host bytes 4 >> 16 in
      let seen = count_packet-SameClock full len q0 s in
      let all =
        capture_frames-SameClock (packet_frames dbq len) dbq bytes
          (check_cycle q0 (count_packet full len q0 s)) in
      record {
        frames = all.frames ∙ seen.frames;
        count = all.count ∙ seen.count;
        snap = all.snap ∙ seen.snap;
        anchor = all.anchor ∙ seen.anchor;
      }

  -- One packet.
  packet_clock :
      (dbq full : ℕ) (snap : Option ℕ) (bytes : List ℕ) (s : Capture Time)
      → let t = drain_packet dbq full snap bytes s in
        (t.device_frames ≡ u64 (s.device_frames + frames_of dbq bytes))
        × (t.consumed ≡ u64 (s.consumed + 1))
  unfolding drain_packet
  packet_clock dbq full none bytes s =
      let same = taken-SameClock dbq full bytes s in
      (
        ap (λ (f : ℕ). u64 (f + frames_of dbq bytes)) same.frames,
        ap (λ (k : ℕ). u64 (k + 1)) same.count,
      )
  packet_clock dbq full (some c) bytes s =
      let same = taken-SameClock dbq full bytes s in
      (
        ap (λ (f : ℕ). u64 (f + frames_of dbq bytes)) same.frames,
        ap (λ (k : ℕ). u64 (k + 1)) same.count,
      )

  packet_anchor :
      (dbq full c : ℕ) (bytes : List ℕ) (s : Capture Time)
      → let t = drain_packet dbq full (some c) bytes s in
        (t.consumed ≡ c → (t.frames_at_snap ≡ t.device_frames) × (t.have_anchor ≡ true))
        × (t.consumed ≢ c → (t.frames_at_snap ≡ s.frames_at_snap) × (t.have_anchor ≡ s.have_anchor))
  unfolding drain_packet
  packet_anchor dbq full c bytes s =
      let same = taken-SameClock dbq full bytes s in
      (λ e. ground arith, λ ne. ground (arith, same.snap, same.anchor))

  -- Whatever becomes of the frames, the clock counts them all.
  drain_clock :
      (n dbq full : ℕ) (snap : Option ℕ) (slots : ℕ → List ℕ) (s : Capture Time)
      → s.device_frames + frames_in n dbq slots s.consumed < 2 ^ 64
      → s.consumed + n < 2 ^ 64
      → let t = drain n dbq full snap slots s in
        (t.device_frames ≡ s.device_frames + frames_in n dbq slots s.consumed)
        × (t.consumed ≡ s.consumed + n)
  unfolding drain frames_in
  drain_clock zero dbq full snap slots s f b = (omega arith, omega arith)
  drain_clock (suc n) dbq full snap slots s f b =
      let bytes = slots (s.consumed % 512) in
      let t = drain_packet dbq full snap bytes s in
      let one = packet_clock dbq full snap bytes s in
      let frames : t.device_frames ≡ s.device_frames + frames_of dbq bytes = omega (arith, one.0) in
      let count : t.consumed ≡ s.consumed + 1 = omega (arith, one.1) in
      let rest_frames : frames_in n dbq slots t.consumed ≡ frames_in n dbq slots (s.consumed + 1) =
        ap (frames_in n dbq slots) count in
      let rest = drain_clock n dbq full snap slots t (omega arith) (omega arith) in
      (omega (arith, rest.0), omega (arith, rest.1))

  -- A packet before the one of the snapshot, or after it, leaves the anchor alone.
  drain-anchor_after :
      (n dbq full c : ℕ) (slots : ℕ → List ℕ) (s : Capture Time)
      → s.consumed + n < 2 ^ 64
      → c ≤ s.consumed
      → let t = drain n dbq full (some c) slots s in
        (t.frames_at_snap ≡ s.frames_at_snap) × (t.have_anchor ≡ s.have_anchor)
  unfolding drain
  drain-anchor_after zero dbq full c slots s b h = (refl, refl)
  drain-anchor_after (suc n) dbq full c slots s b h =
      let bytes = slots (s.consumed % 512) in
      let t = drain_packet dbq full (some c) bytes s in
      let count : t.consumed ≡ s.consumed + 1 =
        omega (arith, (packet_clock dbq full (some c) bytes s).1) in
      let one = (packet_anchor dbq full c bytes s).1 (λ e. absurd (omega arith)) in
      let rest = drain-anchor_after n dbq full c slots t (omega arith) (omega arith) in
      (rest.0 ∙ one.0, rest.1 ∙ one.1)

  drain_anchor :
      (n dbq full c : ℕ) (slots : ℕ → List ℕ) (s : Capture Time)
      → s.device_frames + frames_in n dbq slots s.consumed < 2 ^ 64
      → s.consumed + n < 2 ^ 64
      → s.consumed < c
      → c ≤ s.consumed + n
      → let t = drain n dbq full (some c) slots s in
        (t.have_anchor ≡ true)
        × (t.frames_at_snap ≡ s.device_frames + frames_in (c - s.consumed) dbq slots s.consumed)
  unfolding drain
  drain_anchor zero dbq full c slots s f b low high = absurd (omega arith)
  drain_anchor (suc n) dbq full c slots s f b low high =
      let bytes = slots (s.consumed % 512) in
      let t = drain_packet dbq full (some c) bytes s in
      let one = packet_clock dbq full (some c) bytes s in
      let total : frames_in (suc n) dbq slots s.consumed
          ≡ frames_of dbq bytes + frames_in n dbq slots (s.consumed + 1) =
        frames_in-suc n dbq slots s.consumed in
      let frames : t.device_frames ≡ s.device_frames + frames_of dbq bytes = omega (arith, one.0) in
      let count : t.consumed ≡ s.consumed + 1 = omega (arith, one.1) in
      let at = packet_anchor dbq full c bytes s in
      elim (ℕ_discrete t.consumed c) [
        | yes e ↦
            let after = drain-anchor_after n dbq full c slots t (omega arith) (omega arith) in
            let first = frames_in-first dbq slots s.consumed (c - s.consumed) (omega arith) in
            (after.1 ∙ (at.0 e).1, after.0 ∙ (at.0 e).0 ∙ omega arith)
        | no ne ↦
            let same : frames_in n dbq slots t.consumed ≡ frames_in n dbq slots (s.consumed + 1) =
              ap (frames_in n dbq slots) count in
            let later =
              drain_anchor n dbq full c slots t (omega arith) (omega arith) (omega arith)
                (omega arith) in
            let gap : c - s.consumed ≡ suc (c - t.consumed) = omega arith in
            let split : frames_in (c - s.consumed) dbq slots s.consumed
                ≡ frames_of dbq bytes + frames_in (c - t.consumed) dbq slots t.consumed =
              ap (λ k. frames_in k dbq slots s.consumed) gap
              ∙ frames_in-suc (c - t.consumed) dbq slots s.consumed
              ∙ ap (λ k. frames_of dbq bytes + frames_in (c - t.consumed) dbq slots k)
                  (sym count) in
            (later.0, later.1 ∙ omega arith)
      ]

  -- What the drain loop makes of the clock, as long as the counts stay below 2 ^ 64, and whether the
  -- capture ring has room or not: when it has drained to `total`, the frame count is that of all packets
  -- up to there; and if the interrupt's snapshot counts one of them, the frame count kept for it is that
  -- of the packets up to the snapshot.
  pub drain_to_clock :
      (total dbq full c : ℕ) (slots : ℕ → List ℕ) (s : Capture Time)
      → s.device_frames + frames_in (total - s.consumed) dbq slots s.consumed < 2 ^ 64
      → total < 2 ^ 64
      → s.consumed ≤ total
      → let t = drain_to total dbq full (some c) slots s in
        (t.consumed ≡ total)
        × (t.device_frames ≡ s.device_frames + frames_in (total - s.consumed) dbq slots s.consumed)
        × (s.consumed < c
            → c ≤ total
            → (t.have_anchor ≡ true)
              × (t.frames_at_snap
                  ≡ s.device_frames + frames_in (c - s.consumed) dbq slots s.consumed))
  unfolding drain_to
  drain_to_clock total dbq full c slots s f b h =
      let fresh = record s { frames_at_snap = 0; have_anchor = false } in
      let n = total - s.consumed in
      let all = drain_clock n dbq full (some c) slots fresh f (omega arith) in
      (
        omega (arith, all.1),
        all.0,
        λ low high. drain_anchor n dbq full c slots fresh f (omega arith) low (omega arith),
      )
