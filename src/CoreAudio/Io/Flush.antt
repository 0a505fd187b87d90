-- ===== src/CoreAudio/Io/Flush.antt =====
-- What a flush of the stage leaves in the ring.
use userface.Base.{
  ℕ, zero, suc, ◌+◌, ◌-◌, ◌*◌, ◌%◌, ◌^◌, ◌≤◌, ◌<◌, ◌≡◌, ◌≢◌, refl, sym, ap, ap₂, subst, ◌∙◌, Option,
  none, some, bit_and, u32, u64, leb, arith, Bool-cases, inl, inr, ◌⊎◌, ℕ_discrete,
}
use userface.Base.Bits.{bit_and_ones}
use userface.Shared.Ring.{Ring, acquire_write, commit_write}
use userface.Shared.TxFill.{slot_at}
use userface.CoreAudio.Io.{Output, store_channels, claim, put_frame, flush_frames}
use userface.CoreAudio.Io.Slots.{
  AreSlots, slot_of, frame_of, set-AreSlots, set_frame_self, set_frame_ne,
}

option_cases : (o : Option ℕ) → (o ≡ none) ⊎ ((i : ℕ) × (o ≡ some i))
option_cases none = inl refl
option_cases (some i) = inr (i, refl)

module _ {Time : Type 0} where
  -- How many frames of the slots from the first on are written.
  unfoldable pub position : Output → Ring Time → ℕ
  position s r = elim s.wr_slot [ none ↦ r.head * 512 | some i ↦ r.head * 512 + s.wr_frame ]

  -- The ring has its shape, and the slot that is held is the one at the head.
  pub record Held (s : Output) (r : Ring Time) : Type 0 where
    pub slots : AreSlots r.slot
    pub held : (i : ℕ) → s.wr_slot ≡ some i → (i ≡ r.head % 8) × (s.wr_frame < 512)

  -- What the claim of a slot comes to.
  claim_lem :
      (s : Output) (r : Ring Time)
      → Held s r
      → r.tail ≤ r.head
      → r.head < 2 ^ 64
      → let t = claim s r in
        Held t.0 t.1
        × (position t.0 t.1 ≡ position s r)
        × (t.1.head ≡ r.head)
        × (t.1.slot ≡ r.slot)
        × (t.0.out_stage ≡ s.out_stage)
        × (t.1.tail ≡ r.tail)
        × (t.1.slots ≡ r.slots)
        × (t.0.wr_slot ≡ none → r.tail + r.slots ≤ r.head)
  unfolding claim acquire_write position slot_at
  claim_lem s r v le bound = elim (option_cases s.wr_slot) [
    | inr (i, e) ↦ rw e (
      record { slots = v.slots; held = λ j h. v.held j (e ∙ h) },
      refl,
      refl,
      refl,
      refl,
      refl,
      refl,
      λ n. cc n,
    )
    | inl e ↦ elim (Bool-cases (leb r.slots (u64 (r.head + 2 ^ 64 - r.tail)))) [
      | inl full ↦
          rw (e, full)
            (
              record { slots = v.slots; held = λ i h. cc h },
              refl,
              refl,
              refl,
              refl,
              refl,
              refl,
              λ n. ground (arith, full),
            )
      | inr room ↦
          rw (e, room)
            (
              record {
                slots = v.slots;
                held = λ i h.
                    let same : bit_and r.head 7 ≡ i = cc h in
                    (omega (arith, same, bit_and_ones 3 r.head), omega arith);
              },
              omega arith,
              refl,
              refl,
              refl,
              refl,
              refl,
              λ n. cc n,
            )
    ]
  ]

  -- A frame that is put in the slot that is held.
  put_frame_lem :
      (f i : ℕ) (s : Output) (r : Ring Time)
      → Held s r
      → s.wr_slot ≡ some i
      → r.head + 1 < 2 ^ 64
      → let t = put_frame f i s r in
        let p = r.head * 512 + s.wr_frame in
        Held t.0 t.1
        × (position t.0 t.1 ≡ p + 1)
        × (r.head ≤ t.1.head)
        × (t.1.head ≤ r.head + 1)
        × (t.1.tail ≡ r.tail)
        × (t.1.slots ≡ r.slots)
        × (t.0.out_stage ≡ s.out_stage)
        × ((c : ℕ) → c < 28 → frame_of t.1.slot p c ≡ s.out_stage (f * 28 + c))
        × ((q c : ℕ) → q % 4096 ≢ p % 4096 → c < 28 → frame_of t.1.slot q c ≡ frame_of r.slot q c)
  unfolding put_frame position slot_at commit_write
  put_frame_lem f i s r v e bound =
      let at = v.held i e in
      let there = slot_of r.slot i in
      let audio' = store_channels 28 0 s.out_stage (f * 28) (s.wr_frame * 28) there.audio in
      let filled = record there { audio = audio' } in
      let full = record filled { frame_count = u32 (s.wr_frame + 1); channel_count = 28 } in
      let h = r.head in
      let w = s.wr_frame in
      elim (Bool-cases (leb 512 (u32 (w + 1)))) [
        | inl last ↦
            let end : w ≡ 511 = ground (arith, at.1) in
            rw last (
              record {
                slots = set-AreSlots r.slot i h w s.out_stage (f * 28) full v.slots at.0 at.1 refl;
                held = λ j n. cc n;
              },
              omega arith,
              omega arith,
              omega arith,
              refl,
              refl,
              refl,
              set_frame_self r.slot i h w s.out_stage (f * 28) full v.slots at.0 at.1 refl,
              set_frame_ne r.slot i h w s.out_stage (f * 28) full v.slots at.0 at.1 refl,
            )
        | inr room ↦
            let small : w < 511 = ground (arith, at.1) in
            rw room (
              record {
                slots =
                    set-AreSlots r.slot i h w s.out_stage (f * 28) filled v.slots at.0 at.1 refl;
                held = λ j n. ((v.held j n).0, omega arith);
              },
              rw e (omega arith),
              omega arith,
              omega arith,
              refl,
              refl,
              refl,
              set_frame_self r.slot i h w s.out_stage (f * 28) filled v.slots at.0 at.1 refl,
              set_frame_ne r.slot i h w s.out_stage (f * 28) filled v.slots at.0 at.1 refl,
            )
      ]

  -- What the loop over `n` frames of the stage, from frame `f` on, makes of the ring: the slots have some
  -- more frames, all `n` or those up to a full ring, and no other frame of theirs has changed.
  pub record Flushed (n f : ℕ) (s : Output) (r : Ring Time) (t : Output × Ring Time) : Type 0 where
    pub shape : Held t.0 t.1
    pub more : position s r ≤ position t.0 t.1
    pub most : position t.0 t.1 ≤ position s r + n
    pub all :
        (position t.0 t.1 ≡ position s r + n)
        ⊎ ((t.0.wr_slot ≡ none) × (r.tail + r.slots ≤ t.1.head))
    pub stored :
        (g c : ℕ)
        → g < position t.0 t.1 - position s r
        → c < 28
        → frame_of t.1.slot (position s r + g) c ≡ s.out_stage ((f + g) * 28 + c)
    pub others :
        (q c : ℕ)
        → ((g : ℕ) → g < n → q % 4096 ≢ (position s r + g) % 4096)
        → c < 28
        → frame_of t.1.slot q c ≡ frame_of r.slot q c

  flush_frames-none :
      (n f : ℕ) (s : Output) (r : Ring Time)
      → (claim s r).0.wr_slot ≡ none
      → flush_frames (suc n) f s r ≡ claim s r
  unfolding flush_frames
  flush_frames-none n f s r e =
      ap
        (λ (o : Option ℕ). elim o as (λ _. Output × Ring Time) [
          | none ↦ claim s r
          | some i ↦
              let t = put_frame f i (claim s r).0 (claim s r).1 in flush_frames n (f + 1) t.0 t.1
        ])
        e

  flush_frames-some :
      (n f i : ℕ) (s : Output) (r : Ring Time)
      → (claim s r).0.wr_slot ≡ some i
      → let t = put_frame f i (claim s r).0 (claim s r).1 in
        flush_frames (suc n) f s r ≡ flush_frames n (f + 1) t.0 t.1
  unfolding flush_frames
  flush_frames-some n f i s r e =
      ap
        (λ (o : Option ℕ). elim o as (λ _. Output × Ring Time) [
          | none ↦ claim s r
          | some j ↦
              let t = put_frame f j (claim s r).0 (claim s r).1 in flush_frames n (f + 1) t.0 t.1
        ])
        e

  position-held :
      (s : Output) (r : Ring Time) (i : ℕ)
      → s.wr_slot ≡ some i
      → position s r ≡ r.head * 512 + s.wr_frame
  unfolding position
  position-held s r i e = rw e refl

  pub flush_frames_lem :
      (n f : ℕ) (s : Output) (r : Ring Time)
      → Held s r
      → r.tail ≤ r.head
      → r.head + n < 2 ^ 64
      → n ≤ 4096
      → Flushed n f s r (flush_frames n f s r)
  unfolding flush_frames
  flush_frames_lem zero f s r v le bound few = record {
    shape = v;
    more = omega arith;
    most = omega arith;
    all = inl (omega arith);
    stored = λ g c low b. absurd (omega arith);
    others = λ q c h b. refl;
  }
  flush_frames_lem (suc n) f s r v le bound few =
      let s1 = (claim s r).0 in
      let r1 = (claim s r).1 in
      let (shape, same, head, slots, stage, tail, room, full) = claim_lem s r v le (omega arith) in
      elim (option_cases s1.wr_slot) [
        | inl e ↦ subst (Flushed (suc n) f s r) (sym (flush_frames-none n f s r e)) record {
          shape = shape;
          more = omega (arith, same);
          most = omega (arith, same);
          all = inr (e, omega (arith, full e, head));
          stored = λ g c low b. absurd (omega (arith, same));
          others = λ q c h b. ap (λ a. frame_of a q c) slots;
        }
        | inr (i, e) ↦
            let s2 = (put_frame f i s1 r1).0 in
            let r2 = (put_frame f i s1 r1).1 in
            let (shape2, one, head1, head2, tail2, room2, stage2, put, kept) =
              put_frame_lem f i s1 r1 shape e (omega (arith, head)) in
            let rest =
              flush_frames_lem n (f + 1) s2 r2 shape2 (omega (arith, head, head1, tail, tail2))
                (omega (arith, head, head2)) (omega arith) in
            let here = position-held s1 r1 i e in
            let t = flush_frames n (f + 1) s2 r2 in
            subst (Flushed (suc n) f s r) (sym (flush_frames-some n f i s r e)) record {
              shape = rest.shape;
              more = omega (arith, rest.more, one, here, same);
              most = omega (arith, rest.most, one, here, same);
              all = elim rest.all [
                | inl done ↦ inl (omega (arith, done, one, here, same))
                | inr late ↦ inr (late.0, omega (arith, late.1, tail, tail2, room, room2))
              ];
              stored = λ g c low b. elim (ℕ_discrete g 0) [
                | yes z ↦
                    let at : position s r + g ≡ r1.head * 512 + s1.wr_frame =
                      omega (arith, here, same) in
                    ap (λ q. frame_of t.1.slot q c) at
                    ∙ rest.others (r1.head * 512 + s1.wr_frame) c
                        (λ k low2 x. absurd (omega (arith, one))) b
                    ∙ put c b
                    ∙ ap₂ (λ (h : ℕ → ℕ) j. h (j * 28 + c)) stage (omega arith)
                | no ne ↦
                    let at : position s r + g ≡ position s2 r2 + (g - 1) =
                      omega (arith, here, same, one) in
                    ap (λ q. frame_of t.1.slot q c) at
                    ∙ rest.stored (g - 1) c (omega (arith, here, same, one)) b
                    ∙ ap₂ (λ (h : ℕ → ℕ) j. h (j * 28 + c)) (stage2 ∙ stage) (omega arith)
              ];
              others = λ q c h b.
                  rest.others q c
                    (λ g k x. h (suc g) (omega arith) (omega (arith, here, same, one))) b
                  ∙ kept q c (λ x. h 0 (omega arith) (omega (arith, here, same))) b
                  ∙ ap (λ a. frame_of a q c) slots;
            }
      ]
