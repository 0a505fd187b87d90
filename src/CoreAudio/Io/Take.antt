-- ===== src/CoreAudio/Io/Take.antt =====
-- The slots that a pull takes from the ring, and the frame that it takes from a slot.
use userface.Base.{
  ℕ, ◌+◌, ◌-◌, ◌*◌, ◌/◌, ◌%◌, ◌^◌, ◌≤◌, ◌<◌, ◌≡◌, refl, sym, ap, ap₂, subst, ◌∙◌, Option, none,
  some, get_or, bit_and, u32, u64, leb, ltb, ◌==◌, true, false, ◌&&◌, arith, Bool-cases, inl, inr,
  ◌⊎◌, if◌then◌else◌,
}
use userface.Base.Bits.{bit_and_ones}
use userface.Shared.Ring.{Ring, acquire_read, commit_read}
use userface.Shared.TxFill.{slot_at}
use userface.CoreAudio.Io.{Input, copy, take_slot, next_slot}
use userface.CoreAudio.Io.Calls.{copy_lem}
use userface.CoreAudio.Io.Slots.{slot_of, frame_of}

pub option_cases : (o : Option ℕ) → (o ≡ none) ⊎ ((i : ℕ) × (o ≡ some i))
option_cases none = inl refl
option_cases (some i) = inr (i, refl)

module _ {Time : Type 0} where
  -- How many frames of the slots from the first on have been read.
  unfoldable pub position : Input → Ring Time → ℕ
  position s r = elim s.rd_slot [ none ↦ r.tail * 512 | some i ↦ r.tail * 512 + s.rd_frame ]

  -- The slots between the cursors are whole, and the slot that is held is the one at the tail.
  pub record Held (s : Input) (r : Ring Time) : Type 0 where
    pub cursors : (r.tail ≤ r.head) × (r.head < 2 ^ 64)
    pub whole : (k : ℕ) → r.tail ≤ k → k < r.head → (slot_of r.slot (k % 8)).frame_count ≡ 512
    pub held :
        (i : ℕ) → s.rd_slot ≡ some i → (i ≡ r.tail % 8) × (s.rd_frame ≤ 512) × (r.tail < r.head)

  -- What the claim of a slot comes to, where the position is `p`.
  pub record Claimed (p : ℕ) (s : Input) (r : Ring Time) (t : Input × Ring Time) : Type 0 where
    pub shape : Held t.0 t.1
    pub same : position t.0 t.1 ≡ p
    pub head : t.1.head ≡ r.head
    pub slot : t.1.slot ≡ r.slot
    pub stage : t.0.in_stage ≡ s.in_stage
    pub room : (i : ℕ) → t.0.rd_slot ≡ some i → t.0.rd_frame < 512
    pub dry : t.0.rd_slot ≡ none → t.1.tail ≡ r.head

  take_slot_lem :
      (s : Input) (r : Ring Time)
      → (r.tail ≤ r.head) × (r.head < 2 ^ 64)
      → ((k : ℕ) → r.tail ≤ k → k < r.head → (slot_of r.slot (k % 8)).frame_count ≡ 512)
      → Claimed (r.tail * 512) s r (take_slot s r)
  unfolding take_slot acquire_read position
  take_slot_lem s r cursors whole = elim (Bool-cases (r.tail == r.head)) [
    | inl empty ↦ rw empty record {
      shape = record { cursors = cursors; whole = whole; held = λ i h. cc h };
      same = refl;
      head = refl;
      slot = refl;
      stage = refl;
      room = λ i h. cc h;
      dry = λ h. ground (arith, empty);
    }
    | inr more ↦ rw more record {
      shape = record {
        cursors = cursors;
        whole = whole;
        held = λ i h.
            let same : bit_and r.tail 7 ≡ i = cc h in
            (
              omega (arith, same, bit_and_ones 3 r.tail),
              omega arith,
              ground (arith, more, cursors.0),
            );
      };
      same = omega arith;
      head = refl;
      slot = refl;
      stage = refl;
      room = λ i h. omega arith;
      dry = λ h. cc h;
    }
  ]

  pub position-none : (s : Input) (r : Ring Time) → s.rd_slot ≡ none → position s r ≡ r.tail * 512
  unfolding position
  position-none s r e = rw e refl

  pub position-some :
      (s : Input) (r : Ring Time) (i : ℕ)
      → s.rd_slot ≡ some i
      → position s r ≡ r.tail * 512 + s.rd_frame
  unfolding position
  position-some s r i e = rw e refl

  next_slot-none : (s : Input) (r : Ring Time) → s.rd_slot ≡ none → next_slot s r ≡ take_slot s r
  unfolding next_slot
  next_slot-none s r e =
      ap
        (λ (o : Option ℕ). elim o as (λ _. Input × Ring Time) [
          | none ↦ take_slot s r
          | some i ↦
              if leb (slot_at r i).frame_count s.rd_frame
              then take_slot s (commit_read r)
              else (s, r)
        ])
        e

  next_slot-some :
      (s : Input) (r : Ring Time) (i : ℕ)
      → s.rd_slot ≡ some i
      → next_slot s r
        ≡ (if leb (slot_at r i).frame_count s.rd_frame then take_slot s (commit_read r) else (s, r))
  unfolding next_slot
  next_slot-some s r i e =
      ap
        (λ (o : Option ℕ). elim o as (λ _. Input × Ring Time) [
          | none ↦ take_slot s r
          | some i ↦
              if leb (slot_at r i).frame_count s.rd_frame
              then take_slot s (commit_read r)
              else (s, r)
        ])
        e

  pub next_slot_lem :
      (s : Input) (r : Ring Time) → Held s r → Claimed (position s r) s r (next_slot s r)
  unfolding commit_read slot_at
  next_slot_lem s r v = elim (option_cases s.rd_slot) [
    | inl e ↦ subst (Claimed (position s r) s r) (sym (next_slot-none s r e)) (
        subst (λ p. Claimed p s r (take_slot s r)) (sym (position-none s r e))
          (take_slot_lem s r v.cursors v.whole))
    | inr (i, e) ↦
        let at = v.held i e in
        let size : (slot_of r.slot i).frame_count ≡ 512 =
          ap (λ k. (slot_of r.slot k).frame_count) (at.0) ∙ v.whole r.tail (omega arith) (at.2) in
        let here = position-some s r i e in
        subst (Claimed (position s r) s r) (sym (next_slot-some s r i e))
          (elim (Bool-cases (leb (slot_at r i).frame_count s.rd_frame)) [
            | inl last ↦
                let tail : u64 (r.tail + 1) ≡ r.tail + 1 = omega (arith, at.2, v.cursors.1) in
                let end : s.rd_frame ≡ 512 = ground (arith, last, size, at.1) in
                let next =
                  take_slot_lem s (record r { tail = u64 (r.tail + 1) })
                    (omega (arith, tail, at.2), v.cursors.1)
                    (λ k low high. v.whole k (omega (arith, tail)) high) in
                rw last record {
                  shape = next.shape;
                  same = omega (arith, next.same, tail, here, end);
                  head = next.head;
                  slot = next.slot;
                  stage = next.stage;
                  room = next.room;
                  dry = next.dry;
                }
            | inr more ↦
                let small : s.rd_frame < 512 = ground (arith, more, size) in
                rw more record {
                  shape = v;
                  same = refl;
                  head = refl;
                  slot = refl;
                  stage = refl;
                  room = λ j h. small;
                  dry = λ h. cc (h, e);
                }
          ])
  ]

  -- Frame `f` of the stage, out of slot `i`.
  abbrev pub take_frame : ℕ → ℕ → Input → Ring Time → Input
  take_frame f i s r = record s {
    in_stage = copy (f * 28) 28 (λ j. get_or (slot_at r i).audio j 0) (s.rd_frame * 28) s.in_stage;
    rd_frame = u32 (s.rd_frame + 1);
  }

  pub take_frame_lem :
      (f i : ℕ) (s : Input) (r : Ring Time)
      → Held s r
      → s.rd_slot ≡ some i
      → s.rd_frame < 512
      → let t = take_frame f i s r in
        Held t r
        × (position t r ≡ position s r + 1)
        × (position s r < r.head * 512)
        × ((c : ℕ) → c < 28 → t.in_stage (f * 28 + c) ≡ frame_of r.slot (position s r) c)
        × ((j : ℕ) → j < f * 28 → t.in_stage j ≡ s.in_stage j)
  unfolding slot_at
  take_frame_lem f i s r v e small =
      let at = v.held i e in
      let t = take_frame f i s r in
      let here = position-some s r i e in
      let there = position-some t r i e in
      let audio = λ (j : ℕ). get_or (slot_of r.slot i).audio j 0 in
      (
        record {
          cursors = v.cursors;
          whole = v.whole;
          held = λ j h. ((v.held j h).0, omega arith, at.2);
        },
        omega (arith, here, there),
        omega (arith, here, at.2),
        λ c b.
            let inside : (leb (f * 28) (f * 28 + c) && ltb (f * 28 + c) (f * 28 + 28)) ≡ true =
              ground arith in
            let slot : position s r / 512 % 8 ≡ i = omega (arith, here, at.0) in
            let off : position s r % 512 * 28 + c ≡ s.rd_frame * 28 + (f * 28 + c - f * 28) =
              omega (arith, here) in
            copy_lem (f * 28) 28 audio (s.rd_frame * 28) s.in_stage (f * 28 + c)
            ∙ rw inside (ap₂ (λ k j. get_or (slot_of r.slot k).audio j 0) (sym slot) (sym off)),
        λ j b.
            let outside : (leb (f * 28) j && ltb j (f * 28 + 28)) ≡ false = ground arith in
            copy_lem (f * 28) 28 audio (s.rd_frame * 28) s.in_stage j ∙ rw outside refl,
      )

  pub position_bound : (s : Input) (r : Ring Time) → Held s r → position s r ≤ r.head * 512
  position_bound s r v = elim (option_cases s.rd_slot) [
    | inl e ↦ omega (arith, position-none s r e, v.cursors.0)
    | inr (i, e) ↦ let at = v.held i e in omega (arith, position-some s r i e, at.1, at.2)
  ]
