-- ===== src/CoreAudio/Io/Pull.antt =====
-- What a pull from the ring leaves in the stage.
use userface.Base.{
  ℕ, zero, suc, ◌+◌, ◌-◌, ◌*◌, ◌≤◌, ◌<◌, ◌≡◌, refl, sym, ap, ap₂, subst, ◌∙◌, Option, none, some,
  leb, ltb, true, false, arith, inl, inr, ℕ_discrete, if◌then◌else◌,
}
use userface.Shared.Ring.{Ring}
use userface.CoreAudio.Io.{Input, clear, next_slot, fill_frames}
use userface.CoreAudio.Io.Slots.{frame_of}
use userface.CoreAudio.Io.Take.{
  option_cases, position, position-none, Held, Claimed, next_slot_lem, take_frame, take_frame_lem,
  position_bound,
}

clear_lem :
    (at n : ℕ) (stage : ℕ → ℕ) (j : ℕ)
    → (at ≤ j → j < at + n → clear at n stage j ≡ 0) × (j < at → clear at n stage j ≡ stage j)
unfolding clear
clear_lem at n stage j = (λ low high. ground arith, λ low. ground arith)

module _ {Time : Type 0} where
  -- Frame `q` as it is read: silent from the head on.
  abbrev pub heard : Ring Time → ℕ → ℕ → ℕ
  heard r q c = if ltb q (r.head * 512) then frame_of r.slot q c else 0

  -- What the loop over `n` frames, from frame `f` of the stage on, makes of the stage.
  pub record Pulled (n f : ℕ) (s : Input) (r : Ring Time) (t : Input × Ring Time) : Type 0 where
    pub shape : Held t.0 t.1
    pub head : t.1.head ≡ r.head
    pub slot : t.1.slot ≡ r.slot
    pub moved :
        position t.0 t.1
        ≡ (if leb (position s r + n) (r.head * 512) then position s r + n else r.head * 512)
    pub staged :
        (g c : ℕ) → g < n → c < 28 → t.0.in_stage ((f + g) * 28 + c) ≡ heard r (position s r + g) c
    pub before : (j : ℕ) → j < f * 28 → t.0.in_stage j ≡ s.in_stage j

  fill_frames-none :
      (n f : ℕ) (s : Input) (r : Ring Time)
      → let t = next_slot s r in
        t.0.rd_slot ≡ none
        → fill_frames (suc n) f s r
          ≡ (record t.0 { in_stage = clear (f * 28) (suc n * 28) t.0.in_stage }, t.1)
  unfolding fill_frames
  fill_frames-none n f s r e =
      let (s1, r1) = next_slot s r in
      ap
        (λ (o : Option ℕ). elim o as (λ _. Input × Ring Time) [
          | none ↦ (record s1 { in_stage = clear (f * 28) (suc n * 28) s1.in_stage }, r1)
          | some i ↦ fill_frames n (f + 1) (take_frame f i s1 r1) r1
        ])
        e

  fill_frames-some :
      (n f i : ℕ) (s : Input) (r : Ring Time)
      → let t = next_slot s r in
        t.0.rd_slot ≡ some i
        → fill_frames (suc n) f s r ≡ fill_frames n (f + 1) (take_frame f i t.0 t.1) t.1
  unfolding fill_frames
  fill_frames-some n f i s r e =
      let (s1, r1) = next_slot s r in
      ap
        (λ (o : Option ℕ). elim o as (λ _. Input × Ring Time) [
          | none ↦ (record s1 { in_stage = clear (f * 28) (suc n * 28) s1.in_stage }, r1)
          | some i ↦ fill_frames n (f + 1) (take_frame f i s1 r1) r1
        ])
        e

  -- The loop in a ring that has no more slots.
  dry_lem :
      (n f : ℕ) (s : Input) (r : Ring Time) (t : Input × Ring Time)
      → Claimed (position s r) s r t
      → t.0.rd_slot ≡ none
      → Pulled
          (suc n)
          f
          s
          r
          (record (t.0) { in_stage = clear (f * 28) (suc n * 28) t.0.in_stage }, t.1)
  unfolding position
  dry_lem n f s r t one e =
      let end : position s r ≡ r.head * 512 =
        omega (arith, one.same, position-none t.0 t.1 e, one.dry e) in
      let past : leb (position s r + suc n) (r.head * 512) ≡ false = ground arith in
      record {
        shape = record {
          cursors = one.shape.cursors;
          whole = one.shape.whole;
          held = one.shape.held;
        };
        head = one.head;
        slot = one.slot;
        moved = one.same ∙ end ∙ rw past refl;
        staged = λ g c low b.
            let silent : ltb (position s r + g) (r.head * 512) ≡ false = ground arith in
            (clear_lem (f * 28) (suc n * 28) t.0.in_stage ((f + g) * 28 + c)).0 (omega arith)
              (omega arith)
            ∙ rw silent refl;
        before =
            λ j b. (clear_lem (f * 28) (suc n * 28) t.0.in_stage j).1 b ∙ ap (λ h. h j) one.stage;
      }

  pub fill_frames_lem :
      (n f : ℕ) (s : Input) (r : Ring Time) → Held s r → Pulled n f s r (fill_frames n f s r)
  unfolding fill_frames
  fill_frames_lem zero f s r v =
      let bound = position_bound s r v in
      let fine : leb (position s r + 0) (r.head * 512) ≡ true = ground arith in
      record {
        shape = v;
        head = refl;
        slot = refl;
        moved = rw fine (omega arith);
        staged = λ g c low b. absurd (omega arith);
        before = λ j b. refl;
      }
  fill_frames_lem (suc n) f s r v =
      let s1 = (next_slot s r).0 in
      let r1 = (next_slot s r).1 in
      let one = next_slot_lem s r v in
      elim (option_cases s1.rd_slot) [
        | inl e ↦
            subst (Pulled (suc n) f s r) (sym (fill_frames-none n f s r e))
              (dry_lem n f s r (next_slot s r) one e)
        | inr (i, e) ↦
            let s2 = take_frame f i s1 r1 in
            let (shape, moved, live, put, kept) =
              take_frame_lem f i s1 r1 one.shape e (one.room i e) in
            let rest = fill_frames_lem n (f + 1) s2 r1 shape in
            let t = fill_frames n (f + 1) s2 r1 in
            let p : position s2 r1 ≡ position s r + 1 = omega (arith, moved, one.same) in
            let in_it : ltb (position s r) (r.head * 512) ≡ true =
              ground (arith, live, one.same, one.head) in
            subst (Pulled (suc n) f s r) (sym (fill_frames-some n f i s r e)) record {
              shape = rest.shape;
              head = rest.head ∙ one.head;
              slot = rest.slot ∙ one.slot;
              moved =
                  rest.moved
                  ∙ rw (p, one.head)
                      (ap (λ q. if leb q (r.head * 512) then q else r.head * 512) (omega arith));
              staged = λ g c low b. elim (ℕ_discrete g 0) [
                | yes z ↦
                    let at : position s r + g ≡ position s r = omega arith in
                    let j : (f + g) * 28 + c ≡ f * 28 + c = omega arith in
                    rw (j, at, in_it)
                      (rest.before (f * 28 + c) (omega arith)
                        ∙ put c b
                        ∙ ap₂ (λ a q. frame_of a q c) one.slot one.same)
                | no ne ↦
                    let at : position s2 r1 + (g - 1) ≡ position s r + g = omega (arith, p) in
                    let j : (f + g) * 28 + c ≡ (f + 1 + (g - 1)) * 28 + c = omega arith in
                    ap t.0.in_stage j
                    ∙ rest.staged (g - 1) c (omega arith) b
                    ∙ rw (at, one.head, one.slot) refl
              ];
              before = λ j b. rest.before j (omega arith) ∙ kept j b ∙ ap (λ h. h j) one.stage;
            }
      ]
