-- ===== src/Dext/Transmit/Invariant.antt =====
-- What holds of the transmit ring, however the controller and the driver take turns.
use userface.Base.{
  ℕ, zero, suc, ◌+◌, ◌-◌, ◌%◌, ◌^◌, ◌≤◌, ◌<◌, ◌≡◌, ◌≢◌, refl, sym, ap, subst, ◌∙◌, Bool, true,
  false, ◌&&◌, ◌||◌, u64, ltb, ◌==◌, if◌then◌else◌, arith, Bool-cases, dec_lt, ℕ_discrete, ◌⊎◌, inl,
  inr, ltb→lt,
}
use userface.Protocol.Channels.{is_full_packet}
use userface.Dext.Descriptor.{success, not_ready}
use userface.Dext.Transmit.{
  Transmit, slot_of, waits, scan_sent, iso_tx_sent, set_status, refill_slots, it_refill,
  iso_tx_start, make_block,
}
use userface.Dext.Transmit.Cadence.{IsDense, no_two_empty}
use userface.Dext.Transmit.Machine.{
  is_full, status_of, System, sent_one, Step, transmit_full, transmit_empty, ask, refill, resize,
  Reach, here, next, Inv, start,
}
use userface.Dext.Transmit.Resize.{resize-Inv}

set_status_ne :
    (t : Transmit) (i j status : ℕ)
    → j ≢ i
    → (set_status i status t.block j).payload.transfer_status ≡ (t.block j).payload.transfer_status
unfolding set_status
set_status_ne t i j status h = ground arith

status_self_at :
    (t : Transmit) {i j : ℕ}
    → j ≡ i
    → (status : ℕ) → (set_status i status t.block j).payload.transfer_status ≡ status
unfolding set_status
status_self_at t {i} {j} e status = ground arith

both_true : {a b : Bool} → (a && b) ≡ true → (a ≡ true) × (b ≡ true)
both_true {a} {b} h = ground arith

pub slot_of_lem : (k : ℕ) → slot_of k ≡ k % 640
slot_of_lem k = omega arith

-- A packet that does not wait is empty or has a status.
pub waits-false :
    (t : Transmit)
    → waits t ≡ false
    → (is_full t t.it_sent ≡ false) ⊎ ((is_full t t.it_sent ≡ true) × (status_of t t.it_sent ≢ 0))
unfolding waits
waits-false t h = elim (Bool-cases (is_full t t.it_sent)) [
  | inl e ↦ inr (e, λ z. cc (rw (slot_of_lem t.it_sent, e, z) at h))
  | inr e ↦ inl e
]

-- The cursor passes only a packet that is sent, or the empty one that is next.
advance-le :
    (s : System)
    → Inv s
    → s.tx.it_sent < s.tx.it_fill
    → waits s.tx ≡ false
    → (s.tx.it_sent ≤ s.head) × (s.tx.it_sent ≡ s.head → is_full s.tx s.head ≡ false)
advance-le s v room h = elim (waits-false s.tx h) [
  | inl e ↦ elim (ℕ_discrete s.tx.it_sent (s.head + 1)) [
    | yes q ↦
        let full = no_two_empty s.tx.it_full_count s.head v.cadence (v.empty_ahead q) in
        cc (full, subst (λ k. is_full s.tx k ≡ false) q e)
    | no ne ↦ (omega (arith, v.near), λ f. subst (λ k. is_full s.tx k ≡ false) f e)
  ]
  | inr (e, st) ↦
      let past = v.fresh s.tx.it_sent (omega arith) room e st in
      (omega arith, λ f. absurd (omega arith))
]

advance-Inv :
    (s : System)
    → s.head + 1 < 2 ^ 64
    → Inv s
    → s.tx.it_sent < s.tx.it_fill
    → waits s.tx ≡ false
    → Inv (record s { tx = record (s.tx) { it_sent = u64 (s.tx.it_sent + 1) } })
advance-Inv s bound v room h =
    let at = advance-le s v room h in
    let one : u64 (s.tx.it_sent + 1) ≡ s.tx.it_sent + 1 = omega arith in
    record {
      running = v.running;
      cadence = v.cadence;
      behind = omega arith;
      lap = omega (arith, v.lap);
      near = omega arith;
      empty_ahead = λ e. at.1 (omega arith);
      fresh = λ k a b. v.fresh k (omega arith) b;
      in_hand = v.in_hand;
      marked = λ kept k a b. v.marked kept k (omega arith) b;
    }

pub scan-Inv :
    (n : ℕ) (s : System) → s.head + 1 < 2 ^ 64 → Inv s → Inv (record s { tx = scan_sent n s.tx })
unfolding scan_sent
scan-Inv zero s bound v = v
scan-Inv (suc n) s bound v = elim (Bool-cases (ltb s.tx.it_sent s.tx.it_fill)) [
  | inr e ↦ rw e v
  | inl e ↦ rw e elim (Bool-cases (waits s.tx)) [
    | inl w ↦ rw w v
    | inr w ↦ rw w (
        scan-Inv n (record s { tx = record (s.tx) { it_sent = u64 (s.tx.it_sent + 1) } }) bound
          (advance-Inv s bound v (omega (arith, ltb→lt s.tx.it_sent s.tx.it_fill e)) w))
  ]
]

refill-Inv :
    (s : System)
    → s.head + 641 < 2 ^ 64
    → Inv s
    → s.tx.it_fill < s.tx.it_sent + 640
    → Inv (record s {
      tx = record (s.tx) {
        block = set_status (slot_of s.tx.it_fill) 0 s.tx.block;
        it_fill = u64 (s.tx.it_fill + 1);
      };
    })
refill-Inv s bound v room =
    let one : u64 (s.tx.it_fill + 1) ≡ s.tx.it_fill + 1 = omega (arith, v.near) in
    let slot = slot_of_lem s.tx.it_fill in
    let other : (k : ℕ)
        → s.tx.it_sent ≤ k
        → k < s.tx.it_fill
        → (set_status (slot_of s.tx.it_fill) 0 s.tx.block (k % 640)).payload.transfer_status
          ≡ status_of s.tx k =
      λ k a b.
        set_status_ne s.tx (slot_of s.tx.it_fill) (k % 640) 0
          (λ e. absurd (omega (arith, v.lap))) in
    record {
      running = v.running;
      cadence = v.cadence;
      behind = omega (arith, v.behind);
      lap = omega arith;
      near = v.near;
      empty_ahead = v.empty_ahead;
      fresh = λ k a b full st. elim (ℕ_discrete k s.tx.it_fill) [
        | yes e ↦
            let same : k % 640 ≡ slot_of s.tx.it_fill = omega arith in
            absurd (st (status_self_at s.tx same 0))
        | no ne ↦
            let before : k < s.tx.it_fill = omega arith in
            v.fresh k a before full (λ z. st (other k a before ∙ z))
      ];
      in_hand = λ kept. omega (arith, v.in_hand kept);
      marked = λ kept k a b full z.
          v.marked kept k a b full (sym (other k a (omega (arith, v.in_hand kept))) ∙ z);
    }

sent_one-Inv :
    (s : System) (status : ℕ)
    → Inv s
    → (is_full s.tx s.head ≡ true → status ≢ 0)
    → Inv (sent_one status s)
sent_one-Inv s status v h = record {
  running = v.running;
  cadence = v.cadence;
  behind = v.behind;
  lap = v.lap;
  near = omega (arith, v.near);
  empty_ahead = λ e. absurd (omega (arith, v.near));
  fresh = λ k a b full st. elim (ℕ_discrete (k % 640) (s.head % 640)) [
    | yes same ↦ elim (dec_lt s.head k) [
      | yes past ↦
          let ahead : s.tx.it_sent ≡ s.head + 1 = omega (arith, v.lap, v.near) in
          let this = subst (λ j. is_full_packet j s.tx.it_full_count 640 ≡ true) same full in
          cc (this, v.empty_ahead ahead)
      | no at ↦ omega arith
    ]
    | no ne ↦
        let old =
          v.fresh k a b full
            (λ z. st (set_status_ne s.tx (s.head % 640) (k % 640) status ne ∙ z)) in
        omega arith
  ];
  in_hand = λ kept. omega (arith, ltb→lt s.head s.tx.it_fill (both_true kept).1);
  marked = λ kept k a b full z. elim (ℕ_discrete (k % 640) (s.head % 640)) [
    | yes same ↦
        let this = subst (λ j. is_full_packet j s.tx.it_full_count 640 ≡ true) same full in
        h this (sym (status_self_at s.tx same status) ∙ z)
    | no ne ↦
        let before : k < s.head =
          omega (arith, λ (e : k ≡ s.head). ne (ap (λ (t : ℕ). t % 640) e)) in
        v.marked (both_true kept).0 k a before full
          (sym (set_status_ne s.tx (s.head % 640) (k % 640) status ne) ∙ z)
  ];
}

refill_slots-Inv :
    (n up_to : ℕ) (s : System)
    → s.head + 641 < 2 ^ 64
    → Inv s
    → Inv (record s { tx = refill_slots n up_to s.tx })
unfolding refill_slots
refill_slots-Inv zero up_to s bound v = v
refill_slots-Inv (suc n) up_to s bound v =
    let room = ltb (u64 (s.tx.it_fill + 2 ^ 64 - s.tx.it_sent)) 640 in
    elim (Bool-cases (ltb s.tx.it_fill up_to && room)) [
      | inr e ↦ rw e v
      | inl e ↦ rw e (
          refill_slots-Inv n up_to
            (record s {
              tx = record (s.tx) {
                block = set_status (slot_of s.tx.it_fill) 0 s.tx.block;
                it_fill = u64 (s.tx.it_fill + 1);
              };
            })
            bound
            (refill-Inv s bound v (
              omega (
                arith,
                v.near,
                v.behind,
                v.lap,
                ltb→lt (u64 (s.tx.it_fill + 2 ^ 64 - s.tx.it_sent)) 640 (both_true e).1,
              ))))
    ]

pub iso_tx_sent-running :
    (t : Transmit)
    → t.it_running ≡ true
    → let s = scan_sent (t.it_fill - t.it_sent) t in iso_tx_sent t ≡ (success, s.it_sent, s)
unfolding iso_tx_sent
iso_tx_sent-running t e =
    let s = scan_sent (t.it_fill - t.it_sent) t in
    ap (λ (b : Bool). if b then (success, s.it_sent, s) else (not_ready, 0, t)) e

it_refill-running :
    (up_to : ℕ) (t : Transmit)
    → t.it_running ≡ true
    → it_refill up_to t ≡ refill_slots (up_to - t.it_fill) up_to t
unfolding it_refill
it_refill-running up_to t e =
    ap (λ (b : Bool). if b then refill_slots (up_to - t.it_fill) up_to t else t) e

Step-Inv : {s t : System} → s.head + 641 < 2 ^ 64 → Step s t → Inv s → Inv t
Step-Inv {s} bound (transmit_full status full ne) v = sent_one-Inv s status v (λ _. ne)
Step-Inv {s} bound (transmit_empty status e) v = sent_one-Inv s status v (λ full. cc (full, e))
Step-Inv {s} bound ask v =
    rw (iso_tx_sent-running s.tx v.running)
      (scan-Inv (s.tx.it_fill - s.tx.it_sent) s (omega arith) v)
Step-Inv {s} bound (refill up_to) v =
    rw (it_refill-running up_to s.tx v.running)
      (refill_slots-Inv (up_to - s.tx.it_fill) up_to s bound v)
Step-Inv {s} bound (resize slot bytes) v = resize-Inv slot bytes s v

Step-grows : {s t : System} → Step s t → s.head ≤ t.head
Step-grows (transmit_full status full ne) = omega arith
Step-grows (transmit_empty status e) = omega arith
Step-grows ask = omega arith
Step-grows (refill up_to) = omega arith
Step-grows (resize slot bytes) = omega arith

pub Reach-Inv : {s t : System} → Inv s → Reach s t → t.head + 641 < 2 ^ 64 → Inv t
Reach-Inv v here bound = v
Reach-Inv v (next {t = m} r st) bound =
    let before : m.head + 641 < 2 ^ 64 = omega (arith, Step-grows st) in
    Step-Inv before st (Reach-Inv v r before)

pub start-Inv :
    (channel bytes c : ℕ) (t : Transmit)
    → IsDense c
    → 0 < bytes
    → bytes ≤ 2048
    → Inv (start channel bytes c t)
unfolding iso_tx_start make_block
start-Inv channel bytes c t dense pos fits =
    let taken : (bytes == 0 || ltb 2048 bytes || ltb 640 c) ≡ false = ground arith in
    rw taken record {
      running = refl;
      cadence = dense;
      behind = omega arith;
      lap = omega arith;
      near = omega arith;
      empty_ahead = λ e. absurd (omega arith);
      fresh = λ k a b full st. absurd (st refl);
      in_hand = λ _. omega arith;
      marked = λ _ k a b full. absurd (omega arith);
    }
