-- ===== src/Dext/Receive/Invariant.antt =====
-- What holds of the receive ring, however the controller and the driver take turns.
use userface.Base.{
  ℕ, zero, suc, ◌+◌, ◌-◌, ◌%◌, ◌^◌, ◌≤◌, ◌<◌, ◌≡◌, ◌≢◌, inl, inr, refl, sym, ap, ◌∙◌, Bool, true,
  ◌&&◌, u32, u64, ltb, ◌==◌, if◌then◌else◌, arith, Bool-cases, ltb→lt, lt→ltb, ℕ_discrete, subst,
  ◌↔◌, ==_iff,
}
use userface.Dext.Descriptor.{Descriptor}
use userface.Dext.Receive.{
  Receive, ring_descriptor, iso_start_continuous, scan_completed, iso_completed_count, re_arm,
  release_slots, iso_release,
}
use userface.Dext.Receive.Machine.{
  status_of, write_status, System, arrived, Step, arrive, ask, release, Reach, here, next, Inv,
  start,
}

both_true : {a b : Bool} → (a && b) ≡ true → (a ≡ true) × (b ≡ true)
both_true {a} {b} h = ground arith

write_status_self :
    (desc : ℕ → Descriptor) {i j : ℕ}
    → j ≡ i
    → (status : ℕ) → (write_status i status desc j).transfer_status ≡ status
unfolding write_status
write_status_self desc e status = ground arith

write_status_ne :
    (desc : ℕ → Descriptor) {i j : ℕ}
    → j ≢ i
    → (status : ℕ) → (write_status i status desc j).transfer_status ≡ (desc j).transfer_status
unfolding write_status
write_status_ne desc h status = ground arith

re_arm_self : (desc : ℕ → Descriptor) {i j : ℕ} → j ≡ i → (re_arm i desc j).transfer_status ≡ 0
unfolding re_arm
re_arm_self desc e = ground arith

re_arm_ne :
    (desc : ℕ → Descriptor) {i j : ℕ}
    → j ≢ i
    → (re_arm i desc j).transfer_status ≡ (desc j).transfer_status
unfolding re_arm
re_arm_ne desc h = ground arith

arrived-Inv : (s : System) (status : ℕ) → status ≢ 0 → Inv s → Inv (arrived status s)
arrived-Inv s status h v = record {
  packets = v.packets;
  behind = v.behind;
  lap = v.lap;
  seen = omega (arith, v.seen);
  fresh = λ k a b st. elim (ℕ_discrete (k % 512) (s.head % 512)) [
    | yes same ↦ omega (arith, v.seen, v.lap)
    | no ne ↦
        let old = v.fresh k a b (λ z. st (write_status_ne s.rx.desc ne status ∙ z)) in omega arith
  ];
  in_ring = λ kept. omega (arith, ltb→lt s.head (s.rx.iso_read + 512) (both_true kept).1);
  marked = λ kept k a b z. elim (ℕ_discrete (k % 512) (s.head % 512)) [
    | yes same ↦ h (sym (write_status_self s.rx.desc same status) ∙ z)
    | no ne ↦
        let before : k < s.head =
          omega (arith, λ (e : k ≡ s.head). ne (ap (λ (t : ℕ). t % 512) e)) in
        v.marked (both_true kept).0 k a before (sym (write_status_ne s.rx.desc ne status) ∙ z)
  ];
  stored = λ kept k a b.
      let room : s.head < s.rx.iso_read + 512 =
        ltb→lt s.head (s.rx.iso_read + 512) (both_true kept).1 in
      ground (arith, v.stored (both_true kept).0 k a);
}

slot_index : (s : System) → Inv s → (k : ℕ) → u32 (k % s.rx.iso_packets) ≡ k % 512
slot_index s v k = ap (λ (p : ℕ). u32 (k % p)) v.packets ∙ omega arith

pub advance-Inv :
    (s : System)
    → s.head + 1 < 2 ^ 64
    → Inv s
    → s.rx.iso_write < s.rx.iso_read + 512
    → status_of s.rx s.rx.iso_write ≢ 0
    → Inv (record s { rx = record (s.rx) { iso_write = u64 (s.rx.iso_write + 1) } })
advance-Inv s bound v room st =
    let one : u64 (s.rx.iso_write + 1) ≡ s.rx.iso_write + 1 = omega (arith, v.seen) in
    let past = v.fresh s.rx.iso_write (omega arith) room st in
    record {
      packets = v.packets;
      behind = omega (arith, v.behind);
      lap = omega arith;
      seen = omega arith;
      fresh = λ k a b. v.fresh k (omega arith) b;
      in_ring = v.in_ring;
      marked = λ kept k a b. v.marked kept k (omega arith) b;
      stored = v.stored;
    }

-- The slot at the write cursor can be counted, if its status says so.
abbrev pub has_room : Receive → Bool
has_room r = ltb (u64 (r.iso_write + 2 ^ 64 - r.iso_read)) r.iso_packets

abbrev pub is_clear : Receive → Bool
is_clear r = (r.desc (u32 (r.iso_write % r.iso_packets))).transfer_status == 0

pub has_room_lem :
    (s : System)
    → s.head + 1 < 2 ^ 64
    → Inv s
    → has_room s.rx ≡ true
    → s.rx.iso_write < s.rx.iso_read + 512
has_room_lem s bound v e =
    let below = ltb→lt (u64 (s.rx.iso_write + 2 ^ 64 - s.rx.iso_read)) s.rx.iso_packets e in
    omega (arith, v.packets, v.behind, v.lap, v.seen)

pub is_clear_lem :
    (s : System) → Inv s → (is_clear s.rx ≡ true) ↔ (status_of s.rx s.rx.iso_write ≡ 0)
is_clear_lem s v =
    subst
      (λ (i : ℕ).
        (((s.rx.desc i).transfer_status == 0) ≡ true) ↔ (status_of s.rx s.rx.iso_write ≡ 0))
      (sym (slot_index s v s.rx.iso_write)) (==_iff (status_of s.rx s.rx.iso_write) 0)

pub scan-Inv :
    (n : ℕ) (s : System)
    → s.head + 1 < 2 ^ 64
    → Inv s
    → Inv (record s { rx = scan_completed n s.rx })
unfolding scan_completed
scan-Inv zero s bound v = v
scan-Inv (suc n) s bound v = elim (Bool-cases (has_room s.rx)) [
  | inr e ↦ rw e v
  | inl e ↦ rw e elim (Bool-cases (is_clear s.rx)) [
    | inl w ↦ rw w v
    | inr w ↦ rw w (
        scan-Inv n (record s { rx = record (s.rx) { iso_write = u64 (s.rx.iso_write + 1) } }) bound
          (advance-Inv s bound v (has_room_lem s bound v e)
            (λ z. let clear = (is_clear_lem s v).1 z in cc (clear, w))))
  ]
]

release-Inv :
    (s : System) (i : ℕ)
    → i ≡ s.rx.iso_read % 512
    → s.head + 1 < 2 ^ 64
    → Inv s
    → s.rx.iso_read < s.rx.iso_write
    → Inv (record s {
      rx = record (s.rx) { desc = re_arm i s.rx.desc; iso_read = u64 (s.rx.iso_read + 1) };
    })
release-Inv s i at bound v room =
    let one : u64 (s.rx.iso_read + 1) ≡ s.rx.iso_read + 1 = omega (arith, v.seen) in
    let other : (k : ℕ)
        → s.rx.iso_write ≤ k
        → k < s.rx.iso_read + 512
        → (re_arm i s.rx.desc (k % 512)).transfer_status ≡ status_of s.rx k =
      λ k a b. re_arm_ne s.rx.desc (λ e. absurd (omega arith)) in
    record {
      packets = v.packets;
      behind = omega arith;
      lap = omega (arith, v.lap);
      seen = v.seen;
      fresh = λ k a b st. elim (ℕ_discrete k (s.rx.iso_read + 512)) [
        | yes e ↦ absurd (st (re_arm_self s.rx.desc (omega arith)))
        | no ne ↦
            let inside : k < s.rx.iso_read + 512 = omega arith in
            v.fresh k a inside (λ z. st (other k a inside ∙ z))
      ];
      in_ring = λ kept. omega (arith, v.in_ring kept);
      marked =
          λ kept k a b z. v.marked kept k a b (sym (other k a (omega (arith, v.in_ring kept))) ∙ z);
      stored = λ kept k a b. v.stored kept k (omega arith) b;
    }

release_slots-Inv :
    (n last : ℕ) (s : System)
    → s.head + 1 < 2 ^ 64
    → last ≤ s.rx.iso_write
    → Inv s
    → Inv (record s { rx = release_slots n last s.rx })
unfolding release_slots
release_slots-Inv zero last s bound h v = v
release_slots-Inv (suc n) last s bound h v = elim (Bool-cases (ltb s.rx.iso_read last)) [
  | inr e ↦ rw e v
  | inl e ↦
      let i = u32 (s.rx.iso_read % s.rx.iso_packets) in
      let room = ltb→lt s.rx.iso_read last e in
      rw e (
        release_slots-Inv n last
          (record s {
            rx = record (s.rx) { desc = re_arm i s.rx.desc; iso_read = u64 (s.rx.iso_read + 1) };
          })
          bound h (release-Inv s i (slot_index s v s.rx.iso_read) bound v (omega arith)))
]

iso_release-Inv :
    (up_to : ℕ) (s : System)
    → s.head + 1 < 2 ^ 64
    → Inv s
    → Inv (record s { rx = iso_release up_to s.rx })
unfolding iso_release
iso_release-Inv up_to s bound v = elim (Bool-cases (s.rx.iso_packets == 0)) [
  | inl e ↦ rw e v
  | inr e ↦
      let last = if ltb s.rx.iso_write up_to then s.rx.iso_write else up_to in
      rw e (release_slots-Inv (last - s.rx.iso_read) last s bound (ground arith) v)
]

Step-Inv : {s t : System} → s.head + 1 < 2 ^ 64 → Step s t → Inv s → Inv t
unfolding iso_completed_count
Step-Inv {s} bound (arrive status ne) v = arrived-Inv s status ne v
Step-Inv {s} bound ask v = scan-Inv s.rx.iso_packets s bound v
Step-Inv {s} bound (release up_to) v = iso_release-Inv up_to s bound v

Step-grows : {s t : System} → Step s t → s.head ≤ t.head
Step-grows (arrive status ne) = omega arith
Step-grows ask = omega arith
Step-grows (release up_to) = omega arith

pub Reach-Inv : {s t : System} → Inv s → Reach s t → t.head + 1 < 2 ^ 64 → Inv t
Reach-Inv v here bound = v
Reach-Inv v (next {t = m} r st) bound =
    let before : m.head + 1 < 2 ^ 64 = omega (arith, Step-grows st) in
    Step-Inv before st (Reach-Inv v r before)

start_clear : (r : Receive) (k : ℕ) → status_of (iso_start_continuous r) k ≡ 0
unfolding iso_start_continuous ring_descriptor
start_clear r k =
    ap (λ (b : Bool). (if b then ring_descriptor r (k % 512) else r.desc (k % 512)).transfer_status)
      (lt→ltb (k % 512) 512 (omega arith))

pub start-Inv : (r : Receive) (slot : ℕ → ℕ) → Inv (start r slot)
unfolding iso_start_continuous ring_descriptor
start-Inv r slot = record {
  packets = refl;
  behind = omega arith;
  lap = omega arith;
  seen = omega arith;
  fresh = λ k a b st. absurd (st (start_clear r k));
  in_ring = λ _. omega arith;
  marked = λ _ k a b. absurd (omega arith);
  stored = λ _ k a b. absurd (omega arith);
}
