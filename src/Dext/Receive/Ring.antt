-- ===== src/Dext/Receive/Ring.antt =====
-- What the daemon finds in the ring.
use userface.Base.{
  ℕ, zero, suc, ◌+◌, ◌-◌, ◌%◌, ◌^◌, ◌≤◌, ◌<◌, ◌≡◌, ◌≢◌, ◌⊎◌, inl, inr, refl, true, false, u64,
  arith, Bool-cases, lt→ltb, dec_lt,
}
use userface.Dext.Receive.{Receive, scan_completed, iso_completed_count}
use userface.Dext.Receive.Machine.{status_of, System, Reach, Inv, start}
use userface.Dext.Receive.Invariant.{
  scan-Inv, Reach-Inv, start-Inv, has_room, is_clear, has_room_lem, is_clear_lem, advance-Inv,
}

no_room_lem :
    (s : System)
    → s.head + 1 < 2 ^ 64
    → Inv s
    → has_room s.rx ≡ false
    → s.rx.iso_write ≡ s.rx.iso_read + 512
no_room_lem s bound v e = elim (dec_lt s.rx.iso_write (s.rx.iso_read + 512)) [
  | yes below ↦
      let room =
        lt→ltb (u64 (s.rx.iso_write + 2 ^ 64 - s.rx.iso_read)) s.rx.iso_packets
          (omega (arith, v.packets, v.behind, v.seen)) in
      cc (room, e)
  | no end ↦ omega (arith, v.lap)
]

scan_keeps : (n : ℕ) (r : Receive) → (scan_completed n r).iso_read ≡ r.iso_read
unfolding scan_completed
scan_keeps zero r = refl
scan_keeps (suc n) r = ground (arith, scan_keeps n (record r { iso_write = u64 (r.iso_write + 1) }))

-- Where the loop of `IsoCompletedCount` stops: at the end of the lap or at a slot without a status.
scan-stops :
    (n : ℕ) (s : System)
    → s.head + 1 < 2 ^ 64
    → Inv s
    → s.rx.iso_read + 512 ≤ s.rx.iso_write + n
    → let r = scan_completed n s.rx in
      (r.iso_write ≡ s.rx.iso_read + 512) ⊎ (status_of r r.iso_write ≡ 0)
unfolding scan_completed
scan-stops zero s bound v enough = inl (omega (arith, v.lap))
scan-stops (suc n) s bound v enough = elim (Bool-cases (has_room s.rx)) [
  | inr e ↦ rw e (inl (no_room_lem s bound v e))
  | inl e ↦ rw e elim (Bool-cases (is_clear s.rx)) [
    | inl w ↦ rw w (inr ((is_clear_lem s v).0 w))
    | inr w ↦
        let room = has_room_lem s bound v e in
        let st : status_of s.rx s.rx.iso_write ≢ 0 =
          λ z. let clear = (is_clear_lem s v).1 z in cc (clear, w) in
        rw w (
          scan-stops n (record s { rx = record (s.rx) { iso_write = u64 (s.rx.iso_write + 1) } })
            bound (advance-Inv s bound v room st) (omega (arith, v.seen)))
  ]
]

-- What `IsoCompletedCount` answers, as long as fewer than 2 ^ 64 - 1 packets have arrived, whatever the
-- controller and the daemon did before in whatever order: no more packets than have arrived, and from
-- those released on at most a lap. If each packet came to a slot that was released, the answer is exactly
-- how many have arrived, and each packet from those released on is still in its slot.
pub iso_completed_count_lem :
    (r : Receive) (slot : ℕ → ℕ) {s : System} (k : ℕ)
    → Reach (start r slot) s
    → s.head + 1 < 2 ^ 64
    → let answer = (iso_completed_count s.rx).0 in
      (answer ≤ s.head)
      × (s.rx.iso_read ≤ answer)
      × (answer ≤ s.rx.iso_read + 512)
      × (s.kept ≡ true
          → (answer ≡ s.head) × (s.rx.iso_read ≤ k → k < answer → s.slot (k % 512) ≡ k))
unfolding iso_completed_count
iso_completed_count_lem r slot {s} k path bound =
    let v = Reach-Inv (start-Inv r slot) path bound in
    let n = s.rx.iso_packets in
    let w = scan-Inv n s bound v in
    let same = scan_keeps n s.rx in
    let stops = scan-stops n s bound v (omega (arith, v.packets, v.behind)) in
    let all : s.kept ≡ true → (scan_completed n s.rx).iso_write ≡ s.head = λ kept. elim stops [
      | inl lap ↦ omega (arith, v.in_ring kept, w.seen)
      | inr clear ↦ elim (dec_lt (scan_completed n s.rx).iso_write s.head) [
        | yes short ↦
            absurd (w.marked kept (scan_completed n s.rx).iso_write (omega arith) short clear)
        | no end ↦ omega (arith, w.seen)
      ]
    ] in
    (
      w.seen,
      omega (arith, same, w.behind),
      omega (arith, same, w.lap),
      λ kept. (all kept, λ a b. v.stored kept k a (omega (arith, all kept))),
    )
