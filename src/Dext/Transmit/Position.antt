-- ===== src/Dext/Transmit/Position.antt =====
-- What the driver answers to the question how many packets the controller has sent.
use userface.Base.{
  ℕ, zero, suc, ◌+◌, ◌-◌, ◌%◌, ◌^◌, ◌≤◌, ◌<◌, ◌≡◌, refl, subst, true, false, u64, ltb, arith,
  Bool-cases, dec_lt, ◌⊎◌, inl, inr, ltb→lt,
}
use userface.Protocol.Channels.{is_full_packet}
use userface.Dext.Transmit.{Transmit, waits, scan_sent, iso_tx_sent}
use userface.Dext.Transmit.Cadence.{IsDense}
use userface.Dext.Transmit.Machine.{is_full, status_of, System, Reach, start}
use userface.Dext.Transmit.Invariant.{
  slot_of_lem, scan-Inv, iso_tx_sent-running, Reach-Inv, start-Inv,
}

scan_keeps :
    (n : ℕ) (t : Transmit)
    → ((scan_sent n t).it_fill ≡ t.it_fill) × ((scan_sent n t).it_full_count ≡ t.it_full_count)
unfolding scan_sent
scan_keeps zero t = (refl, refl)
scan_keeps (suc n) t = ground (arith, scan_keeps n (record t { it_sent = u64 (t.it_sent + 1) }))

-- Where the loop of `IsoTxSent` stops.
scan-stops :
    (n : ℕ) (t : Transmit)
    → t.it_fill ≤ t.it_sent + n
    → t.it_fill < 2 ^ 64
    → let t' = scan_sent n t in (t'.it_fill ≤ t'.it_sent) ⊎ (waits t' ≡ true)
unfolding scan_sent
scan-stops zero t enough bound = inl (omega arith)
scan-stops (suc n) t enough bound = elim (Bool-cases (ltb t.it_sent t.it_fill)) [
  | inr e ↦ rw e (inl (ground arith))
  | inl e ↦ rw e elim (Bool-cases (waits t)) [
    | inl w ↦ rw w (inr w)
    | inr w ↦
        let room = ltb→lt t.it_sent t.it_fill e in
        rw w (scan-stops n (record t { it_sent = u64 (t.it_sent + 1) }) (omega arith) bound)
  ]
]

waits-true :
    (t : Transmit) → waits t ≡ true → (is_full t t.it_sent ≡ true) × (status_of t t.it_sent ≡ 0)
unfolding waits
waits-true t h = let h' = rw (slot_of_lem t.it_sent) at h in ground arith

-- In a transmit ring of which at least half of the packets are full, with 1 to 2048 bytes each, and as
-- long as the cursors stay below 2 ^ 64, what `IsoTxSent` answers, whatever the controller and the daemon
-- did before in whatever order: at most one packet more than the controller sent, and that only if the
-- packet that is next is empty; no more than was filled, and at most a lap less. If the controller never
-- had to send a packet that was not filled yet, the answer is also at least what it sent.
pub iso_tx_sent_bounds :
    (channel bytes c : ℕ) (t : Transmit) {s : System}
    → IsDense c
    → 0 < bytes
    → bytes ≤ 2048
    → Reach (start channel bytes c t) s
    → s.head + 641 < 2 ^ 64
    → let answer = (iso_tx_sent s.tx).1 in
      (answer ≤ s.head + 1)
      × (answer ≡ s.head + 1 → is_full s.tx s.head ≡ false)
      × (answer ≤ s.tx.it_fill)
      × (s.tx.it_fill ≤ answer + 640)
      × (s.kept ≡ true → s.head ≤ answer)
iso_tx_sent_bounds channel bytes c t {s} dense pos fits path bound =
    let v = Reach-Inv (start-Inv channel bytes c t dense pos fits) path bound in
    let n = s.tx.it_fill - s.tx.it_sent in
    let w = scan-Inv n s (omega arith) v in
    let stops = scan-stops n s.tx (omega (arith, v.behind)) (omega (arith, v.lap, v.near)) in
    let s' = scan_sent n s.tx in
    let same = scan_keeps n s.tx in
    rw (iso_tx_sent-running s.tx v.running) (
      w.near,
      λ e. subst (λ c. is_full_packet (s.head % 640) c 640 ≡ false) same.1 (w.empty_ahead e),
      omega (arith, same.0, w.behind),
      omega (arith, same.0, w.lap),
      λ kept. elim stops [
        | inl done ↦ omega (arith, same.0, v.in_hand kept)
        | inr wait ↦ elim (dec_lt s'.it_sent s.head) [
          | yes short ↦
              let there = waits-true s' wait in
              absurd (w.marked kept s'.it_sent (omega arith) short there.0 there.1)
          | no enough ↦ omega arith
        ]
      ],
    )
