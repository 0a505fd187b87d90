-- ===== src/Daemon/Capture/Cycles.antt =====
-- What the check of the cycles counts.
use userface.Base.{
  ℕ, ◌+◌, ◌-◌, ◌*◌, ◌/◌, ◌%◌, ◌^◌, ◌<◌, ◌≡◌, refl, ap₂, ◌∙◌, true, bit_and, u64, ltb, ◌==◌,
  if◌then◌else◌, arith,
}
use userface.Base.Bits.{bit_and_ones}
use userface.Daemon.Capture.{Capture, cycle_of, cycle_step, check_cycle}

-- The time stamp of cycle `c`: the cycle of its second below the low bits of the second.
abbrev pub stamp_of : ℕ → ℕ
stamp_of c = c / 8000 % 8 * 8192 + c % 8000

-- What stands above the 16 bits of the time stamp does not matter.
pub cycle_of-stamp : (c above : ℕ) → cycle_of (above * 65536 + stamp_of c) ≡ c % 64000
unfolding cycle_of
cycle_of-stamp c above =
    let q = above * 65536 + stamp_of c in
    let a = bit_and_ones 16 q in
    let b = bit_and_ones 13 (bit_and q 0xffff) in
    let d = bit_and_ones 3 (bit_and q 0xffff / 2 ^ 13) in omega arith

cycle_step_lem : (c gap : ℕ) → gap < 64000 → cycle_step ((c + gap) % 64000) (c % 64000) ≡ gap
unfolding cycle_step
cycle_step_lem c gap h = ground arith

-- A packet that came `gap` cycles after the one before it, fewer than 64000: with a gap of 1 nothing is
-- counted; else one more gap is, the cycles between the two are added to those missed, and a gap above 8
-- becomes the worst. With a gap of 0, so for a time stamp that is repeated, one is taken off those missed.
pub check_cycle_lem :
    {Time : Type 0} (c gap above : ℕ) (s : Capture Time)
    → s.have_cycle ≡ true
    → s.last_cycle ≡ c % 64000
    → gap < 64000
    → let t = check_cycle (above * 65536 + stamp_of (c + gap)) s in
      (t.last_cycle ≡ (c + gap) % 64000)
      × (t.cycle_gaps ≡ (if gap == 1 then s.cycle_gaps else u64 (s.cycle_gaps + 1)))
      × (t.missed_cycles
          ≡ (if gap == 1 then s.missed_cycles else u64 (s.missed_cycles + (gap + 2 ^ 64 - 1))))
      × (t.worst_gap ≡ (if ltb 8 gap then gap else s.worst_gap))
unfolding check_cycle
check_cycle_lem c gap above s have last h =
    let q = above * 65536 + stamp_of (c + gap) in
    let cyc = cycle_of-stamp (c + gap) above in
    let step : cycle_step (cycle_of q) s.last_cycle ≡ gap =
      ap₂ cycle_step cyc last ∙ cycle_step_lem c gap h in
    rw (have, step) (cyc, refl, refl, ground arith)
