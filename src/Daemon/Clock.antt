-- ===== src/Daemon/Clock.antt =====
-- `cycle_timer_ticks` and `status_read` of platform/daemon/uf-daemon.cpp: what the pump reads of the
-- driver's clock.
use userface.Base.{
  ℕ, ◌+◌, ◌*◌, ◌/◌, ◌%◌, ◌^◌, ◌<◌, ◌≡◌, arith, List, [], ◌∷◌, take, Option, none, some, bit_and,
  ◌>>◌, ◌==◌, if◌then◌else◌, ltb,
}
use userface.Base.Bits.{bit_and_ones}

unfoldable pub cycle_timer_ticks : ℕ → ℕ
cycle_timer_ticks ct =
    bit_and (ct >> 25) 0x7f * 8000 * 3072 + bit_and (ct >> 12) 0x1fff * 3072 + bit_and ct 0xfff

pub record StatusPage : Type 0 where
  pub seq : ℕ
  pub irq_count : ℕ
  pub rx_completed : ℕ
  pub tx_sent : ℕ
  pub host_time : ℕ
  pub cycle_timer : ℕ

-- What one turn of `status_read` loads, in the order of its loads.
pub record Loads : Type 0 where
  pub seq_before : ℕ
  pub page : StatusPage
  pub seq_after : ℕ

-- The turns of the loop; `none` for `false`. A turn that finds a write in progress loads no more.
unfoldable pub status_turns : List Loads → Option StatusPage
status_turns [] = none
status_turns (l ∷ ls) =
    let rest = status_turns ls in
    if l.seq_before % 2 == 1
    then rest
    else if l.seq_after == l.seq_before
    then (if l.seq_before == 0 then none else some l.page)
    else rest

-- Four turns at most.
unfoldable pub status_read : List Loads → Option StatusPage
status_read ls = status_turns (take 4 ls)

-- The ticks of a timer value whose fields are in range are those of the time that it stands for, and one
-- cycle offset later, with the carry from offset to cycle to second, they are one more; after 128
-- seconds they start again.
unfoldable pub next_cycle_timer : ℕ → ℕ → ℕ → ℕ
next_cycle_timer sec cycle offset =
    if ltb (offset + 1) 3072
    then sec * 2 ^ 25 + cycle * 2 ^ 12 + (offset + 1)
    else if ltb (cycle + 1) 8000
    then sec * 2 ^ 25 + (cycle + 1) * 2 ^ 12
    else if ltb (sec + 1) 128
    then (sec + 1) * 2 ^ 25
    else 0

ticks_of :
    (sec cycle offset : ℕ)
    → sec < 128
    → cycle < 8192
    → offset < 4096
    → cycle_timer_ticks (sec * 2 ^ 25 + cycle * 2 ^ 12 + offset)
      ≡ sec * 24576000 + cycle * 3072 + offset
unfolding cycle_timer_ticks
ticks_of sec cycle offset hs hc ho =
    let ct = sec * 2 ^ 25 + cycle * 2 ^ 12 + offset in
    omega (arith, bit_and_ones 7 (ct / 2 ^ 25), bit_and_ones 13 (ct / 2 ^ 12), bit_and_ones 12 ct)

pub cycle_timer_ticks-next :
    (sec cycle offset : ℕ)
    → sec < 128
    → cycle < 8000
    → offset < 3072
    → (cycle_timer_ticks (sec * 2 ^ 25 + cycle * 2 ^ 12 + offset)
        ≡ (sec * 8000 + cycle) * 3072 + offset)
      × (cycle_timer_ticks (next_cycle_timer sec cycle offset)
          ≡ (cycle_timer_ticks (sec * 2 ^ 25 + cycle * 2 ^ 12 + offset) + 1) % (128 * 24576000))
unfolding next_cycle_timer
cycle_timer_ticks-next sec cycle offset hs hc ho =
    let now = ticks_of sec cycle offset hs (omega arith) (omega arith) in
    let a = ticks_of sec cycle (offset + 1) hs (omega arith) (omega arith) in
    let b = ticks_of sec (cycle + 1) 0 hs (omega arith) (omega arith) in
    let c = λ (h : sec + 1 < 128). ticks_of (sec + 1) 0 0 h (omega arith) (omega arith) in
    let e = ticks_of 0 0 0 (omega arith) (omega arith) (omega arith) in
    (omega arith, ground (arith, a, b, c, e, now))
