-- ===== src/Protocol/Channels/Cadence.antt =====
-- The blocking cadence of channels.hpp: how many packets of the ring are full, and which.
use userface.Base.{
  ℕ, zero, suc, ◌+◌, ◌*◌, ◌/◌, ◌^◌, ◌≤◌, ◌<◌, ◌≡◌, refl, ap₂, Bool, true, arith, u32, ltb, leb,
  ◌==◌, ◌&&◌, if◌then◌else◌,
}
use native.Mathlib.Nat.{add-mul, mul-le-mul, mod-eq_of_lt}
use userface.Protocol.Rate.{rates, is_supported_rate, speed_for_rate}
use userface.Protocol.Rate.Codes.{every_rate, at_rate}
use userface.Protocol.Channels.{
  frames_per_packet, blocking_ring_len, blocking_full_count, is_full_packet,
}

-- How many of the packets below `n` of the ring are full.
unfoldable pub full_below : ℕ → ℕ → ℕ
full_below zero full_count = 0
full_below (suc n) full_count =
    full_below n full_count + (if is_full_packet n full_count blocking_ring_len then 1 else 0)

-- One packet of the spread: the quotient grows exactly when the packet is full.
spread_step :
    (x c : ℕ) → c ≤ 640 → x / 640 + (if ltb (x / 640) ((x + c) / 640) then 1 else 0) ≡ (x + c) / 640
spread_step x c h = ground arith

product_below : (n c : ℕ) → n ≤ 640 → c ≤ 640 → n * c < 2 ^ 32
product_below n c hn hc = omega (arith, mul-le-mul hn hc)

pub full_test :
    (n c : ℕ) → n < 640 → c ≤ 640 → is_full_packet n c 640 ≡ ltb (n * c / 640) ((n * c + c) / 640)
unfolding is_full_packet
full_test n c hn hc =
    let b1 = product_below n c (omega arith) hc in
    let e1 : u32 (n * c) ≡ n * c = omega arith in
    let e2 : u32 (u32 (n + 1) * c) ≡ n * c + c =
      rw (mod-eq_of_lt {n = n + 1} {m = 2 ^ 32} (omega arith))
        (omega (arith, add-mul n 1 c, product_below (n + 1) c (omega arith) hc)) in
    ap₂ (λ a b. ltb (a / 640) (b / 640)) e1 e2

-- In a ring of 640 packets of which `c` are full, the first `n` packets hold ⌊n c / 640⌋ full ones, for
-- every n up to 640: the spread is even, and the ring as a whole holds exactly `c`.
pub even_spread : (n c : ℕ) → n ≤ 640 → c ≤ 640 → full_below n c ≡ n * c / 640
unfolding full_below is_full_packet
even_spread zero c hn hc = omega arith
even_spread (suc n) c hn hc =
    let ih = even_spread n c (omega arith) hc in
    let test = full_test n c (omega arith) hc in
    let st = spread_step (n * c) c hc in rw test (omega arith)

-- The count of full packets fits the ring and carries the rate.
carries : ℕ → Bool
carries hz =
    let c = blocking_full_count hz (speed_for_rate hz) in
    leb c 640 && c * frames_per_packet (speed_for_rate hz) * 8000 == hz * 640

carries_table : every_rate rates carries ≡ true
unfolding every_rate carries blocking_full_count frames_per_packet speed_for_rate
carries_table = refl

-- At every supported rate the ring carries exactly the rate: the frames of its full packets, over the
-- 640 cycles of 1/8000 s that it takes, are the frames that the rate asks for.
pub cadence_rate :
    (hz : ℕ)
    → is_supported_rate hz ≡ true
    → full_below 640 (blocking_full_count hz (speed_for_rate hz))
        * frames_per_packet (speed_for_rate hz)
        * 8000
      ≡ hz * 640
unfolding carries
cadence_rate hz h =
    let c = blocking_full_count hz (speed_for_rate hz) in
    let t = at_rate carries hz carries_table h in
    let spread = even_spread 640 c (omega arith) (ground arith) in
    let exact : 640 * c / 640 ≡ c = omega arith in rw (spread, exact) (ground arith)
