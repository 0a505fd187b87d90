-- ===== src/Dext/Transmit/Cadence.antt =====
-- No two packets in a row are empty, at any supported rate.
use userface.Base.{
  ℕ, ◌+◌, ◌*◌, ◌/◌, ◌%◌, ◌≤◌, ◌<◌, ◌≡◌, refl, sym, ◌∙◌, dec_lt, Bool, true, false, arith, ltb, leb,
  ◌&&◌,
}
use native.Mathlib.Nat.{add-mul}
use userface.Protocol.Rate.{rates, speed_for_rate, is_supported_rate}
use userface.Protocol.Rate.Codes.{every_rate, at_rate}
use userface.Protocol.Channels.{is_full_packet, blocking_full_count, frames_per_packet}
use userface.Protocol.Channels.Cadence.{full_test}
use userface.Daemon.Session.{geometry, full_count_of}

-- Half of the packets or more are full.
abbrev pub IsDense : ℕ → Type 0
IsDense full_count = (320 ≤ full_count) × (full_count ≤ 640)

two_steps :
    (x c : ℕ)
    → 320 ≤ c
    → ltb (x / 640) ((x + c) / 640) ≡ false
    → ltb ((x + c) / 640) ((x + c + c) / 640) ≡ true
two_steps x c low h = ground arith

last_full : (c : ℕ) → 320 ≤ c → ltb (639 * c / 640) ((639 * c + c) / 640) ≡ false → ⊥
last_full c low h = ground arith

next_full :
    (n m c : ℕ)
    → 320 ≤ c
    → c ≤ 640
    → ltb (n * c / 640) ((n * c + c) / 640) ≡ false
    → n < 640
    → m ≡ (n + 1) % 640
    → ltb (m * c / 640) ((m * c + c) / 640) ≡ true
next_full n m c low high h b e = elim (dec_lt n 639) [
  | yes inside ↦
      let here : m ≡ n + 1 = omega arith in
      let product : m * c ≡ n * c + c = rw here (omega (arith, add-mul n 1 c)) in
      rw product (two_steps (n * c) c low h)
  | no outside ↦
      let here : n ≡ 639 = omega arith in
      let h' : ltb (639 * c / 640) ((639 * c + c) / 640) ≡ false = rw here at h in
      absurd (last_full c low h')
]

pub no_two_empty :
    (c k : ℕ)
    → IsDense c
    → is_full_packet (k % 640) c 640 ≡ false
    → is_full_packet ((k + 1) % 640) c 640 ≡ true
no_two_empty c k (low, high) e =
    let n = k % 640 in
    let here : ltb (n * c / 640) ((n * c + c) / 640) ≡ false =
      sym (full_test n c (omega arith) high) ∙ e in
    let at_next : (k + 1) % 640 < 640 = omega arith in
    full_test ((k + 1) % 640) c at_next high
    ∙ next_full n ((k + 1) % 640) c low high here (omega arith) (omega arith)

-- Dense: the count that a session asks for.
dense : ℕ → Bool
dense rate = leb 320 ((geometry rate 0).full_count) && leb ((geometry rate 0).full_count) 640

dense_table : every_rate rates dense ≡ true
unfolding every_rate dense geometry full_count_of blocking_full_count speed_for_rate
    frames_per_packet
dense_table = refl

pub session-IsDense :
    (rate tx : ℕ) → is_supported_rate rate ≡ true → IsDense ((geometry rate tx).full_count)
unfolding dense geometry
session-IsDense rate tx h = let t = at_rate dense rate dense_table h in (ground arith, ground arith)
