-- ===== src/Shared/ZeroTimestamp/Timeline.antt =====
-- Sample times: always a whole, non-negative number of periods, and never decreasing.
use native.Mathlib.Nat.{mul-sub}
use mathlib.Core.Path.{subst₂}
use userface.Base.{
  ℕ, ◌+◌, ◌-◌, ◌*◌, ◌/◌, ◌^◌, ◌≤◌, ◌<◌, ◌≡◌, refl, ◌∙◌, sym, ap, ap₂, subst, Bool, u64, true, false,
  arith, ltb, leb, not, ◌&&◌, ◌||◌, Bool-cases, inl, inr, if◌then◌else◌, List, [], ◌∷◌, ◌==◌,
}
use userface.Base.Int.{ℤ, pos, pos_part, neg_part, sub_ℕ, ◌+ℤ◌, ◌-ℤ◌, ◌≤ℤ◌, ltb_ℤ, +ℤ_parts}
use userface.Shared.ZeroTimestamp.{
  Clock, Input, Reading, not_finite, below_zero, frames, start, graft, advance, adopt, follow,
  drop_stale, free_run, settle, next, run, make, stamp, plausible, stale_ticks,
}
use userface.Shared.ZeroTimestamp.Bounds.{InRange, make-IsSound, run-parameters}

-- The timeline stands on the period's grid, and so does the shift from the device's frame count.
pub record OnGrid (c : Clock) : Type 0 where
  pub positive : 0 < c.period
  pub units : ℕ
  pub at : c.sample ≡ pos (units * c.period)
  pub up : ℕ
  pub down : ℕ
  pub shift : c.offset ≡ sub_ℕ (up * c.period) (down * c.period)

sum_shift : (x a b : ℕ) → pos x +ℤ sub_ℕ a b ≡ sub_ℕ (x + a) b
unfolding ◌+ℤ◌
sum_shift x a b = ground arith

graft_shift : (x y z : ℕ) → pos x +ℤ pos y -ℤ pos z ≡ sub_ℕ (x + y) z
unfolding ◌+ℤ◌ ◌-ℤ◌
graft_shift x y z = ground arith

-- A difference of multiples that is not negative is a multiple.
multiple-sub : (a b p : ℕ) → b * p ≤ a * p → 0 < p → sub_ℕ (a * p) (b * p) ≡ pos ((a - b) * p)
multiple-sub a b p h pos_p = ground (arith, mul-sub p a b)

graft-OnGrid : (q : ℕ) (c : Clock) → OnGrid c → OnGrid (graft (q * c.period) c)
unfolding graft
graft-OnGrid q c v = elim (Bool-cases (not c.locked || ltb (q * c.period) c.dev_sample_seen)) [
  | inl e ↦ rw e (record {
    positive = v.positive;
    units = v.units;
    at = v.at;
    up = v.units + 1;
    down = q;
    shift =
        ap (λ (t : ℤ). t +ℤ pos c.period -ℤ pos (q * c.period)) v.at
        ∙ graft_shift (v.units * c.period) c.period (q * c.period)
        ∙ ap (λ (t : ℕ). sub_ℕ t (q * c.period)) (omega arith);
  })
  | inr e ↦ rw e v
]

graft-sample :
    (s : ℕ) (c : Clock) → ((graft s c).sample ≡ c.sample) × ((graft s c).period ≡ c.period)
unfolding graft
graft-sample s c = ground arith

newer : (a b : ℤ) (t : Bool) → (ltb_ℤ a b && t) ≡ true → a ≤ℤ b
newer a b t h = ground arith

above : (x a b : ℕ) → pos x ≤ℤ sub_ℕ a b → b ≤ a
above x a b h = ground arith

-- Taking an anchor moves forward along the grid.
advance-OnGrid :
    (q s dev_host : ℕ) (c : Clock)
    → s ≡ q * c.period
    → OnGrid c
    → OnGrid (advance s dev_host c) × (c.sample ≤ℤ (advance s dev_host c).sample)
unfolding advance
advance-OnGrid q s dev_host c whole v =
    let out = pos s +ℤ c.offset in
    let test = ltb_ℤ c.sample out && leb c.host dev_host in
    let value : out ≡ sub_ℕ ((q + v.up) * c.period) (v.down * c.period) =
      ap₂ (λ (a : ℕ) (t : ℤ). pos a +ℤ t) whole v.shift
      ∙ sum_shift (q * c.period) (v.up * c.period) (v.down * c.period)
      ∙ ap (λ (t : ℕ). sub_ℕ t (v.down * c.period)) (omega arith) in
    elim (Bool-cases test) [
      | inl e ↦
          let ahead = newer c.sample out (leb c.host dev_host) e in
          rw e (
            record {
              positive = v.positive;
              units = q + v.up - v.down;
              at =
                  value
                  ∙ multiple-sub (q + v.up) v.down c.period
                      (above (v.units * c.period) ((q + v.up) * c.period) (v.down * c.period)
                        (subst₂ ◌≤ℤ◌ v.at value ahead))
                      v.positive;
              up = v.up;
              down = v.down;
              shift = v.shift;
            },
            ahead,
          )
      | inr e ↦ rw e (v, omega arith)
    ]

-- The fields that the grid does not read.
OnGrid-seen : (s : ℕ) (c : Clock) → OnGrid c → OnGrid (record c { dev_sample_seen = s })
OnGrid-seen s c v = record {
  positive = v.positive;
  units = v.units;
  at = v.at;
  up = v.up;
  down = v.down;
  shift = v.shift;
}

OnGrid-lost : (c : Clock) → OnGrid c → OnGrid (record c { locked = false; seed = u64 (c.seed + 1) })
OnGrid-lost c v = record {
  positive = v.positive;
  units = v.units;
  at = v.at;
  up = v.up;
  down = v.down;
  shift = v.shift;
}

sum_pos : (x y : ℕ) → pos x +ℤ pos y ≡ pos (x + y)
unfolding ◌+ℤ◌
sum_pos x y = ground arith

adopt-OnGrid :
    (n dev_host : ℕ) (c : Clock)
    → OnGrid c
    → OnGrid (adopt n dev_host c) × (c.sample ≤ℤ (adopt n dev_host c).sample)
unfolding adopt
adopt-OnGrid n dev_host c v =
    let q = n / c.period in
    let g = graft (q * c.period) c in
    let same = graft-sample (q * c.period) c in
    let w = graft-OnGrid q c v in
    let moved =
      advance-OnGrid q (q * c.period) dev_host (record g { dev_sample_seen = q * c.period })
        (ap (λ (t : ℕ). q * t) (sym same.1)) (OnGrid-seen (q * c.period) g w) in
    (moved.0, subst (λ t. t ≤ℤ (adopt n dev_host c).sample) same.0 moved.1)

follow-OnGrid :
    (i : Input) (c : Clock) → OnGrid c → OnGrid (follow i c) × (c.sample ≤ℤ (follow i c).sample)
unfolding follow
follow-OnGrid i c v = go i.dev_sample refl
  where
    go : (r : Reading) → i.dev_sample ≡ r → OnGrid (follow i c) × (c.sample ≤ℤ (follow i c).sample)
    go not_finite e = rw (e, follow) (v, omega arith)
    go below_zero e = rw (e, follow) (v, omega arith)
    go (frames n) e = elim (Bool-cases (i.dev_valid && plausible c i.now (frames n) i.dev_host)) [
      | inl taken ↦ rw (e, follow, taken) (adopt-OnGrid n i.dev_host c v)
      | inr kept ↦ rw (e, follow, kept) (v, omega arith)
    ]

drop_stale-OnGrid :
    (lag : ℕ) (c : Clock)
    → OnGrid c
    → OnGrid (drop_stale lag c) × ((drop_stale lag c).sample ≡ c.sample)
unfolding drop_stale
drop_stale-OnGrid lag c v = elim (Bool-cases (c.locked && ltb (stale_ticks c) lag)) [
  | inl e ↦ rw e (OnGrid-lost c v, refl)
  | inr e ↦ rw e (v, refl)
]

free_run-OnGrid :
    (lag : ℕ) (c : Clock)
    → OnGrid c
    → OnGrid (free_run lag c) × (c.sample ≤ℤ (free_run lag c).sample)
unfolding free_run
free_run-OnGrid lag c v =
    let n = lag / c.ticks_per_period in
    elim (Bool-cases (c.locked || (n == 0))) [
      | inl e ↦ rw e (v, omega arith)
      | inr e ↦
          let sum : c.sample +ℤ pos (n * c.period) ≡ pos ((v.units + n) * c.period) =
            ap (λ (t : ℤ). t +ℤ pos (n * c.period)) v.at
            ∙ sum_pos (v.units * c.period) (n * c.period)
            ∙ ap pos (omega arith) in
          rw e (
            record {
              positive = v.positive;
              units = v.units + n;
              at = sum;
              up = v.up;
              down = v.down;
              shift = v.shift;
            },
            omega (arith, +ℤ_parts c.sample (pos (n * c.period))),
          )
    ]

settle-OnGrid :
    (now : ℕ) (c : Clock) → OnGrid c → OnGrid (settle now c) × (c.sample ≤ℤ (settle now c).sample)
unfolding settle
settle-OnGrid now c v =
    let lag = now - c.host in
    let kept = drop_stale-OnGrid lag c v in
    let moved = free_run-OnGrid lag (drop_stale lag c) kept.0 in
    elim (Bool-cases (ltb c.host now)) [
      | inl e ↦
          rw e (moved.0, subst (λ t. t ≤ℤ (free_run lag (drop_stale lag c)).sample) kept.1 moved.1)
      | inr e ↦ rw e (v, omega arith)
    ]

if-OnGrid : (b : Bool) (c d : Clock) → OnGrid c → OnGrid d → OnGrid (if b then c else d)
if-OnGrid true c d v w = v
if-OnGrid false c d v w = w

OnGrid-started : (now : ℕ) (c : Clock) → OnGrid c → OnGrid (record c { started = true; host = now })
OnGrid-started now c v = record {
  positive = v.positive;
  units = v.units;
  at = v.at;
  up = v.up;
  down = v.down;
  shift = v.shift;
}

start-OnGrid :
    (now : ℕ) (c : Clock) → OnGrid c → OnGrid (start now c) × ((start now c).sample ≡ c.sample)
unfolding start
start-OnGrid now c v = (if-OnGrid c.started c _ v (OnGrid-started now c v), ground arith)

next-OnGrid :
    (i : Input) (c : Clock) → OnGrid c → OnGrid (next i c) × (c.sample ≤ℤ (next i c).sample)
unfolding next
next-OnGrid i c v =
    let first = start-OnGrid i.now c v in
    let middle = follow-OnGrid i (start i.now c) first.0 in
    let last = settle-OnGrid i.now (follow i (start i.now c)) middle.0 in
    (last.0, omega (arith, middle.1, last.1, ap pos_part first.1, ap neg_part first.1))

run-OnGrid : (is : List Input) (c : Clock) → OnGrid c → OnGrid (run is c)
unfolding run
run-OnGrid [] c v = v
run-OnGrid (i ∷ is) c v = run-OnGrid is (next i c) (next-OnGrid i c v).0

make-OnGrid : (period ticks margin : ℕ) → OnGrid (make period ticks margin)
unfolding make
make-OnGrid period ticks margin = record {
  positive = ground arith;
  units = 0;
  at = ground arith;
  up = 0;
  down = 0;
  shift = ground arith;
}

-- After any history of calls on a new clock, whatever the device published, the sample time handed
-- back is a non-negative whole number of the clock's periods, and the next call does not lower it.
pub sample_time_grid :
    (period ticks margin : ℕ) (is : List Input) (i : Input)
    → ticks + margin < 2 ^ 64 - 2
    → InRange is
    → let c = run is (make period ticks margin) in
      ((units : ℕ) × ((stamp c).sample_time ≡ pos (units * (make period ticks margin).period)))
      × ((stamp c).sample_time ≤ℤ (stamp (next i c)).sample_time)
unfolding stamp
sample_time_grid period ticks margin is i small range =
    let new = make period ticks margin in
    let v = run-OnGrid is new (make-OnGrid period ticks margin) in
    let kept = run-parameters is new (make-IsSound period ticks margin small) range in
    ((v.units, v.at ∙ ap (λ (t : ℕ). pos (v.units * t)) kept.0), (next-OnGrid i (run is new) v).1)
