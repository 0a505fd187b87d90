-- ===== src/Shared/ZeroTimestamp/Bounds.antt =====
-- Host times: they never go back, and never fall more than `stale_ticks` behind `now`.
use userface.Base.{
  ℕ, ◌+◌, ◌-◌, ◌*◌, ◌/◌, ◌^◌, ◌≤◌, ◌<◌, ◌≡◌, ◌⊎◌, inl, inr, refl, ◌∙◌, true, false, arith, ltb,
  Bool-cases, List, [], ◌∷◌, ltb→lt,
}
use native.Mathlib.Nat.{div-mul-le_self, div-add-mod', mod-lt}
use userface.Shared.ZeroTimestamp.{
  Clock, Input, Reading, not_finite, below_zero, frames, stale_ticks, start, graft, advance, adopt,
  follow, drop_stale, free_run, settle, next, run, make, stamp,
}

-- What holds of a clock that was constructed, and of the times of a call.
pub record IsSound (c : Clock) : Type 0 where
  pub tick : 0 < c.ticks_per_period
  pub window : c.stale_margin_ticks + c.ticks_per_period < 2 ^ 64
  pub fresh : c.started ≡ false → c.host ≡ 0
  pub width : c.host < 2 ^ 64

-- The parameters of a clock, which no call changes.
abbrev pub SameParameters : Clock → Clock → Type 0
SameParameters c d =
    (d.period ≡ c.period)
    × (d.ticks_per_period ≡ c.ticks_per_period)
    × (d.stale_margin_ticks ≡ c.stale_margin_ticks)

lag_left :
    (now host lag t : ℕ) → 0 < t → host < now → lag ≡ now - host → now < host + lag / t * t + t
lag_left now host lag t h k e = omega (arith, div-add-mod' lag t, mod-lt lag h)

periods_fit : (lag t : ℕ) → lag / t * t ≤ lag
periods_fit lag t = div-mul-le_self lag t

free_run-host :
    (c : Clock) (lag now : ℕ)
    → 0 < c.ticks_per_period
    → now < 2 ^ 64
    → c.host < now
    → lag ≡ now - c.host
    → let d = free_run lag c in
      (c.host ≤ d.host)
      × (d.host ≤ now)
      × (d.locked ≡ c.locked)
      × (c.locked ≡ false → now < d.host + c.ticks_per_period)
      × SameParameters c d
unfolding free_run
free_run-host c lag now tick wide behind same = ground (
  arith,
  periods_fit lag c.ticks_per_period,
  lag_left now c.host lag c.ticks_per_period tick behind same,
)

drop_stale-host :
    (lag : ℕ) (c : Clock)
    → let d = drop_stale lag c in
      (d.host ≡ c.host)
      × (d.started ≡ c.started)
      × (d.locked ≡ true → lag ≤ stale_ticks c)
      × SameParameters c d
unfolding drop_stale
drop_stale-host lag c = ground arith

free_run-started : (lag : ℕ) (c : Clock) → (free_run lag c).started ≡ c.started
unfolding free_run
free_run-started lag c = ground arith

-- The end of a call brings the host time to within `stale_ticks` of `now`.
settle-host :
    (c : Clock) (now : ℕ)
    → 0 < c.ticks_per_period
    → c.stale_margin_ticks + c.ticks_per_period < 2 ^ 64
    → now < 2 ^ 64
    → let d = settle now c in
      (c.host ≤ d.host)
      × (now ≤ d.host + stale_ticks c)
      × ((d.host ≤ now) ⊎ (d.host ≡ c.host))
      × (d.started ≡ c.started)
      × SameParameters c d
unfolding settle stale_ticks
settle-host c now tick window wide = elim (Bool-cases (ltb c.host now)) [
  | inl behind ↦
      let lag = now - c.host in
      let e = drop_stale lag c in
      let kept = drop_stale-host lag c in
      let before : c.host < now = ltb→lt c.host now behind in
      let run = free_run-host e lag now (omega arith) wide (omega arith) (omega arith) in
      rw behind (ground (arith, run, kept, free_run-started lag e, Bool-cases e.locked))
  | inr ahead ↦ rw ahead (ground arith)
]

advance-host :
    (s dev_host : ℕ) (c : Clock)
    → let d = advance s dev_host c in
      (c.host ≤ d.host)
      × ((d.host ≡ c.host) ⊎ (d.host ≡ dev_host))
      × (d.started ≡ c.started)
      × SameParameters c d
unfolding advance
advance-host s dev_host c = ground arith

graft-host :
    (s : ℕ) (c : Clock)
    → let d = graft s c in (d.host ≡ c.host) × (d.started ≡ c.started) × SameParameters c d
unfolding graft
graft-host s c = ground arith

adopt-host :
    (n dev_host : ℕ) (c : Clock)
    → let d = adopt n dev_host c in
      (c.host ≤ d.host)
      × ((d.host ≡ c.host) ⊎ (d.host ≡ dev_host))
      × (d.started ≡ c.started)
      × SameParameters c d
unfolding adopt
adopt-host n dev_host c =
    let s = n / c.period * c.period in
    ground
      (arith, graft-host s c, advance-host s dev_host (record (graft s c) { dev_sample_seen = s }))

follow-host :
    (i : Input) (c : Clock)
    → let d = follow i c in
      (c.host ≤ d.host)
      × ((d.host ≡ c.host) ⊎ (d.host ≡ i.dev_host))
      × (d.started ≡ c.started)
      × SameParameters c d
unfolding follow
follow-host i c = go i.dev_sample refl
  where
    go :
        (r : Reading)
        → i.dev_sample ≡ r
        → let d = follow i c in
          (c.host ≤ d.host)
          × ((d.host ≡ c.host) ⊎ (d.host ≡ i.dev_host))
          × (d.started ≡ c.started)
          × SameParameters c d
    go not_finite e = rw (e, follow) (ground arith)
    go below_zero e = rw (e, follow) (ground arith)
    go (frames n) e = rw (e, follow) (ground (arith, adopt-host n i.dev_host c))

start-host :
    (now : ℕ) (c : Clock)
    → IsSound c
    → now < 2 ^ 64
    → let d = start now c in
      (c.host ≤ d.host) × (d.host < 2 ^ 64) × (d.started ≡ true) × SameParameters c d
unfolding start
start-host now c v wide = ground (arith, v.fresh)

stale_ticks-eq : (c d : Clock) → SameParameters c d → stale_ticks d ≡ stale_ticks c
unfolding stale_ticks
stale_ticks-eq c d (_, t, m) = rw (t, m)

next-host :
    (i : Input) (c : Clock)
    → IsSound c
    → i.now < 2 ^ 64
    → i.dev_host < 2 ^ 64
    → let d = next i c in
      (c.host ≤ d.host)
      × (i.now ≤ d.host + stale_ticks c)
      × (d.host < 2 ^ 64)
      × (d.started ≡ true)
      × SameParameters c d
unfolding next
next-host i c v wide dev =
    let b = start i.now c in
    let m = follow i b in
    let first = start-host i.now c v wide in
    let middle = follow-host i b in
    let tick : 0 < m.ticks_per_period = omega (arith, v.tick) in
    let window : m.stale_margin_ticks + m.ticks_per_period < 2 ^ 64 = omega (arith, v.window) in
    let last = settle-host m i.now tick window wide in
    let same : stale_ticks m ≡ stale_ticks c =
      stale_ticks-eq b m middle.3 ∙ stale_ticks-eq c b first.3 in
    ground (arith, first, middle, last, same)

next-IsSound :
    (i : Input) (c : Clock) → IsSound c → i.now < 2 ^ 64 → i.dev_host < 2 ^ 64 → IsSound (next i c)
next-IsSound i c v wide dev =
    let n = next-host i c v wide dev in
    record {
      tick = omega (arith, v.tick);
      window = omega (arith, v.window);
      fresh = λ e. cc (n.3);
      width = n.2;
    }

-- Host times fit in 64 bits.
abbrev pub InRange : List Input → Type 0
InRange [] = Unit {0}
InRange (i ∷ is) = (i.now < 2 ^ 64) × (i.dev_host < 2 ^ 64) × InRange is

run-IsSound : (is : List Input) (c : Clock) → IsSound c → InRange is → IsSound (run is c)
unfolding run
run-IsSound [] c v h = v
run-IsSound (i ∷ is) c v (now, dev, rest) =
    run-IsSound is (next i c) (next-IsSound i c v now dev) rest

pub make-IsSound :
    (period ticks margin : ℕ) → ticks + margin < 2 ^ 64 - 2 → IsSound (make period ticks margin)
unfolding make
make-IsSound period ticks margin h = ground arith

pub run-parameters :
    (is : List Input) (c : Clock) → IsSound c → InRange is → SameParameters c (run is c)
unfolding run
run-parameters [] c v h = (refl, refl, refl)
run-parameters (i ∷ is) c v (now, dev, rest) =
    let n = next-host i c v now dev in
    let tail = run-parameters is (next i c) (next-IsSound i c v now dev) rest in
    (tail.0 ∙ n.4.0, tail.1 ∙ n.4.1, tail.2 ∙ n.4.2)

-- After any history of calls on a new clock, whatever the device published, one more call hands back
-- a host time that is not below the one before it, and at most the clock's own stale window (one
-- period and the margin, each at least a tick) behind `now`.
pub host_time_bounds :
    (period ticks margin : ℕ) (is : List Input) (i : Input)
    → ticks + margin < 2 ^ 64 - 2
    → InRange (i ∷ is)
    → let c = run is (make period ticks margin) in
      ((stamp c).host_time ≤ (stamp (next i c)).host_time)
      × (i.now ≤ (stamp (next i c)).host_time + stale_ticks (make period ticks margin))
unfolding stamp
host_time_bounds period ticks margin is i small (now, dev, rest) =
    let new = make period ticks margin in
    let v = make-IsSound period ticks margin small in
    let n = next-host i (run is new) (run-IsSound is new v rest) now dev in
    (n.0, omega (arith, n.1, stale_ticks-eq new (run is new) (run-parameters is new v rest)))
