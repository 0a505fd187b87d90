-- ===== src/Shared/ZeroTimestamp.antt =====
-- platform/shared/uf_zero_timestamp.hpp: the clock behind GetZeroTimeStamp. The doubles of the class
-- hold whole frame counts, and are integers here; the device's sample time enters by its integer
-- part. Host times and the seed are u64, with their wrap-around.
pub mod Bounds
pub mod Timeline
pub mod Seed
use userface.Base.{
  ℕ, ◌+◌, ◌-◌, ◌*◌, ◌/◌, ◌^◌, Bool, true, false, not, ◌&&◌, ◌||◌, u64, ltb, leb, ◌==◌,
  if◌then◌else◌, List, [], ◌∷◌,
}
use userface.Base.Int.{ℤ, pos, ◌+ℤ◌, ◌-ℤ◌, ltb_ℤ}

-- `devSample`: NaN or an infinity, a number below 0, or one whose integer part is given.
pub data Reading : Type 0 where
  not_finite : Reading
  below_zero : Reading
  frames : ℕ → Reading

pub record Clock : Type 0 where
  pub period : ℕ
  pub ticks_per_period : ℕ
  pub stale_margin_ticks : ℕ
  pub sample : ℤ
  pub host : ℕ
  pub seed : ℕ
  pub offset : ℤ
  pub dev_sample_seen : ℕ
  pub locked : Bool
  pub started : Bool

pub record Stamp : Type 0 where
  pub sample_time : ℤ
  pub host_time : ℕ
  pub stamp_seed : ℕ

-- One call of `next`.
pub record Input : Type 0 where
  pub now : ℕ
  pub dev_valid : Bool
  pub dev_sample : Reading
  pub dev_host : ℕ

abbrev at_least_one : ℕ → ℕ
at_least_one t = if leb 1 t then t else 1

-- `ticks` is the integer part of `ticksPerFrame * period_`.
unfoldable pub set_ticks_per_frame : ℕ → Clock → Clock
set_ticks_per_frame ticks c = record c { ticks_per_period = at_least_one ticks }

-- The constructor. `margin` is the integer part of `ticksPerSecond * kStaleMarginNanos / 1.0e9`.
unfoldable pub make : ℕ → ℕ → ℕ → Clock
unfolding set_ticks_per_frame
make period ticks margin = set_ticks_per_frame ticks (record {
  period = if period == 0 then 1 else period;
  ticks_per_period = 1;
  stale_margin_ticks = at_least_one margin;
  sample = pos 0;
  host = 0;
  seed = 1;
  offset = pos 0;
  dev_sample_seen = 0;
  locked = false;
  started = false;
})

unfoldable pub stale_ticks : Clock → ℕ
stale_ticks c = u64 (c.stale_margin_ticks + c.ticks_per_period)

abbrev pub plausible_time : Clock → ℕ → ℕ → Bool
plausible_time c now dev_host =
    if ltb now dev_host
    then leb (dev_host - now) c.ticks_per_period
    else leb (now - dev_host) (stale_ticks c)

unfoldable pub plausible : Clock → ℕ → Reading → ℕ → Bool
plausible c now not_finite dev_host = false
plausible c now below_zero dev_host = false
plausible c now (frames n) dev_host = not (dev_host == 0) && plausible_time c now dev_host

-- The first call anchors the host time.
unfoldable pub start : ℕ → Clock → Clock
start now c = if c.started then c else record c { started = true; host = now }

-- Gaining the device clock, or seeing it restart, grafts it onto the timeline.
unfoldable pub graft : ℕ → Clock → Clock
graft s c =
    if not c.locked || ltb s c.dev_sample_seen
    then record c {
      offset = c.sample +ℤ pos c.period -ℤ pos s;
      locked = true;
      seed = u64 (c.seed + 1);
    }
    else c

-- A wholly newer anchor is taken.
unfoldable pub advance : ℕ → ℕ → Clock → Clock
advance s dev_host c =
    let out = pos s +ℤ c.offset in
    if ltb_ℤ c.sample out && leb c.host dev_host
    then record c { sample = out; host = dev_host }
    else c

unfoldable pub adopt : ℕ → ℕ → Clock → Clock
adopt n dev_host c =
    let s = n / c.period * c.period in
    advance s dev_host (record (graft s c) { dev_sample_seen = s })

unfoldable pub follow : Input → Clock → Clock
follow i c = elim i.dev_sample [
  | frames n ↦
      if i.dev_valid && plausible c i.now (frames n) i.dev_host then adopt n i.dev_host c else c
  | _ ↦ c
]

-- An anchor that has fallen behind is the loss of the device clock.
unfoldable pub drop_stale : ℕ → Clock → Clock
drop_stale lag c =
    if c.locked && ltb (stale_ticks c) lag
    then record c { locked = false; seed = u64 (c.seed + 1) }
    else c

unfoldable pub free_run : ℕ → Clock → Clock
free_run lag c =
    let periods = lag / c.ticks_per_period in
    if c.locked || (periods == 0) then c else record c {
      sample = c.sample +ℤ pos (periods * c.period);
      host = u64 (c.host + periods * c.ticks_per_period);
    }

unfoldable pub settle : ℕ → Clock → Clock
settle now c =
    if ltb c.host now then (let lag = now - c.host in free_run lag (drop_stale lag c)) else c

unfoldable pub next : Input → Clock → Clock
next i c = settle i.now (follow i (start i.now c))

-- What `next` returns.
unfoldable pub stamp : Clock → Stamp
stamp c = record { sample_time = c.sample; host_time = c.host; stamp_seed = c.seed }

-- A history of calls.
unfoldable pub run : List Input → Clock → Clock
run [] c = c
run (i ∷ is) c = run is (next i c)
