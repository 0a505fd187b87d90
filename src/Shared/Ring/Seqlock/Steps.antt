-- ===== src/Shared/Ring/Seqlock/Steps.antt =====
-- The single stores and loads of the time stamp's seqlock.
use userface.Base.{ℕ, ◌+◌, ◌≡◌, ◌≢◌, List, [], ◌∷◌, ◌++◌, true, u64}
use userface.Shared.Ring.{
  Ring, init, mark_odd, store_sample_time, store_host_time, mark_even, stable_seed,
}

-- How far each side has got. A value that a load has brought in is carried along.
pub data Writer (Time : Type 0) : Type 0 where
  idle : Writer Time
  marked : Time → ℕ → ℕ → Writer Time
  timed : Time → ℕ → ℕ → Writer Time
  stored : Time → ℕ → ℕ → Writer Time

pub data Reader (Time : Type 0) : Type 0 where
  waiting : Reader Time
  seeded : ℕ → Reader Time
  half_read : ℕ → Time → Reader Time
  full_read : ℕ → Time → ℕ → Reader Time
  returned : ℕ → Time → ℕ → Reader Time

module _ (Time : Type 0) where
  -- `published` is every pair published so far, oldest first.
  pub record System : Type 0 where
    pub ring : Ring Time
    pub writer : Writer Time
    pub reader : Reader Time
    pub published : List (Time × ℕ)

  pub data Step (s : System) : System → Type 0 where
    begin :
        (t : Time) (h : ℕ)
        → s.writer ≡ idle
        → Step s
            (record s { ring = mark_odd s.ring; writer = marked t h (u64 (s.ring.ts_seed + 1)) })
    time :
        {t : Time} {h odd : ℕ}
        → s.writer ≡ marked t h odd
        → Step s (record s { ring = store_sample_time t s.ring; writer = timed t h odd })
    host :
        {t : Time} {h odd : ℕ}
        → s.writer ≡ timed t h odd
        → Step s (record s { ring = store_host_time h s.ring; writer = stored t h odd })
    finish :
        {t : Time} {h odd : ℕ}
        → s.writer ≡ stored t h odd
        → Step s (record s {
          ring = mark_even odd s.ring;
          writer = idle;
          published = s.published ++ ((t, h) ∷ []);
        })
    load_seed :
        stable_seed s.ring.ts_seed ≡ true → Step s (record s { reader = seeded s.ring.ts_seed })
    load_time :
        {s0 : ℕ}
        → s.reader ≡ seeded s0
        → Step s (record s { reader = half_read s0 s.ring.ts_sample_time })
    load_host :
        {s0 : ℕ} {t : Time}
        → s.reader ≡ half_read s0 t
        → Step s (record s { reader = full_read s0 t s.ring.ts_host_time })
    accept :
        {s0 h : ℕ} {t : Time}
        → s.reader ≡ full_read s0 t h
        → s.ring.ts_seed ≡ s0
        → Step s (record s { reader = returned s0 t h })
    reject :
        {s0 h : ℕ} {t : Time}
        → s.reader ≡ full_read s0 t h
        → s.ring.ts_seed ≢ s0
        → Step s (record s { reader = waiting })

  pub data Reach (s : System) : System → Type 0 where
    here : Reach s s
    next : {t u : System} → Reach s t → Step t u → Reach s u

  abbrev pub start : Time → ℕ → Ring Time → System
  start zero_time instance_id r = record {
    ring = init zero_time instance_id r;
    writer = idle;
    reader = waiting;
    published = [];
  }
