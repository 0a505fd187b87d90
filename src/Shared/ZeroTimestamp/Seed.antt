-- ===== src/Shared/ZeroTimestamp/Seed.antt =====
-- The seed: it moves only when the device clock is gained, lost, or restarts.
use userface.Base.{
  ℕ, ◌+◌, ◌*◌, ◌/◌, ◌≤◌, ◌<◌, ◌≡◌, ◌≢◌, ◌⊎◌, inl, inr, refl, ◌∙◌, sym, ap, Bool, true, false, ◌&&◌,
  subst, arith, u64, Bool-cases,
}
use userface.Base.Int.{ℤ, pos, ltb_ℤ, ◌+ℤ◌, ◌-ℤ◌}
use userface.Shared.ZeroTimestamp.{
  Clock, Input, Reading, not_finite, below_zero, frames, start, graft, advance, adopt, follow,
  drop_stale, free_run, settle, next, stamp, stale_ticks, plausible,
}

-- The device's frame count, rounded down to a period, is below the last one seen.
abbrev pub Restarts : Clock → Input → Type 0
Restarts c i = (n : ℕ) × (i.dev_sample ≡ frames n) × (n / c.period * c.period < c.dev_sample_seen)

adopt-seed :
    (n dev_host : ℕ) (c : Clock)
    → (((adopt n dev_host c).seed ≡ c.seed) × ((adopt n dev_host c).locked ≡ c.locked))
      ⊎ (((adopt n dev_host c).seed ≡ u64 (c.seed + 1))
          × ((adopt n dev_host c).locked ≡ true)
          × ((c.locked ≡ false) ⊎ (n / c.period * c.period < c.dev_sample_seen)))
unfolding adopt graft advance
adopt-seed n dev_host c = ground arith

settle-seed :
    (now : ℕ) (c : Clock)
    → (((settle now c).seed ≡ c.seed) × ((settle now c).locked ≡ c.locked))
      ⊎ (((settle now c).seed ≡ u64 (c.seed + 1))
          × (c.locked ≡ true)
          × ((settle now c).locked ≡ false))
unfolding settle drop_stale free_run
settle-seed now c = ground arith

-- A grafted anchor lies one period ahead, so it is taken unless its host time is the older one.
graft_ahead : (z : ℤ) (p s : ℕ) → 0 < p → ltb_ℤ z (pos s +ℤ (z +ℤ pos p -ℤ pos s)) ≡ true
unfolding ◌+ℤ◌ ◌-ℤ◌
graft_ahead z p s h = ground arith

adopt-host-fresh :
    (n dev_host : ℕ) (c : Clock)
    → 0 < c.period
    → (c.locked ≡ false) ⊎ (n / c.period * c.period < c.dev_sample_seen)
    → dev_host ≤ (adopt n dev_host c).host
unfolding adopt graft advance
adopt-host-fresh n dev_host c h k =
    ground (arith, graft_ahead c.sample c.period (n / c.period * c.period) h)

adopt-stale_ticks : (n dev_host : ℕ) (c : Clock) → stale_ticks (adopt n dev_host c) ≡ stale_ticks c
unfolding adopt graft advance stale_ticks
adopt-stale_ticks n dev_host c = ground arith

-- An anchor within the window is kept.
settle-fresh :
    (now : ℕ) (c : Clock)
    → now ≤ c.host + stale_ticks c
    → ((settle now c).seed ≡ c.seed) × ((settle now c).locked ≡ c.locked)
unfolding settle drop_stale free_run
settle-fresh now c h = ground arith

plausible-near :
    (c : Clock) (now n dev_host : ℕ)
    → plausible c now (frames n) dev_host ≡ true
    → now ≤ dev_host + stale_ticks c
unfolding plausible
plausible-near c now n dev_host h = ground arith

both : (a b : Bool) → (a && b) ≡ true → b ≡ true
both a b h = ground arith

-- What a call does to the seed and the lock.
Moves : Clock → Input → Clock → Type 0
Moves c i d =
    ((d.seed ≡ c.seed) × (d.locked ≡ c.locked))
    ⊎ ((d.seed ≡ u64 (c.seed + 1)) × ((d.locked ≢ c.locked) ⊎ ((d.locked ≡ true) × Restarts c i)))

taken-Moves :
    (i : Input) (c : Clock) (n : ℕ)
    → 0 < c.period
    → i.dev_sample ≡ frames n
    → plausible c i.now (frames n) i.dev_host ≡ true
    → Moves c i (settle i.now (adopt n i.dev_host c))
unfolding Moves
taken-Moves i c n h e near = elim (adopt-seed n i.dev_host c) [
  | inl (same, kept) ↦ elim (settle-seed i.now (adopt n i.dev_host c)) [
    | inl (s, l) ↦ inl (s ∙ same, l ∙ kept)
    | inr (s, was, l) ↦
        inr (s ∙ ap (λ (t : ℕ). u64 (t + 1)) same, inl (λ f. cc (sym kept ∙ was, sym f ∙ l)))
  ]
  | inr (moved, on, why) ↦
      let fresh = settle-fresh i.now (adopt n i.dev_host c) (
        omega (
          arith,
          plausible-near c i.now n i.dev_host near,
          adopt-host-fresh n i.dev_host c h why,
          adopt-stale_ticks n i.dev_host c,
        )) in
      elim why [
        | inl off ↦ inr (fresh.0 ∙ moved, inl (λ f. cc (fresh.1 ∙ on, f ∙ off)))
        | inr back ↦ inr (fresh.0 ∙ moved, inr (fresh.1 ∙ on, (n, e, back)))
      ]
]

idle-Moves : (i : Input) (c : Clock) → Moves c i (settle i.now c)
unfolding Moves
idle-Moves i c = elim (settle-seed i.now c) [
  | inl same ↦ inl same
  | inr (s, was, l) ↦ inr (s, inl (λ f. cc (was, sym f ∙ l)))
]

follow_cases :
    (i : Input) (c : Clock)
    → (follow i c ≡ c)
      ⊎ ((n : ℕ) × (i.dev_sample ≡ frames n)
          × (plausible c i.now (frames n) i.dev_host ≡ true)
          × (follow i c ≡ adopt n i.dev_host c))
unfolding follow
follow_cases i c = go i.dev_sample i.dev_valid refl refl
  where
    go :
        (r : Reading) (b : Bool)
        → i.dev_sample ≡ r
        → i.dev_valid ≡ b
        → (follow i c ≡ c)
          ⊎ ((n : ℕ) × (i.dev_sample ≡ frames n)
              × (plausible c i.now (frames n) i.dev_host ≡ true)
              × (follow i c ≡ adopt n i.dev_host c))
    go not_finite b e f = inl (rw (e, follow))
    go below_zero b e f = inl (rw (e, follow))
    go (frames n) b e f =
        elim (Bool-cases (i.dev_valid && plausible c i.now (frames n) i.dev_host)) [
          | inl taken ↦ inr (n, e, both i.dev_valid _ taken, rw (e, follow, taken))
          | inr kept ↦ inl (rw (e, follow, kept))
        ]

follow-Moves : (i : Input) (c : Clock) → 0 < c.period → Moves c i (settle i.now (follow i c))
follow-Moves i c h = elim (follow_cases i c) [
  | inl same ↦ subst (λ t. Moves c i (settle i.now t)) (sym same) (idle-Moves i c)
  | inr (n, e, near, same) ↦
      subst (λ t. Moves c i (settle i.now t)) (sym same) (taken-Moves i c n h e near)
]

start-fields :
    (now : ℕ) (c : Clock)
    → let b = start now c in
      (b.seed ≡ c.seed)
      × (b.locked ≡ c.locked)
      × (b.period ≡ c.period)
      × (b.dev_sample_seen ≡ c.dev_sample_seen)
unfolding start
start-fields now c = ground arith

-- A call moves the seed by one, and only when the device clock is gained or lost in it, or when the
-- device's frame count went back below the last one seen; otherwise seed and lock stay.
pub seed_moves :
    (i : Input) (c : Clock)
    → 0 < c.period
    → let d = next i c in
      (((stamp d).stamp_seed ≡ (stamp c).stamp_seed) × (d.locked ≡ c.locked))
      ⊎ (((stamp d).stamp_seed ≡ u64 ((stamp c).stamp_seed + 1))
          × ((d.locked ≢ c.locked) ⊎ ((d.locked ≡ true) × Restarts c i)))
unfolding next stamp Moves
seed_moves i c h =
    let b = start i.now c in
    let (seed, lock, period, seen) = start-fields i.now c in
    elim (follow-Moves i b (omega arith)) [
      | inl (s, l) ↦ inl (s ∙ seed, l ∙ lock)
      | inr (s, inl change) ↦
          inr (s ∙ ap (λ (t : ℕ). u64 (t + 1)) seed, inl (λ f. change (f ∙ sym lock)))
      | inr (s, inr (on, (n, e, back))) ↦
          inr (s ∙ ap (λ (t : ℕ). u64 (t + 1)) seed, inr (on, (n, e, rw (period, seen) at back)))
    ]
