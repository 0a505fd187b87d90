-- ===== src/Shared/Ring/Seqlock/Invariant.antt =====
-- What every step keeps of the time stamp, the pairs published and the reader.
use userface.Base.{
  ℕ, suc, ◌+◌, ◌*◌, ◌%◌, ◌^◌, ◌≤◌, ◌<◌, ◌≡◌, refl, ◌∙◌, subst, [], ◌∷◌, ◌++◌, some, true, arith,
  length, get_elem?, u64, length-append, get_elem?-append_left, get_elem?-append_last,
}
use userface.Base.Bits.{bit_and_ones}
use userface.Shared.Ring.{
  Ring, init, mark_odd, store_sample_time, store_host_time, mark_even, stable_seed,
}
use userface.Shared.Ring.Seqlock.Steps.{
  Writer, idle, marked, timed, stored, Reader, waiting, seeded, half_read, full_read, returned,
  System, Step, begin, time, host, finish, load_seed, load_time, load_host, accept, reject, Reach,
  here, next, start,
}

module _ (Time : Type 0) where
  -- The seed tells how many pairs are out, and whether one is on its way.
  abbrev WriterOk : System Time → Writer Time → Type 0
  WriterOk s idle =
      (s.ring.ts_seed ≡ 2 * length s.published)
      × ((k : ℕ)
          → suc k ≡ length s.published
          → get_elem? s.published k ≡ some (s.ring.ts_sample_time, s.ring.ts_host_time))
  WriterOk s (marked t h odd) =
      (s.ring.ts_seed ≡ 2 * length s.published + 1) × (odd ≡ s.ring.ts_seed)
  WriterOk s (timed t h odd) =
      (s.ring.ts_seed ≡ 2 * length s.published + 1)
      × (odd ≡ s.ring.ts_seed)
      × (s.ring.ts_sample_time ≡ t)
  WriterOk s (stored t h odd) =
      (s.ring.ts_seed ≡ 2 * length s.published + 1)
      × (odd ≡ s.ring.ts_seed)
      × (s.ring.ts_sample_time ≡ t)
      × (s.ring.ts_host_time ≡ h)

  abbrev IsSeed : ℕ → System Time → Type 0
  IsSeed s0 s = (s0 % 2 ≡ 0) × (0 < s0) × (s0 ≤ s.ring.ts_seed)

  -- While the seed is still the one that was loaded, so is everything loaded since.
  abbrev pub ReaderOk : System Time → Reader Time → Type 0
  ReaderOk s waiting = Unit {0}
  ReaderOk s (seeded s0) = IsSeed s0 s
  ReaderOk s (half_read s0 t) = IsSeed s0 s × (s.ring.ts_seed ≡ s0 → s.ring.ts_sample_time ≡ t)
  ReaderOk s (full_read s0 t h) =
      IsSeed s0 s × (s.ring.ts_seed ≡ s0 → (s.ring.ts_sample_time ≡ t) × (s.ring.ts_host_time ≡ h))
  ReaderOk s (returned s0 t h) =
      IsSeed s0 s
      × ((k : ℕ) → 2 * suc k ≡ s0 → get_elem? s.published k ≡ some (t, h))
      × (s0 ≤ 2 * length s.published)

  abbrev pub Ok : System Time → Type 0
  Ok s = WriterOk s s.writer × ReaderOk s s.reader

  -- The bound that keeps the seed from wrapping.
  abbrev pub IsShort : System Time → Type 0
  IsShort s = 2 * length s.published + 2 < 2 ^ 64

  begin-Ok :
      (s : System Time) (t : Time) (h : ℕ)
      → IsShort s
      → (r : Reader Time) → WriterOk s idle
      → ReaderOk s r
      → ReaderOk
          (record s { ring = mark_odd s.ring; writer = marked t h (u64 (s.ring.ts_seed + 1)) })
          r
  unfolding mark_odd
  begin-Ok s t h short waiting w r = tt
  begin-Ok s t h short (seeded s0) w r = omega arith
  begin-Ok s t h short (half_read s0 t') w r = (omega arith, λ e. absurd (omega arith))
  begin-Ok s t h short (full_read s0 t' h') w r = (omega arith, λ e. absurd (omega arith))
  begin-Ok s t h short (returned s0 t' h') w r = (omega arith, r.1, r.2)

  -- A payload store happens at an odd seed, which no reader holds.
  payload-Ok :
      (s : System Time) (ring : Ring Time) (w : Writer Time)
      → s.ring.ts_seed % 2 ≡ 1
      → ring.ts_seed ≡ s.ring.ts_seed
      → (r : Reader Time) → ReaderOk s r
      → ReaderOk (record s { ring = ring; writer = w }) r
  payload-Ok s ring w odd same waiting ok = tt
  payload-Ok s ring w odd same (seeded s0) ok = omega arith
  payload-Ok s ring w odd same (half_read s0 t) ok = (omega arith, λ e. absurd (omega arith))
  payload-Ok s ring w odd same (full_read s0 t h) ok = (omega arith, λ e. absurd (omega arith))
  payload-Ok s ring w odd same (returned s0 t h) ok = (omega arith, ok.1, ok.2)

  finish-Ok :
      (s : System Time) (t : Time) (h odd : ℕ)
      → IsShort s
      → (r : Reader Time) → WriterOk s (stored t h odd)
      → ReaderOk s r
      → ReaderOk
          (record s {
            ring = mark_even odd s.ring;
            writer = idle;
            published = s.published ++ ((t, h) ∷ []);
          })
          r
  unfolding mark_even
  finish-Ok s t h odd short waiting w ok = tt
  finish-Ok s t h odd short (seeded s0) w ok = omega arith
  finish-Ok s t h odd short (half_read s0 t') w ok = (omega arith, λ e. absurd (omega arith))
  finish-Ok s t h odd short (full_read s0 t' h') w ok = (omega arith, λ e. absurd (omega arith))
  finish-Ok s t h odd short (returned s0 t' h') w ok =
      let grown = length-append s.published ((t, h) ∷ []) in
      (
        omega arith,
        λ k e. get_elem?-append_left s.published ((t, h) ∷ []) k (omega arith) ∙ ok.1 k e,
        omega arith,
      )

  -- What the writer has reached once `finish` is done.
  finish-WriterOk :
      (s : System Time) (t : Time) (h odd : ℕ)
      → IsShort s
      → WriterOk s (stored t h odd)
      → WriterOk
          (record s {
            ring = mark_even odd s.ring;
            writer = idle;
            published = s.published ++ ((t, h) ∷ []);
          })
          idle
  unfolding mark_even
  finish-WriterOk s t h odd short (count, seed, of_time, of_host) =
      let grown = length-append s.published ((t, h) ∷ []) in
      (
        omega arith,
        λ k e. get_elem?-append_last s.published (t, h) k (omega arith) ∙ cc (of_time, of_host),
      )

  -- A seed that is even is the writer at rest.
  accept-Ok :
      (s : System Time) (w : Writer Time) (s0 h : ℕ) (t : Time)
      → s.ring.ts_seed ≡ s0
      → WriterOk s w
      → ReaderOk s (full_read s0 t h)
      → ReaderOk (record s { reader = returned s0 t h }) (returned s0 t h)
  accept-Ok s idle s0 h t e w ok =
      (ok.0, λ k f. w.1 k (omega arith) ∙ cc ((ok.1 e).0, (ok.1 e).1), omega arith)
  accept-Ok s (marked _ _ _) s0 h t e w ok = absurd (omega arith)
  accept-Ok s (timed _ _ _) s0 h t e w ok = absurd (omega arith)
  accept-Ok s (stored _ _ _) s0 h t e w ok = absurd (omega arith)

  -- The writer's facts do not read the reader's state, nor the reader's the writer's.
  WriterOk-reader :
      (s : System Time) (r : Reader Time) (w : Writer Time)
      → WriterOk s w
      → WriterOk (record s { reader = r }) w
  WriterOk-reader s r idle ok = ok
  WriterOk-reader s r (marked _ _ _) ok = ok
  WriterOk-reader s r (timed _ _ _) ok = ok
  WriterOk-reader s r (stored _ _ _) ok = ok

  seed-IsSeed : (n : ℕ) → stable_seed n ≡ true → (n % 2 ≡ 0) × (0 < n)
  unfolding stable_seed
  seed-IsSeed n h = ground (arith, bit_and_ones 1 n)

  Step-Ok : {s t : System Time} → IsShort s → Step Time s t → Ok s → Ok t
  unfolding mark_odd store_sample_time store_host_time
  Step-Ok {s} short (begin t h e) (w, r) =
      let w' = subst (WriterOk s) e w in (omega arith, begin-Ok s t h short s.reader w' r)
  Step-Ok {s} short (time {t} {h} {odd} e) (w, r) =
      let w' = subst (WriterOk s) e w in
      (
        (w'.0, w'.1, refl),
        payload-Ok s (store_sample_time t s.ring) (timed t h odd) (omega arith) refl s.reader r,
      )
  Step-Ok {s} short (host {t} {h} {odd} e) (w, r) =
      let w' = subst (WriterOk s) e w in
      (
        (w'.0, w'.1, w'.2, refl),
        payload-Ok s (store_host_time h s.ring) (stored t h odd) (omega arith) refl s.reader r,
      )
  Step-Ok {s} short (finish {t} {h} {odd} e) (w, r) =
      let w' = subst (WriterOk s) e w in
      (finish-WriterOk s t h odd short w', finish-Ok s t h odd short s.reader w' r)
  Step-Ok {s} short (load_seed e) (w, r) =
      let seed = seed-IsSeed s.ring.ts_seed e in
      (WriterOk-reader s (seeded s.ring.ts_seed) s.writer w, omega arith)
  Step-Ok {s} short (load_time {s0} e) (w, r) =
      let r' = subst (ReaderOk s) e r in
      (WriterOk-reader s (half_read s0 s.ring.ts_sample_time) s.writer w, (r', λ _. refl))
  Step-Ok {s} short (load_host {s0} {t} e) (w, r) =
      let r' = subst (ReaderOk s) e r in
      (
        WriterOk-reader s (full_read s0 t s.ring.ts_host_time) s.writer w,
        (r'.0, λ same. (r'.1 same, refl)),
      )
  Step-Ok {s} short (accept {s0} {h} {t} e same) (w, r) = (
    WriterOk-reader s (returned s0 t h) s.writer w,
    accept-Ok s s.writer s0 h t same w (subst (ReaderOk s) e r),
  )
  Step-Ok {s} short (reject e ne) (w, r) = (WriterOk-reader s waiting s.writer w, tt)

  Step-grows : {s t : System Time} → Step Time s t → length s.published ≤ length t.published
  Step-grows {s} (finish {t} {h} e) = omega (arith, length-append s.published ((t, h) ∷ []))
  Step-grows (begin t h e) = omega arith
  Step-grows (time e) = omega arith
  Step-grows (host e) = omega arith
  Step-grows (load_seed e) = omega arith
  Step-grows (load_time e) = omega arith
  Step-grows (load_host e) = omega arith
  Step-grows (accept e same) = omega arith
  Step-grows (reject e ne) = omega arith

  pub Reach-Ok : {s t : System Time} → Ok s → Reach Time s t → IsShort t → Ok t
  Reach-Ok ok here short = ok
  Reach-Ok ok (next {t = m} r st) short =
      let before : IsShort m = omega (arith, Step-grows st) in
      Step-Ok before st (Reach-Ok ok r before)

  pub start-Ok :
      (zero_time : Time) (instance_id : ℕ) (r : Ring Time) → Ok (start Time zero_time instance_id r)
  unfolding init
  start-Ok zero_time instance_id r = ((refl, λ k e. absurd (omega arith)), tt)
