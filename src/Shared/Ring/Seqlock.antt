-- ===== src/Shared/Ring/Seqlock.antt =====
-- The time stamp of the ring under its seqlock: the daemon's stores and the plug-in's loads, one by
-- one and interleaved in any order. The fences of the code keep each side's own order.
pub mod Steps
pub mod Invariant
use userface.Base.{
  ℕ, suc, ◌+◌, ◌-◌, ◌*◌, ◌/◌, ◌%◌, ◌^◌, ◌≤◌, ◌<◌, ◌≡◌, ◌≢◌, refl, ◌∙◌, subst, List, [], ◌∷◌, ◌++◌,
  some, true, arith, length, get_elem?, u64, length-append, get_elem?-append_left,
  get_elem?-append_last,
}
use userface.Base.Bits.{bit_and_ones}
use userface.Shared.Ring.{
  Ring, init, mark_odd, store_sample_time, store_host_time, mark_even, stable_seed,
}
pub use userface.Shared.Ring.Seqlock.Steps.{
  Writer, idle, marked, timed, stored, Reader, waiting, seeded, half_read, full_read, returned,
  System, Step, begin, time, host, finish, load_seed, load_time, load_host, accept, reject, Reach,
  here, next, start,
}
use userface.Shared.Ring.Seqlock.Invariant.{ReaderOk, Reach-Ok, start-Ok}

module _ (Time : Type 0) where
  -- A read that succeeds returns a pair that was published as a whole, whichever stores fell between
  -- its loads: the one that its seed numbers. (Fewer than 2 ^ 63 publications, so no seed recurs.)
  pub read_whole :
      (zero_time : Time) (instance_id : ℕ) (r : Ring Time) {s : System Time} (s0 h : ℕ) (t : Time)
      → Reach Time (start Time zero_time instance_id r) s
      → 2 * length s.published + 2 < 2 ^ 64
      → s.reader ≡ returned s0 t h
      → (s0 % 2 ≡ 0) × (0 < s0) × (get_elem? s.published (s0 / 2 - 1) ≡ some (t, h))
  read_whole zero_time instance_id r {s} s0 h t path short e =
      let ok =
        subst (ReaderOk Time s) e
          (Reach-Ok Time (start-Ok Time zero_time instance_id r) path short).1 in
      (ok.0.0, ok.0.1, ok.1 (s0 / 2 - 1) (omega arith))
