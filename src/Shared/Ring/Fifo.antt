-- ===== src/Shared/Ring/Fifo.antt =====
-- The two processes on the ring, interleaved: the producer claims a slot, fills it and commits it,
-- the consumer claims a slot, reads it and commits it. Each step is one call or one slot write, and
-- each call loads the other side's cursor once.
pub mod Steps
pub mod Invariant
use userface.Base.{
  ℕ, ◌+◌, ◌-◌, ◌%◌, ◌^◌, ◌≤◌, ◌<◌, ◌≡◌, ◌≢◌, refl, ◌∙◌, sym, ap, List, [], ◌∷◌, ◌++◌, Option, none,
  some, arith, length, get_elem?, set, bit_and, u64, length-append, length-set, take-eq,
  get_elem?-set_ne, get_elem?-append_left, get_elem?-append_last, ℕ_discrete, take,
}
use userface.Base.Bits.{bit_and_ones}
use userface.Shared.Ring.{
  Ring, Slot, slot_count, acquire_write, commit_write, acquire_read, commit_read, depth, init,
}
pub use userface.Shared.Ring.Fifo.Steps.{
  System, Step, claim, full, fill, send, look, empty, receive, Reach, here, next, start,
}
use userface.Shared.Ring.Fifo.Invariant.{slots_apart, Inv, Reach-Inv, start-Inv}

module _ (Time : Type 0) where
  -- However the two sides interleave, the slot that the producer fills is never the slot that the
  -- consumer reads.
  pub no_shared_slot :
      (zero_time : Time) (instance_id : ℕ) (r : Ring Time) {s : System Time} (i j : ℕ)
      → length r.slot ≡ 8
      → Reach Time (start Time zero_time instance_id r) s
      → s.writing ≡ some i
      → s.reading ≡ some j
      → i ≢ j
  no_shared_slot zero_time instance_id r {s} i j size path w d =
      let v = Reach-Inv Time (start-Inv Time zero_time instance_id r size) path in
      let at = v.writes i w in
      let from = v.reads j d in
      λ e. slots_apart (length s.received) (length s.sent) from.1 at.1 (sym at.0 ∙ e ∙ from.0)

  -- However the two sides interleave, what came out is a prefix of what went in, and the depth is the
  -- number of slots still inside, at most eight.
  pub first_in_first_out :
      (zero_time : Time) (instance_id : ℕ) (r : Ring Time) {s : System Time}
      → length r.slot ≡ 8
      → Reach Time (start Time zero_time instance_id r) s
      → (s.received ≡ take (length s.received) s.sent)
        × (length s.received + depth s.ring ≡ length s.sent)
        × (depth s.ring ≤ 8)
  unfolding depth
  first_in_first_out zero_time instance_id r {s} size path =
      let v = Reach-Inv Time (start-Inv Time zero_time instance_id r size) path in
      (
        take-eq s.received s.sent v.ordered v.delivered,
        omega (arith, v.head, v.tail, v.ordered, v.room),
        omega (arith, v.head, v.tail, v.ordered, v.room),
      )

  -- However the two sides interleave, the slots still inside are in the ring in the order that they
  -- were sent in: `k` places from the tail stands the slot that is to come out after `k` others.
  pub stored_in_order :
      (zero_time : Time) (instance_id : ℕ) (r : Ring Time) {s : System Time} (k : ℕ)
      → length r.slot ≡ 8
      → Reach Time (start Time zero_time instance_id r) s
      → k < depth s.ring
      → get_elem? s.ring.slot (bit_and (s.ring.tail + k) (slot_count - 1))
        ≡ get_elem? s.sent (length s.received + k)
  unfolding depth
  stored_in_order zero_time instance_id r {s} k size path h =
      let v = Reach-Inv Time (start-Inv Time zero_time instance_id r size) path in
      let room : length s.received + k < length s.sent =
        omega (arith, v.head, v.tail, v.ordered, v.room) in
      ap (get_elem? s.ring.slot) (omega (arith, bit_and_ones 3 (s.ring.tail + k), v.tail))
      ∙ v.stored (length s.received + k) (omega arith) room
