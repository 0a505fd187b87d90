-- ===== src/Ctl/Queue.antt =====
-- `CtlQueue` of platform/daemon/uf_ctl_server.hpp: the ring of commands, which drops the oldest one
-- when it is full. The cursors are u64, the count of dropped commands u32.
pub mod Refine
pub mod Race
pub mod Drain
use userface.Base.{
  ℕ, ◌+◌, ◌-◌, ◌^◌, Bool, true, false, Option, none, some, bit_and, u32, u64, leb, ◌==◌,
  if◌then◌else◌,
}
use userface.Ctl.Proto.{CtlCommand}

abbrev pub slot_count : ℕ
slot_count = 256

pub record CtlQueue : Type 0 where
  pub slot : ℕ → CtlCommand
  pub head : ℕ
  pub tail : ℕ
  pub dropped : ℕ

-- `slot_[i] = c`
unfoldable pub store : ℕ → CtlCommand → (ℕ → CtlCommand) → ℕ → CtlCommand
store i c slot j = if j == i then c else slot j

-- The full test of `push`, with the oldest command dropped.
unfoldable pub make_room : CtlQueue → CtlQueue
make_room q =
    if leb slot_count (u64 (q.head + 2 ^ 64 - q.tail))
    then record q { tail = u64 (q.tail + 1); dropped = u32 (q.dropped + 1) }
    else q

unfoldable pub push : CtlCommand → CtlQueue → CtlQueue
push c q =
    let r = make_room q in
    record r { slot = store (bit_and q.head (slot_count - 1)) c r.slot; head = u64 (q.head + 1) }

unfoldable pub pop : CtlQueue → Option (CtlCommand × CtlQueue)
pop q =
    if q.tail == q.head
    then none
    else some (q.slot (bit_and q.tail (slot_count - 1)), record q { tail = u64 (q.tail + 1) })
