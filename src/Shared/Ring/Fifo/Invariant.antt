-- ===== src/Shared/Ring/Fifo/Invariant.antt =====
-- What every step keeps of the ring, the slots sent and those received.
use userface.Base.{
  ℕ, ◌+◌, ◌-◌, ◌%◌, ◌^◌, ◌≤◌, ◌<◌, ◌≡◌, ◌≢◌, refl, ◌∙◌, sym, ap, [], ◌∷◌, ◌++◌, none, some, arith,
  length, get_elem?, set, u64, length-append, length-set, get_elem?-set_ne, get_elem?-append_left,
  get_elem?-append_last, ℕ_discrete,
}
use userface.Base.Bits.{bit_and_ones}
use userface.Shared.Ring.{Ring, Slot, acquire_write, commit_write, acquire_read, commit_read, init}
use userface.Shared.Ring.Fifo.Steps.{
  System, Step, claim, full, fill, send, look, empty, receive, Reach, here, next, start,
}

-- Two positions fewer than eight apart have different slots.
pub slots_apart : (a b : ℕ) → a < b → b < a + 8 → b % 8 ≢ a % 8
slots_apart a b h k e = omega arith

module _ (Time : Type 0) where
  pub record Inv (s : System Time) : Type 0 where
    pub slots : s.ring.slots ≡ 8
    pub size : length s.ring.slot ≡ 8
    pub head : s.ring.head ≡ u64 (length s.sent)
    pub tail : s.ring.tail ≡ u64 (length s.received)
    pub ordered : length s.received ≤ length s.sent
    pub room : length s.sent ≤ length s.received + 8
    pub stored :
        (k : ℕ)
        → length s.received ≤ k
        → k < length s.sent
        → get_elem? s.ring.slot (k % 8) ≡ get_elem? s.sent k
    pub delivered : (k : ℕ) → k < length s.received → get_elem? s.received k ≡ get_elem? s.sent k
    pub writes :
        (i : ℕ)
        → s.writing ≡ some i
        → (i ≡ length s.sent % 8) × (length s.sent < length s.received + 8)
    pub reads :
        (i : ℕ)
        → s.reading ≡ some i
        → (i ≡ length s.received % 8) × (length s.received < length s.sent)

  -- What an acquire that succeeds, or fails, says of the cursors.
  acquire_write-some :
      (r q : Ring Time) (i : ℕ)
      → acquire_write r ≡ (some i, q)
      → (q ≡ r) × (i ≡ r.head % 8) × (u64 (r.head + 2 ^ 64 - r.tail) < r.slots)
  unfolding acquire_write
  acquire_write-some r q i e = ground (arith, bit_and_ones 3 r.head)

  acquire_read-some :
      (r q : Ring Time) (i : ℕ)
      → acquire_read r ≡ (some i, q)
      → (q ≡ r) × (i ≡ r.tail % 8) × (r.tail ≢ r.head)
  unfolding acquire_read
  acquire_read-some r q i e = ground (arith, bit_and_ones 3 r.tail)

  -- An acquire that fails counts the miss and changes nothing else.
  acquire_write-none :
      (r q : Ring Time)
      → acquire_write r ≡ (none, q)
      → (q.slots ≡ r.slots) × (q.slot ≡ r.slot) × (q.head ≡ r.head) × (q.tail ≡ r.tail)
  unfolding acquire_write
  acquire_write-none r q e = ground arith

  acquire_read-none :
      (r q : Ring Time)
      → acquire_read r ≡ (none, q)
      → (q.slots ≡ r.slots) × (q.slot ≡ r.slot) × (q.head ≡ r.head) × (q.tail ≡ r.tail)
  unfolding acquire_read
  acquire_read-none r q e = ground arith

  -- A ring with the same slots and cursors satisfies the same invariant.
  Inv-ring :
      (s : System Time) (r : Ring Time)
      → (r.slots ≡ s.ring.slots)
        × (r.slot ≡ s.ring.slot)
        × (r.head ≡ s.ring.head)
        × (r.tail ≡ s.ring.tail)
      → Inv s
      → Inv (record s { ring = r })
  Inv-ring s r (a, b, c, d) v = record {
    slots = a ∙ v.slots;
    size = ap length b ∙ v.size;
    head = c ∙ v.head;
    tail = d ∙ v.tail;
    ordered = v.ordered;
    room = v.room;
    stored = λ k p q. ap (λ t. get_elem? t (k % 8)) b ∙ v.stored k p q;
    delivered = v.delivered;
    writes = v.writes;
    reads = v.reads;
  }

  claim-Inv :
      (s : System Time) (r : Ring Time) (i : ℕ)
      → acquire_write s.ring ≡ (some i, r)
      → Inv s
      → Inv (record s { ring = r; writing = some i })
  claim-Inv s r i e v =
      let (same, at, below) = acquire_write-some s.ring r i e in
      record {
        slots = ap (λ t. t.slots) same ∙ v.slots;
        size = ap (λ t. length t.slot) same ∙ v.size;
        head = ap (λ t. t.head) same ∙ v.head;
        tail = ap (λ t. t.tail) same ∙ v.tail;
        ordered = v.ordered;
        room = v.room;
        stored = λ k p q. ap (λ t. get_elem? t.slot (k % 8)) same ∙ v.stored k p q;
        delivered = v.delivered;
        writes = λ j w. ground (arith, v.head, v.tail, v.slots, v.ordered, v.room);
        reads = v.reads;
      }

  look-Inv :
      (s : System Time) (r : Ring Time) (i : ℕ)
      → acquire_read s.ring ≡ (some i, r)
      → Inv s
      → Inv (record s { ring = r; reading = some i })
  look-Inv s r i e v =
      let (same, at, ready) = acquire_read-some s.ring r i e in
      record {
        slots = ap (λ t. t.slots) same ∙ v.slots;
        size = ap (λ t. length t.slot) same ∙ v.size;
        head = ap (λ t. t.head) same ∙ v.head;
        tail = ap (λ t. t.tail) same ∙ v.tail;
        ordered = v.ordered;
        room = v.room;
        stored = λ k p q. ap (λ t. get_elem? t.slot (k % 8)) same ∙ v.stored k p q;
        delivered = v.delivered;
        writes = v.writes;
        reads = λ j w. ground (arith, v.head, v.tail, v.ordered, v.room);
      }

  -- The claimed slot is none of those that hold a slot not yet received.
  fill-Inv :
      (s : System Time) (i : ℕ) (x : Slot)
      → s.writing ≡ some i
      → Inv s
      → Inv (record s { ring = record (s.ring) { slot = set s.ring.slot i x } })
  fill-Inv s i x w v = record {
    slots = v.slots;
    size = length-set s.ring.slot i x ∙ v.size;
    head = v.head;
    tail = v.tail;
    ordered = v.ordered;
    room = v.room;
    stored = λ k p q.
        get_elem?-set_ne s.ring.slot x (
          let here = v.writes i w in
          λ e. slots_apart k (length s.sent) q (omega arith) (sym here.0 ∙ e))
        ∙ v.stored k p q;
    delivered = v.delivered;
    writes = v.writes;
    reads = v.reads;
  }

  send-Inv :
      (s : System Time) (i : ℕ) (x : Slot)
      → s.writing ≡ some i
      → get_elem? s.ring.slot i ≡ some x
      → Inv s
      → Inv (record s { ring = commit_write s.ring; writing = none; sent = s.sent ++ (x ∷ []) })
  unfolding commit_write
  send-Inv s i x w held v =
      let grown = length-append s.sent (x ∷ []) in
      let here = v.writes i w in
      record {
        slots = v.slots;
        size = v.size;
        head = omega (arith, v.head);
        tail = v.tail;
        ordered = omega (arith, v.ordered);
        room = omega arith;
        stored = λ k p q. elim (ℕ_discrete k (length s.sent)) [
          | yes e ↦
              ap (get_elem? s.ring.slot) (ap (λ (t : ℕ). t % 8) e ∙ sym here.0)
              ∙ held
              ∙ sym (get_elem?-append_last s.sent x k e)
          | no ne ↦
              v.stored k p (omega arith)
              ∙ sym (get_elem?-append_left s.sent (x ∷ []) k (omega arith))
        ];
        delivered = λ k p.
            v.delivered k p
            ∙ sym (get_elem?-append_left s.sent (x ∷ []) k (omega (arith, v.ordered)));
        writes = λ j e. cc;
        reads = λ j e. ground (arith, v.reads j e);
      }

  receive-Inv :
      (s : System Time) (i : ℕ) (x : Slot)
      → s.reading ≡ some i
      → get_elem? s.ring.slot i ≡ some x
      → Inv s
      → Inv (record s {
        ring = commit_read s.ring;
        reading = none;
        received = s.received ++ (x ∷ []);
      })
  unfolding commit_read
  receive-Inv s i x w held v =
      let grown = length-append s.received (x ∷ []) in
      let here = v.reads i w in
      record {
        slots = v.slots;
        size = v.size;
        head = v.head;
        tail = omega (arith, v.tail);
        ordered = omega arith;
        room = omega (arith, v.room);
        stored = λ k p q. v.stored k (omega arith) q;
        delivered = λ k p. elim (ℕ_discrete k (length s.received)) [
          | yes e ↦
              get_elem?-append_last s.received x k e
              ∙ sym held
              ∙ ap (get_elem? s.ring.slot) (here.0 ∙ ap (λ (t : ℕ). t % 8) (sym e))
              ∙ v.stored k (omega arith) (omega arith)
          | no ne ↦
              get_elem?-append_left s.received (x ∷ []) k (omega arith)
              ∙ v.delivered k (omega arith)
        ];
        writes = λ j e. ground (arith, v.writes j e);
        reads = λ j e. cc;
      }

  pub Step-Inv : {s t : System Time} → Step Time s t → Inv s → Inv t
  Step-Inv {s} (claim {r} {i} w e) v = claim-Inv s r i e v
  Step-Inv {s} (full {r} w e) v = Inv-ring s r (acquire_write-none s.ring r e) v
  Step-Inv {s} (fill {i} x w) v = fill-Inv s i x w v
  Step-Inv {s} (send {i} {x} w held) v = send-Inv s i x w held v
  Step-Inv {s} (look {r} {i} w e) v = look-Inv s r i e v
  Step-Inv {s} (empty {r} w e) v = Inv-ring s r (acquire_read-none s.ring r e) v
  Step-Inv {s} (receive {i} {x} w held) v = receive-Inv s i x w held v

  pub Reach-Inv : {s t : System Time} → Inv s → Reach Time s t → Inv t
  Reach-Inv v here = v
  Reach-Inv v (next r st) = Step-Inv st (Reach-Inv v r)

  pub start-Inv :
      (zero_time : Time) (instance_id : ℕ) (r : Ring Time)
      → length r.slot ≡ 8
      → Inv (start Time zero_time instance_id r)
  unfolding init
  start-Inv zero_time instance_id r size = record {
    slots = refl;
    size = size;
    head = refl;
    tail = refl;
    ordered = omega arith;
    room = omega arith;
    stored = λ k p q. absurd (omega arith);
    delivered = λ k p. absurd (omega arith);
    writes = λ i e. cc;
    reads = λ i e. cc;
  }
