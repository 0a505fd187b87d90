-- ===== src/Ctl/Queue/Refine.antt =====
-- The queue of commands and the list that it stands for.
use userface.Base.{
  ℕ, suc, ◌+◌, ◌-◌, ◌%◌, ◌^◌, ◌≤◌, ◌<◌, ◌≡◌, refl, List, [], ◌∷◌, ◌++◌, length, length-append,
  get_elem?, get_elem?-append_left, get_elem?-append_last, true, false, arith, u32, u64, bit_and,
  ℕ_discrete, leb, ◌==◌, if◌then◌else◌, Option, none, some,
}
use userface.Base.Bits.{bit_and_ones}
use userface.Ctl.Proto.{CtlCommand}
use userface.Ctl.Queue.{CtlQueue, store, make_room, push, pop}

-- The queue holds the commands `cs`, the oldest one first.
pub record Holds (q : CtlQueue) (cs : List CtlCommand) : Type 0 where
  pub length-bound : length cs ≤ 256
  pub tail-bound : q.tail < 2 ^ 64
  pub head-tail : q.head ≡ (q.tail + length cs) % 2 ^ 64
  pub in_order : (k : ℕ) → k < length cs → get_elem? cs k ≡ some (q.slot ((q.tail + k) % 256))

-- What the queue promises: a command goes to the end, and the oldest one is lost if there are 256.
abbrev pub enqueue : CtlCommand → List CtlCommand → List CtlCommand
enqueue c [] = c ∷ []
enqueue c (d ∷ ds) = if leb 256 (length (d ∷ ds)) then ds ++ c ∷ [] else (d ∷ ds) ++ c ∷ []

slot_index : (a : ℕ) → bit_and a 255 ≡ a % 256
slot_index a = bit_and_ones 8 a

-- With fewer than 256 commands a push adds one at the end.
push_room :
    (c : CtlCommand) (q : CtlQueue) (cs : List CtlCommand)
    → Holds q cs
    → length cs < 256
    → Holds
        (record q { slot = store (bit_and q.head 255) c q.slot; head = u64 (q.head + 1) })
        (cs ++ c ∷ [])
unfolding store
push_room c q cs h l = record {
  length-bound = omega (arith, length-append cs (c ∷ []));
  tail-bound = h.tail-bound;
  head-tail = omega (arith, length-append cs (c ∷ []), h.head-tail);
  in_order = λ k b. elim (ℕ_discrete k (length cs)) [
    | yes e ↦
        rw (get_elem?-append_last cs c k e, slot_index q.head)
          (ground (arith, h.head-tail, h.tail-bound))
    | no n ↦
        let lt : k < length cs = omega (arith, length-append cs (c ∷ [])) in
        rw (get_elem?-append_left cs (c ∷ []) k lt, h.in_order k lt, slot_index q.head)
          (ground (arith, h.head-tail, h.tail-bound))
  ];
}

-- A full queue loses the oldest command.
drop_oldest :
    (q : CtlQueue) (n : ℕ) (d : CtlCommand) (ds : List CtlCommand)
    → Holds q (d ∷ ds)
    → Holds (record q { tail = u64 (q.tail + 1); dropped = n }) ds
drop_oldest q n d ds h = record {
  length-bound = omega (arith, h.length-bound);
  tail-bound = omega arith;
  head-tail = omega (arith, h.head-tail, h.length-bound);
  in_order = λ k b.
      let same : (u64 (q.tail + 1) + k) % 256 ≡ (q.tail + suc k) % 256 = omega arith in
      rw same (h.in_order (suc k) (omega arith));
}

depth :
    (q : CtlQueue) (cs : List CtlCommand) → Holds q cs → u64 (q.head + 2 ^ 64 - q.tail) ≡ length cs
depth q cs h = omega (arith, h.head-tail, h.tail-bound, h.length-bound)

-- A push is the list's: the command goes to the end, and a full queue loses its oldest command for it,
-- which the counter counts.
pub push-Holds :
    (c : CtlCommand) (q : CtlQueue) (cs : List CtlCommand)
    → Holds q cs
    → Holds (push c q) (enqueue c cs)
      × ((push c q).dropped ≡ (if length cs == 256 then u32 (q.dropped + 1) else q.dropped))
unfolding push make_room
push-Holds c q [] h = rw (depth q [] h) (push_room c q [] h (omega arith), refl)
push-Holds c q (d ∷ ds) h = rw (depth q (d ∷ ds) h) (elim (ℕ_discrete (length ds) 255) [
  | yes e ↦ rw e (
    push_room c (record q { tail = u64 (q.tail + 1); dropped = u32 (q.dropped + 1) }) ds
        (drop_oldest q (u32 (q.dropped + 1)) d ds h) (omega arith),
    refl,
  )
  | no n ↦
      let roomy : leb 256 (suc (length ds)) ≡ false = ground arith in
      let counted : (suc (length ds) == 256) ≡ false = ground arith in
      rw (roomy, counted) (push_room c q (d ∷ ds) h (omega (arith, h.length-bound)), refl)
])

-- What a pop of the list gives.
abbrev pub dequeue : List CtlCommand → Option CtlCommand
dequeue [] = none
dequeue (c ∷ cs) = some c

-- A pop of an empty queue gives nothing.
pub pop-empty : (q : CtlQueue) → Holds q [] → pop q ≡ none
unfolding pop
pop-empty q h =
    let e : (q.tail == q.head) ≡ true = ground (arith, h.head-tail, h.tail-bound) in rw e refl

-- A pop gives the oldest command and leaves the others.
pub pop-some :
    (q : CtlQueue) (c : CtlCommand) (cs : List CtlCommand)
    → Holds q (c ∷ cs)
    → (pop q ≡ some (c, record q { tail = u64 (q.tail + 1) }))
      × Holds (record q { tail = u64 (q.tail + 1) }) cs
unfolding pop
pop-some q c cs h =
    let e : (q.tail == q.head) ≡ false =
      ground (arith, h.head-tail, h.tail-bound, h.length-bound) in
    let first = h.in_order 0 (omega arith) in
    let zero_on : q.tail + 0 ≡ q.tail = omega arith in
    let oldest : q.slot (q.tail % 256) ≡ c = cc (first, zero_on) in
    (rw (e, slot_index q.tail, oldest) refl, drop_oldest q q.dropped c cs h)

-- What the two threads do with the queue, one whole call after another.
pub data Operation : Type 0 where
  send : CtlCommand → Operation
  receive : Operation

-- What the calls of `pop` hand out.
abbrev taken : Option (CtlCommand × CtlQueue) → Option CtlCommand
taken none = none
taken (some (c, q)) = some c

abbrev left : CtlQueue → Option (CtlCommand × CtlQueue) → CtlQueue
left q none = q
left q (some (c, r)) = r

abbrev pub received : List Operation → CtlQueue → List (Option CtlCommand)
received [] q = []
received (send c ∷ ops) q = received ops (push c q)
received (receive ∷ ops) q = taken (pop q) ∷ received ops (left q (pop q))

-- The same calls on a list, which loses its oldest command for one beyond 256.
abbrev tail_of : List CtlCommand → List CtlCommand
tail_of [] = []
tail_of (c ∷ cs) = cs

abbrev pub received_of_list : List Operation → List CtlCommand → List (Option CtlCommand)
received_of_list [] cs = []
received_of_list (send c ∷ ops) cs = received_of_list ops (enqueue c cs)
received_of_list (receive ∷ ops) cs = dequeue cs ∷ received_of_list ops (tail_of cs)

-- A queue that holds a list of commands is, to its two threads, that list: whatever calls of push and
-- pop follow, in whatever order, as long as none overlaps another, the pops hand out the same.
pub received_lem :
    (ops : List Operation) (q : CtlQueue) (cs : List CtlCommand)
    → Holds q cs
    → received ops q ≡ received_of_list ops cs
received_lem [] q cs h = refl
received_lem (send c ∷ ops) q cs h =
    received_lem ops (push c q) (enqueue c cs) (push-Holds c q cs h).0
received_lem (receive ∷ ops) q [] h = rw (pop-empty q h, received_lem ops q [] h) refl
received_lem (receive ∷ ops) q (c ∷ cs) h =
    let p = pop-some q c cs h in
    rw (p.0, received_lem ops (record q { tail = u64 (q.tail + 1) }) cs p.1) refl
