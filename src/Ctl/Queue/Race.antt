-- ===== src/Ctl/Queue/Race.antt =====
-- What becomes of the cursors when a push that finds the queue full falls into the middle of a pop.
use userface.Base.{
  ℕ, zero, suc, ◌+◌, ◌%◌, ◌^◌, ◌≤◌, ◌<◌, ◌≡◌, ◌≢◌, refl, ap, arith, u32, u64, bit_and, true, false,
  ◌==◌, some, ℕ_discrete, sym, ◌∙◌,
}
use userface.Base.Bits.{bit_and_ones}
use userface.Ctl.Proto.{CtlCommand}
use userface.Ctl.Queue.{CtlQueue, make_room, push, pop, store}

-- The last store of a `pop` that loaded `t` from the cursor before.
unfoldable pub finish_pop : ℕ → CtlQueue → CtlQueue
finish_pop t q = record q { tail = u64 (t + 1) }

-- The first `n` of a sequence of commands.
unfoldable pub push_many : ℕ → (ℕ → CtlCommand) → CtlQueue → CtlQueue
push_many zero c q = q
push_many (suc n) c q = push (c n) (push_many n c q)

make_room-slot : (q : CtlQueue) → (make_room q).slot ≡ q.slot
unfolding make_room
make_room-slot q = ground arith

store_there : (i j : ℕ) (c : CtlCommand) (slot : ℕ → CtlCommand) → j ≡ i → store i c slot j ≡ c
unfolding store
store_there i j c slot e = let same : (j == i) ≡ true = ground arith in rw same refl

store_elsewhere :
    (i j : ℕ) (c : CtlCommand) (slot : ℕ → CtlCommand) → j ≢ i → store i c slot j ≡ slot j
unfolding store
store_elsewhere i j c slot ne = let other : (j == i) ≡ false = ground arith in rw other refl

push_many-cursors :
    (n : ℕ) (c : ℕ → CtlCommand) (q : CtlQueue)
    → q.tail + 256 + n < 2 ^ 64
    → q.head ≡ q.tail + 256
    → q.dropped < 2 ^ 32
    → ((push_many n c q).head ≡ q.head + n)
      × ((push_many n c q).tail ≡ q.tail + n)
      × ((push_many n c q).dropped ≡ u32 (q.dropped + n))
unfolding push_many push make_room
push_many-cursors zero c q b h s = (omega arith, omega arith, omega arith)
push_many-cursors (suc n) c q b h s =
    let ih = push_many-cursors n c q (omega arith) h s in (ground arith, ground arith, ground arith)

-- The command of push `k` is in the slot after those of the pushes before it, up to a lap later.
push_many-slot :
    (n k : ℕ) (c : ℕ → CtlCommand) (q : CtlQueue)
    → q.tail + 256 + n < 2 ^ 64
    → q.head ≡ q.tail + 256
    → q.dropped < 2 ^ 32
    → k < n
    → n ≤ k + 256
    → (push_many n c q).slot ((q.head + k) % 256) ≡ c k
unfolding push_many push
push_many-slot zero k c q b h s low lap = absurd (omega arith)
push_many-slot (suc n) k c q b h s low lap =
    let before = push_many n c q in
    let at = push_many-cursors n c q (omega arith) h s in
    let slot = bit_and_ones 8 before.head in
    elim (ℕ_discrete k n) [
      | yes e ↦
          let here : (q.head + k) % 256 ≡ bit_and before.head 255 = omega (arith, at.0, slot) in
          let same : c k ≡ c n = ap c e in
          store_there (bit_and before.head 255) ((q.head + k) % 256) (c n) (make_room before).slot
            here
          ∙ sym same
      | no ne ↦
          let ih = push_many-slot n k c q (omega arith) h s (omega arith) (omega arith) in
          let other : (q.head + k) % 256 ≢ bit_and before.head 255 =
            λ e. absurd (omega (arith, at.0, slot)) in
          store_elsewhere (bit_and before.head 255) ((q.head + k) % 256) (c n)
            (make_room before).slot other
          ∙ ap (λ f. f ((q.head + k) % 256)) (make_room-slot before)
          ∙ ih
    ]

-- A pop loads the cursor of a full queue; while it copies the slot, `n` pushes come, 2 to 256 of them, each of
-- which drops the oldest command by moving the same cursor; then the pop stores its cursor. It puts the
-- cursor back over the commands that were dropped: the cursors are 255 + `n` apart, more than the 256
-- slots, and the next pop hands out the command of the second push, before those that were in the queue.
pub overlapped_pop :
    (n : ℕ) (c : ℕ → CtlCommand) (q : CtlQueue)
    → q.tail + 256 + n < 2 ^ 64
    → q.head ≡ q.tail + 256
    → q.dropped < 2 ^ 32
    → 1 < n
    → n ≤ 256
    → let pushed = push_many n c q in
      let after = finish_pop q.tail pushed in
      (pushed.tail ≡ q.tail + n)
      × (pushed.dropped ≡ u32 (q.dropped + n))
      × (after.tail ≡ q.tail + 1)
      × (after.head ≡ after.tail + (255 + n))
      × (pop after ≡ some (c 1, record after { tail = q.tail + 2 }))
unfolding finish_pop pop
overlapped_pop n c q b h s p lap =
    let at = push_many-cursors n c q b h s in
    let pushed = push_many n c q in
    let one : u64 (q.tail + 1) ≡ q.tail + 1 = omega arith in
    let two : u64 (q.tail + 1 + 1) ≡ q.tail + 2 = omega arith in
    let some_left : (q.tail + 1 == pushed.head) ≡ false = ground (arith, at.0) in
    let slot : bit_and (q.tail + 1) 255 ≡ (q.head + 1) % 256 =
      omega (arith, bit_and_ones 8 (q.tail + 1)) in
    let next = push_many-slot n 1 c q b h s p (omega arith) in
    (at.1, at.2, one, omega (arith, at.0), rw (one, some_left, two, slot, next) refl)
