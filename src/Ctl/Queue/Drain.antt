-- ===== src/Ctl/Queue/Drain.antt =====
-- The loops `while (q.pop(&c))` of platform/daemon/uf-daemon.cpp.
use userface.Base.{ℕ, zero, suc, ◌+◌, ◌<◌, ◌≡◌, refl, List, [], ◌∷◌, length, arith, none, some, u64}
use userface.Ctl.Proto.{CtlCommand}
use userface.Ctl.Queue.{CtlQueue, pop}
use userface.Ctl.Queue.Refine.{Holds, pop-empty, pop-some}

module _ {ℓ} {S : Type ℓ} (body : CtlCommand → S → S) where
  -- The state after the loop and the queue that it leaves, with fuel for the calls of `pop`.
  unfoldable pub while_pop : ℕ → CtlQueue → S → S × CtlQueue
  while_pop zero q s = (s, q)
  while_pop (suc n) q s = elim (pop q) [ none ↦ (s, q) | some p ↦ while_pop n p.1 (body p.0 s) ]

  abbrev pub each : List CtlCommand → S → S
  each [] s = s
  each (c ∷ cs) s = each cs (body c s)

  turn_none : (n : ℕ) (q : CtlQueue) (s : S) → pop q ≡ none → while_pop (suc n) q s ≡ (s, q)
  unfolding while_pop
  turn_none n q s e = rw (while_pop, e) refl

  turn_some :
      (n : ℕ) (q : CtlQueue) (s : S) (c : CtlCommand) (r : CtlQueue)
      → pop q ≡ some (c, r)
      → while_pop (suc n) q s ≡ while_pop n r (body c s)
  unfolding while_pop
  turn_some n q s c r e = rw (while_pop, e) refl

  -- With one call of `pop` for each command and one more the loop ends: it has done its body for every
  -- command of the queue, the oldest one first, and the queue is empty.
  pub while_pop-each :
      (cs : List CtlCommand) (n : ℕ) (q : CtlQueue) (s : S)
      → Holds q cs
      → length cs < n
      → ((while_pop n q s).0 ≡ each cs s)
        × Holds ((while_pop n q s).1) []
        × (pop ((while_pop n q s).1) ≡ none)
  while_pop-each cs zero q s h l = absurd (omega arith)
  while_pop-each [] (suc n) q s h l = let e = pop-empty q h in rw (turn_none n q s e) (refl, h, e)
  while_pop-each (c ∷ cs) (suc n) q s h l =
      let p = pop-some q c cs h in
      rw (turn_some n q s c (record q { tail = u64 (q.tail + 1) }) p.0)
        (while_pop-each cs n (record q { tail = u64 (q.tail + 1) }) (body c s) p.1 (omega arith))
