-- ===== src/Shared/Ring/Fifo/Steps.antt =====
-- The steps of the producer and the consumer on the ring.
use userface.Base.{ℕ, ◌≡◌, List, [], ◌∷◌, ◌++◌, Option, none, some, get_elem?, set}
use userface.Shared.Ring.{Ring, Slot, acquire_write, commit_write, acquire_read, commit_read, init}

module _ (Time : Type 0) where
  -- The ring, the slot that each side holds, and the slots that went in and came out, oldest first.
  pub record System : Type 0 where
    pub ring : Ring Time
    pub writing : Option ℕ
    pub reading : Option ℕ
    pub sent : List Slot
    pub received : List Slot

  pub data Step (s : System) : System → Type 0 where
    claim :
        {r : Ring Time} {i : ℕ}
        → s.writing ≡ none
        → acquire_write s.ring ≡ (some i, r)
        → Step s (record s { ring = r; writing = some i })
    full :
        {r : Ring Time}
        → s.writing ≡ none
        → acquire_write s.ring ≡ (none, r)
        → Step s (record s { ring = r })
    fill :
        {i : ℕ} (x : Slot)
        → s.writing ≡ some i
        → Step s (record s { ring = record (s.ring) { slot = set s.ring.slot i x } })
    send :
        {i : ℕ} {x : Slot}
        → s.writing ≡ some i
        → get_elem? s.ring.slot i ≡ some x
        → Step s
            (record s { ring = commit_write s.ring; writing = none; sent = s.sent ++ (x ∷ []) })
    look :
        {r : Ring Time} {i : ℕ}
        → s.reading ≡ none
        → acquire_read s.ring ≡ (some i, r)
        → Step s (record s { ring = r; reading = some i })
    empty :
        {r : Ring Time}
        → s.reading ≡ none
        → acquire_read s.ring ≡ (none, r)
        → Step s (record s { ring = r })
    receive :
        {i : ℕ} {x : Slot}
        → s.reading ≡ some i
        → get_elem? s.ring.slot i ≡ some x
        → Step s (record s {
          ring = commit_read s.ring;
          reading = none;
          received = s.received ++ (x ∷ []);
        })

  pub data Reach (s : System) : System → Type 0 where
    here : Reach s s
    next : {t u : System} → Reach s t → Step t u → Reach s u

  -- A ring as the daemon sets it up, with nobody on it yet.
  abbrev pub start : Time → ℕ → Ring Time → System
  start zero_time instance_id r = record {
    ring = init zero_time instance_id r;
    writing = none;
    reading = none;
    sent = [];
    received = [];
  }
