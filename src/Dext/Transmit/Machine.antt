-- ===== src/Dext/Transmit/Machine.antt =====
-- Where the controller is, and where the driver finds it. The controller sends packet after packet, round
-- and round, and writes a status for each one that is full.
use userface.Base.{ℕ, ◌+◌, ◌%◌, ◌≤◌, ◌<◌, ◌≡◌, ◌≢◌, Bool, true, false, ◌&&◌, ltb}
use userface.Protocol.Channels.{is_full_packet}
use userface.Dext.Transmit.{
  Transmit, iso_tx_sent, set_status, it_refill, iso_tx_start, iso_tx_set_slot_bytes,
}
use userface.Dext.Transmit.Cadence.{IsDense}

abbrev pub is_full : Transmit → ℕ → Bool
is_full t k = is_full_packet (k % 640) t.it_full_count 640

abbrev pub status_of : Transmit → ℕ → ℕ
status_of t k = (t.block (k % 640)).payload.transfer_status

-- `head` is the packet that the controller is to send next, counted from the start; `kept` is whether it
-- was always one that the driver had handed over.
pub record System : Type 0 where
  pub tx : Transmit
  pub head : ℕ
  pub kept : Bool

abbrev pub sent_one : ℕ → System → System
sent_one status s = record {
  tx = record (s.tx) { block = set_status (s.head % 640) status s.tx.block };
  head = s.head + 1;
  kept = s.kept && ltb s.head s.tx.it_fill;
}

-- The controller sends a packet, or the driver is called. An empty packet may have any status.
pub data Step (s : System) : System → Type 0 where
  transmit_full :
      (status : ℕ) → is_full s.tx s.head ≡ true → status ≢ 0 → Step s (sent_one status s)
  transmit_empty : (status : ℕ) → is_full s.tx s.head ≡ false → Step s (sent_one status s)
  ask : Step s (record s { tx = (iso_tx_sent s.tx).2 })
  refill : (up_to : ℕ) → Step s (record s { tx = it_refill up_to s.tx })
  resize : (slot bytes : ℕ) → Step s (record s { tx = (iso_tx_set_slot_bytes slot bytes s.tx).1 })

pub data Reach (s : System) : System → Type 0 where
  here : Reach s s
  next : {t u : System} → Reach s t → Step t u → Reach s u

-- The driver is never ahead of the controller but for an empty packet, and no status of a lap before is
-- taken for one of this lap.
pub record Inv (s : System) : Type 0 where
  pub running : s.tx.it_running ≡ true
  pub cadence : IsDense s.tx.it_full_count
  pub behind : s.tx.it_sent ≤ s.tx.it_fill
  pub lap : s.tx.it_fill ≤ s.tx.it_sent + 640
  pub near : s.tx.it_sent ≤ s.head + 1
  pub empty_ahead : s.tx.it_sent ≡ s.head + 1 → is_full s.tx s.head ≡ false
  pub fresh :
      (k : ℕ)
      → s.tx.it_sent ≤ k
      → k < s.tx.it_fill
      → is_full s.tx k ≡ true
      → status_of s.tx k ≢ 0
      → k < s.head
  pub in_hand : s.kept ≡ true → s.head ≤ s.tx.it_fill
  pub marked :
      s.kept ≡ true
      → (k : ℕ) → s.tx.it_sent ≤ k
      → k < s.head
      → is_full s.tx k ≡ true
      → status_of s.tx k ≢ 0

-- The ring as `IsoTxStart` leaves it, before the controller sends its first packet.
abbrev pub start : ℕ → ℕ → ℕ → Transmit → System
start channel bytes full_count t = record {
  tx = (iso_tx_start channel bytes full_count t).1;
  head = 0;
  kept = true;
}
