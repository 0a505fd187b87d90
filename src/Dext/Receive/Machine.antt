-- ===== src/Dext/Receive/Machine.antt =====
-- The packets that the controller puts in the ring, and the turns of the driver.
use userface.Base.{ℕ, ◌+◌, ◌%◌, ◌≤◌, ◌<◌, ◌≡◌, ◌≢◌, Bool, true, ◌&&◌, ltb, ◌==◌, if◌then◌else◌}
use userface.Dext.Descriptor.{Descriptor}
use userface.Dext.Receive.{Receive, iso_start_continuous, iso_completed_count, iso_release}

-- `head` is the packet that arrives next, counted from the start; `slot` tells which packet a slot holds;
-- `kept` is whether each packet came to a slot that was released.
pub record System : Type 0 where
  pub rx : Receive
  pub head : ℕ
  pub slot : ℕ → ℕ
  pub kept : Bool

abbrev pub status_of : Receive → ℕ → ℕ
status_of r k = (r.desc (k % 512)).transfer_status

unfoldable pub write_status : ℕ → ℕ → (ℕ → Descriptor) → ℕ → Descriptor
write_status i status desc j =
    if j == i then record (desc j) { transfer_status = status } else desc j

-- The controller puts the next packet in the next slot, released or not.
abbrev pub arrived : ℕ → System → System
arrived status s = record {
  rx = record (s.rx) { desc = write_status (s.head % 512) status s.rx.desc };
  head = s.head + 1;
  slot = λ j. if j == s.head % 512 then s.head else s.slot j;
  kept = s.kept && ltb s.head (s.rx.iso_read + 512);
}

pub data Step (s : System) : System → Type 0 where
  arrive : (status : ℕ) → status ≢ 0 → Step s (arrived status s)
  ask : Step s (record s { rx = (iso_completed_count s.rx).1 })
  release : (up_to : ℕ) → Step s (record s { rx = iso_release up_to s.rx })

pub data Reach (s : System) : System → Type 0 where
  here : Reach s s
  next : {t u : System} → Reach s t → Step t u → Reach s u

pub record Inv (s : System) : Type 0 where
  pub packets : s.rx.iso_packets ≡ 512
  pub behind : s.rx.iso_read ≤ s.rx.iso_write
  pub lap : s.rx.iso_write ≤ s.rx.iso_read + 512
  pub seen : s.rx.iso_write ≤ s.head
  pub fresh :
      (k : ℕ) → s.rx.iso_write ≤ k → k < s.rx.iso_read + 512 → status_of s.rx k ≢ 0 → k < s.head
  pub in_ring : s.kept ≡ true → s.head ≤ s.rx.iso_read + 512
  pub marked : s.kept ≡ true → (k : ℕ) → s.rx.iso_write ≤ k → k < s.head → status_of s.rx k ≢ 0
  pub stored : s.kept ≡ true → (k : ℕ) → s.rx.iso_read ≤ k → k < s.head → s.slot (k % 512) ≡ k

-- The ring as `IsoStartContinuous` leaves it, before the first packet.
abbrev pub start : Receive → (ℕ → ℕ) → System
start r slot = record { rx = iso_start_continuous r; head = 0; slot = slot; kept = true }
