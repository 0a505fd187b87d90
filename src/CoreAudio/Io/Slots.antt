-- ===== src/CoreAudio/Io/Slots.antt =====
-- The slots of the ring as one sequence of frames, and what the write of a frame does to it.
use userface.Base.{
  ℕ, zero, suc, ◌+◌, ◌-◌, ◌*◌, ◌/◌, ◌%◌, ◌≤◌, ◌<◌, ◌≡◌, ◌≢◌, refl, sym, ap, ◌∙◌, true, false, ◌&&◌,
  List, length, set, length-set, get_or, get_or-set_self, get_or-set_ne, ltb, leb, if◌then◌else◌,
  arith, ℕ_discrete,
}
use userface.Shared.Ring.{Slot}
use userface.Shared.TxFill.{empty_slot}
use userface.CoreAudio.Io.{store_channels}

length-store_channels :
    (n c : ℕ) (stage : ℕ → ℕ) (from at : ℕ) (audio : List ℕ)
    → length (store_channels n c stage from at audio) ≡ length audio
unfolding store_channels
length-store_channels zero c stage from at audio = refl
length-store_channels (suc n) c stage from at audio =
    length-store_channels n (c + 1) stage from at (set audio (at + c) (stage (from + c)))
    ∙ length-set audio (at + c) (stage (from + c))

store_channels_lem :
    (n c : ℕ) (stage : ℕ → ℕ) (from at : ℕ) (audio : List ℕ) (j : ℕ)
    → at + c + n ≤ length audio
    → get_or (store_channels n c stage from at audio) j 0
      ≡ (if leb (at + c) j && ltb j (at + c + n) then stage (from + (j - at)) else get_or audio j 0)
unfolding store_channels
store_channels_lem zero c stage from at audio j fits =
    let off : (leb (at + c) j && ltb j (at + c + 0)) ≡ false = ground arith in rw off refl
store_channels_lem (suc n) c stage from at audio j fits =
    let x = stage (from + c) in
    let len = length-set audio (at + c) x in
    let rest = store_channels_lem n (c + 1) stage from at (set audio (at + c) x) j (omega arith) in
    elim (ℕ_discrete (at + c) j) [
      | yes e ↦
          let past : (leb (at + (c + 1)) j && ltb j (at + (c + 1) + n)) ≡ false = ground arith in
          let in_it : (leb (at + c) j && ltb j (at + c + suc n)) ≡ true = ground arith in
          let here : get_or (set audio (at + c) x) j 0 ≡ x =
            ap (λ i. get_or (set audio (at + c) x) i 0) (sym e)
            ∙ get_or-set_self audio (at + c) x 0 (omega arith) in
          rest ∙ rw (past, in_it) (here ∙ ap (λ i. stage (from + i)) (omega arith))
      | no ne ↦
          let same : (leb (at + (c + 1)) j && ltb j (at + (c + 1) + n))
              ≡ (leb (at + c) j && ltb j (at + c + suc n)) =
            ground arith in
          rest ∙ rw (same, get_or-set_ne audio x 0 ne) refl
    ]

abbrev pub slot_of : List Slot → ℕ → Slot
slot_of slots i = get_or slots i empty_slot

-- Channel `c` of the frame at position `q`, counted over the slots: a slot has 512 frames.
abbrev pub frame_of : List Slot → ℕ → ℕ → ℕ
frame_of slots q c = get_or (slot_of slots (q / 512 % 8)).audio (q % 512 * 28 + c) 0

-- The slots have their shape.
pub record AreSlots (slots : List Slot) : Type 0 where
  pub count : length slots ≡ 8
  pub audio : (i : ℕ) → i < 8 → length (slot_of slots i).audio ≡ 14336

-- Slot `i`, at the head, gets a frame.
module _ (slots : List Slot) (i h w : ℕ) (stage : ℕ → ℕ) (from : ℕ) (new : Slot)
    (v : AreSlots slots) (at : i ≡ h % 8) (inside : w < 512)
    (stored : new.audio ≡ store_channels 28 0 stage from (w * 28) (slot_of slots i).audio) where
  stored_length : length new.audio ≡ 14336
  stored_length =
      ap length stored
      ∙ length-store_channels 28 0 stage from (w * 28) (slot_of slots i).audio
      ∙ v.audio i (omega arith)

  stored_sample :
      (j : ℕ)
      → get_or new.audio j 0 ≡ (
          if leb (w * 28) j && ltb j (w * 28 + 28)
          then stage (from + (j - w * 28))
          else get_or (slot_of slots i).audio j 0)
  stored_sample j =
      let len = v.audio i (omega arith) in
      let start : w * 28 + 0 ≡ w * 28 = omega arith in
      let one =
        store_channels_lem 28 0 stage from (w * 28) (slot_of slots i).audio j
          (omega (arith, len)) in
      ap (λ a. get_or a j 0) stored ∙ rw start at one

  set_slot_self : slot_of (set slots i new) i ≡ new
  set_slot_self = get_or-set_self slots i new empty_slot (omega (arith, v.count))

  pub set-AreSlots : AreSlots (set slots i new)
  set-AreSlots = record {
    count = length-set slots i new ∙ v.count;
    audio = λ j b. elim (ℕ_discrete i j) [
      | yes e ↦
          ap (λ k. length (slot_of (set slots i new) k).audio) (sym e)
          ∙ ap (λ (x : Slot). length x.audio) set_slot_self
          ∙ stored_length
      | no ne ↦
          ap (λ (x : Slot). length x.audio) (get_or-set_ne slots new empty_slot ne) ∙ v.audio j b
    ];
  }

  pub set_frame_self :
      (c : ℕ) → c < 28 → frame_of (set slots i new) (h * 512 + w) c ≡ stage (from + c)
  set_frame_self c b =
      let slot : (h * 512 + w) / 512 % 8 ≡ i = omega arith in
      let off : (h * 512 + w) % 512 * 28 + c ≡ w * 28 + c = omega arith in
      let in_it : (leb (w * 28) (w * 28 + c) && ltb (w * 28 + c) (w * 28 + 28)) ≡ true =
        ground arith in
      let back : w * 28 + c - w * 28 ≡ c = omega arith in
      rw (slot, off, set_slot_self) (stored_sample (w * 28 + c) ∙ rw (in_it, back) refl)

  pub set_frame_ne :
      (q c : ℕ)
      → q % 4096 ≢ (h * 512 + w) % 4096
      → c < 28
      → frame_of (set slots i new) q c ≡ frame_of slots q c
  set_frame_ne q c ne b = elim (ℕ_discrete i (q / 512 % 8)) [
    | yes e ↦
        let j = q % 512 * 28 + c in
        let other : q % 512 ≢ w = λ f. ne (omega arith) in
        let off : (leb (w * 28) j && ltb j (w * 28 + 28)) ≡ false = ground arith in
        ap (λ k. get_or (slot_of (set slots i new) k).audio j 0) (sym e)
        ∙ ap (λ (x : Slot). get_or x.audio j 0) set_slot_self
        ∙ stored_sample j
        ∙ rw off (ap (λ k. get_or (slot_of slots k).audio j 0) e)
    | no d ↦
        ap (λ (x : Slot). get_or x.audio (q % 512 * 28 + c) 0)
          (get_or-set_ne slots new empty_slot d)
  ]
