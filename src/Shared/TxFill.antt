-- ===== src/Shared/TxFill.antt =====
-- platform/shared/uf_tx_fill.hpp: the frames of a transmit packet, taken from the ring or held. A slot
-- pointer is the index of the slot, an `int32_t` the 32-bit word that stands for it.
pub mod Packet
pub mod Decay
use userface.Base.{
  ℕ, zero, suc, ◌+◌, ◌-◌, ◌*◌, ◌/◌, ◌^◌, List, [], ◌∷◌, Bool, true, false, not, ◌&&◌, Option, none,
  some, u32, u64, ltb, leb, ◌==◌, if◌then◌else◌, get_or,
}
use userface.Shared.Ring.{Ring, Slot, max_channels, acquire_read, commit_read}

pub record TxFill : Type 0 where
  pub slot : Option ℕ
  pub pos : ℕ
  pub channels : ℕ
  pub held : ℕ
  pub held_run : ℕ
  pub dry_packet : Bool
  pub dry_tick : Bool
  pub last : List ℕ

unfoldable pub zeros : ℕ → List ℕ
zeros zero = []
zeros (suc n) = 0 ∷ zeros n

unfoldable pub make : ℕ → TxFill
make channels = record {
  slot = none;
  pos = 0;
  channels = if ltb max_channels channels then max_channels else channels;
  held = 0;
  held_run = 0;
  dry_packet = false;
  dry_tick = false;
  last = zeros max_channels;
}

unfoldable pub begin_tick : TxFill → TxFill
begin_tick t = record t { dry_tick = false }

unfoldable pub begin_packet : TxFill → TxFill
begin_packet t = record t { dry_packet = false }

unfoldable pub reset : TxFill → TxFill
reset t = record t { slot = none; pos = 0; dry_packet = false; dry_tick = false }

-- `x >> 8` on an `int32_t`, and one step of the decay.
unfoldable pub shift_8 : ℕ → ℕ
shift_8 x = if ltb x (2 ^ 31) then x / 256 else x / 256 + (2 ^ 32 - 2 ^ 24)

unfoldable pub decay : ℕ → ℕ
decay x = u32 (x + 2 ^ 32 - shift_8 x)

-- The loop over the channels that decays them: the first `n` of `last`.
unfoldable pub decay_channels : ℕ → List ℕ → List ℕ
decay_channels zero last = last
decay_channels (suc n) [] = []
decay_channels (suc n) (x ∷ last) = decay x ∷ decay_channels n last

-- The loop that copies a frame of `nsrc` samples from `base` on: channel `c`, with `n` to go.
unfoldable pub copy_channels : ℕ → ℕ → ℕ → ℕ → List ℕ → List ℕ → List ℕ
copy_channels zero c nsrc base audio last = last
copy_channels (suc n) c nsrc base audio [] = []
copy_channels (suc n) c nsrc base audio (x ∷ last) =
    (if ltb c nsrc then get_or audio (base + c) 0 else 0)
    ∷ copy_channels n (c + 1) nsrc base audio last

abbrev pub empty_slot : Slot
empty_slot = record { frame_count = 0; channel_count = 0; audio = [] }

-- What `acquireRead` returned.
unfoldable pub acquired : TxFill → Option ℕ → TxFill
acquired t none = record t { slot = none; pos = 0; dry_packet = true; dry_tick = true }
acquired t (some i) = record t { slot = some i; pos = 0 }

-- A frame out of a slot.
unfoldable pub real_frame : TxFill → Slot → TxFill
real_frame t s =
    let nsrc = if s.channel_count == 0 then t.channels else s.channel_count in
    record t {
      last = copy_channels t.channels 0 nsrc (t.pos * nsrc) s.audio t.last;
      pos = u32 (t.pos + 1);
      held_run = 0;
    }

-- A frame that is held.
unfoldable pub held_frame : TxFill → TxFill
held_frame t = record t {
  last = if t.held_run == 0 then t.last else decay_channels t.channels t.last;
  held_run = u32 (t.held_run + 1);
  held = u64 (t.held + 1);
}

module _ {Time : Type 0} where
  -- The slot that a pointer names.
  unfoldable pub slot_at : Ring Time → ℕ → Slot
  slot_at r i = get_or r.slot i empty_slot

  -- `if (slot_ && pos_ >= slot_->frameCount) { ... }`
  unfoldable pub give_back : TxFill → Ring Time → TxFill × Ring Time
  give_back t r = elim t.slot [
    | none ↦ (t, r)
    | some i ↦
        if leb (slot_at r i).frame_count t.pos
        then (record t { slot = none }, commit_read r)
        else (t, r)
  ]

  -- `if (!slot_ && !dryPacket_) { ... }`
  unfoldable pub take_slot : TxFill → Ring Time → TxFill × Ring Time
  take_slot t r = elim t.slot [
    | some i ↦ (t, r)
    | none ↦ if t.dry_packet then (t, r) else let (got, r') = acquire_read r in (acquired t got, r')
  ]

  unfoldable pub next_frame : TxFill → Ring Time → TxFill
  next_frame t r = elim t.slot [ some i ↦ real_frame t (slot_at r i) | none ↦ held_frame t ]

  -- `frame`: the samples are `last` of the state that it returns.
  unfoldable pub frame : TxFill → Ring Time → TxFill × Ring Time
  frame t r =
      let (t1, r1) = give_back t r in let (t2, r2) = take_slot t1 r1 in (next_frame t2 r2, r2)

  unfoldable pub release : TxFill → Ring Time → TxFill × Ring Time
  release t r = elim t.slot [
    | none ↦ (t, r)
    | some i ↦ (record t { slot = none; pos = 0 }, commit_read r)
  ]
