-- ===== src/CoreAudio/Io/Reads.antt =====
-- A cycle of capture: its streams share one pull from the ring.
use userface.Base.{
  ℕ, ◌+◌, ◌-◌, ◌*◌, ◌≤◌, ◌<◌, ◌≡◌, refl, ap, ◌∙◌, true, false, ◌&&◌, List, [], ◌∷◌, some, ltb, leb,
  if◌then◌else◌, arith, Bool-cases, inl, inr,
}
use userface.Base.Int.{ℤ}
use userface.Shared.Ring.{Ring}
use userface.CoreAudio.Io.{Stream, Input, same_time, fill_frames}
use userface.CoreAudio.Io.Calls.{is_outside_lem}
use userface.CoreAudio.Io.Columns.{get_columns_lem}
use userface.CoreAudio.Io.Slots.{frame_of}
use userface.CoreAudio.Io.Take.{Held, position}
use userface.CoreAudio.Io.Pull.{heard, fill_frames_lem}
use userface.CoreAudio.Io.Requests.{
  Request, AreRequests, one_request, buffers, read_all, read_all_lem,
}

-- The buffers that the streams get of the frames from position `p` on: channel `c` of a stream, counted
-- from 0, is that of the ring's frame which is `c` after the stream's first, if there is one.
pub data AreHeard {Time : Type 0} (frames p : ℕ) (r : Ring Time)
    : List Request → List (ℕ → ℕ) → Type 0 where
  no_buffer : AreHeard frames p r [] []
  one_buffer :
      {k : Request} {ks : List Request} {b : ℕ → ℕ} {bs : List (ℕ → ℕ)}
      → ((f c : ℕ)
          → f < frames
          → c < k.stream.channels
          → b (f * k.stream.channels + c) ≡ (
              if ltb (k.stream.starting_channel - 1 + c) 28 && ltb (p + f) (r.head * 512)
              then frame_of r.slot (p + f) (k.stream.starting_channel - 1 + c)
              else 0))
      → AreHeard frames p r ks bs
      → AreHeard frames p r (k ∷ ks) (b ∷ bs)

module _ {Time : Type 0} where
  heard_stage :
      (st : Stream) (p f c : ℕ) (stage : ℕ → ℕ) (r : Ring Time)
      → (ltb (st.starting_channel - 1 + c) 28 ≡ true
          → stage (f * 28 + (st.starting_channel - 1 + c))
            ≡ heard r (p + f) (st.starting_channel - 1 + c))
      → (if ltb (st.starting_channel - 1 + c) 28
          then stage (f * 28 + (st.starting_channel - 1 + c))
          else 0)
        ≡ (if ltb (st.starting_channel - 1 + c) 28 && ltb (p + f) (r.head * 512)
            then frame_of r.slot (p + f) (st.starting_channel - 1 + c)
            else 0)
  heard_stage st p f c stage r h = elim (Bool-cases (ltb (st.starting_channel - 1 + c) 28)) [
    | inl inside ↦ rw inside (h inside)
    | inr beyond ↦ rw beyond refl
  ]

  buffers-AreHeard :
      (frames p : ℕ) (ks : List Request) (stage : ℕ → ℕ) (r : Ring Time)
      → AreRequests frames ks
      → ((f c : ℕ) → f < frames → c < 28 → stage (f * 28 + c) ≡ heard r (p + f) c)
      → AreHeard frames p r ks (buffers frames stage ks)
  unfolding buffers
  buffers-AreHeard frames p [] stage r v h = no_buffer
  buffers-AreHeard frames p (k ∷ ks) stage r (one_request pos few start bytes v) h =
      one_buffer
        (λ f c low b.
          get_columns_lem frames k.stream stage f c (is_outside_lem k.stream pos start) low b
          ∙ heard_stage k.stream p f c stage r
              (λ inside. h f (k.stream.starting_channel - 1 + c) low (ground (arith, inside))))
        (buffers-AreHeard frames p ks stage r v h)

  -- A cycle of capture of at most 4096 frames, a call for each stream, each of which starts in the ring's
  -- frame and has room for 4 bytes a channel and frame, from a ring whose slots between the cursors are
  -- whole, the tail not past the head and the head below 2 ^ 64. The ring is read once, for all the
  -- streams: the reader moves by the cycle's frames, or to the head where there are fewer, and nothing
  -- else of the slots changes. Every stream gets, in its own channels, the frames from where the reader
  -- was, and silence from the head on and in channels beyond the ring's frame.
  pub read_cycle :
      (ring : ℕ) (time : ℤ) (k : Request) (ks : List Request) (frames : ℕ) (s : Input)
      (r : Ring Time)
      → s.last_capture ≡ some ring
      → frames ≤ 4096
      → AreRequests frames (k ∷ ks)
      → same_time time s.in_cycle ≡ false
      → Held s r
      → let o = read_all ring time (k ∷ ks) s r in
        let p = position s r in
        AreHeard frames p r (k ∷ ks) o.0
        × (position o.1 o.2
            ≡ (if leb (p + frames) (r.head * 512) then p + frames else r.head * 512))
        × (o.2.head ≡ r.head)
        × (o.2.slot ≡ r.slot)
  unfolding position
  read_cycle ring time k ks frames s r at short v fresh shape =
      let start = record s { in_cycle = time } in
      let t = fill_frames frames 0 start r in
      let whole = read_all_lem ring time k ks frames s r at short v fresh in
      let pulled =
        fill_frames_lem frames 0 start r
          (record { cursors = shape.cursors; whole = shape.whole; held = shape.held }) in
      rw whole (
        buffers-AreHeard frames (position start r) (k ∷ ks) t.0.in_stage r v (λ f c low b.
            ap (λ j. t.0.in_stage (j * 28 + c)) (omega arith) ∙ pulled.staged f c low b),
        pulled.moved,
        pulled.head,
        pulled.slot,
      )
