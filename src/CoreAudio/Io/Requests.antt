-- ===== src/CoreAudio/Io/Requests.antt =====
-- The calls of a cycle of capture, of which the first pulls from the ring for them all.
use userface.Base.{
  ℕ, zero, suc, ◌+◌, ◌-◌, ◌*◌, ◌^◌, ◌≤◌, ◌<◌, ◌≡◌, refl, ap, ◌∙◌, true, false, List, [], ◌∷◌,
  Option, none, some, arith, u32, get_or,
}
use userface.Base.Int.{ℤ}
use userface.Shared.Ring.{Ring, max_channels}
use userface.Shared.TxFill.{slot_at}
use userface.CoreAudio.Io.{
  Stream, Input, same_time, copy, clear, cycle_frames, is_outside, is_new, attach_capture,
  get_columns, take_slot, next_slot, fill_frames, read_stream,
}
use userface.CoreAudio.Io.Calls.{same_time_refl, is_outside_lem, cycle_frames_lem}

-- A call of the handler, for one stream and a buffer of some bytes.
pub record Request : Type 0 where
  pub stream : Stream
  pub bytes : ℕ

-- The streams have channels, at most 2 ^ 30 - 1, the first of them in the ring's frame, and ask for
-- `frames` frames each, of 4 bytes a sample.
pub data AreRequests (frames : ℕ) : List Request → Type 0 where
  no_request : AreRequests frames []
  one_request :
      {k : Request} {ks : List Request}
      → 0 < k.stream.channels
      → k.stream.channels < 2 ^ 30
      → k.stream.starting_channel - 1 < 28
      → k.bytes ≡ frames * (k.stream.channels * 4)
      → AreRequests frames ks
      → AreRequests frames (k ∷ ks)

attached_capture : (ring : ℕ) (s : Input) → s.last_capture ≡ some ring → attach_capture ring s ≡ s
unfolding attach_capture is_new
attached_capture ring s e =
    let same : is_new ring s.last_capture ≡ false = rw e (ground arith) in rw same refl

-- The buffers of a cycle whose frames are staged.
unfoldable pub buffers : ℕ → (ℕ → ℕ) → List Request → List (ℕ → ℕ)
buffers frames stage [] = []
buffers frames stage (k ∷ ks) = get_columns frames k.stream stage (λ _. 0) ∷ buffers frames stage ks

module _ {Time : Type 0} where
  unfoldable pub read_all :
      ℕ → ℤ → List Request → Input → Ring Time → List (ℕ → ℕ) × Input × Ring Time
  read_all ring time [] s r = ([], s, r)
  read_all ring time (k ∷ ks) s r =
      let (samples, t, r') = read_stream ring k.stream time k.bytes s r in
      let (rest, u, r2) = read_all ring time ks t r' in (samples ∷ rest, u, r2)

  next_slot_keeps :
      (s : Input) (r : Ring Time)
      → let t = (next_slot s r).0 in (t.last_capture ≡ s.last_capture) × (t.in_cycle ≡ s.in_cycle)
  unfolding next_slot take_slot
  next_slot_keeps s r = ground arith

  fill_frames_keeps :
      (n f : ℕ) (s : Input) (r : Ring Time)
      → let t = (fill_frames n f s r).0 in
        (t.last_capture ≡ s.last_capture) × (t.in_cycle ≡ s.in_cycle)
  unfolding fill_frames
  fill_frames_keeps zero f s r = (refl, refl)
  fill_frames_keeps (suc n) f s r =
      let (s1, r1) = next_slot s r in
      let first = next_slot_keeps s r in
      elim s1.rd_slot
        as (λ (o : Option ℕ).
          let t : Input × Ring Time = elim o [
            | none ↦ (
              record s1 { in_stage = clear (f * max_channels) (suc n * max_channels) s1.in_stage },
              r1,
            )
            | some i ↦
                let audio = λ (j : ℕ). get_or (slot_at r1 i).audio j 0 in
                fill_frames n (f + 1)
                  (record s1 {
                    in_stage =
                        copy (f * max_channels) max_channels audio (s1.rd_frame * max_channels)
                          s1.in_stage;
                    rd_frame = u32 (s1.rd_frame + 1);
                  })
                  r1
          ] in
          (t.0.last_capture ≡ s.last_capture) × (t.0.in_cycle ≡ s.in_cycle)) [
            | none ↦ first
            | some i ↦
                let audio = λ (j : ℕ). get_or (slot_at r1 i).audio j 0 in
                let rest =
                  fill_frames_keeps n (f + 1)
                    (record s1 {
                      in_stage =
                          copy (f * max_channels) max_channels audio (s1.rd_frame * max_channels)
                            s1.in_stage;
                      rd_frame = u32 (s1.rd_frame + 1);
                    })
                    r1 in
                (rest.0 ∙ first.0, rest.1 ∙ first.1)
          ]

  -- A call within a cycle.
  read_stream_within :
      (ring : ℕ) (time : ℤ) (k : Request) (frames : ℕ) (s : Input) (r : Ring Time)
      → s.last_capture ≡ some ring
      → is_outside k.stream ≡ false
      → cycle_frames k.stream k.bytes ≡ frames
      → s.in_cycle ≡ time
      → read_stream ring k.stream time k.bytes s r
        ≡ (get_columns frames k.stream s.in_stage (λ _. 0), s, r)
  unfolding read_stream
  read_stream_within ring time k frames s r at inner size now =
      let same : same_time time s.in_cycle ≡ true = ap (same_time time) now ∙ same_time_refl time in
      rw (attached_capture ring s at, inner, size, same) refl

  read_stream_first :
      (ring : ℕ) (time : ℤ) (k : Request) (frames : ℕ) (s : Input) (r : Ring Time)
      → s.last_capture ≡ some ring
      → is_outside k.stream ≡ false
      → cycle_frames k.stream k.bytes ≡ frames
      → same_time time s.in_cycle ≡ false
      → let t = fill_frames frames 0 (record s { in_cycle = time }) r in
        read_stream ring k.stream time k.bytes s r
        ≡ (get_columns frames k.stream t.0.in_stage (λ _. 0), t.0, t.1)
  unfolding read_stream
  read_stream_first ring time k frames s r at inner size fresh =
      rw (attached_capture ring s at, inner, size, fresh) refl

  read_all_within :
      (ring : ℕ) (time : ℤ) (ks : List Request) (frames : ℕ) (s : Input) (r : Ring Time)
      → s.last_capture ≡ some ring
      → frames ≤ 4096
      → AreRequests frames ks
      → s.in_cycle ≡ time
      → read_all ring time ks s r ≡ (buffers frames s.in_stage ks, s, r)
  unfolding read_all buffers
  read_all_within ring time [] frames s r at short v now = refl
  read_all_within ring time (k ∷ ks) frames s r at short (one_request pos few start bytes v) now =
      let inner = is_outside_lem k.stream pos start in
      let size = cycle_frames_lem k.stream frames k.bytes pos few short bytes in
      let one = read_stream_within ring time k frames s r at inner size now in
      let rest = read_all_within ring time ks frames s r at short v now in
      ap
        (λ (p : (ℕ → ℕ) × Input × Ring Time).
          let q = read_all ring time ks p.1 p.2 in (p.0 ∷ q.0, q.1, q.2))
        one
      ∙ ap
          (λ (q : List (ℕ → ℕ) × Input × Ring Time).
            (get_columns frames k.stream s.in_stage (λ _. 0) ∷ q.0, q.1, q.2))
          rest

  pub read_all_lem :
      (ring : ℕ) (time : ℤ) (k : Request) (ks : List Request) (frames : ℕ) (s : Input)
      (r : Ring Time)
      → s.last_capture ≡ some ring
      → frames ≤ 4096
      → AreRequests frames (k ∷ ks)
      → same_time time s.in_cycle ≡ false
      → let t = fill_frames frames 0 (record s { in_cycle = time }) r in
        read_all ring time (k ∷ ks) s r ≡ (buffers frames t.0.in_stage (k ∷ ks), t.0, t.1)
  unfolding read_all buffers
  read_all_lem ring time k ks frames s r at short (one_request pos few inside bytes v) fresh =
      let inner = is_outside_lem k.stream pos inside in
      let size = cycle_frames_lem k.stream frames k.bytes pos few short bytes in
      let start = record s { in_cycle = time } in
      let t = fill_frames frames 0 start r in
      let kept = fill_frames_keeps frames 0 start r in
      let first = read_stream_first ring time k frames s r at inner size fresh in
      let rest = read_all_within ring time ks frames t.0 t.1 (kept.0 ∙ at) short v kept.1 in
      ap
        (λ (p : (ℕ → ℕ) × Input × Ring Time).
          let q = read_all ring time ks p.1 p.2 in (p.0 ∷ q.0, q.1, q.2))
        first
      ∙ ap
          (λ (q : List (ℕ → ℕ) × Input × Ring Time).
            (get_columns frames k.stream t.0.in_stage (λ _. 0) ∷ q.0, q.1, q.2))
          rest
