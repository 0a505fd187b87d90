-- ===== src/CoreAudio/Io/Cycle.antt =====
-- A cycle of playback: its streams, one call each, and what they put together.
use userface.Base.{
  ℕ, zero, suc, ◌+◌, ◌*◌, ◌^◌, ◌<◌, ◌≡◌, refl, sym, ap, ◌∙◌, true, false, List, [], ◌∷◌, length,
  Option, none, some, u32, leb, arith,
}
use userface.Base.Int.{ℤ, negsuc}
use userface.Shared.Ring.{Ring}
use userface.CoreAudio.Io.{
  Output, same_time, clear, cycle_frames, is_outside, is_new, put_columns, flush_frames, claim,
  put_frame, flush_stage_to_ring, attach_playback, begin_cycle, end_stream, write_stream,
}
use userface.CoreAudio.Io.Calls.{
  Call, AreStaged, one_staged, mixed, put_all, same_time_refl, clear_lem, put_all_lem,
}

attached : (ring : ℕ) (s : Output) → s.last_playback ≡ some ring → attach_playback ring s ≡ s
unfolding attach_playback is_new
attached ring s e =
    let same : is_new ring s.last_playback ≡ false = rw e (ground arith) in rw same refl

module _ {Time : Type 0} where
  -- The calls of a cycle, in order.
  unfoldable pub write_all : ℕ → ℤ → List Call → Output → Ring Time → Output × Ring Time
  write_all ring time [] s r = (s, r)
  write_all ring time (k ∷ ks) s r =
      let (t, r') = write_stream ring k.stream time k.samples k.bytes s r in
      write_all ring time ks t r'

  -- A flush with which the cycle is over.
  abbrev pub finish : Output → Ring Time → Output × Ring Time
  finish s r = let (t, r') = flush_stage_to_ring s r in (record t { out_cycle = negsuc 0 }, r')

  -- A call within a cycle.
  write_stream_within :
      (ring : ℕ) (time : ℤ) (k : Call) (frames : ℕ) (s : Output) (r : Ring Time)
      → s.last_playback ≡ some ring
      → is_outside k.stream ≡ false
      → cycle_frames k.stream k.bytes ≡ frames
      → s.out_cycle ≡ time
      → write_stream ring k.stream time k.samples k.bytes s r
        ≡ end_stream (record s { out_stage = put_columns frames k.stream k.samples s.out_stage }) r
  unfolding write_stream begin_cycle
  write_stream_within ring time k frames s r at inner size now =
      let here = attached ring s at in
      let same : same_time time s.out_cycle ≡ true =
        ap (same_time time) now ∙ same_time_refl time in
      rw (here, inner, size, same) refl

  -- The rest of a cycle.
  write_all_within :
      (ring : ℕ) (time : ℤ) (k : Call) (ks : List Call) (frames : ℕ) (s : Output) (r : Ring Time)
      → s.last_playback ≡ some ring
      → AreStaged frames (k ∷ ks)
      → s.out_cycle ≡ time
      → s.out_streams_seen + length (k ∷ ks) ≡ s.out_stream_count
      → s.out_stream_count < 2 ^ 32
      → write_all ring time (k ∷ ks) s r
        ≡ finish
            (record s {
              out_stage = put_all frames (k ∷ ks) s.out_stage;
              out_streams_seen = s.out_stream_count;
            })
            r
  unfolding write_all put_all end_stream
  write_all_within ring time k [] frames s r at (one_staged inner size v) now count few =
      let seen : u32 (s.out_streams_seen + 1) ≡ s.out_stream_count = omega arith in
      let last : leb s.out_stream_count s.out_stream_count ≡ true = ground arith in
      rw (write_stream_within ring time k frames s r at inner size now, seen, last) refl
  write_all_within ring time k (k2 ∷ ks) frames s r at (one_staged inner size v) now count few =
      let seen : u32 (s.out_streams_seen + 1) ≡ s.out_streams_seen + 1 = omega arith in
      let more : leb s.out_stream_count (s.out_streams_seen + 1) ≡ false = ground arith in
      let staged = record s {
        out_stage = put_columns frames k.stream k.samples s.out_stage;
        out_streams_seen = s.out_streams_seen + 1;
      } in
      rw (write_stream_within ring time k frames s r at inner size now, seen, more)
        (write_all_within ring time k2 ks frames staged r at v now (omega arith) few)

  put_frame_keeps :
      (f i : ℕ) (s : Output) (r : Ring Time)
      → let t = (put_frame f i s r).0 in
        (t.last_playback ≡ s.last_playback) × (t.out_stream_count ≡ s.out_stream_count)
  unfolding put_frame
  put_frame_keeps f i s r = ground arith

  claim_keeps :
      (s : Output) (r : Ring Time)
      → let t = (claim s r).0 in
        (t.last_playback ≡ s.last_playback) × (t.out_stream_count ≡ s.out_stream_count)
  unfolding claim
  claim_keeps s r = ground arith

  flush_frames_keeps :
      (n f : ℕ) (s : Output) (r : Ring Time)
      → let t = (flush_frames n f s r).0 in
        (t.last_playback ≡ s.last_playback) × (t.out_stream_count ≡ s.out_stream_count)
  unfolding flush_frames
  flush_frames_keeps zero f s r = (refl, refl)
  flush_frames_keeps (suc n) f s r =
      let (s1, r1) = claim s r in
      let first = claim_keeps s r in
      elim s1.wr_slot
        as (λ (o : Option ℕ).
          let t : Output × Ring Time = elim o [
            | none ↦ (s1, r1)
            | some i ↦ let (s2, r2) = put_frame f i s1 r1 in flush_frames n (f + 1) s2 r2
          ] in
          (t.0.last_playback ≡ s.last_playback) × (t.0.out_stream_count ≡ s.out_stream_count)) [
            | none ↦ first
            | some i ↦
                let (s2, r2) = put_frame f i s1 r1 in
                let one = put_frame_keeps f i s1 r1 in
                let rest = flush_frames_keeps n (f + 1) s2 r2 in
                (rest.0 ∙ one.0 ∙ first.0, rest.1 ∙ one.1 ∙ first.1)
          ]

  -- The first call of a cycle: what was staged before is flushed.
  abbrev pub begun : ℤ → ℕ → Output → Ring Time → Output
  begun time frames s r =
      let t = (flush_stage_to_ring s r).0 in
      record t {
        out_cycle = time;
        out_frames = frames;
        out_streams_seen = 0;
        out_stage = clear 0 (frames * 28) t.out_stage;
      }

  write_stream_first :
      (ring : ℕ) (time : ℤ) (k : Call) (frames : ℕ) (s : Output) (r : Ring Time)
      → s.last_playback ≡ some ring
      → is_outside k.stream ≡ false
      → cycle_frames k.stream k.bytes ≡ frames
      → same_time time s.out_cycle ≡ false
      → let b = begun time frames s r in
        write_stream ring k.stream time k.samples k.bytes s r
        ≡ end_stream
            (record b { out_stage = put_columns frames k.stream k.samples b.out_stage })
            (flush_stage_to_ring s r).1
  unfolding write_stream begin_cycle
  write_stream_first ring time k frames s r at inner size fresh =
      rw (attached ring s at, inner, size, fresh) refl

  flush_keeps :
      (s : Output) (r : Ring Time)
      → let t = (flush_stage_to_ring s r).0 in
        (t.last_playback ≡ s.last_playback) × (t.out_stream_count ≡ s.out_stream_count)
  unfolding flush_stage_to_ring
  flush_keeps s r = flush_frames_keeps s.out_frames 0 s r

  -- A cycle of playback, as many calls as there are streams, each in the ring's frame and with as many
  -- frames: what was left of the cycle before is flushed first, and this cycle goes to the ring in one
  -- piece, with the last call. In each of its frames a channel holds the sample of the last stream that
  -- has the channel, and 0 if there is none.
  pub whole_cycle :
      (ring : ℕ) (time : ℤ) (k : Call) (ks : List Call) (frames : ℕ) (s : Output) (r : Ring Time)
      → s.last_playback ≡ some ring
      → AreStaged frames (k ∷ ks)
      → same_time time s.out_cycle ≡ false
      → length (k ∷ ks) ≡ s.out_stream_count
      → s.out_stream_count < 2 ^ 32
      → let b = begun time frames s r in
        let t = record b {
          out_stage = put_all frames (k ∷ ks) b.out_stage;
          out_streams_seen = s.out_stream_count;
        } in
        (write_all ring time (k ∷ ks) s r ≡ finish t (flush_stage_to_ring s r).1)
        × ((f c : ℕ) → f < frames → c < 28 → t.out_stage (f * 28 + c) ≡ mixed 0 (k ∷ ks) f c)
  unfolding write_all
  whole_cycle ring time k ks frames s r at (one_staged inner size v) fresh count few =
      let b = begun time frames s r in
      let r' = (flush_stage_to_ring s r).1 in
      let kept = flush_keeps s r in
      let first = write_stream_first ring time k frames s r at inner size fresh in
      let again = write_stream_within ring time k frames b r' (kept.0 ∙ at) inner size refl in
      let rest =
        write_all_within ring time k ks frames b r' (kept.0 ∙ at) (one_staged inner size v) refl
          (omega (arith, kept.1)) (omega (arith, kept.1)) in
      (
        ap (λ (p : Output × Ring Time). write_all ring time ks p.0 p.1) (first ∙ sym again)
            ∙ rest
            ∙ ap
                (λ (n : ℕ).
                  finish
                    (record b {
                      out_stage = put_all frames (k ∷ ks) b.out_stage;
                      out_streams_seen = n;
                    })
                    r')
                kept.1,
        λ f c low inside.
            put_all_lem frames (k ∷ ks) b.out_stage f c (one_staged inner size v) low inside
            ∙ ap (λ x. mixed x (k ∷ ks) f c)
                (clear_lem (frames * 28) (flush_stage_to_ring s r).0.out_stage (f * 28 + c)
                  (omega arith)),
      )
