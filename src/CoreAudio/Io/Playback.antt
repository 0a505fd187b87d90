-- ===== src/CoreAudio/Io/Playback.antt =====
-- A cycle of playback, from the streams to the ring.
use userface.Base.{
  ℕ, ◌+◌, ◌-◌, ◌*◌, ◌^◌, ◌≤◌, ◌<◌, ◌≡◌, sym, ap, subst, ◌∙◌, ◌⊎◌, inl, inr, false, List, ◌∷◌,
  length, none, some, arith,
}
use userface.Base.Int.{ℤ}
use userface.Shared.Ring.{Ring}
use userface.CoreAudio.Io.{Output, same_time, flush_frames, flush_stage_to_ring}
use userface.CoreAudio.Io.Calls.{Call, AreCalls, staged, mixed, put_all}
use userface.CoreAudio.Io.Cycle.{write_all, begun, finish, whole_cycle}
use userface.CoreAudio.Io.Slots.{frame_of}
use userface.CoreAudio.Io.Flush.{Held, Flushed, position, flush_frames_lem}

module _ {Time : Type 0} where
  flush_nothing : (s : Output) (r : Ring Time) → s.out_frames ≡ 0 → flush_stage_to_ring s r ≡ (s, r)
  unfolding flush_stage_to_ring flush_frames
  flush_nothing s r e =
      let one : flush_frames s.out_frames 0 s r ≡ (s, r) = ap (λ n. flush_frames n 0 s r) e in
      ap (λ (x : Output × Ring Time). (record (x.0) { out_frames = 0 }, x.1)) one
      ∙ ap (λ (n : ℕ). (record s { out_frames = n }, r)) (sym e)

  finish-Flushed :
      (s : Output) (r : Ring Time)
      → Held s r
      → r.tail ≤ r.head
      → r.head + s.out_frames < 2 ^ 64
      → s.out_frames ≤ 4096
      → Flushed s.out_frames 0 s r (finish s r)
  unfolding flush_stage_to_ring position
  finish-Flushed s r v le bound few =
      let f = flush_frames_lem s.out_frames 0 s r v le bound few in
      record {
        shape = record { slots = f.shape.slots; held = f.shape.held };
        more = f.more;
        most = f.most;
        all = f.all;
        stored = f.stored;
        others = f.others;
      }

  -- A cycle of playback of at most 4096 frames into a ring that has its shape and that the handler knows,
  -- with nothing left of the cycle before, the tail not past the head and the cursors below 2 ^ 64: the
  -- calls, one for each stream, each of which starts in the ring's frame and brings 4 bytes a channel and
  -- frame, write the cycle's frames behind those that are in the slots, in order. They are all written, or
  -- the first of them are, the handler holds no slot and all the ring's slots lie between its cursors. In
  -- each frame channel `c` holds the sample of the last stream whose channels it is one of, sample
  -- `c` less the stream's first channel of the stream's own frame, and 0 if there is none.
  pub cycle_in_ring :
      (ring : ℕ) (time : ℤ) (k : Call) (ks : List Call) (frames : ℕ) (s : Output) (r : Ring Time)
      → s.last_playback ≡ some ring
      → frames ≤ 4096
      → AreCalls frames (k ∷ ks)
      → same_time time s.out_cycle ≡ false
      → length (k ∷ ks) ≡ s.out_stream_count
      → s.out_stream_count < 2 ^ 32
      → Held s r
      → s.out_frames ≡ 0
      → r.tail ≤ r.head
      → r.head + frames < 2 ^ 64
      → let t = write_all ring time (k ∷ ks) s r in
        let p = position s r in
        let p' = position t.0 t.1 in
        (p ≤ p')
        × (p' ≤ p + frames)
        × ((p' ≡ p + frames) ⊎ ((t.0.wr_slot ≡ none) × (r.tail + r.slots ≤ t.1.head)))
        × ((g c : ℕ) → g < p' - p → c < 28 → frame_of t.1.slot (p + g) c ≡ mixed 0 (k ∷ ks) g c)
  unfolding position
  cycle_in_ring ring time k ks frames s r at short v fresh count few shape idle le bound =
      let whole =
        whole_cycle ring time k ks frames s r at (staged frames (k ∷ ks) short v) fresh count few in
      let empty = flush_nothing s r idle in
      let b = begun time frames s r in
      let t = record b {
        out_stage = put_all frames (k ∷ ks) b.out_stage;
        out_streams_seen = s.out_stream_count;
      } in
      let r0 = (flush_stage_to_ring s r).1 in
      let same : position t r0 ≡ position s r =
        ap (λ (x : Output × Ring Time). position x.0 x.1) empty in
      let shape0 : Held (flush_stage_to_ring s r).0 r0 =
        subst (λ (x : Output × Ring Time). Held x.0 x.1) (sym empty) shape in
      let head : r0.head ≡ r.head = ap (λ (x : Output × Ring Time). x.1.head) empty in
      let cursors : (r0.tail ≡ r.tail) × (r0.slots ≡ r.slots) = (
        ap (λ (x : Output × Ring Time). x.1.tail) empty,
        ap (λ (x : Output × Ring Time). x.1.slots) empty,
      ) in
      let f =
        finish-Flushed t r0 (record { slots = shape0.slots; held = shape0.held })
          (omega (arith, head, cursors.0)) (omega (arith, head)) short in
      rw (whole.0) (
        omega (arith, f.more, same),
        omega (arith, f.most, same),
        elim f.all [
          | inl done ↦ inl (omega (arith, done, same))
          | inr full ↦ inr (full.0, omega (arith, full.1, cursors.0, cursors.1))
        ],
        λ g c low x.
            let there : position s r + g ≡ position t r0 + g = omega (arith, same) in
            ap (λ q. frame_of (finish t r0).1.slot q c) there
            ∙ f.stored g c (omega (arith, same)) x
            ∙ ap (λ j. t.out_stage (j * 28 + c)) (omega arith)
            ∙ whole.1 g c (omega (arith, f.most, same)) x,
      )
