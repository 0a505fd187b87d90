-- ===== src/CoreAudio/Io/Calls.antt =====
-- The calls of a cycle of playback, and what the streams put together in the stage.
use userface.Base.{
  ℕ, zero, suc, ◌+◌, ◌-◌, ◌*◌, ◌/◌, ◌^◌, ◌≤◌, ◌<◌, ◌≡◌, refl, sym, ap, ◌∙◌, Bool, true, false, ◌&&◌,
  List, [], ◌∷◌, u32, ltb, leb, if◌then◌else◌, arith, ℕ_discrete,
}
use native.Mathlib.Nat.{div-eq_of_eq-mul_left}
use userface.Base.Int.{ℤ, pos, negsuc}
use userface.CoreAudio.Io.{
  Stream, same_time, copy, clear, cycle_frames, columns, first_channel, is_outside, put_columns,
}

-- A call of the handler, for one stream.
pub record Call : Type 0 where
  pub stream : Stream
  pub samples : ℕ → ℕ
  pub bytes : ℕ

-- The streams of a cycle have channels, at most 2 ^ 30 - 1, the first of them in the ring's frame, and bring
-- `frames` frames each, of 4 bytes a sample. Channels are counted from 1, and 0 counts as 1.
pub data AreCalls (frames : ℕ) : List Call → Type 0 where
  no_call : AreCalls frames []
  one_call :
      {k : Call} {ks : List Call}
      → 0 < k.stream.channels
      → k.stream.channels < 2 ^ 30
      → k.stream.starting_channel - 1 < 28
      → k.bytes ≡ frames * (k.stream.channels * 4)
      → AreCalls frames ks
      → AreCalls frames (k ∷ ks)

-- What that is to the handler.
pub data AreStaged (frames : ℕ) : List Call → Type 0 where
  no_staged : AreStaged frames []
  one_staged :
      {k : Call} {ks : List Call}
      → is_outside k.stream ≡ false
      → cycle_frames k.stream k.bytes ≡ frames
      → AreStaged frames ks
      → AreStaged frames (k ∷ ks)

pub first_channel_lem : (s : Stream) → first_channel s ≡ s.starting_channel - 1
unfolding first_channel
first_channel_lem s = ground arith

pub is_outside_lem :
    (s : Stream) → 0 < s.channels → s.starting_channel - 1 < 28 → is_outside s ≡ false
unfolding is_outside
is_outside_lem s some_channel inside = let first = first_channel_lem s in ground arith

pub cycle_frames_lem :
    (s : Stream) (frames bytes : ℕ)
    → 0 < s.channels
    → s.channels < 2 ^ 30
    → frames ≤ 4096
    → bytes ≡ frames * (s.channels * 4)
    → cycle_frames s bytes ≡ frames
unfolding cycle_frames
cycle_frames_lem s frames bytes some_channel few short e =
    let size : u32 (s.channels * 4) ≡ s.channels * 4 = omega arith in
    let whole : bytes / u32 (s.channels * 4) ≡ frames =
      div-eq_of_eq-mul_left {n = u32 (s.channels * 4)} {m = bytes} {k = frames} (omega arith)
        (e ∙ ap (λ n. frames * n) (sym size)) in
    let fine : ltb 4096 frames ≡ false = ground arith in rw (whole, fine) refl

pub staged :
    (frames : ℕ) (ks : List Call) → frames ≤ 4096 → AreCalls frames ks → AreStaged frames ks
staged frames [] short no_call = no_staged
staged frames (k ∷ ks) short (one_call some_channel few inside size v) =
    one_staged (is_outside_lem k.stream some_channel inside)
      (cycle_frames_lem k.stream frames k.bytes some_channel few short size)
      (staged frames ks short v)

-- Stream `s` has channel `c` of the ring's frame.
unfoldable pub covers : Stream → ℕ → Bool
covers s c = leb (s.starting_channel - 1) c && ltb c (s.starting_channel - 1 + s.channels)

-- Channel `c` of frame `f`: that of the last stream that has the channel, or `before`.
unfoldable pub mixed : ℕ → List Call → ℕ → ℕ → ℕ
mixed before [] f c = before
mixed before (k ∷ ks) f c =
    mixed
      (if covers k.stream c
        then k.samples (f * k.stream.channels + (c - (k.stream.starting_channel - 1)))
        else before)
      ks f c

covers_lem :
    (s : Stream) (c : ℕ)
    → is_outside s ≡ false
    → c < 28
    → (leb (first_channel s) c && ltb c (first_channel s + columns s)) ≡ covers s c
unfolding is_outside columns covers
covers_lem s c inner inside = let first = first_channel_lem s in ground arith

unfoldable pub put_all : ℕ → List Call → (ℕ → ℕ) → ℕ → ℕ
put_all frames [] stage = stage
put_all frames (k ∷ ks) stage = put_all frames ks (put_columns frames k.stream k.samples stage)

pub same_time_refl : (t : ℤ) → same_time t t ≡ true
unfolding same_time
same_time_refl (pos n) = ground arith
same_time_refl (negsuc n) = ground arith

columns_fit : (s : Stream) → is_outside s ≡ false → first_channel s + columns s ≤ 28
unfolding is_outside columns
columns_fit s h = ground arith

pub copy_lem :
    (at n : ℕ) (src : ℕ → ℕ) (from : ℕ) (dst : ℕ → ℕ) (j : ℕ)
    → copy at n src from dst j
      ≡ (if leb at j && ltb j (at + n) then src (from + (j - at)) else dst j)
unfolding copy
copy_lem at n src from dst j = refl

put_columns_beyond :
    (f : ℕ) (s : Stream) (samples stage : ℕ → ℕ) (j : ℕ)
    → first_channel s + columns s ≤ 28
    → f * 28 ≤ j
    → put_columns f s samples stage j ≡ stage j
unfolding put_columns
put_columns_beyond zero s samples stage j fit past = refl
put_columns_beyond (suc f) s samples stage j fit past =
    let below = put_columns_beyond f s samples stage j fit (omega arith) in
    let one =
      copy_lem (f * 28 + first_channel s) (columns s) samples (f * s.channels)
        (put_columns f s samples stage) j in
    let off : (leb (f * 28 + first_channel s) j && ltb j (f * 28 + first_channel s + columns s))
        ≡ false =
      ground arith in
    one ∙ rw off below

pub clear_lem : (n : ℕ) (stage : ℕ → ℕ) (j : ℕ) → j < n → clear 0 n stage j ≡ 0
unfolding clear
clear_lem n stage j h = ground arith

-- What a stream puts in the stage: its columns, in the first `f` frames.
put_columns_lem :
    (f : ℕ) (s : Stream) (samples stage : ℕ → ℕ) (g c : ℕ)
    → first_channel s + columns s ≤ 28
    → g < f
    → c < 28
    → put_columns f s samples stage (g * 28 + c) ≡ (
        if leb (first_channel s) c && ltb c (first_channel s + columns s)
        then samples (g * s.channels + (c - first_channel s))
        else stage (g * 28 + c))
unfolding put_columns
put_columns_lem zero s samples stage g c fit low inside = absurd (omega arith)
put_columns_lem (suc f) s samples stage g c fit low inside =
    let at = f * 28 + first_channel s in
    let j = g * 28 + c in
    let one = copy_lem at (columns s) samples (f * s.channels) (put_columns f s samples stage) j in
    elim (ℕ_discrete g f) [
      | yes e ↦
          let here : (leb at j && ltb j (at + columns s))
              ≡ (leb (first_channel s) c && ltb c (first_channel s + columns s)) =
            ground arith in
          let index : f * s.channels + (j - at) ≡ g * s.channels + (c - first_channel s) =
            rw e (omega arith) in
          one ∙ rw (here, index, put_columns_beyond f s samples stage j fit (omega arith)) refl
      | no ne ↦
          let off : (leb at j && ltb j (at + columns s)) ≡ false = ground arith in
          one ∙ rw off (put_columns_lem f s samples stage g c fit (omega arith) inside)
    ]

pub put_all_lem :
    (frames : ℕ) (calls : List Call) (stage : ℕ → ℕ) (f c : ℕ)
    → AreStaged frames calls
    → f < frames
    → c < 28
    → put_all frames calls stage (f * 28 + c) ≡ mixed (stage (f * 28 + c)) calls f c
unfolding put_all mixed
put_all_lem frames [] stage f c v low inside = refl
put_all_lem frames (k ∷ ks) stage f c (one_staged inner size vs) low inside =
    let after = put_columns frames k.stream k.samples stage in
    let has = covers_lem k.stream c inner inside in
    let first = first_channel_lem k.stream in
    put_all_lem frames ks after f c vs low inside
    ∙ ap (λ b. mixed b ks f c)
        (put_columns_lem frames k.stream k.samples stage f c (columns_fit k.stream inner) low inside
          ∙ rw (has, first) refl)
