-- ===== src/CoreAudio/Io/Columns.antt =====
-- What a stream's columns, copied out of the stage, leave in its buffer.
use userface.Base.{
  ℕ, zero, suc, ◌+◌, ◌-◌, ◌*◌, ◌≤◌, ◌<◌, ◌≡◌, refl, ap, ◌∙◌, false, ◌&&◌, ltb, leb, if◌then◌else◌,
  arith, ℕ_discrete,
}
use native.Mathlib.Nat.{mul-le-mul, add-mul}
use userface.CoreAudio.Io.{Stream, columns, first_channel, is_outside, get_columns}
use userface.CoreAudio.Io.Calls.{copy_lem, first_channel_lem}

columns_lem : (s : Stream) → columns s ≤ s.channels
unfolding columns
columns_lem s = ground arith

get_columns_beyond :
    (f : ℕ) (s : Stream) (stage : ℕ → ℕ) (j : ℕ)
    → f * s.channels ≤ j
    → get_columns f s stage (λ _. 0) j ≡ 0
unfolding get_columns
get_columns_beyond zero s stage j past = refl
get_columns_beyond (suc f) s stage j past =
    let at = f * s.channels in
    let step : suc f * s.channels ≡ at + s.channels = omega (arith, add-mul f 1 s.channels) in
    let fit = columns_lem s in
    let off : (leb at j && ltb j (at + columns s)) ≡ false = ground arith in
    copy_lem at (columns s) stage (f * 28 + first_channel s) (get_columns f s stage (λ _. 0)) j
    ∙ rw off (get_columns_beyond f s stage j (omega arith))

get_columns_staged :
    (f : ℕ) (s : Stream) (stage : ℕ → ℕ) (g c : ℕ)
    → g < f
    → c < s.channels
    → get_columns f s stage (λ _. 0) (g * s.channels + c)
      ≡ (if ltb c (columns s) then stage (g * 28 + first_channel s + c) else 0)
unfolding get_columns
get_columns_staged zero s stage g c low inside = absurd (omega arith)
get_columns_staged (suc f) s stage g c low inside =
    let j = g * s.channels + c in
    let at = f * s.channels in
    let one =
      copy_lem at (columns s) stage (f * 28 + first_channel s) (get_columns f s stage (λ _. 0)) j in
    let step : suc g * s.channels ≡ g * s.channels + s.channels =
      omega (arith, add-mul g 1 s.channels) in
    elim (ℕ_discrete g f) [
      | yes e ↦
          let row : g * s.channels ≡ at = ap (λ k. k * s.channels) e in
          let here : (leb at j && ltb j (at + columns s)) ≡ ltb c (columns s) = ground arith in
          let index : f * 28 + first_channel s + (j - at) ≡ g * 28 + first_channel s + c =
            omega arith in
          one ∙ rw (here, index, get_columns_beyond f s stage j (omega arith)) refl
      | no ne ↦
          let rows : suc g * s.channels ≤ at = mul-le-mul (omega arith) (omega arith) in
          let off : (leb at j && ltb j (at + columns s)) ≡ false = ground arith in
          one ∙ rw off (get_columns_staged f s stage g c (omega arith) inside)
    ]

-- Sample `c` of frame `g` of the buffer is the stage's, of the stream's channel `c`, while that is in the
-- ring's frame, and silent beyond it.
pub get_columns_lem :
    (f : ℕ) (s : Stream) (stage : ℕ → ℕ) (g c : ℕ)
    → is_outside s ≡ false
    → g < f
    → c < s.channels
    → get_columns f s stage (λ _. 0) (g * s.channels + c) ≡ (
        if ltb (s.starting_channel - 1 + c) 28
        then stage (g * 28 + (s.starting_channel - 1 + c))
        else 0)
unfolding is_outside columns
get_columns_lem f s stage g c inner low inside =
    let first = first_channel_lem s in
    let has : ltb c (columns s) ≡ ltb (s.starting_channel - 1 + c) 28 = ground arith in
    let index : g * 28 + first_channel s + c ≡ g * 28 + (s.starting_channel - 1 + c) =
      omega (arith, first) in
    get_columns_staged f s stage g c low inside ∙ rw (has, index) refl
