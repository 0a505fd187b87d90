-- ===== src/Shared/TxFill/Decay.antt =====
-- The decay of a held sample.
use userface.Base.{
  ℕ, zero, suc, ◌-◌, ◌^◌, ◌≤◌, ◌<◌, ◌≡◌, ◌⊎◌, inl, inr, refl, arith, ltb, if◌then◌else◌,
}
use userface.Shared.TxFill.{shift_8, decay}

unfoldable pub decay_times : ℕ → ℕ → ℕ
decay_times zero x = x
decay_times (suc n) x = decay_times n (decay x)

-- How far an i32 is from zero.
abbrev pub distance : ℕ → ℕ
distance x = if ltb x (2 ^ 31) then x else 2 ^ 32 - x

decay_step :
    (x : ℕ)
    → x < 2 ^ 32
    → (decay x < 2 ^ 32) × ((x < 256) ⊎ (distance (decay x) < distance x)) × ((x < 256) ⊎ (256 ≤ x))
unfolding decay shift_8
decay_step x h = (omega arith, ground arith, ground arith)

decay_stays : (x : ℕ) → x < 256 → decay x ≡ x
unfolding decay shift_8
decay_stays x h = ground arith

decay_times_small : (n x : ℕ) → x < 256 → decay_times n x ≡ x
unfolding decay_times
decay_times_small zero x h = refl
decay_times_small (suc n) x h = rw (decay_stays x h) (decay_times_small n x h)

-- A held sample fades out: after as many steps as its distance from zero, or more, what is left is
-- not negative and below 256, so that the encoder's shift by 8 makes it zero.
pub decay_times-silent : (n x : ℕ) → x < 2 ^ 32 → distance x ≤ n → decay_times n x < 256
unfolding decay_times
decay_times-silent zero x hx h = ground arith
decay_times-silent (suc n) x hx h =
    let st = decay_step x hx in
    elim st.2 [
      | inl small ↦ rw (decay_stays x small, decay_times_small n x small) small
      | inr big ↦ decay_times-silent n (decay x) st.0 (ground arith)
    ]
