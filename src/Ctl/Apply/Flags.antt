-- ===== src/Ctl/Apply/Flags.antt =====
-- The flags of a crosspoint or an output after a command.
use userface.Base.{ℕ, ◌-◌, ◌^◌, ◌<◌, ◌≡◌, arith, bit_and, bit_or, ◌==◌, if◌then◌else◌}
use userface.Base.Digits.{
  digit, digit_bound, digit-bit_and, digit-bit_or, digit-complement, digit-u8,
}
use userface.Ctl.Apply.{update_flags}

-- A command sets the flags under its mask, of the eight that are kept, to those of its value, and leaves
-- the others as they were.
pub update_flags_lem :
    (k f mask flags : ℕ)
    → k < 8
    → mask < 2 ^ 16
    → (update_flags f mask flags < 256)
      × (digit k (update_flags f mask flags)
          ≡ (if digit k mask == 1 then digit k flags else digit k f))
unfolding update_flags
update_flags_lem k f mask flags hk hm = (
  omega arith,
  rw
      (
        digit-u8 k (bit_or (bit_and f (2 ^ 32 - 1 - mask)) (bit_and flags mask)) hk,
        digit-bit_or k (bit_and f (2 ^ 32 - 1 - mask)) (bit_and flags mask),
        digit-bit_and k f (2 ^ 32 - 1 - mask),
        digit-bit_and k flags mask,
        digit-complement k 32 mask (omega arith) (omega arith),
      )
      (ground (arith, digit_bound k mask, digit_bound k f, digit_bound k flags)),
)
