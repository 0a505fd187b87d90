-- ===== src/Protocol/Settings/Every.antt =====
-- Tests for every value of a setting, and the test of a whole conjunction.
use userface.Base.{ℕ, ◌≡◌, Bool, true, false, arith, ◌&&◌, ◌==◌, ==_iff, if◌then◌else◌}
use userface.Protocol.Settings.{
  InputLevel, OutputLevel, PhonesLevel, InputSource, unset, front, rear, SyncRef, adat1, adat2,
  spdif, word_clock, tco,
}

unfoldable pub every_bool : (Bool → Bool) → Bool
every_bool p = p true && p false

unfoldable pub every_input : (InputLevel → Bool) → Bool
every_input p = p InputLevel.lo_gain && p InputLevel.p4_dbu && p InputLevel.m10_dbv

unfoldable pub every_output : (OutputLevel → Bool) → Bool
every_output p = p OutputLevel.hi_gain && p OutputLevel.p4_dbu && p OutputLevel.m10_dbv

unfoldable pub every_phones : (PhonesLevel → Bool) → Bool
every_phones p = p PhonesLevel.p4_dbu && p PhonesLevel.m10_dbv && p PhonesLevel.hi_gain

unfoldable pub every_source : (InputSource → Bool) → Bool
every_source p = p unset && p front && p rear

unfoldable pub every_ref : (SyncRef → Bool) → Bool
every_ref p = p adat1 && p adat2 && p spdif && p word_clock && p tco

first : (a b : Bool) → (a && b) ≡ true → a ≡ true
first a b h = ground arith

second : (a b : Bool) → (a && b) ≡ true → b ≡ true
second a b h = ground arith

pub at_bool : (p : Bool → Bool) (b : Bool) → every_bool p ≡ true → p b ≡ true
unfolding every_bool
at_bool p true h = first _ _ h
at_bool p false h = second _ _ h

pub at_input : (p : InputLevel → Bool) (l : InputLevel) → every_input p ≡ true → p l ≡ true
unfolding every_input
at_input p InputLevel.lo_gain h = first _ _ (first _ _ h)
at_input p InputLevel.p4_dbu h = second _ _ (first _ _ h)
at_input p InputLevel.m10_dbv h = second _ _ h

pub at_output : (p : OutputLevel → Bool) (l : OutputLevel) → every_output p ≡ true → p l ≡ true
unfolding every_output
at_output p OutputLevel.hi_gain h = first _ _ (first _ _ h)
at_output p OutputLevel.p4_dbu h = second _ _ (first _ _ h)
at_output p OutputLevel.m10_dbv h = second _ _ h

pub at_phones : (p : PhonesLevel → Bool) (l : PhonesLevel) → every_phones p ≡ true → p l ≡ true
unfolding every_phones
at_phones p PhonesLevel.p4_dbu h = first _ _ (first _ _ h)
at_phones p PhonesLevel.m10_dbv h = second _ _ (first _ _ h)
at_phones p PhonesLevel.hi_gain h = second _ _ h

pub at_source : (p : InputSource → Bool) (l : InputSource) → every_source p ≡ true → p l ≡ true
unfolding every_source
at_source p unset h = first _ _ (first _ _ h)
at_source p front h = second _ _ (first _ _ h)
at_source p rear h = second _ _ h

pub at_ref : (p : SyncRef → Bool) (l : SyncRef) → every_ref p ≡ true → p l ≡ true
unfolding every_ref
at_ref p adat1 h = first _ _ (first _ _ (first _ _ (first _ _ h)))
at_ref p adat2 h = second _ _ (first _ _ (first _ _ (first _ _ h)))
at_ref p spdif h = second _ _ (first _ _ (first _ _ h))
at_ref p word_clock h = second _ _ (first _ _ h)
at_ref p tco h = second _ _ h

unfoldable pub same : ℕ → ℕ → Bool
same a b = a == b

-- The last test of a conjunction, and the tests before it.
pub peel : (r : Bool) (a b : ℕ) → (r && same a b) ≡ true → (r ≡ true) × (a ≡ b)
unfolding same
peel r a b h = (first _ _ h, (==_iff a b).0 (second _ _ h))

pub last_test : (a b : ℕ) → same a b ≡ true → a ≡ b
unfolding same
last_test a b h = (==_iff a b).0 h

abbrev pub on : Bool → ℕ → ℕ
on b mask = if b then mask else 0
