-- ===== src/Ctl/Tests/Layout.antt =====
-- A layout of the settings, a byte to a field, at which the messages are run.
use userface.Base.{
  ℕ, zero, suc, ◌≡◌, refl, List, [], ◌∷◌, ◌++◌, length, get_or, drop, replicate, Bool, true, false,
}
use userface.Protocol.Settings.{
  SettingsShadow, InputLevel, OutputLevel, PhonesLevel, InputSource, SyncRef,
}
use userface.Ctl.Proto.{SettingsLayout}

abbrev bool_byte : Bool → ℕ
bool_byte false = 0
bool_byte true = 1

abbrev byte_bool : ℕ → Bool
byte_bool zero = false
byte_bool (suc n) = true

bool_back : (x : Bool) → byte_bool (bool_byte x) ≡ x
bool_back false = refl
bool_back true = refl

abbrev input_level_byte : InputLevel → ℕ
input_level_byte InputLevel.lo_gain = 0
input_level_byte InputLevel.p4_dbu = 1
input_level_byte InputLevel.m10_dbv = 2

abbrev byte_input_level : ℕ → InputLevel
byte_input_level zero = InputLevel.lo_gain
byte_input_level (suc zero) = InputLevel.p4_dbu
byte_input_level (suc (suc n)) = InputLevel.m10_dbv

input_level_back : (x : InputLevel) → byte_input_level (input_level_byte x) ≡ x
input_level_back InputLevel.lo_gain = refl
input_level_back InputLevel.p4_dbu = refl
input_level_back InputLevel.m10_dbv = refl

abbrev output_level_byte : OutputLevel → ℕ
output_level_byte OutputLevel.hi_gain = 0
output_level_byte OutputLevel.p4_dbu = 1
output_level_byte OutputLevel.m10_dbv = 2

abbrev byte_output_level : ℕ → OutputLevel
byte_output_level zero = OutputLevel.hi_gain
byte_output_level (suc zero) = OutputLevel.p4_dbu
byte_output_level (suc (suc n)) = OutputLevel.m10_dbv

output_level_back : (x : OutputLevel) → byte_output_level (output_level_byte x) ≡ x
output_level_back OutputLevel.hi_gain = refl
output_level_back OutputLevel.p4_dbu = refl
output_level_back OutputLevel.m10_dbv = refl

abbrev phones_level_byte : PhonesLevel → ℕ
phones_level_byte PhonesLevel.p4_dbu = 0
phones_level_byte PhonesLevel.m10_dbv = 1
phones_level_byte PhonesLevel.hi_gain = 2

abbrev byte_phones_level : ℕ → PhonesLevel
byte_phones_level zero = PhonesLevel.p4_dbu
byte_phones_level (suc zero) = PhonesLevel.m10_dbv
byte_phones_level (suc (suc n)) = PhonesLevel.hi_gain

phones_level_back : (x : PhonesLevel) → byte_phones_level (phones_level_byte x) ≡ x
phones_level_back PhonesLevel.p4_dbu = refl
phones_level_back PhonesLevel.m10_dbv = refl
phones_level_back PhonesLevel.hi_gain = refl

abbrev source_byte : InputSource → ℕ
source_byte InputSource.unset = 0
source_byte InputSource.front = 1
source_byte InputSource.rear = 2

abbrev byte_source : ℕ → InputSource
byte_source zero = InputSource.unset
byte_source (suc zero) = InputSource.front
byte_source (suc (suc n)) = InputSource.rear

source_back : (x : InputSource) → byte_source (source_byte x) ≡ x
source_back InputSource.unset = refl
source_back InputSource.front = refl
source_back InputSource.rear = refl

abbrev sync_ref_byte : SyncRef → ℕ
sync_ref_byte SyncRef.adat1 = 0
sync_ref_byte SyncRef.adat2 = 1
sync_ref_byte SyncRef.spdif = 2
sync_ref_byte SyncRef.word_clock = 3
sync_ref_byte SyncRef.tco = 4

abbrev byte_sync_ref : ℕ → SyncRef
byte_sync_ref zero = SyncRef.adat1
byte_sync_ref (suc zero) = SyncRef.adat2
byte_sync_ref (suc (suc zero)) = SyncRef.spdif
byte_sync_ref (suc (suc (suc zero))) = SyncRef.word_clock
byte_sync_ref (suc (suc (suc (suc n)))) = SyncRef.tco

sync_ref_back : (x : SyncRef) → byte_sync_ref (sync_ref_byte x) ≡ x
sync_ref_back SyncRef.adat1 = refl
sync_ref_back SyncRef.adat2 = refl
sync_ref_back SyncRef.spdif = refl
sync_ref_back SyncRef.word_clock = refl
sync_ref_back SyncRef.tco = refl

abbrev pub byte_layout_bytes : SettingsShadow → List ℕ
byte_layout_bytes s =
    bool_byte s.phantom7
    ∷ bool_byte s.phantom8
    ∷ bool_byte s.phantom9
    ∷ bool_byte s.phantom10
    ∷ input_level_byte s.input_level
    ∷ output_level_byte s.output_level
    ∷ phones_level_byte s.phones_level
    ∷ bool_byte s.filter
    ∷ bool_byte s.drive
    ∷ source_byte s.input1
    ∷ source_byte s.input7
    ∷ source_byte s.input8
    ∷ bool_byte s.spdif_out_pro
    ∷ bool_byte s.spdif_out_emphasis
    ∷ bool_byte s.spdif_out_nonaudio
    ∷ bool_byte s.spdif_out_optical
    ∷ bool_byte s.spdif_in_optical
    ∷ bool_byte s.clock_master
    ∷ sync_ref_byte s.sync_ref
    ∷ bool_byte s.word_clock_1x
    ∷ bool_byte s.disable_limiter
    ∷ replicate 27 0

abbrev pub settings_in : List ℕ → SettingsShadow
settings_in xs = record {
  phantom7 = byte_bool (get_or xs 0 0);
  phantom8 = byte_bool (get_or xs 1 0);
  phantom9 = byte_bool (get_or xs 2 0);
  phantom10 = byte_bool (get_or xs 3 0);
  input_level = byte_input_level (get_or xs 4 0);
  output_level = byte_output_level (get_or xs 5 0);
  phones_level = byte_phones_level (get_or xs 6 0);
  filter = byte_bool (get_or xs 7 0);
  drive = byte_bool (get_or xs 8 0);
  input1 = byte_source (get_or xs 9 0);
  input7 = byte_source (get_or xs 10 0);
  input8 = byte_source (get_or xs 11 0);
  spdif_out_pro = byte_bool (get_or xs 12 0);
  spdif_out_emphasis = byte_bool (get_or xs 13 0);
  spdif_out_nonaudio = byte_bool (get_or xs 14 0);
  spdif_out_optical = byte_bool (get_or xs 15 0);
  spdif_in_optical = byte_bool (get_or xs 16 0);
  clock_master = byte_bool (get_or xs 17 0);
  sync_ref = byte_sync_ref (get_or xs 18 0);
  word_clock_1x = byte_bool (get_or xs 19 0);
  disable_limiter = byte_bool (get_or xs 20 0);
}

pub settings_back : (s : SettingsShadow) → settings_in (byte_layout_bytes s) ≡ s
settings_back s = λ i. record {
  phantom7 = bool_back s.phantom7 i;
  phantom8 = bool_back s.phantom8 i;
  phantom9 = bool_back s.phantom9 i;
  phantom10 = bool_back s.phantom10 i;
  input_level = input_level_back s.input_level i;
  output_level = output_level_back s.output_level i;
  phones_level = phones_level_back s.phones_level i;
  filter = bool_back s.filter i;
  drive = bool_back s.drive i;
  input1 = source_back s.input1 i;
  input7 = source_back s.input7 i;
  input8 = source_back s.input8 i;
  spdif_out_pro = bool_back s.spdif_out_pro i;
  spdif_out_emphasis = bool_back s.spdif_out_emphasis i;
  spdif_out_nonaudio = bool_back s.spdif_out_nonaudio i;
  spdif_out_optical = bool_back s.spdif_out_optical i;
  spdif_in_optical = bool_back s.spdif_in_optical i;
  clock_master = bool_back s.clock_master i;
  sync_ref = sync_ref_back s.sync_ref i;
  word_clock_1x = bool_back s.word_clock_1x i;
  disable_limiter = bool_back s.disable_limiter i;
}

pub drop-append : (xs ys : List ℕ) → drop (length xs) (xs ++ ys) ≡ ys
drop-append [] ys = refl
drop-append (x ∷ xs) ys = drop-append xs ys

abbrev pub byte_layout : SettingsLayout
byte_layout = record {
  bytes = byte_layout_bytes;
  read_at = λ buf at. settings_in (drop at buf);
  length-bytes = λ s. refl;
  read_at-bytes = λ before s. rw (drop-append before (byte_layout_bytes s)) (settings_back s);
}
