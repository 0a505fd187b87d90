-- ===== src/Protocol/Settings.antt =====
-- include/uf/protocol/settings.hpp and its masks in registers.hpp: the settings shadow, and the
-- three quadlets CR0, CR1 and CR2 that it is assembled into.
mod Every
mod Fields
pub mod ReadBack
use userface.Base.{ℕ, Bool, true, false, bit_or, if◌then◌else◌}

pub data InputLevel : Type 0 where
  lo_gain p4_dbu m10_dbv : InputLevel

pub data OutputLevel : Type 0 where
  hi_gain p4_dbu m10_dbv : OutputLevel

pub data PhonesLevel : Type 0 where
  p4_dbu m10_dbv hi_gain : PhonesLevel

pub data InputSource : Type 0 where
  unset front rear : InputSource

pub data SyncRef : Type 0 where
  adat1 adat2 spdif word_clock tco : SyncRef

pub record SettingsShadow : Type 0 where
  pub phantom7 : Bool
  pub phantom8 : Bool
  pub phantom9 : Bool
  pub phantom10 : Bool
  pub input_level : InputLevel
  pub output_level : OutputLevel
  pub phones_level : PhonesLevel
  pub filter : Bool
  pub drive : Bool
  pub input1 : InputSource
  pub input7 : InputSource
  pub input8 : InputSource
  pub spdif_out_pro : Bool
  pub spdif_out_emphasis : Bool
  pub spdif_out_nonaudio : Bool
  pub spdif_out_optical : Bool
  pub spdif_in_optical : Bool
  pub clock_master : Bool
  pub sync_ref : SyncRef
  pub word_clock_1x : Bool
  pub disable_limiter : Bool

abbrev pub default_settings : SettingsShadow
default_settings = record {
  phantom7 = false;
  phantom8 = false;
  phantom9 = false;
  phantom10 = false;
  input_level = InputLevel.p4_dbu;
  output_level = OutputLevel.p4_dbu;
  phones_level = PhonesLevel.p4_dbu;
  filter = false;
  drive = false;
  input1 = unset;
  input7 = unset;
  input8 = unset;
  spdif_out_pro = false;
  spdif_out_emphasis = false;
  spdif_out_nonaudio = false;
  spdif_out_optical = false;
  spdif_in_optical = false;
  clock_master = true;
  sync_ref = adat1;
  word_clock_1x = false;
  disable_limiter = false;
}

pub record ConfBlock : Type 0 where
  pub cr0 : ℕ
  pub cr1 : ℕ
  pub cr2 : ℕ

-- `if (on) v |= mask;`
abbrev pub or_if : Bool → ℕ → ℕ → ℕ
or_if on mask v = if on then bit_or v mask else v

abbrev pub cr0_input : InputLevel → ℕ
cr0_input InputLevel.lo_gain = 0x08
cr0_input InputLevel.p4_dbu = 0x10
cr0_input InputLevel.m10_dbv = 0x20

abbrev pub cr0_output : OutputLevel → ℕ
cr0_output OutputLevel.hi_gain = 0x0400
cr0_output OutputLevel.p4_dbu = 0x0800
cr0_output OutputLevel.m10_dbv = 0x1000

abbrev pub cr0_phones : PhonesLevel → ℕ
cr0_phones PhonesLevel.p4_dbu = 0
cr0_phones PhonesLevel.m10_dbv = 0x1_0000
cr0_phones PhonesLevel.hi_gain = 0x2_0000

unfoldable pub assemble_cr0 : SettingsShadow → ℕ
assemble_cr0 s =
    let v1 = or_if s.phantom7 0x01 0 in
    let v2 = or_if s.phantom8 0x80 v1 in
    let v3 = or_if s.phantom9 0x02 v2 in
    let v4 = or_if s.phantom10 0x100 v3 in
    let v5 = or_if s.filter 0x04 v4 in
    let v6 = or_if s.drive 0x200 v5 in
    let v7 = bit_or v6 (cr0_input s.input_level) in
    let v8 = bit_or v7 (cr0_output s.output_level) in bit_or v8 (cr0_phones s.phones_level)

abbrev pub cr1_input : InputLevel → ℕ
cr1_input InputLevel.lo_gain = 0
cr1_input InputLevel.p4_dbu = 0x02
cr1_input InputLevel.m10_dbv = 0x03

abbrev pub cr1_output : OutputLevel → ℕ
cr1_output OutputLevel.hi_gain = 0x10
cr1_output OutputLevel.p4_dbu = 0x18
cr1_output OutputLevel.m10_dbv = 0x08

-- The bits of an input's source: those of the front and those of the rear.
abbrev pub source_bits : InputSource → ℕ → ℕ → ℕ
source_bits front a b = a
source_bits rear a b = b
source_bits unset a b = 0

unfoldable pub assemble_cr1 : SettingsShadow → ℕ
assemble_cr1 s =
    let v1 = bit_or 0 (cr1_input s.input_level) in
    let v2 = bit_or v1 (cr1_output s.output_level) in
    let v3 = or_if s.drive 0x200 v2 in
    let v4 = bit_or v3 (source_bits s.input1 (if s.filter then 0x400 else 0x800) 0x04) in
    let v5 = bit_or v4 (source_bits s.input7 0x20 0x40) in
    bit_or v5 (source_bits s.input8 0x80 0x100)

unfoldable pub sync_ref_bits : SyncRef → ℕ
sync_ref_bits adat1 = 0
sync_ref_bits adat2 = 0x0400
sync_ref_bits spdif = 0x0c00
sync_ref_bits word_clock = 0x1000
sync_ref_bits tco = 0x1400

unfoldable pub assemble_cr2 : SettingsShadow → ℕ
unfolding sync_ref_bits
assemble_cr2 s =
    let v1 = or_if s.clock_master 0x01 0x8000_0000 in
    let v2 = or_if s.spdif_out_pro 0x20 v1 in
    let v3 = or_if s.spdif_out_emphasis 0x40 v2 in
    let v4 = or_if s.spdif_out_nonaudio 0x80 v3 in
    let v5 = or_if s.spdif_out_optical 0x100 v4 in
    let v6 = or_if s.spdif_in_optical 0x200 v5 in
    let v7 = bit_or v6 (sync_ref_bits s.sync_ref) in
    let v8 = or_if s.word_clock_1x 0x2000 v7 in or_if s.disable_limiter 0x1_0000 v8

unfoldable pub assemble_conf_block : SettingsShadow → ConfBlock
assemble_conf_block s = record { cr0 = assemble_cr0 s; cr1 = assemble_cr1 s; cr2 = assemble_cr2 s }
