-- ===== src/Protocol/Settings/ReadBack.antt =====
-- The settings read back from the configuration block, mask by mask.
use userface.Base.{
  ℕ, suc, ◌≡◌, refl, ◌∙◌, ap, Bool, true, false, not, arith, bit_and, ◌==◌, if◌then◌else◌,
}
use userface.Protocol.Settings.{
  InputLevel, OutputLevel, PhonesLevel, InputSource, unset, front, rear, SyncRef, adat1, adat2,
  spdif, word_clock, tco, SettingsShadow, ConfBlock, cr0_input, cr0_output, cr0_phones, source_bits,
  sync_ref_bits, assemble_conf_block,
}
use userface.Protocol.Settings.Every.{on}
use userface.Protocol.Settings.Fields.{cr0_fields, cr1_fields, cr2_fields}

-- Whether a quadlet has a bit of the mask.
has : ℕ → ℕ → Bool
has q mask = not (bit_and q mask == 0)

input_of : ℕ → InputLevel
input_of n =
    if n == 0x08
    then InputLevel.lo_gain
    else if n == 0x10
    then InputLevel.p4_dbu
    else InputLevel.m10_dbv

output_of : ℕ → OutputLevel
output_of n =
    if n == 0x400
    then OutputLevel.hi_gain
    else if n == 0x800
    then OutputLevel.p4_dbu
    else OutputLevel.m10_dbv

phones_of : ℕ → PhonesLevel
phones_of n =
    if n == 0
    then PhonesLevel.p4_dbu
    else if n == 0x1_0000
    then PhonesLevel.m10_dbv
    else PhonesLevel.hi_gain

-- The source whose rear bits are `b`.
source_of : ℕ → ℕ → InputSource
source_of b n = if n == 0 then unset else if n == b then rear else front

ref_of : ℕ → SyncRef
ref_of n =
    if n == 0
    then adat1
    else if n == 0x400
    then adat2
    else if n == 0xc00
    then spdif
    else if n == 0x1000
    then word_clock
    else tco

pub settings_of : ConfBlock → SettingsShadow
settings_of c = record {
  phantom7 = has c.cr0 0x01;
  phantom8 = has c.cr0 0x80;
  phantom9 = has c.cr0 0x02;
  phantom10 = has c.cr0 0x100;
  filter = has c.cr0 0x04;
  drive = has c.cr0 0x200;
  spdif_out_pro = has c.cr2 0x20;
  spdif_out_emphasis = has c.cr2 0x40;
  spdif_out_nonaudio = has c.cr2 0x80;
  spdif_out_optical = has c.cr2 0x100;
  spdif_in_optical = has c.cr2 0x200;
  clock_master = has c.cr2 0x01;
  word_clock_1x = has c.cr2 0x2000;
  disable_limiter = has c.cr2 0x1_0000;
  input_level = input_of (bit_and c.cr0 0x38);
  output_level = output_of (bit_and c.cr0 0x1c00);
  phones_level = phones_of (bit_and c.cr0 0x3_0000);
  input1 = source_of 0x04 (bit_and c.cr1 0xc04);
  input7 = source_of 0x40 (bit_and c.cr1 0x60);
  input8 = source_of 0x100 (bit_and c.cr1 0x180);
  sync_ref = ref_of (bit_and c.cr2 0x1c00);
}

suc_test : (n : ℕ) → not (suc n == 0) ≡ true
suc_test n = ground arith

has-on : (q m : ℕ) (b : Bool) → bit_and q (suc m) ≡ on b (suc m) → has q (suc m) ≡ b
unfolding has
has-on q m true h = ap (λ x. not (x == 0)) h ∙ suc_test m
has-on q m false h = ap (λ x. not (x == 0)) h

input_of-cr0_input : (l : InputLevel) → input_of (cr0_input l) ≡ l
unfolding input_of
input_of-cr0_input InputLevel.lo_gain = refl
input_of-cr0_input InputLevel.p4_dbu = refl
input_of-cr0_input InputLevel.m10_dbv = refl

output_of-cr0_output : (l : OutputLevel) → output_of (cr0_output l) ≡ l
unfolding output_of
output_of-cr0_output OutputLevel.hi_gain = refl
output_of-cr0_output OutputLevel.p4_dbu = refl
output_of-cr0_output OutputLevel.m10_dbv = refl

phones_of-cr0_phones : (l : PhonesLevel) → phones_of (cr0_phones l) ≡ l
unfolding phones_of
phones_of-cr0_phones PhonesLevel.p4_dbu = refl
phones_of-cr0_phones PhonesLevel.m10_dbv = refl
phones_of-cr0_phones PhonesLevel.hi_gain = refl

ref_of-sync_ref_bits : (r : SyncRef) → ref_of (sync_ref_bits r) ≡ r
unfolding ref_of sync_ref_bits
ref_of-sync_ref_bits adat1 = refl
ref_of-sync_ref_bits adat2 = refl
ref_of-sync_ref_bits spdif = refl
ref_of-sync_ref_bits word_clock = refl
ref_of-sync_ref_bits tco = refl

input1_lem :
    (x : InputSource) (b : Bool)
    → source_of 0x04 (source_bits x (if b then 0x400 else 0x800) 0x04) ≡ x
unfolding source_of
input1_lem unset b = refl
input1_lem rear b = refl
input1_lem front true = refl
input1_lem front false = refl

input7_lem : (x : InputSource) → source_of 0x40 (source_bits x 0x20 0x40) ≡ x
unfolding source_of
input7_lem unset = refl
input7_lem rear = refl
input7_lem front = refl

input8_lem : (x : InputSource) → source_of 0x100 (source_bits x 0x80 0x100) ≡ x
unfolding source_of
input8_lem unset = refl
input8_lem rear = refl
input8_lem front = refl

-- The settings shadow can be read back, whole, from the configuration block it is assembled into, by
-- reading each setting under its own mask: the bits of the settings do not run into each other.
pub settings_of-assemble_conf_block : (s : SettingsShadow) → settings_of (assemble_conf_block s) ≡ s
unfolding settings_of assemble_conf_block
settings_of-assemble_conf_block s =
    let f0 = cr0_fields s in
    let f1 = cr1_fields s in
    let f2 = cr2_fields s in
    let e0 = has-on _ _ s.phantom7 f0.0 in
    let e1 = has-on _ _ s.phantom8 f0.1 in
    let e2 = has-on _ _ s.phantom9 f0.2 in
    let e3 = has-on _ _ s.phantom10 f0.3 in
    let e4 = has-on _ _ s.filter f0.4 in
    let e5 = has-on _ _ s.drive f0.5 in
    let e6 = has-on _ _ s.spdif_out_pro f2.1 in
    let e7 = has-on _ _ s.spdif_out_emphasis f2.2 in
    let e8 = has-on _ _ s.spdif_out_nonaudio f2.3 in
    let e9 = has-on _ _ s.spdif_out_optical f2.4 in
    let e10 = has-on _ _ s.spdif_in_optical f2.5 in
    let e11 = has-on _ _ s.clock_master f2.0 in
    let e12 = has-on _ _ s.word_clock_1x f2.7 in
    let e13 = has-on _ _ s.disable_limiter f2.8 in
    let e14 = ap input_of f0.6 ∙ input_of-cr0_input s.input_level in
    let e15 = ap output_of f0.7 ∙ output_of-cr0_output s.output_level in
    let e16 = ap phones_of f0.8 ∙ phones_of-cr0_phones s.phones_level in
    let e17 = ap (source_of 0x04) f1.3 ∙ input1_lem s.input1 s.filter in
    let e18 = ap (source_of 0x40) f1.4 ∙ input7_lem s.input7 in
    let e19 = ap (source_of 0x100) f1.5 ∙ input8_lem s.input8 in
    let e20 = ap ref_of f2.6 ∙ ref_of-sync_ref_bits s.sync_ref in
    rw (
      e0, e1, e2, e3, e4, e5, e6, e7, e8, e9, e10, e11, e12, e13, e14, e15, e16, e17, e18, e19, e20,
    )
