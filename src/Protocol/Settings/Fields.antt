-- ===== src/Protocol/Settings/Fields.antt =====
-- What each mask reads of an assembled quadlet. A quadlet has few settings, so its facts are checked
-- for every combination of them.
use userface.Base.{ℕ, ◌≡◌, refl, Bool, true, bit_and, ◌&&◌, if◌then◌else◌}
use userface.Protocol.Settings.{
  InputLevel, OutputLevel, PhonesLevel, InputSource, SyncRef, SettingsShadow, default_settings,
  cr0_input, cr0_output, cr0_phones, cr1_input, cr1_output, source_bits, sync_ref_bits,
  assemble_cr0, assemble_cr1, assemble_cr2,
}
use userface.Protocol.Settings.Every.{
  every_bool, every_input, every_output, every_phones, every_source, every_ref, at_bool, at_input,
  at_output, at_phones, at_source, at_ref, same, peel, last_test, on,
}

-- The masks of CR0, each with what it reads.
abbrev pub Cr0Fields : SettingsShadow → ℕ → Type 0
Cr0Fields s q =
    (bit_and q 0x01 ≡ on s.phantom7 0x01)
    × (bit_and q 0x80 ≡ on s.phantom8 0x80)
    × (bit_and q 0x02 ≡ on s.phantom9 0x02)
    × (bit_and q 0x100 ≡ on s.phantom10 0x100)
    × (bit_and q 0x04 ≡ on s.filter 0x04)
    × (bit_and q 0x200 ≡ on s.drive 0x200)
    × (bit_and q 0x38 ≡ cr0_input s.input_level)
    × (bit_and q 0x1c00 ≡ cr0_output s.output_level)
    × (bit_and q 0x3_0000 ≡ cr0_phones s.phones_level)
    × (bit_and q 0xfffc_e040 ≡ 0)

cr0_check : SettingsShadow → Bool
cr0_check s =
    let q = assemble_cr0 s in
    same (bit_and q 0x01) (on s.phantom7 0x01)
    && same (bit_and q 0x80) (on s.phantom8 0x80)
    && same (bit_and q 0x02) (on s.phantom9 0x02)
    && same (bit_and q 0x100) (on s.phantom10 0x100)
    && same (bit_and q 0x04) (on s.filter 0x04)
    && same (bit_and q 0x200) (on s.drive 0x200)
    && same (bit_and q 0x38) (cr0_input s.input_level)
    && same (bit_and q 0x1c00) (cr0_output s.output_level)
    && same (bit_and q 0x3_0000) (cr0_phones s.phones_level)
    && same (bit_and q 0xfffc_e040) (0)

abbrev cr0_shadow :
    Bool
    → Bool
    → Bool
    → Bool
    → Bool
    → Bool
    → InputLevel
    → OutputLevel
    → PhonesLevel
    → SettingsShadow
cr0_shadow a b c d e f g h i = record default_settings {
  phantom7 = a;
  phantom8 = b;
  phantom9 = c;
  phantom10 = d;
  filter = e;
  drive = f;
  input_level = g;
  output_level = h;
  phones_level = i;
}

cr0_table :
    (every_bool λ a. every_bool λ b. every_bool λ c. every_bool λ d. every_bool λ e. every_bool λ f.
      every_input λ g. every_output λ h. every_phones λ i. cr0_check (cr0_shadow a b c d e f g h i))
    ≡ true
unfolding same every_bool every_input every_output every_phones cr0_check assemble_cr0
cr0_table = refl

-- Every setting of CR0 stands in the quadlet under its own mask, and no other bit is set.
pub cr0_fields : (s : SettingsShadow) → Cr0Fields s (assemble_cr0 s)
unfolding cr0_check assemble_cr0
cr0_fields s =
    let c1 = at_bool _ s.phantom7 cr0_table in
    let c2 = at_bool _ s.phantom8 c1 in
    let c3 = at_bool _ s.phantom9 c2 in
    let c4 = at_bool _ s.phantom10 c3 in
    let c5 = at_bool _ s.filter c4 in
    let c6 = at_bool _ s.drive c5 in
    let c7 = at_input _ s.input_level c6 in
    let c8 = at_output _ s.output_level c7 in
    let c9 = at_phones _ s.phones_level c8 in
    let d9 = peel _ _ _ (c9) in
    let d8 = peel _ _ _ (d9.0) in
    let d7 = peel _ _ _ (d8.0) in
    let d6 = peel _ _ _ (d7.0) in
    let d5 = peel _ _ _ (d6.0) in
    let d4 = peel _ _ _ (d5.0) in
    let d3 = peel _ _ _ (d4.0) in
    let d2 = peel _ _ _ (d3.0) in
    let d1 = peel _ _ _ (d2.0) in
    (last_test _ _ (d1.0), d1.1, d2.1, d3.1, d4.1, d5.1, d6.1, d7.1, d8.1, d9.1)

-- The masks of CR1, each with what it reads.
abbrev pub Cr1Fields : SettingsShadow → ℕ → Type 0
Cr1Fields s q =
    (bit_and q 0x03 ≡ cr1_input s.input_level)
    × (bit_and q 0x18 ≡ cr1_output s.output_level)
    × (bit_and q 0x200 ≡ on s.drive 0x200)
    × (bit_and q 0xc04 ≡ source_bits s.input1 (if s.filter then 0x400 else 0x800) 0x04)
    × (bit_and q 0x60 ≡ source_bits s.input7 0x20 0x40)
    × (bit_and q 0x180 ≡ source_bits s.input8 0x80 0x100)
    × (bit_and q 0xffff_f000 ≡ 0)

cr1_check : SettingsShadow → Bool
cr1_check s =
    let q = assemble_cr1 s in
    same (bit_and q 0x03) (cr1_input s.input_level)
    && same (bit_and q 0x18) (cr1_output s.output_level)
    && same (bit_and q 0x200) (on s.drive 0x200)
    && same (bit_and q 0xc04) (source_bits s.input1 (if s.filter then 0x400 else 0x800) 0x04)
    && same (bit_and q 0x60) (source_bits s.input7 0x20 0x40)
    && same (bit_and q 0x180) (source_bits s.input8 0x80 0x100)
    && same (bit_and q 0xffff_f000) (0)

abbrev cr1_shadow :
    InputLevel
    → OutputLevel
    → Bool
    → Bool
    → InputSource
    → InputSource
    → InputSource
    → SettingsShadow
cr1_shadow a b c d e f g = record default_settings {
  input_level = a;
  output_level = b;
  drive = c;
  filter = d;
  input1 = e;
  input7 = f;
  input8 = g;
}

cr1_table :
    (every_input λ a. every_output λ b. every_bool λ c. every_bool λ d.
      every_source λ e. every_source λ f. every_source λ g. cr1_check (cr1_shadow a b c d e f g))
    ≡ true
unfolding same every_bool every_input every_output every_source cr1_check assemble_cr1
cr1_table = refl

-- Every setting of CR1 stands in the quadlet under its own mask, and no other bit is set.
pub cr1_fields : (s : SettingsShadow) → Cr1Fields s (assemble_cr1 s)
unfolding cr1_check assemble_cr1
cr1_fields s =
    let c1 = at_input _ s.input_level cr1_table in
    let c2 = at_output _ s.output_level c1 in
    let c3 = at_bool _ s.drive c2 in
    let c4 = at_bool _ s.filter c3 in
    let c5 = at_source _ s.input1 c4 in
    let c6 = at_source _ s.input7 c5 in
    let c7 = at_source _ s.input8 c6 in
    let d6 = peel _ _ _ (c7) in
    let d5 = peel _ _ _ (d6.0) in
    let d4 = peel _ _ _ (d5.0) in
    let d3 = peel _ _ _ (d4.0) in
    let d2 = peel _ _ _ (d3.0) in
    let d1 = peel _ _ _ (d2.0) in (last_test _ _ (d1.0), d1.1, d2.1, d3.1, d4.1, d5.1, d6.1)

-- The masks of CR2, each with what it reads.
abbrev pub Cr2Fields : SettingsShadow → ℕ → Type 0
Cr2Fields s q =
    (bit_and q 0x01 ≡ on s.clock_master 0x01)
    × (bit_and q 0x20 ≡ on s.spdif_out_pro 0x20)
    × (bit_and q 0x40 ≡ on s.spdif_out_emphasis 0x40)
    × (bit_and q 0x80 ≡ on s.spdif_out_nonaudio 0x80)
    × (bit_and q 0x100 ≡ on s.spdif_out_optical 0x100)
    × (bit_and q 0x200 ≡ on s.spdif_in_optical 0x200)
    × (bit_and q 0x1c00 ≡ sync_ref_bits s.sync_ref)
    × (bit_and q 0x2000 ≡ on s.word_clock_1x 0x2000)
    × (bit_and q 0x1_0000 ≡ on s.disable_limiter 0x1_0000)
    × (bit_and q 0xfffe_c01e ≡ 0x8000_0000)

cr2_check : SettingsShadow → Bool
cr2_check s =
    let q = assemble_cr2 s in
    same (bit_and q 0x01) (on s.clock_master 0x01)
    && same (bit_and q 0x20) (on s.spdif_out_pro 0x20)
    && same (bit_and q 0x40) (on s.spdif_out_emphasis 0x40)
    && same (bit_and q 0x80) (on s.spdif_out_nonaudio 0x80)
    && same (bit_and q 0x100) (on s.spdif_out_optical 0x100)
    && same (bit_and q 0x200) (on s.spdif_in_optical 0x200)
    && same (bit_and q 0x1c00) (sync_ref_bits s.sync_ref)
    && same (bit_and q 0x2000) (on s.word_clock_1x 0x2000)
    && same (bit_and q 0x1_0000) (on s.disable_limiter 0x1_0000)
    && same (bit_and q 0xfffe_c01e) (0x8000_0000)

abbrev cr2_shadow : Bool → Bool → Bool → Bool → Bool → Bool → SyncRef → Bool → Bool → SettingsShadow
cr2_shadow a b c d e f g h i = record default_settings {
  clock_master = a;
  spdif_out_pro = b;
  spdif_out_emphasis = c;
  spdif_out_nonaudio = d;
  spdif_out_optical = e;
  spdif_in_optical = f;
  sync_ref = g;
  word_clock_1x = h;
  disable_limiter = i;
}

cr2_table :
    (every_bool λ a. every_bool λ b. every_bool λ c. every_bool λ d. every_bool λ e.
      every_bool λ f.
        every_ref λ g. every_bool λ h. every_bool λ i. cr2_check (cr2_shadow a b c d e f g h i))
    ≡ true
unfolding same every_bool every_ref cr2_check assemble_cr2 sync_ref_bits
cr2_table = refl

-- Every setting of CR2 stands in the quadlet under its own mask, with the top bit always set
-- and no other.
pub cr2_fields : (s : SettingsShadow) → Cr2Fields s (assemble_cr2 s)
unfolding cr2_check assemble_cr2
cr2_fields s =
    let c1 = at_bool _ s.clock_master cr2_table in
    let c2 = at_bool _ s.spdif_out_pro c1 in
    let c3 = at_bool _ s.spdif_out_emphasis c2 in
    let c4 = at_bool _ s.spdif_out_nonaudio c3 in
    let c5 = at_bool _ s.spdif_out_optical c4 in
    let c6 = at_bool _ s.spdif_in_optical c5 in
    let c7 = at_ref _ s.sync_ref c6 in
    let c8 = at_bool _ s.word_clock_1x c7 in
    let c9 = at_bool _ s.disable_limiter c8 in
    let d9 = peel _ _ _ (c9) in
    let d8 = peel _ _ _ (d9.0) in
    let d7 = peel _ _ _ (d8.0) in
    let d6 = peel _ _ _ (d7.0) in
    let d5 = peel _ _ _ (d6.0) in
    let d4 = peel _ _ _ (d5.0) in
    let d3 = peel _ _ _ (d4.0) in
    let d2 = peel _ _ _ (d3.0) in
    let d1 = peel _ _ _ (d2.0) in
    (last_test _ _ (d1.0), d1.1, d2.1, d3.1, d4.1, d5.1, d6.1, d7.1, d8.1, d9.1)
