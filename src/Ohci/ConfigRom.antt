-- ===== src/Ohci/ConfigRom.antt =====
-- include/uf/ohci/configrom.hpp and include/uf/protocol/identity.hpp: the configuration ROM of a node,
-- and whether the node is a Fireface 800. A read past the end of the ROM is `none`.
pub mod Bounds
use userface.Base.{
  ℕ, zero, suc, ◌+◌, ◌*◌, ◌/◌, ◌%◌, ◌^◌, Bool, true, false, not, ◌&&◌, List, [], ◌∷◌, length,
  get_elem?, Option, none, some, bit_and, ◌>>◌, ltb, ◌==◌, if◌then◌else◌,
}

abbrev pub oui_rme : ℕ
oui_rme = 0xa35

abbrev pub model_id_fireface : ℕ
model_id_fireface = 0x10_1800

pub data UfModel : Type 0 where
  unknown ff800 ff400 ufx ucx ff802 : UfModel

unfoldable pub is_rme_vendor : ℕ → Bool
is_rme_vendor vendor_id = vendor_id == oui_rme

unfoldable pub model_from_unit_version : ℕ → UfModel
model_from_unit_version version =
    if version == 1
    then ff800
    else if version == 2
    then ff400
    else if version == 3
    then ufx
    else if version == 4
    then ucx
    else if version == 5
    then ff802
    else unknown

abbrev pub is_model_ff800 : UfModel → Bool
is_model_ff800 ff800 = true
is_model_ff800 unknown = false
is_model_ff800 ff400 = false
is_model_ff800 ufx = false
is_model_ff800 ucx = false
is_model_ff800 ff802 = false

unfoldable pub is_ff800 : ℕ → ℕ → ℕ → ℕ → Bool
is_ff800 vendor_id specifier_id model_id version =
    is_rme_vendor vendor_id
    && (specifier_id == oui_rme)
    && (model_id == model_id_fireface)
    && is_model_ff800 (model_from_unit_version version)

abbrev pub key_vendor : ℕ
key_vendor = 0x03

abbrev pub key_unit_dir : ℕ
key_unit_dir = 0x11

abbrev pub key_specifier_id : ℕ
key_specifier_id = 0x12

abbrev pub key_version : ℕ
key_version = 0x13

abbrev pub key_model : ℕ
key_model = 0x17

abbrev pub type_immediate : ℕ
type_immediate = 0

abbrev pub type_directory : ℕ
type_directory = 3

pub record RomIdentity : Type 0 where
  pub vendor_id : ℕ
  pub specifier_id : ℕ
  pub model_id : ℕ
  pub version : ℕ
  pub has_unit : Bool

abbrev pub no_identity : RomIdentity
no_identity = record {
  vendor_id = 0;
  specifier_id = 0;
  model_id = 0;
  version = 0;
  has_unit = false;
}

unfoldable pub entry_key_id : ℕ → ℕ
entry_key_id e = bit_and (e >> 24) 0x3f

unfoldable pub entry_key_type : ℕ → ℕ
entry_key_type e = bit_and (e >> 30) 0x3

unfoldable pub entry_value : ℕ → ℕ
entry_value e = bit_and e 0xff_ffff

-- What the root directory has told so far: the identity and where the unit directory is, 0 for nowhere.
pub record Root : Type 0 where
  pub identity : RomIdentity
  pub unit_dir : ℕ

-- The body of the loop over the root directory, for entry `e` at index `at`.
unfoldable pub root_entry : ℕ → ℕ → Root → Root
root_entry at e r =
    if (entry_key_id e == key_vendor) && (entry_key_type e == type_immediate)
    then record r { identity = record r.identity { vendor_id = entry_value e } }
    else if (entry_key_id e == key_unit_dir) && (entry_key_type e == type_directory)
    then record r { unit_dir = at + entry_value e }
    else r

unfoldable pub unit_entry : ℕ → RomIdentity → RomIdentity
unit_entry e id =
    if entry_key_id e == key_specifier_id
    then record id { specifier_id = entry_value e }
    else if entry_key_id e == key_version
    then record id { version = entry_value e }
    else if entry_key_id e == key_model
    then record id { model_id = entry_value e }
    else id

module _ (q : List ℕ) where
  -- The loop over the root directory from index `at` on, with `n` entries left by its header.
  unfoldable pub root_loop : ℕ → ℕ → Root → Option Root
  root_loop zero at r = some r
  root_loop (suc n) at r =
      if ltb at (length q)
      then elim (get_elem? q at) [ none ↦ none | some e ↦ root_loop n (at + 1) (root_entry at e r) ]
      else some r

  unfoldable pub unit_loop : ℕ → ℕ → RomIdentity → Option RomIdentity
  unit_loop zero at id = some id
  unit_loop (suc n) at id =
      if ltb at (length q)
      then elim (get_elem? q at) [ none ↦ none | some e ↦ unit_loop n (at + 1) (unit_entry e id) ]
      else some id

  -- The end of `parse_config_rom`: the unit directory, if there is one.
  unfoldable pub parse_unit : Root → Option RomIdentity
  parse_unit r =
      if not (r.unit_dir == 0) && ltb r.unit_dir (length q)
      then elim (get_elem? q r.unit_dir) [
        | none ↦ none
        | some h ↦ elim (unit_loop (bit_and (h >> 16) 0xffff) (r.unit_dir + 1) r.identity) [
          | none ↦ none
          | some id ↦ some (record id { has_unit = true })
        ]
      ]
      else some r.identity

  unfoldable pub parse_root : ℕ → Option RomIdentity
  parse_root root =
      if ltb root (length q)
      then elim (get_elem? q root) [
        | none ↦ none
        | some h ↦
            elim (root_loop (bit_and (h >> 16) 0xffff) (root + 1)
              (record { identity = no_identity; unit_dir = 0 })) [
                | none ↦ none
                | some r ↦ parse_unit r
              ]
      ]
      else some no_identity

  unfoldable pub parse_config_rom : Option RomIdentity
  parse_config_rom =
      if length q == 0
      then some no_identity
      else elim (get_elem? q 0) [ none ↦ none | some h ↦ parse_root (1 + bit_and (h >> 24) 0xff) ]

unfoldable pub rom_is_ff800 : RomIdentity → Bool
rom_is_ff800 id = is_ff800 id.vendor_id id.specifier_id id.model_id id.version
