-- ===== src/Ohci/Tests.antt =====
-- Runs of the bus code on concrete packets, streams and ROMs.
use userface.Base.{ℕ, ◌≡◌, refl, arith, List, [], ◌∷◌, Bool, true, false, some, none, Option}
use userface.Ohci.Async.{set_request_common, build_at_header}
use userface.Ohci.Async.Fields.{build_at_header-request}
use userface.Ohci.SelfId.{SelfId, parse_self_ids}
use userface.Ohci.SelfId.Stream.{Rest, Sent, zero_of, stray, quadlets, parse_self_ids-quadlets}
use userface.Ohci.ConfigRom.{
  RomIdentity, parse_config_rom, rom_is_ff800, parse_root, root_loop, root_entry, parse_unit,
  unit_loop, unit_entry, is_ff800, is_rme_vendor, model_from_unit_version, entry_key_id,
  entry_key_type, entry_value,
}
use userface.Ohci.ConfigRom.Bounds.{parse_config_rom-some}

-- A block write of 12 bytes to the configuration block of node 0xffc1, with label 5, at S400.
build_at_header-request_example :
    let h = record (set_request_common 0xffc1 5 1 0xfc88f014) { q3 = 0xc0000 } in
    let at = build_at_header (record { header = h; count = 4; payload = [] }) 2 in
    (at.quads ≡ record { q0 = 136464; q1 = 4290838528; q2 = 0xfc88f014; q3 = 0xc0000 })
    × (at.quad_count ≡ 4)
build_at_header-request_example =
    build_at_header-request 0xffc1 5 1 0xfc88f014 0xc0000 4 2 [] (omega arith) (omega arith)
      (omega arith) (omega arith)

abbrev first_node : SelfId
first_node = record {
  phy_id = 3;
  link_active = true;
  gap_count = 63;
  scode = 2;
  contender = true;
  initiated_reset = true;
}

-- Its first port is connected to a child.
abbrev first_rest : Rest
first_rest = record { delay = 0; power = 4; ports = 48; more = true }

-- A node and the continuation of its packet.
abbrev stream : List Sent
stream = zero_of first_node first_rest ∷ stray 0x8380_0000 ∷ []

parse_self_ids-quadlets_example : parse_self_ids (quadlets stream) ≡ first_node ∷ []
parse_self_ids-quadlets_example = parse_self_ids-quadlets stream (
  record {
    phy_id = omega arith;
    gap_count = omega arith;
    scode = omega arith;
    delay = omega arith;
    power = omega arith;
    ports = omega arith;
  },
  (refl, tt),
)

-- A ROM whose root directory claims more entries than there are.
abbrev cut_rom : List ℕ
cut_rom = 0x0100_0000 ∷ 0x3133_3934 ∷ 0x00ff_0000 ∷ 0x0300_0a35 ∷ []

parse_config_rom-some_example : (s : RomIdentity) × (parse_config_rom cut_rom ≡ some s)
parse_config_rom-some_example = parse_config_rom-some cut_rom

-- The ROM of a Fireface 800, told by its identity.
abbrev ff800_rom : List ℕ
ff800_rom =
    0x0100_0000 ∷ 0x3133_3934 ∷ 0x0002_0000 ∷ 0x0300_0a35 ∷ 0xd100_0001 ∷ 0x0003_0000 ∷ 0x1200_0a35
    ∷ 0x1300_0001 ∷ 0x1710_1800 ∷ []

abbrev identity : Option RomIdentity → Bool
identity none = false
identity (some id) = rom_is_ff800 id

ff800_is_found : identity (parse_config_rom ff800_rom) ≡ true
unfolding parse_config_rom parse_root root_loop root_entry parse_unit unit_loop unit_entry
    rom_is_ff800 is_ff800 is_rme_vendor model_from_unit_version entry_key_id entry_key_type
    entry_value
ff800_is_found = refl
