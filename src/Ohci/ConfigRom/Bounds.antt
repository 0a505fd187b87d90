-- ===== src/Ohci/ConfigRom/Bounds.antt =====
-- The ROM is read within its bounds.
use userface.Base.{
  ℕ, zero, suc, ◌+◌, ◌<◌, ◌≡◌, refl, arith, true, false, not, ◌&&◌, List, [], ◌∷◌, length,
  get_elem?, some, bit_and, ◌>>◌, ltb, ◌==◌, dec_lt, Bool-cases, inl, inr,
}
use userface.Ohci.ConfigRom.{
  RomIdentity, no_identity, Root, root_entry, unit_entry, root_loop, unit_loop, parse_unit,
  parse_root, parse_config_rom,
}

get_elem?-within : (q : List ℕ) (i : ℕ) → i < length q → (e : ℕ) × (get_elem? q i ≡ some e)
get_elem?-within [] i h = absurd (omega arith)
get_elem?-within (x ∷ xs) zero h = (x, refl)
get_elem?-within (x ∷ xs) (suc i) h = get_elem?-within xs i (omega arith)

module _ (q : List ℕ) where
  root_loop-some : (n at : ℕ) (r : Root) → (s : Root) × (root_loop q n at r ≡ some s)
  unfolding root_loop
  root_loop-some zero at r = (r, refl)
  root_loop-some (suc n) at r = elim (dec_lt at (length q)) [
    | yes h ↦
        let inside : ltb at (length q) ≡ true = ground arith in
        let e = get_elem?-within q at h in
        rw (inside, e.1) (root_loop-some n (at + 1) (root_entry at e.0 r))
    | no h ↦ let outside : ltb at (length q) ≡ false = ground arith in rw outside (r, refl)
  ]

  unit_loop-some :
      (n at : ℕ) (id : RomIdentity) → (s : RomIdentity) × (unit_loop q n at id ≡ some s)
  unfolding unit_loop
  unit_loop-some zero at id = (id, refl)
  unit_loop-some (suc n) at id = elim (dec_lt at (length q)) [
    | yes h ↦
        let inside : ltb at (length q) ≡ true = ground arith in
        let e = get_elem?-within q at h in
        rw (inside, e.1) (unit_loop-some n (at + 1) (unit_entry e.0 id))
    | no h ↦ let outside : ltb at (length q) ≡ false = ground arith in rw outside (id, refl)
  ]

  parse_unit-some : (r : Root) → (s : RomIdentity) × (parse_unit q r ≡ some s)
  unfolding parse_unit
  parse_unit-some r = elim (Bool-cases (not (r.unit_dir == 0) && ltb r.unit_dir (length q))) [
    | inl found ↦
        let h = get_elem?-within q r.unit_dir (ground arith) in
        let all = unit_loop-some (bit_and (h.0 >> 16) 0xffff) (r.unit_dir + 1) r.identity in
        rw (found, h.1, all.1) (record all.0 { has_unit = true }, refl)
    | inr missing ↦ rw missing (r.identity, refl)
  ]

  parse_root-some : (root : ℕ) → (s : RomIdentity) × (parse_root q root ≡ some s)
  unfolding parse_root
  parse_root-some root = elim (Bool-cases (ltb root (length q))) [
    | inl found ↦
        let h = get_elem?-within q root (ground arith) in
        let all =
          root_loop-some (bit_and (h.0 >> 16) 0xffff) (root + 1)
            (record { identity = no_identity; unit_dir = 0 }) in
        rw (found, h.1, all.1) (parse_unit-some all.0)
    | inr missing ↦ rw missing (no_identity, refl)
  ]

  -- Whatever a ROM holds, and however short it is, its lengths and offsets lead to no read outside of it:
  -- the parser returns an identity.
  pub parse_config_rom-some : (s : RomIdentity) × (parse_config_rom q ≡ some s)
  unfolding parse_config_rom
  parse_config_rom-some = elim (Bool-cases (length q == 0)) [
    | inl empty ↦ rw empty (no_identity, refl)
    | inr more ↦
        let h = get_elem?-within q 0 (ground arith) in
        rw (more, h.1) (parse_root-some (1 + bit_and (h.0 >> 24) 0xff))
  ]
