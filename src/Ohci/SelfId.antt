-- ===== src/Ohci/SelfId.antt =====
-- include/uf/ohci/selfid.hpp: the self-ID quadlets that the nodes of the bus send.
pub mod Stream
use userface.Base.{
  ℕ, ◌+◌, ◌*◌, ◌/◌, ◌%◌, ◌^◌, Bool, true, false, not, List, [], ◌∷◌, bit_and, bit_or, u16, u32,
  ◌<<◌, ◌>>◌, ◌==◌, if◌then◌else◌,
}

abbrev pub packet_id_self_id : ℕ
packet_id_self_id = 2

pub record SelfId : Type 0 where
  pub phy_id : ℕ
  pub link_active : Bool
  pub gap_count : ℕ
  pub scode : ℕ
  pub contender : Bool
  pub initiated_reset : Bool

unfoldable pub node_id : SelfId → ℕ
node_id s = u16 (bit_or 0xffc0 (bit_and s.phy_id 0x3f))

unfoldable pub self_id_packet_identifier : ℕ → ℕ
self_id_packet_identifier q = bit_and q 0xc000_0000 >> 30

unfoldable pub self_id_is_extended : ℕ → Bool
self_id_is_extended q = not (bit_and q 0x80_0000 == 0)

unfoldable pub self_id_phy_id : ℕ → ℕ
self_id_phy_id q = bit_and q 0x3f00_0000 >> 24

-- The entry that the loop of `parse_self_ids` makes of a zero packet.
unfoldable pub parse_zero : ℕ → SelfId
parse_zero q = record {
  phy_id = self_id_phy_id q;
  link_active = not (bit_and q 0x40_0000 == 0);
  gap_count = bit_and q 0x3f_0000 >> 16;
  scode = bit_and q 0xc000 >> 14;
  contender = not (bit_and q 0x800 == 0);
  initiated_reset = not (bit_and q 0x2 == 0);
}

unfoldable pub parse_self_ids : List ℕ → List SelfId
parse_self_ids [] = []
parse_self_ids (q ∷ qs) =
    let rest = parse_self_ids qs in
    if self_id_packet_identifier q == packet_id_self_id
    then (if self_id_is_extended q then rest else parse_zero q ∷ rest)
    else rest

unfoldable pub make_self_id_zero : ℕ → Bool → ℕ → ℕ → Bool → Bool → ℕ
make_self_id_zero phy_id link_active gap_count scode contender more_packets =
    bit_or
      (bit_or
        (bit_or
          (bit_or
            (bit_or (bit_or (u32 (packet_id_self_id << 30)) (u32 (bit_and phy_id 0x3f << 24)))
              (if link_active then 0x40_0000 else 0))
            (u32 (bit_and gap_count 0x3f << 16)))
          (u32 (bit_and scode 0x3 << 14)))
        (if contender then 0x800 else 0))
      (if more_packets then 1 else 0)
