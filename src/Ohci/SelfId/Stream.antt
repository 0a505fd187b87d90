-- ===== src/Ohci/SelfId/Stream.antt =====
-- The nodes that a stream of self-IDs is parsed to.
use userface.Base.{
  ℕ, ◌+◌, ◌*◌, ◌/◌, ◌%◌, ◌^◌, ◌<◌, ◌≡◌, refl, ◌∙◌, arith, Bool, true, false, not, List, [], ◌∷◌,
  bit_and, ◌==◌, if◌then◌else◌,
}
use userface.Base.Bits.{bit_and_ones, bit_and_field}
use userface.Ohci.SelfId.{
  SelfId, self_id_packet_identifier, self_id_is_extended, self_id_phy_id, parse_zero,
  parse_self_ids,
}

abbrev pub flag : Bool → ℕ
flag true = 1
flag false = 0

flag_bound : (b : Bool) → flag b < 2
flag_bound true = omega arith
flag_bound false = omega arith

-- A zero packet, as IEEE 1394 lays it out. `delay` and `power` are two fields that the parser passes over,
-- `ports` the states of the first three ports, `more` whether another packet of the node follows.
pub record Rest : Type 0 where
  pub delay : ℕ
  pub power : ℕ
  pub ports : ℕ
  pub more : Bool

unfoldable pub zero_packet : SelfId → Rest → ℕ
zero_packet n r =
    2 * 2 ^ 30
    + n.phy_id * 2 ^ 24
    + flag n.link_active * 2 ^ 22
    + n.gap_count * 2 ^ 16
    + n.scode * 2 ^ 14
    + r.delay * 2 ^ 12
    + flag n.contender * 2 ^ 11
    + r.power * 2 ^ 8
    + r.ports * 4
    + flag n.initiated_reset * 2
    + flag r.more

-- The fields are in their ranges.
pub record IsNode (n : SelfId) (r : Rest) : Type 0 where
  pub phy_id : n.phy_id < 64
  pub gap_count : n.gap_count < 64
  pub scode : n.scode < 4
  pub delay : r.delay < 4
  pub power : r.power < 8
  pub ports : r.ports < 64

test_flag : (k : ℕ) (b : Bool) → 0 < 2 ^ k → not (flag b * 2 ^ k == 0) ≡ b
test_flag k true h = ground arith
test_flag k false h = ground arith

stray_lem :
    (is_id extended : Bool) (s : SelfId) (rest : List SelfId)
    → (if is_id then not extended else false) ≡ false
    → (if is_id then (if extended then rest else s ∷ rest) else rest) ≡ rest
stray_lem true true s rest h = refl
stray_lem true false s rest h = ground arith
stray_lem false e s rest h = refl

-- A zero packet is parsed to what it was made of, whatever its other fields.
parse-zero :
    (n : SelfId) (r : Rest)
    → IsNode n r
    → let q = zero_packet n r in
      (self_id_packet_identifier q ≡ 2) × (self_id_is_extended q ≡ false) × (parse_zero q ≡ n)
unfolding zero_packet self_id_packet_identifier self_id_is_extended parse_zero self_id_phy_id
parse-zero n r v =
    let x = zero_packet n r in
    let l = flag_bound n.link_active in
    let c = flag_bound n.contender in
    let i = flag_bound n.initiated_reset in
    let m = flag_bound r.more in
    let id : bit_and x 0xc000_0000 / 2 ^ 30 ≡ 2 =
      omega (arith, bit_and_field 30 3 x, bit_and_ones 2 (x / 2 ^ 30)) in
    let ext : bit_and x 0x80_0000 ≡ 0 =
      omega (arith, bit_and_field 23 1 x, bit_and_ones 1 (x / 2 ^ 23)) in
    let phy : bit_and x 0x3f00_0000 / 2 ^ 24 ≡ n.phy_id =
      omega (arith, bit_and_field 24 63 x, bit_and_ones 6 (x / 2 ^ 24)) in
    let act : bit_and x 0x40_0000 ≡ flag n.link_active * 2 ^ 22 =
      omega (arith, bit_and_field 22 1 x, bit_and_ones 1 (x / 2 ^ 22)) in
    let gap : bit_and x 0x3f_0000 / 2 ^ 16 ≡ n.gap_count =
      omega (arith, bit_and_field 16 63 x, bit_and_ones 6 (x / 2 ^ 16)) in
    let spd : bit_and x 0xc000 / 2 ^ 14 ≡ n.scode =
      omega (arith, bit_and_field 14 3 x, bit_and_ones 2 (x / 2 ^ 14)) in
    let man : bit_and x 0x800 ≡ flag n.contender * 2 ^ 11 =
      omega (arith, bit_and_field 11 1 x, bit_and_ones 1 (x / 2 ^ 11)) in
    let ini : bit_and x 0x2 ≡ flag n.initiated_reset * 2 ^ 1 =
      omega (arith, bit_and_field 1 1 x, bit_and_ones 1 (x / 2 ^ 1)) in
    let on : not (flag n.link_active * 2 ^ 22 == 0) ≡ n.link_active =
      test_flag 22 n.link_active (omega arith) in
    let mon : not (flag n.contender * 2 ^ 11 == 0) ≡ n.contender =
      test_flag 11 n.contender (omega arith) in
    let reset : not (flag n.initiated_reset * 2 ^ 1 == 0) ≡ n.initiated_reset =
      test_flag 1 n.initiated_reset (omega arith) in
    (id, rw ext refl, rw (phy, act, gap, spd, man, ini, on, mon, reset) refl)

-- A quadlet of the stream: a node's zero packet, or one that is none.
pub data Sent : Type 0 where
  zero_of : SelfId → Rest → Sent
  stray : ℕ → Sent

-- The quadlets that are not zero packets are of another kind, by their two highest bits, or extended.
abbrev pub Honest : List Sent → Type 0
Honest [] = Unit
Honest (zero_of n r ∷ sent) = IsNode n r × Honest sent
Honest (stray q ∷ sent) =
    ((if q / 2 ^ 30 % 4 == 2 then not (q / 2 ^ 23 % 2 == 1) else false) ≡ false) × Honest sent

abbrev pub quadlets : List Sent → List ℕ
quadlets [] = []
quadlets (zero_of n r ∷ sent) = zero_packet n r ∷ quadlets sent
quadlets (stray q ∷ sent) = q ∷ quadlets sent

abbrev pub nodes : List Sent → List SelfId
nodes [] = []
nodes (zero_of n r ∷ sent) = n ∷ nodes sent
nodes (stray q ∷ sent) = nodes sent

stray_tests :
    (q : ℕ)
    → ((self_id_packet_identifier q == 2) ≡ (q / 2 ^ 30 % 4 == 2))
      × (self_id_is_extended q ≡ (q / 2 ^ 23 % 2 == 1))
unfolding self_id_packet_identifier self_id_is_extended
stray_tests q =
    let id : bit_and q 0xc000_0000 / 2 ^ 30 ≡ q / 2 ^ 30 % 4 =
      omega (arith, bit_and_field 30 3 q, bit_and_ones 2 (q / 2 ^ 30)) in
    let ext : bit_and q 0x80_0000 ≡ q / 2 ^ 23 % 2 * 2 ^ 23 =
      omega (arith, bit_and_field 23 1 q, bit_and_ones 1 (q / 2 ^ 23)) in
    (rw id refl, rw ext (ground arith))

-- A stream of self-IDs, with its fields in their ranges, is parsed to the nodes whose zero packets it
-- holds, each with the six fields of its record, whatever its others, and in their order; continuations
-- and quadlets of another kind between them are passed over.
pub parse_self_ids-quadlets :
    (sent : List Sent) → Honest sent → parse_self_ids (quadlets sent) ≡ nodes sent
unfolding parse_self_ids
parse_self_ids-quadlets [] h = refl
parse_self_ids-quadlets (zero_of n r ∷ sent) (v, h) =
    let one = parse-zero n r v in rw (one.0, one.1, one.2, parse_self_ids-quadlets sent h) refl
parse_self_ids-quadlets (stray q ∷ sent) (b, h) =
    let ih = parse_self_ids-quadlets sent h in
    let tests = stray_tests q in
    rw (tests.0, tests.1)
      (stray_lem (q / 2 ^ 30 % 4 == 2) (q / 2 ^ 23 % 2 == 1) (parse_zero q)
          (parse_self_ids (quadlets sent)) b
        ∙ ih)
