-- ===== src/Daemon/Pace/Agree.antt =====
-- The lengths that the daemon has in mind and those in the driver's descriptors.
use userface.Base.{
  ℕ, zero, suc, ◌+◌, ◌-◌, ◌*◌, ◌%◌, ◌≤◌, ◌<◌, ◌≡◌, ◌≢◌, refl, sym, ap, subst, ◌∙◌, Bool, true,
  false, ◌||◌, List, [], ◌∷◌, u16, u32, u64, ltb, ◌==◌, if◌then◌else◌, arith, Bool-cases, inl, inr,
  ℕ_discrete,
}
use native.Mathlib.Nat.{mul-le-mul}
use userface.Base.Bits.{bit_and_ones}
use userface.Protocol.Channels.{is_full_packet}
use userface.Shared.TxFill.{begin_tick, begin_packet}
use userface.Dext.Transmit.{
  Transmit, Block, make_block, iso_tx_start, iso_tx_set_slot_bytes, set_length, it_hdr_q1,
}
use userface.Daemon.Pace.{
  Adjust, fewer, usual, more, Shape, Pace, put, frames_for, resync, program, fill_frames, fill_slot,
  fill_packet, fill_packets, fill,
}

it_hdr_q1_lem : (len : ℕ) → len ≤ 2048 → it_hdr_q1 len ≡ len * 65536
unfolding it_hdr_q1
it_hdr_q1_lem len h = omega (arith, bit_and_ones 16 len)

-- A block tells its length twice: as the bytes to fetch and in the packet's header.
abbrev pub HasLength : ℕ → Block → Type 0
HasLength bytes b = (bytes ≤ 2048) × (b.payload.req_count ≡ bytes) × (b.hdr1 ≡ bytes * 65536)

set_slot_bytes_lem :
    (slot want : ℕ) (t : Transmit)
    → t.it_running ≡ true
    → slot < 640
    → want ≤ 2048
    → let t' = (iso_tx_set_slot_bytes slot want t).1 in
      (t'.it_running ≡ true)
      × HasLength want (t'.block slot)
      × ((j : ℕ) → j ≢ slot → t'.block j ≡ t.block j)
unfolding iso_tx_set_slot_bytes set_length
set_slot_bytes_lem slot want t on inside fits =
    let hdr = it_hdr_q1_lem want fits in
    (ground arith, (fits, ground arith, ground (arith, hdr)), λ j h. ground arith)

frames_bound : (syt : ℕ) (a : Adjust) → 0 < syt → frames_for syt a ≤ syt + 1
unfolding frames_for
frames_bound syt fewer pos = omega arith
frames_bound syt usual pos = omega arith
frames_bound syt more pos = omega arith

want_bound :
    (g : Shape) (a : Adjust)
    → 0 < g.syt_interval
    → (g.syt_interval + 1) * g.dbq ≤ 512
    → u32 (u32 (frames_for g.syt_interval a * g.dbq) * 4) ≤ 2048
want_bound g a pos fits =
    let most : frames_for g.syt_interval a * g.dbq ≤ (g.syt_interval + 1) * g.dbq =
      mul-le-mul (frames_bound g.syt_interval a pos) (omega arith) in
    omega arith

put_self {ℓ} : {A : Type ℓ} (i : ℕ) (x : A) (a : ℕ → A) → put i x a i ≡ x
unfolding put
put_self i x a = ground arith

put_ne {ℓ} : {A : Type ℓ} (i : ℕ) (x : A) (a : ℕ → A) {j : ℕ} → j ≢ i → put i x a j ≡ a j
unfolding put
put_ne i x a h = ground arith

module _ {Time Servo : Type 0} (g : Shape) where
  -- What the daemon holds for the length of a full packet is what the controller sends of it.
  pub record Agrees (s : Pace Time Servo) : Type 0 where
    pub running : s.driver.it_running ≡ true
    pub same :
        (i : ℕ)
        → i < 640
        → is_full_packet i g.full_count 640 ≡ true
        → HasLength (s.slot_bytes i) (s.driver.block i)

module _ {Time Servo : Type 0} (decide : Servo → Adjust × Servo) (g : Shape)
    (pos : 0 < g.syt_interval) (fits : (g.syt_interval + 1) * g.dbq ≤ 512) where
  program-Agrees :
      (slot want : ℕ) (s : Pace Time Servo)
      → slot < 640
      → want ≤ 2048
      → Agrees g s
      → Agrees g (program decide g slot want s)
  unfolding program
  program-Agrees slot want s inside b v = elim (Bool-cases (s.slot_bytes slot == want)) [
    | inl e ↦ rw e v
    | inr e ↦
        let block = (iso_tx_set_slot_bytes slot want s.driver).1.block in
        let set = set_slot_bytes_lem slot want s.driver v.running inside b in
        rw e record {
          running = set.0;
          same = λ i h full. elim (ℕ_discrete i slot) [
            | yes at ↦
                let size = sym (put_self slot want s.slot_bytes) in
                subst (λ j. HasLength (put slot want s.slot_bytes j) (block j)) (sym at)
                  (subst (λ w. HasLength w (block slot)) size set.1)
            | no ne ↦
                let size = sym (put_ne slot want s.slot_bytes ne) in
                subst (λ w. HasLength w (block i)) size
                  (subst (HasLength (s.slot_bytes i)) (sym (set.2 i ne)) (v.same i h full))
          ];
        }
  ]

  fill_frames_keeps :
      (n slot : ℕ) (s : Pace Time Servo)
      → ((fill_frames decide g n slot s).driver ≡ s.driver)
        × ((fill_frames decide g n slot s).slot_bytes ≡ s.slot_bytes)
  unfolding fill_frames
  fill_frames_keeps zero slot s = (refl, refl)
  fill_frames_keeps (suc f) slot s = fill_frames_keeps f slot s

  -- The invariant reads two fields only.
  Agrees-of :
      (s t : Pace Time Servo)
      → t.driver ≡ s.driver
      → t.slot_bytes ≡ s.slot_bytes
      → Agrees g s
      → Agrees g t
  Agrees-of s t d b v = record {
    running = subst (λ (x : Transmit). x.it_running ≡ true) (sym d) v.running;
    same = λ i h full.
        subst (λ (x : Transmit). HasLength (t.slot_bytes i) (x.block i)) (sym d)
          (subst (λ (a : ℕ → ℕ). HasLength (a i) (s.driver.block i)) (sym b) (v.same i h full));
  }

  fill_slot-Agrees :
      (slot : ℕ) (s : Pace Time Servo)
      → slot < 640
      → Agrees g s
      → Agrees g (fill_slot decide g slot s)
  unfolding fill_slot
  fill_slot-Agrees slot s inside v =
      let (adjust, servo) = decide s.servo in
      let frames = frames_for g.syt_interval adjust in
      let ready = record s { tx_src = begin_packet s.tx_src; servo = servo } in
      let want = u32 (u32 (frames * g.dbq) * 4) in
      let programmed = program decide g slot want ready in
      let kept = fill_frames_keeps frames slot programmed in
      Agrees-of programmed (fill_frames decide g frames slot programmed) kept.0 kept.1 (
        program-Agrees slot want ready inside (want_bound g adjust pos fits)
          (Agrees-of s ready refl refl v))

  fill_packet-Agrees : (s : Pace Time Servo) → Agrees g s → Agrees g (fill_packet decide g s)
  unfolding fill_packet
  fill_packet-Agrees s v =
      let slot = u32 (s.tx_fill_pkt % 640) in
      elim (Bool-cases (is_full_packet slot g.full_count 640)) [
        | inl e ↦ rw e (
            Agrees-of (fill_slot decide g slot s) _ refl refl
              (fill_slot-Agrees slot s (omega arith) v))
        | inr e ↦ rw e (Agrees-of s _ refl refl v)
      ]

  fill_packets-Agrees :
      (n : ℕ) (s : Pace Time Servo) → Agrees g s → Agrees g (fill_packets decide g n s)
  unfolding fill_packets
  fill_packets-Agrees zero s v = v
  fill_packets-Agrees (suc n) s v =
      fill_packets-Agrees n (fill_packet decide g s) (fill_packet-Agrees s v)

  resync-Agrees : (sent : ℕ) (s : Pace Time Servo) → Agrees g s → Agrees g (resync decide g sent s)
  unfolding resync
  resync-Agrees sent s v = Agrees-of s (resync decide g sent s) (ground arith) (ground arith) v

  fill-Agrees : (sent : ℕ) (s : Pace Time Servo) → Agrees g s → Agrees g (fill decide g sent s)
  unfolding fill
  fill-Agrees sent s v =
      let from = record s { tx_last_sent = sent } in
      let start = resync decide g sent from in
      let ready = record start { tx_src = begin_tick start.tx_src } in
      let rounds = u64 (sent + 64) - start.tx_fill_pkt in
      let at = resync-Agrees sent from (Agrees-of s from refl refl v) in
      Agrees-of (fill_packets decide g rounds ready) (fill decide g sent s) refl refl
        (fill_packets-Agrees rounds ready (Agrees-of start ready refl refl at))

  -- A tick's fill for each count of packets sent that the driver gave.
  pub fills : List ℕ → Pace Time Servo → Pace Time Servo
  fills [] s = s
  fills (sent ∷ later) s = fills later (fill decide g sent s)

  fills-Agrees : (sents : List ℕ) (s : Pace Time Servo) → Agrees g s → Agrees g (fills sents s)
  unfolding fills
  fills-Agrees [] s v = v
  fills-Agrees (sent ∷ later) s v = fills-Agrees later (fill decide g sent s) (fill-Agrees sent s v)

  start-Agrees :
      (channel bytes : ℕ) (t : Transmit) (s : Pace Time Servo)
      → 0 < bytes
      → bytes ≤ 2048
      → g.full_count ≤ 640
      → s.driver ≡ (iso_tx_start channel bytes g.full_count t).1
      → ((i : ℕ) → s.slot_bytes i ≡ bytes)
      → Agrees g s
  unfolding iso_tx_start make_block
  start-Agrees channel bytes t s some_bytes small dense at size =
      let taken : (bytes == 0 || ltb 2048 bytes || ltb 640 g.full_count) ≡ false = ground arith in
      let at' : s.driver ≡ record t {
        block = make_block t channel bytes g.full_count;
        it_running = true;
        it_full_count = g.full_count;
        it_sent = 0;
        it_fill = 640;
      } =
        rw taken at at in
      record {
        running = ap (λ (x : Transmit). x.it_running) at';
        same = λ i h full.
            let length = ap (λ (b : Bool). if b then bytes else 0) full in
            let here : HasLength bytes (make_block t channel bytes g.full_count i) = (
              small,
              ap u16 length ∙ omega arith,
              ap it_hdr_q1 length ∙ it_hdr_q1_lem bytes small,
            ) in
            subst (λ w. HasLength w (s.driver.block i)) (sym (size i))
              (subst (λ (x : Transmit). HasLength bytes (x.block i)) (sym at') here);
      }

  -- From a transmit ring as `IsoTxStart` leaves it, with the daemon's lengths set to that of a full
  -- packet, if a packet with a frame more than usual fits a slot: whatever the servo decides and wherever
  -- the controller is said to be at each tick, the descriptor and the header of every full packet both
  -- hold the length that the daemon has in mind for it, at most the 2048 bytes of a slot.
  pub fills_lem :
      (channel bytes : ℕ) (t : Transmit) (s : Pace Time Servo) (sents : List ℕ) (i : ℕ)
      → 0 < bytes
      → bytes ≤ 2048
      → g.full_count ≤ 640
      → s.driver ≡ (iso_tx_start channel bytes g.full_count t).1
      → ((j : ℕ) → s.slot_bytes j ≡ bytes)
      → i < 640
      → is_full_packet i g.full_count 640 ≡ true
      → let u = fills sents s in HasLength (u.slot_bytes i) (u.driver.block i)
  fills_lem channel bytes t s sents i some_bytes small dense at size h full =
      (fills-Agrees sents s (start-Agrees channel bytes t s some_bytes small dense at size)).same i
        h full
