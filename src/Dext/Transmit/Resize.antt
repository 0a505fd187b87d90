-- ===== src/Dext/Transmit/Resize.antt =====
-- A change of a packet's length leaves its status, and so the invariant.
use userface.Base.{
  ℕ, ◌%◌, ◌≡◌, sym, ap, subst, ◌∙◌, Bool, not, true, ◌||◌, ltb, leb, if◌then◌else◌, arith,
  Bool-cases, inl, inr,
}
use userface.Dext.Descriptor.{IoReturn, success, not_ready, bad_argument}
use userface.Dext.Transmit.{Transmit, set_length, iso_tx_set_slot_bytes}
use userface.Dext.Transmit.Machine.{System, Inv}

set_length_status :
    (slot bytes : ℕ) (t : Transmit) (j : ℕ)
    → (set_length slot bytes t.block j).payload.transfer_status
      ≡ (t.block j).payload.transfer_status
unfolding set_length
set_length_status slot bytes t j = ground arith

set_length-Inv :
    (slot bytes : ℕ) (s : System)
    → Inv s
    → Inv (record s { tx = record (s.tx) { block = set_length slot bytes s.tx.block } })
set_length-Inv slot bytes s v = record {
  running = v.running;
  cadence = v.cadence;
  behind = v.behind;
  lap = v.lap;
  near = v.near;
  empty_ahead = v.empty_ahead;
  fresh = λ k a b full st.
      v.fresh k a b full (λ e. st (set_length_status slot bytes s.tx (k % 640) ∙ e));
  in_hand = v.in_hand;
  marked = λ kept k a b full e.
      v.marked kept k a b full (sym (set_length_status slot bytes s.tx (k % 640)) ∙ e);
}

resized :
    (slot bytes : ℕ) (t : Transmit)
    → t.it_running ≡ true
    → iso_tx_set_slot_bytes slot bytes t ≡ (
        if leb 640 slot || ltb 2048 bytes
        then (bad_argument, t)
        else (success, record t { block = set_length slot bytes t.block }))
unfolding iso_tx_set_slot_bytes
resized slot bytes t e =
    let after =
      if leb 640 slot || ltb 2048 bytes
      then (bad_argument, t)
      else (success, record t { block = set_length slot bytes t.block }) in
    ap (λ (b : Bool). if not b then (not_ready, t) else after) e

pub resize-Inv :
    (slot bytes : ℕ) (s : System)
    → Inv s
    → Inv (record s { tx = (iso_tx_set_slot_bytes slot bytes s.tx).1 })
resize-Inv slot bytes s v =
    subst (λ (p : IoReturn × Transmit). Inv (record s { tx = p.1 }))
      (sym (resized slot bytes s.tx v.running))
      (elim (Bool-cases (leb 640 slot || ltb 2048 bytes)) [
        | inl bad ↦ rw bad v
        | inr fine ↦ rw fine (set_length-Inv slot bytes s v)
      ])
