-- ===== src/Ctl/Apply/Flush.antt =====
-- The ticks of the pump in which the dirty cells are written, eight at a time.
use mathlib.Core.List.{append_assoc, append-nil}
use userface.Base.{
  ℕ, zero, suc, ◌+◌, ◌*◌, ◌≤◌, ◌≡◌, refl, sym, ◌∙◌, arith, [], ◌∷◌, ◌++◌, length, length-append,
}
use userface.Ctl.Apply.{Daemon, DirtyCells, flush, flush_cells, publish_if}
use userface.Ctl.Apply.Dirty.{pending, flush_cells-pending, length-flush_cells}

-- What a tick writes and what it leaves, whether it publishes or not.
pub flush-fields :
    (d : Daemon)
    → ((flush d).writes ≡ d.writes ++ (flush_cells 8 d.ctl_dirty).0)
      × ((flush d).ctl_dirty ≡ (flush_cells 8 d.ctl_dirty).1)
      × ((flush d).shadow ≡ d.shadow)
      × ((flush d).model ≡ d.model)
unfolding flush publish_if
flush-fields d = (ground arith, ground arith, ground arith, ground arith)

-- Ticks without a command.
unfoldable pub flushes : ℕ → Daemon → Daemon
flushes zero d = d
flushes (suc n) d = flushes n (flush d)

pending-empty : (m : DirtyCells) → length m ≡ 0 → (pending m ≡ []) × (m ≡ [])
unfolding pending
pending-empty [] h = (refl, refl)
pending-empty (c ∷ m) h = absurd (omega arith)

at_most_eight : (d : Daemon) → length (flush d).writes ≤ length d.writes + 8
at_most_eight d =
    let f = flush-fields d in
    rw (f.0, length-append d.writes ((flush_cells 8 d.ctl_dirty).0))
      (omega (arith, length-flush_cells 8 d.ctl_dirty))

-- A tick makes at most eight writes. Ticks enough for the dirty cells, eight to a tick, write each of
-- them once, in the order of the addresses, and nothing else, and leave none.
pub flushes-writes :
    (n : ℕ) (d : Daemon)
    → length d.ctl_dirty ≤ 8 * n
    → ((flushes n d).writes ≡ d.writes ++ pending d.ctl_dirty)
      × ((flushes n d).ctl_dirty ≡ [])
      × (length (flush d).writes ≤ length d.writes + 8)
unfolding flushes
flushes-writes zero d h =
    let none_left = pending-empty d.ctl_dirty (omega arith) in
    (rw (none_left.0) (sym (append-nil d.writes)), none_left.1, at_most_eight d)
flushes-writes (suc n) d h =
    let f = flush-fields d in
    let sizes = length-flush_cells 8 d.ctl_dirty in
    let left : length (flush d).ctl_dirty ≤ 8 * n = rw (f.1) (omega arith) in
    let ih = flushes-writes n (flush d) left in
    (
      ih.0
          ∙ rw
              (
                f.0,
                f.1,
                append_assoc d.writes ((flush_cells 8 d.ctl_dirty).0)
                    (pending ((flush_cells 8 d.ctl_dirty).1)),
                flush_cells-pending 8 d.ctl_dirty,
              )
              refl,
      ih.1,
      at_most_eight d,
    )
