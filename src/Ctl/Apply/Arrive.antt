-- ===== src/Ctl/Apply/Arrive.antt =====
-- From the queue to the device: what arrives in the mixer's RAM.
use userface.Base.{
  ℕ, ◌*◌, ◌≤◌, ◌<◌, ◌≡◌, refl, ap, ◌∙◌, true, false, arith, none, List, [], ◌∷◌, length,
}
use userface.Mixer.Model.{render}
use userface.Ctl.Proto.{CtlCommand}
use userface.Ctl.Queue.{CtlQueue, pop}
use userface.Ctl.Queue.Refine.{Holds}
use userface.Ctl.Queue.Drain.{while_pop, each, while_pop-each}
use userface.Ctl.Apply.{Daemon, pump_command, publish_if}
use userface.Ctl.Apply.Idle.{Idle, idle_command, idle_finish, drain_ctl_idle}
use userface.Ctl.Apply.Agree.{pump-idle}
use userface.Ctl.Apply.Coherent.{Coherent}
use userface.Ctl.Apply.Range.{is_in_range, pump_command-Coherent}
use userface.Ctl.Apply.Dirty.{stored_all, pending, stored_all-append}
use userface.Ctl.Apply.Device.{Synced, pump_command-Synced}
use userface.Ctl.Apply.Flush.{flushes, flushes-writes}

abbrev pub AllInRange : List CtlCommand → Type 0
AllInRange [] = Unit
AllInRange (c ∷ cs) = (is_in_range c ≡ true) × AllInRange cs

module _ (dbq rate : ℕ) where
  each-Coherent :
      (cs : List CtlCommand) (d : Daemon)
      → AllInRange cs
      → Coherent d
      → Coherent (each (pump_command dbq rate) cs d)
  each-Coherent [] d r h = h
  each-Coherent (c ∷ cs) d (r, rs) h =
      each-Coherent cs (pump_command dbq rate c d) rs (pump_command-Coherent dbq rate c d r h)

  each-Synced :
      (ram : ℕ → ℕ) (cs : List CtlCommand) (d : Daemon)
      → Synced ram d
      → Synced ram (each (pump_command dbq rate) cs d)
  each-Synced ram [] d h = h
  each-Synced ram (c ∷ cs) d h =
      each-Synced ram cs (pump_command dbq rate c d) (pump_command-Synced ram dbq rate c d h)

  each-idle :
      (cs : List CtlCommand) (d : Daemon) (s : Idle)
      → d.model ≡ s.model
      → d.settings ≡ s.settings
      → ((each (pump_command dbq rate) cs d).model ≡ (each idle_command cs s).model)
        × ((each (pump_command dbq rate) cs d).settings ≡ (each idle_command cs s).settings)
  each-idle [] d s em es = (em, es)
  each-idle (c ∷ cs) d s em es =
      let one = pump-idle dbq rate c d s.dirty in
      let same : record { model = d.model; settings = d.settings; dirty = s.dirty } ≡ s =
        λ i. record { model = em i; settings = es i; dirty = s.dirty } in
      each-idle cs (pump_command dbq rate c d) (idle_command c s)
        (one.0 ∙ ap (λ (t : Idle). (idle_command c t).model) same)
        (one.1 ∙ ap (λ (t : Idle). (idle_command c t).settings) same)

  -- Whether there is a device or not, the same queue leaves the same mixer and the same settings: the
  -- pump's loop and `drain_ctl_idle` agree, and both end with the queue empty.
  pub pump-drain_ctl_idle :
      (cs : List CtlCommand) (n : ℕ) (q : CtlQueue) (d : Daemon)
      → Holds q cs
      → length cs < n
      → let pumped = while_pop (pump_command dbq rate) n q d in
        let drained = drain_ctl_idle n q d in
        (pumped.0.model ≡ drained.0.model)
        × (pumped.0.settings ≡ drained.0.settings)
        × (pop pumped.1 ≡ none)
        × (pop drained.1 ≡ none)
  unfolding drain_ctl_idle idle_finish publish_if
  pump-drain_ctl_idle cs n q d h l =
      let start : Idle = record { model = d.model; settings = d.settings; dirty = false } in
      let pump = while_pop-each (pump_command dbq rate) cs n q d h l in
      let idle = while_pop-each idle_command cs n q start h l in
      let agree = each-idle cs d start refl refl in
      (ground (arith, pump.0, idle.0), ground (arith, pump.0, idle.0), pump.2, idle.2)

  -- The commands of the queue reach the device. The shadow is what the mixer renders to, and the RAM is
  -- the shadow but for the cells still to be written. The pump takes a queue of commands whose channels
  -- exist; ticks enough for the cells that are dirty then, eight to a tick, leave none dirty and the RAM,
  -- if it takes every write, as the mixer renders to after those commands.
  pub commands_arrive :
      (ram : ℕ → ℕ) (cs : List CtlCommand) (n k : ℕ) (q : CtlQueue) (d : Daemon) (i : ℕ)
      → Holds q cs
      → length cs < n
      → AllInRange cs
      → Coherent d
      → Synced ram d
      → length (((while_pop (pump_command dbq rate) n q d).0).ctl_dirty) ≤ 8 * k
      → i < 2048
      → let taken = (while_pop (pump_command dbq rate) n q d).0 in
        (stored_all i (flushes k taken).writes (ram i) ≡ render taken.model i)
        × ((flushes k taken).ctl_dirty ≡ [])
        × (taken.model ≡ (each (pump_command dbq rate) cs d).model)
  commands_arrive ram cs n k q d i hq hn hr hc hs hk hi =
      let loop = (while_pop-each (pump_command dbq rate) cs n q d hq hn).0 in
      let taken = (while_pop (pump_command dbq rate) n q d).0 in
      let written = flushes-writes k taken hk in
      let coherent : Coherent taken = rw loop (each-Coherent cs d hr hc) in
      let synced : Synced ram taken = rw loop (each-Synced ram cs d hs) in
      (
        rw (written.0, stored_all-append i taken.writes (pending taken.ctl_dirty) (ram i))
              (synced.reached i hi)
            ∙ coherent i,
        written.1,
        rw loop refl,
      )
