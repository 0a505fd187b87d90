-- ===== src/Ctl/Apply/Agree.antt =====
-- The two ways a command is applied, with a device and without one.
use userface.Base.{ℕ, zero, suc, ◌≡◌, refl, arith, Bool, ◌==◌, if◌then◌else◌}
use userface.Mixer.Model.{copy_submix, clear_submix}
use userface.Ctl.Proto.{CtlCommand}
use userface.Ctl.Apply.{
  Daemon, emit, publish_if, dirty, dirty_column, pump_set_mixer, pump_set_fader,
  pump_set_cell_flags, pump_set_out_flags, pump_set_stereo, pump_submix, pump_set_settings,
  pump_command,
}
use userface.Ctl.Apply.Idle.{idle_command}

pub dirty_column-model :
    (n dest : ℕ) (d : Daemon)
    → ((dirty_column n dest d).model ≡ d.model) × ((dirty_column n dest d).settings ≡ d.settings)
unfolding dirty_column dirty
dirty_column-model zero dest d = (refl, refl)
dirty_column-model (suc n) dest d = dirty_column-model n dest d

-- The submix in the middle: its column changes the shadow only.
pub pump_submix-model :
    (c : CtlCommand) (d : Daemon)
    → ((pump_submix c d).model
        ≡ (if c.on == 0 then copy_submix c.src c.dest d.model else clear_submix c.dest d.model))
      × ((pump_submix c d).settings ≡ d.settings)
unfolding pump_submix
pump_submix-model c d =
    let m = if c.on == 0 then copy_submix c.src c.dest d.model else clear_submix c.dest d.model in
    dirty_column-model 28 c.dest (record d { model = m })

-- The pump and `drain_ctl_idle` make the same of a command: the same mixer and the same settings.
pub pump-idle :
    (dbq rate : ℕ) (c : CtlCommand) (d : Daemon) (changed : Bool)
    → let idle =
        idle_command c (record { model = d.model; settings = d.settings; dirty = changed }) in
      ((pump_command dbq rate c d).model ≡ idle.model)
      × ((pump_command dbq rate c d).settings ≡ idle.settings)
unfolding pump_command pump_set_mixer pump_set_fader pump_set_cell_flags pump_set_out_flags
    pump_set_stereo pump_set_settings publish_if emit dirty idle_command
pump-idle dbq rate c d changed = let sub = pump_submix-model c d in (ground arith, ground arith)
