-- ===== src/Ctl/Tests/Mixing.antt =====
-- Runs of the commands on a mixer, the daemon's and the published one.
use userface.Base.{ℕ, ◌+◌, ◌<◌, ◌≤◌, ◌≡◌, refl, arith, [], ◌∷◌, length, true, false, none}
use userface.Protocol.Settings.{default_settings}
use userface.Mixer.Model.{Cell, MixerModel, quadlet, render, reset_defaults}
use userface.Mixer.Model.Blob.{empty_blob, to_blob, from_blob}
use userface.Mixer.Model.Restore.{from_blob-to_blob}
use userface.Ctl.Queue.{CtlQueue, push, pop}
use userface.Ctl.Queue.Refine.{Holds, push-Holds}
use userface.Ctl.Queue.Drain.{while_pop, each, while_pop-each}
use userface.Protocol.Control.{quadlet_write}
use userface.Mixer.{input_coeff_addr, playback_coeff_addr, output_fader_addr}
use userface.Ctl.Proto.{CtlCommand}
use userface.Ctl.Apply.{Daemon, flush, pump_command, pump_set_mixer, dirty, insert}
use userface.Ctl.Apply.Idle.{drain_ctl_idle}
use userface.Ctl.Apply.Coherent.{Coherent}
use userface.Ctl.Apply.Range.{pump_command-Coherent, out_of_range_write}
use userface.Ctl.Apply.Dirty.{stored_all, pending}
use userface.Ctl.Apply.Device.{Synced}
use userface.Ctl.Apply.Flush.{flushes}
use userface.Ctl.Apply.Arrive.{pump-drain_ctl_idle, commands_arrive}
use userface.Ctl.Tests.{unity, empty_queue, empty_queue-Holds}

abbrev usual : MixerModel
usual = reset_defaults 28 true

-- A daemon whose mixer has been applied to the device.
abbrev daemon : Daemon
daemon = record {
  model = usual;
  shadow = render usual;
  settings = default_settings;
  ctl_dirty = [];
  state_dirty = false;
  snap = empty_blob;
  snap_seq = 0;
  published = none;
  writes = [];
}

daemon-Coherent : Coherent daemon
daemon-Coherent i = refl

daemon-Synced : Synced (render usual) daemon
unfolding stored_all pending
daemon-Synced = record { in_order = tt; reached = λ i h. refl }

abbrev one_command : CtlQueue
one_command = push unity empty_queue

one_command-Holds : Holds one_command (unity ∷ [])
one_command-Holds = (push-Holds unity empty_queue [] empty_queue-Holds).0

one_dirty : length (((while_pop (pump_command 28 48000) 2 one_command daemon).0).ctl_dirty) ≤ 8
unfolding pump_command pump_set_mixer dirty insert
one_dirty =
    rw
      ((while_pop-each (pump_command 28 48000) (unity ∷ []) 2 one_command daemon one_command-Holds
        (omega arith)).0)
      (omega arith)

commands_arrive_example :
    let taken = (while_pop (pump_command 28 48000) 2 one_command daemon).0 in
    (stored_all 0 (flushes 1 taken).writes (render usual 0) ≡ render taken.model 0)
    × ((flushes 1 taken).ctl_dirty ≡ [])
    × (taken.model ≡ (each (pump_command 28 48000) (unity ∷ []) daemon).model)
commands_arrive_example =
    commands_arrive 28 48000 (render usual) (unity ∷ []) 2 1 one_command daemon 0 one_command-Holds
      (omega arith) (refl, tt) daemon-Coherent daemon-Synced one_dirty (omega arith)

pump-drain_ctl_idle_example :
    let pumped = while_pop (pump_command 28 48000) 2 one_command daemon in
    let drained = drain_ctl_idle 2 one_command daemon in
    (pumped.0.model ≡ drained.0.model)
    × (pumped.0.settings ≡ drained.0.settings)
    × (pop pumped.1 ≡ none)
    × (pop drained.1 ≡ none)
pump-drain_ctl_idle_example =
    pump-drain_ctl_idle 28 48000 (unity ∷ []) 2 one_command daemon one_command-Holds (omega arith)

pump_command-Coherent_example : Coherent (pump_command 28 48000 unity daemon)
pump_command-Coherent_example = pump_command-Coherent 28 48000 unity daemon refl daemon-Coherent

-- The scratch cell after the command.
abbrev struck : Cell
struck = record { gain = 0x8000; flags = usual.scratch.flags }

-- A gain of input 35, for output 6.
abbrev wild : CtlCommand
wild = record unity { src_kind = 0; src = 34; dest = 5 }

out_of_range_write_example :
    let after = flush (pump_set_mixer wild daemon) in
    (after.writes ≡ quadlet_write 0x8008_0588 (quadlet struck) ∷ [])
    × (after.model ≡ record usual { scratch = struck })
    × ((s e : ℕ) → s < 28 → e < 28 → input_coeff_addr (32 + s) e ≡ playback_coeff_addr s e)
    × ((o : ℕ) → o < 28 → playback_coeff_addr o 31 ≡ output_fader_addr o)
out_of_range_write_example = out_of_range_write wild daemon refl (omega arith) (omega arith) refl

-- A gain above the maximum, which is also muted, and a fader below it.
abbrev too_loud : MixerModel
too_loud = record usual {
  inputs = λ s d. record { gain = 0x2_0000; flags = 1 };
  playback = λ s d. record { gain = 5; flags = 0 };
  outputs = λ o. record { gain = 7; flags = 2 };
}

from_blob-to_blob_example :
    let r = from_blob (to_blob too_loud) (reset_defaults 0 true) in
    (r.inputs 1 1 ≡ record { gain = 0x1_0000; flags = 1 })
    × (r.playback 1 1 ≡ record { gain = 5; flags = 0 })
    × (r.outputs 1 ≡ record { gain = 7; flags = 2 })
    × (r.stereo_in ≡ usual.stereo_in)
    × (r.stereo_pb ≡ usual.stereo_pb)
from_blob-to_blob_example =
    from_blob-to_blob too_loud (reset_defaults 0 true) 1 1 (omega arith) (omega arith)
