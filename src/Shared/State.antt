-- ===== src/Shared/State.antt =====
-- platform/shared/uf_state_shm.hpp: the state that the daemon publishes in shared memory, without the
-- level meters, which hold floating-point numbers; and `publish_mixer` of platform/daemon/uf-daemon.cpp.
pub mod Mirror
use userface.Base.{
  ℕ, zero, suc, ◌+◌, ◌*◌, ◌%◌, ◌^◌, Bool, true, false, ◌&&◌, Option, none, some, u64, ◌==◌,
  if◌then◌else◌,
}
use userface.Protocol.Settings.{SettingsShadow, default_settings}
use userface.Mixer.{SrcKind, input, playback, mixer_channels, cell_count, MixerShadow}
use userface.Mixer
use userface.Mixer.Model.{MixerModel, cell, output}
use userface.Mixer.Model.Stereo.{stereo_bits}

abbrev pub state_magic : ℕ
state_magic = 0x5546_5331

abbrev pub state_version : ℕ
state_version = 3

pub record Shared : Type 0 where
  pub magic : ℕ
  pub version : ℕ
  pub seq : ℕ
  pub device_rate : ℕ
  pub clock_source : ℕ
  pub clock_locked : ℕ
  pub dbq : ℕ
  pub cells : ℕ → ℕ
  pub input_flags : ℕ → ℕ
  pub playback_flags : ℕ → ℕ
  pub output_flags : ℕ → ℕ
  pub input_gain : ℕ → ℕ
  pub playback_gain : ℕ → ℕ
  pub output_gain : ℕ → ℕ
  pub stereo_in : ℕ
  pub stereo_pb : ℕ
  pub settings : SettingsShadow

unfoldable pub compatible : Shared → Bool
compatible s = (s.magic == state_magic) && (s.version == state_version)

-- `init` writes every field.
unfoldable pub init : Shared
init = record {
  magic = state_magic;
  version = state_version;
  seq = 0;
  device_rate = 0;
  clock_source = 0;
  clock_locked = 0;
  dbq = 0;
  cells = λ i. 0;
  input_flags = λ i. 0;
  playback_flags = λ i. 0;
  output_flags = λ i. 0;
  input_gain = λ i. 0;
  playback_gain = λ i. 0;
  output_gain = λ i. 0;
  stereo_in = 0;
  stereo_pb = 0;
  settings = default_settings;
}

-- The two halves of `publish` around the call of `fill`.
unfoldable pub begin_publish : Shared → Shared
begin_publish s = record s { seq = u64 (s.seq + 1) }

unfoldable pub end_publish : ℕ → Shared → Shared
end_publish n s = record s { seq = u64 (n + 1) }

unfoldable pub publish : (Shared → Shared) → Shared → Shared
publish fill s = end_publish (u64 (s.seq + 1)) (fill (begin_publish s))

-- The loads of `read`: the sequence number before the copy, the copy, and the number after it.
unfoldable pub read : ℕ → Shared → ℕ → Option Shared
read before copy after =
    if before % 2 == 1 then none else if after == before then some copy else none

-- `a[i] = v`.
unfoldable pub store : ℕ → ℕ → (ℕ → ℕ) → ℕ → ℕ
store i v a j = if j == i then v else a j

-- The loops of `publish_mixer`.
unfoldable pub copy_cells : ℕ → MixerShadow → Shared → Shared
copy_cells zero sh s = s
copy_cells (suc i) sh s =
    let before = copy_cells i sh s in
    record before { cells = store i (Mixer.cell sh i) before.cells }

unfoldable pub copy_destinations : ℕ → ℕ → MixerModel → Shared → Shared
copy_destinations zero sc m s = s
copy_destinations (suc d) sc m s =
    let before = copy_destinations d sc m s in
    let ci = cell input sc d m in
    let cp = cell playback sc d m in
    let at = sc * mixer_channels + d in
    record before {
      input_flags = store at (ci.flags) before.input_flags;
      input_gain = store at (ci.gain) before.input_gain;
      playback_flags = store at (cp.flags) before.playback_flags;
      playback_gain = store at (cp.gain) before.playback_gain;
    }

unfoldable pub copy_sources : ℕ → MixerModel → Shared → Shared
copy_sources zero m s = s
copy_sources (suc sc) m s = copy_destinations mixer_channels sc m (copy_sources sc m s)

unfoldable pub copy_outputs : ℕ → MixerModel → Shared → Shared
copy_outputs zero m s = s
copy_outputs (suc x) m s =
    let before = copy_outputs x m s in
    record before {
      output_flags = store x ((output x m).flags) before.output_flags;
      output_gain = store x ((output x m).gain) before.output_gain;
    }

unfoldable pub publish_mixer : MixerModel → MixerShadow → Shared → Shared
publish_mixer m sh s =
    let copied =
      copy_outputs mixer_channels m (copy_sources mixer_channels m (copy_cells cell_count sh s)) in
    record copied { stereo_in = stereo_bits input m; stereo_pb = stereo_bits playback m }
