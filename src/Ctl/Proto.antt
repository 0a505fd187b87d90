-- ===== src/Ctl/Proto.antt =====
-- platform/shared/uf_ctl_proto.hpp: the messages, as the bytes that stand for the structs on a
-- little-endian machine, and `CtlCommand` of uf_ctl_server.hpp.
use userface.Base.{ℕ, ◌≡◌, List, ◌++◌, length}
use userface.Protocol.Settings.{SettingsShadow, default_settings}

abbrev pub ctl_version : ℕ
ctl_version = 2

abbrev pub max_msg_bytes : ℕ
max_msg_bytes = 256

-- `MsgType`, as the numbers on the wire.
abbrev pub hello : ℕ
hello = 1

abbrev pub hello_ack : ℕ
hello_ack = 2

abbrev pub set_mixer : ℕ
set_mixer = 3

abbrev pub set_fader : ℕ
set_fader = 4

abbrev pub set_settings : ℕ
set_settings = 5

abbrev pub set_cell_flags : ℕ
set_cell_flags = 6

abbrev pub set_out_flags : ℕ
set_out_flags = 7

abbrev pub set_stereo_type : ℕ
set_stereo_type = 8

abbrev pub submix : ℕ
submix = 9

-- How the compiler lays out a `SettingsShadow`, which crosses the socket as its 48 bytes: `read_at`
-- reads the one that lies in a buffer from a place on.
pub record SettingsLayout : Type 0 where
  pub bytes : SettingsShadow → List ℕ
  pub read_at : List ℕ → ℕ → SettingsShadow
  pub length-bytes : (s : SettingsShadow) → length (bytes s) ≡ 48
  pub read_at-bytes :
      (before : List ℕ) (s : SettingsShadow) → read_at (before ++ bytes s) (length before) ≡ s

pub record CtlCommand : Type 0 where
  pub type : ℕ
  pub src_kind : ℕ
  pub src : ℕ
  pub dest : ℕ
  pub out : ℕ
  pub coeff : ℕ
  pub mask : ℕ
  pub flags : ℕ
  pub on : ℕ
  pub rate : ℕ
  pub settings : SettingsShadow

abbrev pub new_command : ℕ → CtlCommand
new_command type = record {
  type = type;
  src_kind = 0;
  src = 0;
  dest = 0;
  out = 0;
  coeff = 0;
  mask = 0;
  flags = 0;
  on = 0;
  rate = 0;
  settings = default_settings;
}
