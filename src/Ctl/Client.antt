-- ===== src/Ctl/Client.antt =====
-- platform/shared/uf_ctl_client.hpp: the messages that a front-end sends, as bytes.
use userface.Base.{ℕ, List, ◌++◌, Bool, if◌then◌else◌, not, ◌==◌, u16_bytes, u32_bytes, read_u32}
use userface.Protocol.Settings.{SettingsShadow}
use userface.Ctl.Proto.{
  ctl_version, hello, set_mixer, set_fader, set_settings, set_cell_flags, set_out_flags,
  set_stereo_type, submix, SettingsLayout,
}

-- `m.hdr = {kCtlVersion, type, sizeof m}`
abbrev header : ℕ → ℕ → List ℕ
header type size = u16_bytes ctl_version ++ u16_bytes type ++ u32_bytes size

unfoldable pub hello_msg : ℕ → List ℕ
hello_msg client_kind = header hello 16 ++ u32_bytes client_kind ++ u32_bytes 0

unfoldable pub set_mixer_msg : ℕ → ℕ → ℕ → ℕ → List ℕ
set_mixer_msg kind src dest coeff =
    header set_mixer 20
    ++ u16_bytes kind
    ++ u16_bytes src
    ++ u16_bytes dest
    ++ u16_bytes 0
    ++ u32_bytes coeff

unfoldable pub set_fader_msg : ℕ → ℕ → List ℕ
set_fader_msg out coeff = header set_fader 16 ++ u16_bytes out ++ u16_bytes 0 ++ u32_bytes coeff

unfoldable pub set_cell_flags_msg : ℕ → ℕ → ℕ → ℕ → ℕ → List ℕ
set_cell_flags_msg kind src dest mask value =
    header set_cell_flags 20
    ++ u16_bytes kind
    ++ u16_bytes src
    ++ u16_bytes dest
    ++ u16_bytes mask
    ++ u16_bytes value
    ++ u16_bytes 0

unfoldable pub set_out_flags_msg : ℕ → ℕ → ℕ → List ℕ
set_out_flags_msg out mask value =
    header set_out_flags 16 ++ u16_bytes out ++ u16_bytes mask ++ u16_bytes value ++ u16_bytes 0

unfoldable pub set_stereo_msg : ℕ → ℕ → Bool → List ℕ
set_stereo_msg kind channel on =
    header set_stereo_type 16
    ++ u16_bytes kind
    ++ u16_bytes channel
    ++ u16_bytes (if on then 1 else 0)
    ++ u16_bytes 0

unfoldable pub copy_submix_msg : ℕ → ℕ → List ℕ
copy_submix_msg from to = header submix 16 ++ u16_bytes from ++ u16_bytes to ++ u32_bytes 0

unfoldable pub clear_submix_msg : ℕ → List ℕ
clear_submix_msg out = header submix 16 ++ u16_bytes 0 ++ u16_bytes out ++ u32_bytes 1

unfoldable pub set_settings_msg : SettingsLayout → SettingsShadow → ℕ → List ℕ
set_settings_msg layout st rate =
    header set_settings 64 ++ u32_bytes rate ++ u32_bytes 0 ++ layout.bytes st

-- What `connect` makes of the acknowledgement that it has received.
unfoldable pub accepted : List ℕ → Bool
accepted ack = not (read_u32 ack 8 == 0)
