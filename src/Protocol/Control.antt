-- ===== src/Protocol/Control.antt =====
-- include/uf/protocol/control.hpp and stream.hpp: the register writes that push the configuration and
-- that start and stop a stream.
pub mod Stream
use userface.Base.{ℕ, ◌+◌, ◌*◌, ◌^◌, Bool, true, false, bit_or, u32, List, [], ◌∷◌, ◌<<◌}
use userface.Protocol.Rate.{Speed, stf_value}
use userface.Protocol.Settings.{SettingsShadow, default_settings, ConfBlock, assemble_conf_block}
use userface.Protocol.ClockConfig.{assemble_clock_config}
use userface.Protocol.Channels.{BwLimit, data_block_quadlets}

-- The addresses of registers.hpp.
abbrev pub stf : ℕ
stf = 0xfc88_f000

abbrev pub rx_packet_format : ℕ
rx_packet_format = 0xfc88_f004

abbrev pub alloc_tx_stream : ℕ
alloc_tx_stream = 0xfc88_f008

abbrev pub isoc_comm_start : ℕ
isoc_comm_start = 0xfc88_f00c

abbrev pub isoc_comm_stop : ℕ
isoc_comm_stop = 0xfc88_f010

abbrev pub conf_block : ℕ
conf_block = 0xfc88_f014

abbrev pub clock_config : ℕ
clock_config = 0x801c_0004

-- `RegWrite`, by its kind.
pub data RegWrite : Type 0 where
  quadlet_write : ℕ → ℕ → RegWrite
  block_write : ℕ → List ℕ → RegWrite

pub record UfControl : Type 0 where
  pub rate : ℕ
  pub settings : SettingsShadow

unfoldable pub new_control : UfControl
new_control = record { rate = 44100; settings = default_settings }

unfoldable pub set_sample_rate : ℕ → UfControl → UfControl
set_sample_rate hz c = record c { rate = hz }

unfoldable pub set_settings : SettingsShadow → UfControl → UfControl
set_settings s c = record c { settings = s }

unfoldable pub rate_write : UfControl → RegWrite
rate_write c = quadlet_write stf (stf_value c.rate)

unfoldable pub conf_block_write : UfControl → RegWrite
conf_block_write c =
    let cb = assemble_conf_block c.settings in
    block_write conf_block (cb.cr0 ∷ cb.cr1 ∷ cb.cr2 ∷ [])

unfoldable pub clock_config_write : UfControl → RegWrite
clock_config_write c =
    quadlet_write clock_config
      (assemble_clock_config c.settings.clock_master c.settings.sync_ref c.rate)

unfoldable pub full_rewrite : UfControl → List RegWrite
full_rewrite c = rate_write c ∷ conf_block_write c ∷ []

pub data BusSpeed : Type 0 where
  s400 s800 : BusSpeed

unfoldable pub rx_packet_format_value : ℕ → ℕ → ℕ
rx_packet_format_value dbq rx_channel = bit_or (u32 (u32 (dbq << 3) << 8)) rx_channel

unfoldable pub rx_packet_format_write : ℕ → ℕ → RegWrite
rx_packet_format_write dbq rx_channel =
    quadlet_write rx_packet_format (rx_packet_format_value dbq rx_channel)

unfoldable pub alloc_tx_stream_write : ℕ → RegWrite
alloc_tx_stream_write dbq = quadlet_write alloc_tx_stream dbq

-- The flag of S800 in `comm_start_value`.
unfoldable pub speed_flag : BusSpeed → ℕ
speed_flag s400 = 0
speed_flag s800 = 0x800

unfoldable pub comm_start_value : ℕ → BusSpeed → ℕ
comm_start_value dbq bus = bit_or (bit_or 0x8000_0000 dbq) (speed_flag bus)

unfoldable pub comm_start_write : ℕ → BusSpeed → RegWrite
comm_start_write dbq bus = quadlet_write isoc_comm_start (comm_start_value dbq bus)

unfoldable pub comm_stop_write : RegWrite
comm_stop_write = quadlet_write isoc_comm_stop 0x8000_0000

unfoldable pub start_writes : ℕ → ℕ → BusSpeed → List RegWrite
start_writes dbq rx_channel bus =
    rx_packet_format_write dbq rx_channel
    ∷ alloc_tx_stream_write dbq
    ∷ comm_start_write dbq bus
    ∷ []

unfoldable pub stream_start_writes : Speed → BwLimit → ℕ → BusSpeed → List RegWrite
stream_start_writes s m rx_channel bus = start_writes (data_block_quadlets s m) rx_channel bus
