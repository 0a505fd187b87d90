-- ===== src/Daemon/Session.antt =====
-- `session_start`, `session_stop` and `mixer_init_once` of platform/daemon/uf-daemon.cpp, with none of the
-- diagnostic environment variables set. A call to the driver is a value; its reads of the device are
-- answered by a parameter, and every write is taken.
pub mod Order
pub mod Geometry
use userface.Base.{
  ℕ, zero, suc, ◌+◌, ◌-◌, ◌*◌, ◌/◌, ◌%◌, ◌^◌, Bool, true, false, not, ◌&&◌, List, [], ◌∷◌, ◌++◌,
  Option, none, some, replicate, bit_or, u32, ltb, ◌==◌, if◌then◌else◌, ◌<<◌,
}
use userface.Protocol.Rate.{Speed, is_supported_rate, speed_for_rate}
use userface.Protocol.Channels.{
  send_all, data_block_quadlets, frames_per_packet, blocking_full_count,
}
use userface.Protocol.Settings.{SettingsShadow, assemble_conf_block}
use userface.Protocol.Control.{conf_block}
use userface.Mixer.{MixerShadow, mixer_ram, cell_count}
use userface.Mixer.Model.{MixerModel, reset_defaults, import_cells, render}
use userface.Mixer.Model.Blob.{Blob, from_blob}
use userface.Ctl.Apply.{rec_entries, output_rec_mask}

abbrev pub host_led : ℕ
host_led = 0x2_0000_0324

abbrev pub status0 : ℕ
status0 = 0x801c_0000

abbrev pub init_bank_stream : ℕ
init_bank_stream = 0x2_0000_001c

abbrev pub init_bank_start : ℕ
init_bank_start = 0x2_0000_0028

abbrev pub init_bank_stop : ℕ
init_bank_stop = 0x2_0000_0034

abbrev pub tx_slots : ℕ
tx_slots = 640

abbrev pub tx_slot_bytes : ℕ
tx_slot_bytes = 2048

abbrev pub no_channel : ℕ
no_channel = 0xffff_ffff

-- The calls that a session makes of the driver.
pub data Call : Type 0 where
  write_quadlet : ℕ → ℕ → Call
  write_block : ℕ → List ℕ → Call
  iso_start : ℕ → Call
  iso_tx_start : ℕ → ℕ → ℕ → Call
  iso_stop iso_tx_stop : Call

pub record Session : Type 0 where
  pub rate : ℕ
  pub speed : Speed
  pub dbq : ℕ
  pub rx_channel : ℕ
  pub dbq_flag : ℕ
  pub tx_channel : ℕ
  pub syt_interval : ℕ
  pub full_payload : ℕ
  pub full_count : ℕ

unfoldable pub session_stop : Session → List Call
session_stop s =
    write_block status0 (replicate s.dbq 1)
    ∷ iso_stop
    ∷ iso_tx_stop
    ∷ write_block init_bank_stop (0 ∷ 0 ∷ 0 ∷ [])
    ∷ []

-- What `load_blob` brings back, at the two versions.
pub data Saved : Type 0 where
  nothing_saved : Saved
  saved_blob : Blob → Saved
  saved_cells : (ℕ → ℕ) → ℕ → Saved

-- `mixer_init_once`: the flag that it has run, and the mixer.
unfoldable pub mixer_init_once : ℕ → Saved → Bool → MixerModel → Bool × MixerModel
mixer_init_once dbq saved true m = (true, m)
mixer_init_once dbq nothing_saved false m = (true, reset_defaults dbq true)
mixer_init_once dbq (saved_blob b) false m = (true, from_blob b (reset_defaults dbq true))
mixer_init_once dbq (saved_cells cells count) false m =
    (true, import_cells cells count (reset_defaults dbq true))

-- `apply_all` of the shadow, up to cell `n`.
unfoldable pub apply_all : ℕ → MixerShadow → List Call
apply_all zero sh = []
apply_all (suc i) sh = apply_all i sh ++ write_quadlet (mixer_ram + i * 4) (sh i) ∷ []

-- The poll for the device's channel: at most `n` tries from try `i` on, ended by a read that fails.
unfoldable pub poll_channel : (ℕ → Option ℕ) → ℕ → ℕ → ℕ → ℕ
poll_channel rq zero i tx = tx
poll_channel rq (suc n) i tx =
    if tx == no_channel
    then elim (rq i) [ none ↦ tx | some v ↦ poll_channel rq n (i + 1) v ]
    else tx

-- The frames of a full packet, and how many packets of the ring are full.
unfoldable pub syt_interval_of : ℕ → ℕ
syt_interval_of rate =
    if rate % 8000 == 0 then rate / 8000 else frames_per_packet (speed_for_rate rate)

unfoldable pub full_count_of : ℕ → ℕ
full_count_of rate =
    if rate % 8000 == 0 then tx_slots else blocking_full_count rate (speed_for_rate rate)

abbrev pub rx : ℕ
rx = 1

unfoldable pub geometry : ℕ → ℕ → Session
geometry rate tx =
    let dbq = data_block_quadlets (speed_for_rate rate) send_all in
    record {
      rate = rate;
      speed = speed_for_rate rate;
      dbq = dbq;
      rx_channel = rx;
      dbq_flag = bit_or dbq 0x800;
      tx_channel = tx;
      syt_interval = syt_interval_of rate;
      full_payload = u32 (syt_interval_of rate * dbq * 4);
      full_count = full_count_of rate;
    }

-- The calls before the poll.
unfoldable pub setup_calls : ℕ → SettingsShadow → MixerModel → List Call
setup_calls rate settings m =
    let s = geometry rate no_channel in
    let cb = assemble_conf_block settings in
    write_quadlet host_led 0
    ∷ write_block conf_block (cb.cr0 ∷ cb.cr1 ∷ cb.cr2 ∷ [])
    ∷ write_block status0 (replicate s.dbq 1)
    ∷ write_block output_rec_mask (rec_entries s.dbq m)
    ∷ write_block init_bank_stream (rate ∷ bit_or (u32 (s.dbq << 11)) rx ∷ s.dbq_flag ∷ [])
    ∷ []

-- The calls after it.
unfoldable pub start_calls : Session → MixerModel → List Call
start_calls s m =
    apply_all cell_count (render m)
    ++ (write_quadlet init_bank_start (bit_or 0x8000_0000 s.dbq_flag)
        ∷ iso_start s.tx_channel
        ∷ iso_tx_start rx s.full_payload s.full_count
        ∷ write_block status0 (replicate s.dbq 0)
        ∷ [])

-- What `session_start` leaves: the calls that it made, the session if it is up, and the mixer.
pub record Started : Type 0 where
  pub calls : List Call
  pub session : Option Session
  pub initialised : Bool
  pub model : MixerModel
  pub shadow : MixerShadow

unfoldable pub session_start :
    (ℕ → Option ℕ) → ℕ → SettingsShadow → Saved → Bool → MixerModel → MixerShadow → Started
session_start rq rate settings saved init m sh =
    let dbq = data_block_quadlets (speed_for_rate rate) send_all in
    let mixer = mixer_init_once dbq saved init m in
    let tx = poll_channel rq 100 0 no_channel in
    let s = geometry rate tx in
    if not (is_supported_rate rate)
    then record { calls = []; session = none; initialised = init; model = m; shadow = sh }
    else if tx == no_channel
    then record {
      calls = setup_calls rate settings mixer.1;
      session = none;
      initialised = mixer.0;
      model = mixer.1;
      shadow = sh;
    }
    else record {
      calls = setup_calls rate settings mixer.1 ++ start_calls s mixer.1;
      session = some s;
      initialised = mixer.0;
      model = mixer.1;
      shadow = render mixer.1;
    }
