-- ===== src/Daemon/Tests.antt =====
-- Runs of a session at 48 kHz.
use userface.Base.{
  ℕ, ◌*◌, ◌≤◌, ◌≡◌, refl, arith, true, false, not, Option, none, some, ◌==◌, if◌then◌else◌,
}
use userface.Protocol.Rate.{is_supported_rate, has_rate}
use userface.Protocol.Settings.{default_settings}
use userface.Mixer.{clear}
use userface.Mixer.Model.{render, reset_defaults}
use userface.Daemon.Session.{nothing_saved, poll_channel, no_channel, geometry, session_start}
use userface.Daemon.Session.Order.{always_safe, run, quiet, cell_after, session_start_lem}
use userface.Daemon.Session.Geometry.{geometry_lem}

-- A device that gives channel 2 at the third reading.
abbrev third_time : ℕ → Option ℕ
third_time i = if i == 2 then some 2 else some no_channel

channel_is_given : poll_channel third_time 100 0 no_channel ≡ 2
unfolding poll_channel
channel_is_given = refl

is_48000 : is_supported_rate 48000 ≡ true
unfolding is_supported_rate has_rate
is_48000 = refl

is_44100 : is_supported_rate 44100 ≡ true
unfolding is_supported_rate has_rate
is_44100 = refl

session_start_example :
    let o =
      session_start third_time 48000 default_settings nothing_saved false
        (reset_defaults 0 true)
        clear in
    let tx = poll_channel third_time 100 0 no_channel in
    let up = not (tx == no_channel) in
    (always_safe o.calls (quiet false) ≡ true)
    × (run o.calls (quiet false) ≡ quiet up)
    × (cell_after 32 o.calls 77 ≡ (if up then render o.model 32 else 77))
    × (o.session ≡ (if up then some (geometry 48000 tx) else none))
session_start_example =
    session_start_lem third_time 48000 default_settings nothing_saved false (reset_defaults 0 true)
      clear 32 77 is_48000 (omega arith)

geometry_example :
    let s = geometry 44100 2 in
    (s.full_payload ≤ 2048)
    × (s.full_payload ≡ s.syt_interval * s.dbq * 4)
    × (s.full_count ≤ 640)
    × (s.full_count * s.syt_interval * 8000 ≡ 44100 * 640)
geometry_example = geometry_lem 44100 2 is_44100
