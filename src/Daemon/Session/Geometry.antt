-- ===== src/Daemon/Session/Geometry.antt =====
-- The packets of a session.
use userface.Base.{ℕ, ◌*◌, ◌≤◌, ◌≡◌, refl, arith, Bool, true, ◌&&◌, leb, ◌==◌}
use userface.Protocol.Rate.{rates, speed_for_rate, is_supported_rate}
use userface.Protocol.Rate.Codes.{every_rate, at_rate}
use userface.Protocol.Channels.{
  data_block_quadlets, frames_per_packet, blocking_full_count, pcm_channels, analog_channels,
  spdif_channels, adat_channels, adat_base,
}
use userface.Daemon.Session.{geometry, syt_interval_of, full_count_of}

fits : ℕ → Bool
fits rate =
    let s = geometry rate 0 in
    leb s.full_payload 2048
    && leb s.full_count 640
    && (s.full_count * s.syt_interval * 8000 == rate * 640)
    && (s.full_payload == s.syt_interval * s.dbq * 4)

fits_table : every_rate rates fits ≡ true
unfolding every_rate fits geometry syt_interval_of full_count_of data_block_quadlets
    frames_per_packet blocking_full_count speed_for_rate pcm_channels analog_channels spdif_channels
    adat_channels adat_base
fits_table = refl

-- At every supported rate a full packet fits its slot and the full packets fit the ring, and the frames
-- of a lap of the ring are exactly those that the rate asks for in its 640 cycles.
pub geometry_lem :
    (rate tx : ℕ)
    → is_supported_rate rate ≡ true
    → let s = geometry rate tx in
      (s.full_payload ≤ 2048)
      × (s.full_payload ≡ s.syt_interval * s.dbq * 4)
      × (s.full_count ≤ 640)
      × (s.full_count * s.syt_interval * 8000 ≡ rate * 640)
unfolding geometry fits
geometry_lem rate tx h =
    let t = at_rate fits rate fits_table h in
    (ground arith, ground arith, ground arith, ground arith)
