-- ===== src/Daemon/Session/Order.antt =====
-- The order of a session's calls, and what they come to.
use userface.Base.{
  ℕ, zero, suc, ◌+◌, ◌*◌, ◌≤◌, ◌<◌, ◌≡◌, refl, ◌∙◌, arith, Bool, true, false, not, ◌&&◌, ◌||◌, List,
  [], ◌∷◌, ◌++◌, Option, none, some, replicate, bit_or, Bool-cases, inl, inr, ltb, ◌==◌,
  if◌then◌else◌,
}
use userface.Protocol.Rate.{is_supported_rate, speed_for_rate}
use userface.Protocol.Channels.{
  send_all, data_block_quadlets, pcm_channels, analog_channels, spdif_channels,
}
use userface.Protocol.Settings.{SettingsShadow}
use userface.Mixer.{MixerShadow, mixer_ram}
use userface.Mixer.Model.{MixerModel, render}
use userface.Daemon.Session.{
  Session, Call, write_quadlet, write_block, iso_start, iso_tx_start, iso_stop, iso_tx_stop,
  session_stop, Saved, mixer_init_once, apply_all, poll_channel, no_channel, rx, geometry,
  setup_calls, start_calls, session_start, host_led, status0, init_bank_start, init_bank_stop,
}

-- What the device and the driver are doing: the device fetches samples to its outputs, it is armed, and
-- the two isochronous contexts run.
pub record Stream : Type 0 where
  pub fetching : Bool
  pub armed : Bool
  pub capturing : Bool
  pub transmitting : Bool

abbrev has_zero : List ℕ → Bool
has_zero [] = false
has_zero (x ∷ xs) = if x == 0 then true else has_zero xs

abbrev pub step : Call → Stream → Stream
step (write_quadlet a v) s = if a == init_bank_start then record s { armed = true } else s
step (write_block a vs) s =
    if a == status0
    then record s { fetching = has_zero vs }
    else if a == init_bank_stop
    then record s { armed = false }
    else s
step (iso_start ch) s = record s { capturing = true }
step (iso_tx_start ch payload count) s = record s { transmitting = true }
step iso_stop s = record s { capturing = false }
step iso_tx_stop s = record s { transmitting = false }

abbrev pub run : List Call → Stream → Stream
run [] s = s
run (c ∷ cs) s = run cs (step c s)

-- The device never fetches but from a stream that runs.
abbrev pub is_safe : Stream → Bool
is_safe s = not s.fetching || s.armed && s.capturing && s.transmitting

abbrev pub always_safe : List Call → Stream → Bool
always_safe [] s = is_safe s
always_safe (c ∷ cs) s = is_safe s && always_safe cs (step c s)

abbrev pub quiet : Bool → Stream
quiet on = record { fetching = on; armed = on; capturing = on; transmitting = on }

-- The value of cell `i` of the mixer after some calls, had it `x` before.
abbrev pub cell_after : ℕ → List Call → ℕ → ℕ
cell_after i [] x = x
cell_after i (write_quadlet a v ∷ cs) x = cell_after i cs (if a == mixer_ram + i * 4 then v else x)
cell_after i (write_block a vs ∷ cs) x = cell_after i cs x
cell_after i (iso_start ch ∷ cs) x = cell_after i cs x
cell_after i (iso_tx_start ch payload count ∷ cs) x = cell_after i cs x
cell_after i (iso_stop ∷ cs) x = cell_after i cs x
cell_after i (iso_tx_stop ∷ cs) x = cell_after i cs x

run-append : (xs ys : List Call) (s : Stream) → run (xs ++ ys) s ≡ run ys (run xs s)
run-append [] ys s = refl
run-append (x ∷ xs) ys s = run-append xs ys (step x s)

always_safe-append :
    (xs ys : List Call) (s : Stream)
    → always_safe xs s ≡ true
    → always_safe ys (run xs s) ≡ true
    → always_safe (xs ++ ys) s ≡ true
always_safe-append [] ys s h k = k
always_safe-append (x ∷ xs) ys s h k =
    let ih = always_safe-append xs ys (step x s) (ground arith) k in ground arith

-- The matrix is written without a change of the stream.
apply_all-quiet :
    (n : ℕ) (sh : MixerShadow) (s : Stream)
    → n ≤ 2048
    → is_safe s ≡ true
    → (run (apply_all n sh) s ≡ s) × (always_safe (apply_all n sh) s ≡ true)
unfolding apply_all
apply_all-quiet zero sh s h k = (refl, k)
apply_all-quiet (suc n) sh s h k =
    let ih = apply_all-quiet n sh s (omega arith) k in
    let last = write_quadlet (mixer_ram + n * 4) (sh n) in
    let other : (mixer_ram + n * 4 == init_bank_start) ≡ false = ground arith in
    let plain : step last s ≡ s = rw other refl in
    (
      run-append (apply_all n sh) (last ∷ []) s ∙ rw (ih.0, plain) refl,
      always_safe-append (apply_all n sh) (last ∷ []) s ih.1 (rw (ih.0, plain, k) refl),
    )

cell_after-append :
    (i : ℕ) (xs ys : List Call) (x : ℕ)
    → cell_after i (xs ++ ys) x ≡ cell_after i ys (cell_after i xs x)
cell_after-append i [] ys x = refl
cell_after-append i (write_quadlet a v ∷ xs) ys x =
    cell_after-append i xs ys (if a == mixer_ram + i * 4 then v else x)
cell_after-append i (write_block a vs ∷ xs) ys x = cell_after-append i xs ys x
cell_after-append i (iso_start ch ∷ xs) ys x = cell_after-append i xs ys x
cell_after-append i (iso_tx_start ch p c ∷ xs) ys x = cell_after-append i xs ys x
cell_after-append i (iso_stop ∷ xs) ys x = cell_after-append i xs ys x
cell_after-append i (iso_tx_stop ∷ xs) ys x = cell_after-append i xs ys x

-- The matrix is written whole.
cell_after-apply_all :
    (n i : ℕ) (sh : MixerShadow) (x : ℕ)
    → cell_after i (apply_all n sh) x ≡ (if ltb i n then sh i else x)
unfolding apply_all
cell_after-apply_all zero i sh x = ground arith
cell_after-apply_all (suc n) i sh x =
    rw
      (
        cell_after-append i (apply_all n sh) (write_quadlet (mixer_ram + n * 4) (sh n) ∷ []) x,
        cell_after-apply_all n i sh x,
      )
      (ground arith)

ones_closed : (n : ℕ) → has_zero (replicate n 1) ≡ false
ones_closed zero = refl
ones_closed (suc n) = ones_closed n

zeros_open : (n : ℕ) → 0 < n → has_zero (replicate n 0) ≡ true
zeros_open zero h = absurd (omega arith)
zeros_open (suc n) h = refl

some_channels : (rate : ℕ) → 0 < data_block_quadlets (speed_for_rate rate) send_all
unfolding data_block_quadlets pcm_channels analog_channels spdif_channels
some_channels rate = ground arith

-- Up to the poll nothing runs and nothing is fetched.
setup_lem :
    (rate : ℕ) (settings : SettingsShadow) (m : MixerModel) (i x : ℕ)
    → i < 2048
    → (run (setup_calls rate settings m) (quiet false) ≡ quiet false)
      × (always_safe (setup_calls rate settings m) (quiet false) ≡ true)
      × (cell_after i (setup_calls rate settings m) x ≡ x)
unfolding setup_calls geometry
setup_lem rate settings m i x h =
    let dbq = data_block_quadlets (speed_for_rate rate) send_all in
    let elsewhere : (host_led == mixer_ram + i * 4) ≡ false = ground arith in
    (rw (ones_closed dbq) refl, rw (ones_closed dbq) refl, rw elsewhere refl)

-- From there on the fetch comes last.
start_lem :
    (rate tx : ℕ) (m : MixerModel) (i x : ℕ)
    → i < 2048
    → let calls = start_calls (geometry rate tx) m in
      (run calls (quiet false) ≡ quiet true)
      × (always_safe calls (quiet false) ≡ true)
      × (cell_after i calls x ≡ render m i)
unfolding start_calls geometry
start_lem rate tx m i x h =
    let s = geometry rate tx in
    let dbq = data_block_quadlets (speed_for_rate rate) send_all in
    let open_all = zeros_open dbq (some_channels rate) in
    let last =
      write_quadlet init_bank_start (bit_or 0x8000_0000 s.dbq_flag)
      ∷ iso_start s.tx_channel
      ∷ iso_tx_start rx s.full_payload s.full_count
      ∷ write_block status0 (replicate s.dbq 0)
      ∷ [] in
    let matrix = apply_all-quiet 2048 (render m) (quiet false) (omega arith) refl in
    let elsewhere : (init_bank_start == mixer_ram + i * 4) ≡ false = ground arith in
    let inside : ltb i 2048 ≡ true = ground arith in
    (
      run-append (apply_all 2048 (render m)) last (quiet false) ∙ rw (open_all) refl,
      always_safe-append (apply_all 2048 (render m)) last (quiet false) matrix.1
          (rw (matrix.0, open_all) refl),
      cell_after-append i (apply_all 2048 (render m)) last x
          ∙ rw (elsewhere, cell_after-apply_all 2048 i (render m) x, inside) refl,
    )

-- Starting a session at a supported rate, from a quiet stream: the device never fetches samples unless it
-- is armed and both contexts run. If the device gives a channel the session is up with all of them on,
-- and every cell of the mixer holds what the mixer renders to; if not, all are off, no cell was written
-- and there is no session.
pub session_start_lem :
    (rq : ℕ → Option ℕ) (rate : ℕ) (settings : SettingsShadow) (saved : Saved) (init : Bool)
    (m : MixerModel) (sh : MixerShadow) (i x : ℕ)
    → is_supported_rate rate ≡ true
    → i < 2048
    → let o = session_start rq rate settings saved init m sh in
      let tx = poll_channel rq 100 0 no_channel in
      let up = not (tx == no_channel) in
      (always_safe o.calls (quiet false) ≡ true)
      × (run o.calls (quiet false) ≡ quiet up)
      × (cell_after i o.calls x ≡ (if up then render o.model i else x))
      × (o.session ≡ (if up then some (geometry rate tx) else none))
unfolding session_start
session_start_lem rq rate settings saved init m sh i x hr hi =
    let tx = poll_channel rq 100 0 no_channel in
    let mixer =
      (mixer_init_once (data_block_quadlets (speed_for_rate rate) send_all) saved init m).1 in
    let a = setup_lem rate settings mixer i x hi in
    let b = start_lem rate tx mixer i x hi in
    elim (Bool-cases (tx == no_channel)) [
      | inl missing ↦ rw (hr, missing) (a.1, a.0, a.2, refl)
      | inr found ↦
          let setup = setup_calls rate settings mixer in
          let start = start_calls (geometry rate tx) mixer in
          rw (hr, found)
            (
              always_safe-append setup start (quiet false) a.1 (rw (a.0) (b.1)),
              run-append setup start (quiet false) ∙ rw (a.0) (b.0),
              cell_after-append i setup start x ∙ rw (a.2) (b.2),
              refl,
            )
    ]

-- Stopping it leaves everything off, and on the way the fetch is the first to go.
pub session_stop_lem :
    (s : Session)
    → (run (session_stop s) (quiet true) ≡ quiet false)
      × (always_safe (session_stop s) (quiet true) ≡ true)
unfolding session_stop
session_stop_lem s = (rw (ones_closed s.dbq) refl, rw (ones_closed s.dbq) refl)
