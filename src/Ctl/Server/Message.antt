-- ===== src/Ctl/Server/Message.antt =====
-- The messages of the client and the commands that they stand for.
use userface.Base.{
  ℕ, ◌+◌, ◌*◌, ◌/◌, ◌%◌, ◌^◌, ◌<◌, ◌≡◌, refl, subst, List, [], ◌∷◌, ◌++◌, length, Bool, true, false,
  arith, if◌then◌else◌, some, u16_bytes, u32_bytes,
}
use userface.Protocol.Settings.{SettingsShadow}
use userface.Ctl.Proto.{
  set_mixer, set_fader, set_settings, set_cell_flags, set_out_flags, set_stereo_type, submix,
  SettingsLayout, CtlCommand, new_command,
}
use userface.Ctl.Client.{
  set_mixer_msg, set_fader_msg, set_cell_flags_msg, set_out_flags_msg, set_stereo_msg,
  copy_submix_msg, clear_submix_msg, set_settings_msg,
}
use userface.Ctl.Queue.{CtlQueue, push}
use userface.Ctl.Server.{
  Socket, push_sized, dispatch, handle_message, handle_body, handle_header, handle,
}

-- The calls of the client that send a message, with their arguments.
pub data Message : Type 0 where
  mixer : ℕ → ℕ → ℕ → ℕ → Message
  fader : ℕ → ℕ → Message
  cell_flags : ℕ → ℕ → ℕ → ℕ → ℕ → Message
  out_flags : ℕ → ℕ → ℕ → Message
  stereo : ℕ → ℕ → Bool → Message
  copy : ℕ → ℕ → Message
  empty : ℕ → Message
  config : SettingsShadow → ℕ → Message

abbrev pub encode : SettingsLayout → Message → List ℕ
encode layout (mixer kind src dest coeff) = set_mixer_msg kind src dest coeff
encode layout (fader out coeff) = set_fader_msg out coeff
encode layout (cell_flags kind src dest mask value) = set_cell_flags_msg kind src dest mask value
encode layout (out_flags out mask value) = set_out_flags_msg out mask value
encode layout (stereo kind channel on) = set_stereo_msg kind channel on
encode layout (copy from to) = copy_submix_msg from to
encode layout (empty out) = clear_submix_msg out
encode layout (config st rate) = set_settings_msg layout st rate

-- The arguments fit their types.
abbrev pub Fits : Message → Type 0
Fits (mixer kind src dest coeff) =
    (kind < 2 ^ 16) × (src < 2 ^ 16) × (dest < 2 ^ 16) × (coeff < 2 ^ 32)
Fits (fader out coeff) = (out < 2 ^ 16) × (coeff < 2 ^ 32)
Fits (cell_flags kind src dest mask value) =
    (kind < 2 ^ 16) × (src < 2 ^ 16) × (dest < 2 ^ 16) × (mask < 2 ^ 16) × (value < 2 ^ 16)
Fits (out_flags out mask value) = (out < 2 ^ 16) × (mask < 2 ^ 16) × (value < 2 ^ 16)
Fits (stereo kind channel on) = (kind < 2 ^ 16) × (channel < 2 ^ 16)
Fits (copy from to) = (from < 2 ^ 16) × (to < 2 ^ 16)
Fits (empty out) = out < 2 ^ 16
Fits (config st rate) = rate < 2 ^ 32

-- The command that the call asks for.
abbrev pub command : Message → CtlCommand
command (mixer kind src dest coeff) = record (new_command set_mixer) {
  src_kind = kind;
  src = src;
  dest = dest;
  coeff = coeff;
}
command (fader out coeff) = record (new_command set_fader) { out = out; coeff = coeff }
command (cell_flags kind src dest mask value) = record (new_command set_cell_flags) {
  src_kind = kind;
  src = src;
  dest = dest;
  mask = mask;
  flags = value;
}
command (out_flags out mask value) = record (new_command set_out_flags) {
  out = out;
  mask = mask;
  flags = value;
}
command (stereo kind channel on) = record (new_command set_stereo_type) {
  src_kind = kind;
  src = channel;
  on = if on then 1 else 0;
}
command (copy from to) = record (new_command submix) { src = from; dest = to }
command (empty out) = record (new_command submix) { dest = out; on = 1 }
command (config st rate) = record (new_command set_settings) { rate = rate; settings = st }

pub u16_word : (x : ℕ) → x < 2 ^ 16 → x % 256 + x / 256 % 256 * 256 ≡ x
u16_word x h = omega arith

pub u32_word :
    (x : ℕ)
    → x < 2 ^ 32
    → x % 256 + x / 256 % 256 * 256 + x / 65536 % 256 * 65536 + x / 16777216 % 256 * 16777216 ≡ x
u32_word x h = omega arith

module _ (sock : Socket) (layout : SettingsLayout) where
  -- A message in front of other bytes is taken off the stream by its length.
  handle-framed :
      (b0 b1 b2 b3 n : ℕ) (body rest : List ℕ) (q : CtlQueue)
      → length body ≡ n
      → 0 < n
      → n < 200
      → let h = b0 ∷ b1 ∷ b2 ∷ b3 ∷ u32_bytes (8 + n) in
        handle sock layout (h ++ (body ++ rest)) q ≡ handle_message sock layout (h ++ body) q rest
  unfolding handle handle_header handle_body
  handle-framed b0 b1 b2 b3 n body rest q e l u =
      let h = b0 ∷ b1 ∷ b2 ∷ b3 ∷ u32_bytes (8 + n) in
      let first = sock.recv-append h (body ++ rest) in
      let word = u32_word (8 + n) (omega arith) in
      let second : sock.recv n (body ++ rest) ≡ some (body, rest) =
        subst (λ k. sock.recv k (body ++ rest) ≡ some (body, rest)) e
          (sock.recv-append body rest) in
      rw (first, word) (ground arith)

  -- Every message that the client sends, in front of any other bytes, keeps the client, puts in the queue
  -- exactly the command that the call asks for, with its arguments whole, and leaves those other bytes.
  pub handle-encode :
      (m : Message) (rest : List ℕ) (q : CtlQueue)
      → Fits m
      → handle sock layout (encode layout m ++ rest) q
        ≡ record { keep = true; sent = []; queue = push (command m) q; rest = rest }
  unfolding set_mixer_msg set_fader_msg set_cell_flags_msg set_out_flags_msg set_stereo_msg
      copy_submix_msg clear_submix_msg set_settings_msg handle_message dispatch push_sized
  handle-encode (mixer kind src dest coeff) rest q (a, b, c, d) =
      let body =
        u16_bytes kind ++ u16_bytes src ++ u16_bytes dest ++ u16_bytes 0 ++ u32_bytes coeff in
      rw
        (
          handle-framed 2 0 3 0 12 body rest q refl (omega arith) (omega arith),
          u16_word kind a,
          u16_word src b,
          u16_word dest c,
          u32_word coeff d,
        )
        refl
  handle-encode (fader out coeff) rest q (a, d) =
      let body = u16_bytes out ++ u16_bytes 0 ++ u32_bytes coeff in
      rw
        (
          handle-framed 2 0 4 0 8 body rest q refl (omega arith) (omega arith),
          u16_word out a,
          u32_word coeff d,
        )
        refl
  handle-encode (cell_flags kind src dest mask value) rest q (a, b, c, d, e) =
      let body =
        u16_bytes kind
        ++ u16_bytes src
        ++ u16_bytes dest
        ++ u16_bytes mask
        ++ u16_bytes value
        ++ u16_bytes 0 in
      rw
        (
          handle-framed 2 0 6 0 12 body rest q refl (omega arith) (omega arith),
          u16_word kind a,
          u16_word src b,
          u16_word dest c,
          u16_word mask d,
          u16_word value e,
        )
        refl
  handle-encode (out_flags out mask value) rest q (a, b, c) =
      let body = u16_bytes out ++ u16_bytes mask ++ u16_bytes value ++ u16_bytes 0 in
      rw
        (
          handle-framed 2 0 7 0 8 body rest q refl (omega arith) (omega arith),
          u16_word out a,
          u16_word mask b,
          u16_word value c,
        )
        refl
  handle-encode (stereo kind channel true) rest q (a, b) =
      let body = u16_bytes kind ++ u16_bytes channel ++ u16_bytes 1 ++ u16_bytes 0 in
      rw
        (
          handle-framed 2 0 8 0 8 body rest q refl (omega arith) (omega arith),
          u16_word kind a,
          u16_word channel b,
        )
        refl
  handle-encode (stereo kind channel false) rest q (a, b) =
      let body = u16_bytes kind ++ u16_bytes channel ++ u16_bytes 0 ++ u16_bytes 0 in
      rw
        (
          handle-framed 2 0 8 0 8 body rest q refl (omega arith) (omega arith),
          u16_word kind a,
          u16_word channel b,
        )
        refl
  handle-encode (copy from to) rest q (a, b) =
      let body = u16_bytes from ++ u16_bytes to ++ u32_bytes 0 in
      rw
        (
          handle-framed 2 0 9 0 8 body rest q refl (omega arith) (omega arith),
          u16_word from a,
          u16_word to b,
        )
        refl
  handle-encode (empty out) rest q a =
      let body = u16_bytes 0 ++ u16_bytes out ++ u32_bytes 1 in
      rw (handle-framed 2 0 9 0 8 body rest q refl (omega arith) (omega arith), u16_word out a) refl
  handle-encode (config st rate) rest q a =
      let start = u32_bytes rate ++ u32_bytes 0 in
      rw
        (
          handle-framed 2 0 5 0 56 (start ++ layout.bytes st) rest q
              (omega (arith, layout.length-bytes st)) (omega arith) (omega arith),
          u32_word rate a,
          layout.read_at-bytes (u16_bytes 2 ++ u16_bytes set_settings ++ u32_bytes 64 ++ start) st,
        )
        refl
