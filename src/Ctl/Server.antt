-- ===== src/Ctl/Server.antt =====
-- `CtlServer::handle` of platform/daemon/uf_ctl_server.hpp. A client's connection is the bytes that it
-- sends before it closes; the calls of the socket are a parameter.
pub mod Message
pub mod Session
pub mod Refuse
use userface.Base.{
  ℕ, zero, suc, ◌+◌, ◌-◌, ◌*◌, ◌<◌, ◌≡◌, List, [], ◌∷◌, ◌++◌, length, Bool, true, false, not, ◌||◌,
  ltb, ◌==◌, if◌then◌else◌, Option, none, some, u16_bytes, u32_bytes, read_u16, read_u32,
}
use userface.Ctl.Proto.{
  ctl_version, max_msg_bytes, hello, hello_ack, set_mixer, set_fader, set_settings, set_cell_flags,
  set_out_flags, set_stereo_type, submix, SettingsLayout, CtlCommand, new_command,
}
use userface.Ctl.Queue.{CtlQueue, push}

-- `recv` with MSG_WAITALL hands out the next bytes, all that were asked for or, at the end of the
-- stream, none; `send` tells whether it took the whole reply.
pub record Socket : Type 0 where
  pub recv : ℕ → List ℕ → Option (List ℕ × List ℕ)
  pub send : List ℕ → Bool
  pub recv-append : (xs ys : List ℕ) → recv (length xs) (xs ++ ys) ≡ some (xs, ys)
  pub recv-short : (n : ℕ) (xs : List ℕ) → length xs < n → recv n xs ≡ none

-- What a call of `handle` leaves: whether the client stays, the bytes that it is sent, the queue and
-- the bytes that are still to be read.
pub record Outcome : Type 0 where
  pub keep : Bool
  pub sent : List ℕ
  pub queue : CtlQueue
  pub rest : List ℕ

abbrev pub hello_ack_msg : ℕ → List ℕ
hello_ack_msg ok =
    u16_bytes ctl_version
    ++ u16_bytes hello_ack
    ++ u32_bytes 16
    ++ u32_bytes ok
    ++ u32_bytes ctl_version

abbrev pub dropped_client : CtlQueue → List ℕ → Outcome
dropped_client q rest = record { keep = false; sent = []; queue = q; rest = rest }

-- A case of the `switch` that pushes a command: the size of the message is checked, then `push`.
unfoldable pub push_sized : ℕ → ℕ → CtlCommand → CtlQueue → List ℕ → Outcome
push_sized len size c q rest =
    if len == size
    then record { keep = true; sent = []; queue = push c q; rest = rest }
    else dropped_client q rest

-- The `switch` over the type.
unfoldable pub dispatch : Socket → SettingsLayout → ℕ → ℕ → List ℕ → CtlQueue → List ℕ → Outcome
dispatch sock layout type len buf q rest =
    if type == hello
    then record {
      keep = sock.send (hello_ack_msg 1);
      sent = hello_ack_msg 1;
      queue = q;
      rest = rest;
    }
    else if type == set_mixer
    then push_sized len 20
        (record (new_command set_mixer) {
          src_kind = read_u16 buf 8;
          src = read_u16 buf 10;
          dest = read_u16 buf 12;
          coeff = read_u32 buf 16;
        })
        q rest
    else if type == set_fader
    then push_sized len 16
        (record (new_command set_fader) { out = read_u16 buf 8; coeff = read_u32 buf 12 }) q rest
    else if type == set_settings
    then push_sized len 64
        (record (new_command set_settings) {
          rate = read_u32 buf 8;
          settings = layout.read_at buf 16;
        })
        q rest
    else if type == set_cell_flags
    then push_sized len 20
        (record (new_command set_cell_flags) {
          src_kind = read_u16 buf 8;
          src = read_u16 buf 10;
          dest = read_u16 buf 12;
          mask = read_u16 buf 14;
          flags = read_u16 buf 16;
        })
        q rest
    else if type == set_out_flags
    then push_sized len 16
        (record (new_command set_out_flags) {
          out = read_u16 buf 8;
          mask = read_u16 buf 10;
          flags = read_u16 buf 12;
        })
        q rest
    else if type == set_stereo_type
    then push_sized len 16
        (record (new_command set_stereo_type) {
          src_kind = read_u16 buf 8;
          src = read_u16 buf 10;
          on = read_u16 buf 12;
        })
        q rest
    else if type == submix
    then push_sized len 16
        (record (new_command submix) {
          src = read_u16 buf 8;
          dest = read_u16 buf 10;
          on = if read_u32 buf 12 == 0 then 0 else 1;
        })
        q rest
    else record { keep = true; sent = []; queue = q; rest = rest }

-- `handle` once the whole message is in `buf`.
unfoldable pub handle_message : Socket → SettingsLayout → List ℕ → CtlQueue → List ℕ → Outcome
handle_message sock layout buf q rest =
    if read_u16 buf 0 == ctl_version
    then dispatch sock layout (read_u16 buf 2) (read_u32 buf 4) buf q rest
    else if read_u16 buf 2 == hello
    then record { keep = false; sent = hello_ack_msg 0; queue = q; rest = rest }
    else dropped_client q rest

-- `handle` after the second `recv`.
unfoldable pub handle_body :
    Socket → SettingsLayout → List ℕ → Option (List ℕ × List ℕ) → CtlQueue → Outcome
handle_body sock layout h none q = dropped_client q []
handle_body sock layout h (some (body, rest)) q = handle_message sock layout (h ++ body) q rest

-- `handle` after the first `recv`.
unfoldable pub handle_header :
    Socket → SettingsLayout → Option (List ℕ × List ℕ) → CtlQueue → Outcome
handle_header sock layout none q = dropped_client q []
handle_header sock layout (some (h, rest)) q =
    let len = read_u32 h 4 in
    if ltb len 8 || ltb max_msg_bytes len
    then dropped_client q rest
    else if len - 8 == 0
    then handle_body sock layout h (some ([], rest)) q
    else handle_body sock layout h (sock.recv (len - 8) rest) q

unfoldable pub handle : Socket → SettingsLayout → List ℕ → CtlQueue → Outcome
handle sock layout input q = handle_header sock layout (sock.recv 8 input) q
