-- ===== src/Ctl/Server/Refuse.antt =====
-- Which messages keep the client and which ones reach the queue.
use userface.Base.{
  ℕ, ◌-◌, ◌^◌, ◌<◌, ◌≡◌, subst, List, [], ◌++◌, length, Bool, true, not, ◌&&◌, ◌||◌, leb, ◌==◌,
  arith, if◌then◌else◌, some, u16_bytes, u32_bytes,
}
use userface.Ctl.Proto.{
  ctl_version, hello, set_mixer, set_fader, set_settings, set_cell_flags, submix, SettingsLayout,
}
use userface.Ctl.Queue.{CtlQueue}
use userface.Ctl.Server.{
  Socket, push_sized, dispatch, handle_message, handle_body, handle_header, handle, hello_ack_msg,
}
use userface.Ctl.Server.Message.{u16_word, u32_word}

-- The size of the message of a type that carries a command, and 0 for the other types.
abbrev pub message_size : ℕ → ℕ
message_size type =
    if (type == set_mixer) || (type == set_cell_flags)
    then 20
    else if type == set_settings
    then 64
    else if leb set_fader type && leb type submix
    then 16
    else 0

-- The message is one that `handle` makes a command of.
abbrev pub is_command : ℕ → ℕ → ℕ → Bool
is_command version type len =
    (version == ctl_version) && not (message_size type == 0) && (len == message_size type)

-- The client stays.
abbrev pub stays : Socket → ℕ → ℕ → ℕ → Bool
stays sock version type len =
    (version == ctl_version)
    && (if type == hello
        then sock.send (hello_ack_msg 1)
        else if message_size type == 0
        then true
        else len == message_size type)

module _ (sock : Socket) (layout : SettingsLayout) where
  -- What the message `buf` is answered with, once it has been taken off the stream.
  verdict :
      (type len : ℕ) (buf rest : List ℕ) (q : CtlQueue)
      → let o = dispatch sock layout type len buf q rest in
        (o.keep ≡ stays sock 2 type len)
        × ((if is_command 2 type len then q else o.queue) ≡ q)
        × (o.sent ≡ (if type == hello then hello_ack_msg 1 else []))
        × (o.rest ≡ rest)
  unfolding dispatch push_sized
  verdict type len buf rest q = (ground arith, ground arith, ground arith, ground arith)

  message_verdict :
      (version type len : ℕ) (tail rest : List ℕ) (q : CtlQueue)
      → version < 2 ^ 16
      → type < 2 ^ 16
      → len < 2 ^ 32
      → let o =
          handle_message sock layout
            (u16_bytes version ++ u16_bytes type ++ u32_bytes len ++ tail)
            q
            rest in
        (o.keep ≡ stays sock version type len)
        × ((if is_command version type len then q else o.queue) ≡ q)
        × (o.sent ≡ (
            if type == hello then hello_ack_msg (if version == ctl_version then 1 else 0) else []))
        × (o.rest ≡ rest)
  unfolding handle_message
  message_verdict version type len tail rest q hv ht hl =
      let v =
        verdict type len (u16_bytes version ++ u16_bytes type ++ u32_bytes len ++ tail) rest q in
      rw (u16_word version hv, u16_word type ht, u32_word len hl) (ground arith)

  -- What a message is answered with, by the version, the type and the length in its header, whatever its
  -- body is. A length below 8 or above 256 drops the client. Otherwise the client stays exactly if the
  -- version is the server's and a command has the size of its type; for `hello`, if the reply is taken.
  -- Only such commands reach the queue. Only `hello` is answered, with 0 if the version is another one.
  pub handle_lem :
      (version type len : ℕ) (body rest : List ℕ) (q : CtlQueue)
      → version < 2 ^ 16
      → type < 2 ^ 16
      → len < 2 ^ 32
      → length body ≡ len - 8
      → let o =
          handle sock layout
            (u16_bytes version ++ u16_bytes type ++ u32_bytes len ++ (body ++ rest))
            q in
        let fine = leb 8 len && leb len 256 in
        (o.keep ≡ (fine && stays sock version type len))
        × ((if fine && is_command version type len then q else o.queue) ≡ q)
        × (o.sent ≡ (
            if fine && (type == hello)
            then hello_ack_msg (if version == ctl_version then 1 else 0)
            else []))
  unfolding handle handle_header handle_body
  handle_lem version type len body rest q hv ht hl hb =
      let first =
        sock.recv-append (u16_bytes version ++ u16_bytes type ++ u32_bytes len) (body ++ rest) in
      let second : sock.recv (len - 8) (body ++ rest) ≡ some (body, rest) =
        subst (λ k. sock.recv k (body ++ rest) ≡ some (body, rest)) hb
          (sock.recv-append body rest) in
      let v = message_verdict version type len body rest q hv ht hl in
      let none_left = message_verdict version type len [] (body ++ rest) q hv ht hl in
      rw (first, u32_word len hl) (ground (arith, second))
