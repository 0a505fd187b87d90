-- ===== src/Ctl/Tests.antt =====
-- Runs of the control plane on concrete messages, queues and mixers.
pub mod Layout
mod Mixing
use userface.Base.{
  ℕ, zero, suc, ◌+◌, ◌-◌, ◌*◌, ◌%◌, ◌^◌, ◌≤◌, ◌<◌, ◌≡◌, refl, arith, List, [], ◌∷◌, ◌++◌, length,
  length-append, take, drop, leb, Bool, true, false, if◌then◌else◌, ◌==◌, ◌&&◌, Option, none, some,
  u32, u16_bytes, u32_bytes,
}
use userface.Protocol.Settings.{default_settings}
use userface.Ctl.Proto.{CtlCommand, new_command, set_mixer, set_fader, submix, hello, ctl_version}
use userface.Ctl.Queue.{CtlQueue, push, pop}
use userface.Ctl.Queue.Refine.{
  Holds, Operation, send, receive, received, received_of_list, received_lem,
}
use userface.Ctl.Queue.Race.{finish_pop, push_many, overlapped_pop}
use userface.Ctl.Server.{Socket, handle, hello_ack_msg}
use userface.Ctl.Server.Message.{Message, encode, command, handle-encode}
use userface.Ctl.Server.Session.{serve_client, encode_all, push_all, serve_client-encode_all}
use userface.Ctl.Server.Refuse.{stays, is_command, handle_lem}
use userface.Ctl.Tests.Layout.{byte_layout, drop-append}

take-append : (xs ys : List ℕ) → take (length xs) (xs ++ ys) ≡ xs
take-append [] ys = refl
take-append (x ∷ xs) ys = rw (take-append xs ys)

-- A stream that hands out its bytes in order, and a client that takes every reply.
abbrev whole_recv : ℕ → List ℕ → Option (List ℕ × List ℕ)
whole_recv n xs = if leb n (length xs) then some (take n xs, drop n xs) else none

whole_recv-append : (xs ys : List ℕ) → whole_recv (length xs) (xs ++ ys) ≡ some (xs, ys)
whole_recv-append xs ys =
    let enough : leb (length xs) (length (xs ++ ys)) ≡ true = ground (arith, length-append xs ys) in
    rw (enough, take-append xs ys, drop-append xs ys) refl

whole_recv-short : (n : ℕ) (xs : List ℕ) → length xs < n → whole_recv n xs ≡ none
whole_recv-short n xs h = let few : leb n (length xs) ≡ false = ground arith in rw few refl

abbrev socket : Socket
socket = record {
  recv = whole_recv;
  send = λ reply. true;
  recv-append = whole_recv-append;
  recv-short = whole_recv-short;
}

abbrev pub unity : CtlCommand
unity = record (new_command set_mixer) { src_kind = 1; src = 3; dest = 4; coeff = 0x8000 }

abbrev pub empty_queue : CtlQueue
empty_queue = record { slot = λ i. new_command 0; head = 0; tail = 0; dropped = 0 }

abbrev full_queue : CtlQueue
full_queue = record { slot = λ i. unity; head = 256; tail = 0; dropped = 0 }

pub empty_queue-Holds : Holds empty_queue []
empty_queue-Holds = record {
  length-bound = omega arith;
  tail-bound = omega arith;
  head-tail = refl;
  in_order = λ k h. absurd (omega arith);
}

handle-encode_example :
    handle socket byte_layout
      (encode byte_layout (Message.mixer 1 3 4 0x8000) ++ 7 ∷ [])
      empty_queue
    ≡ record { keep = true; sent = []; queue = push unity empty_queue; rest = 7 ∷ [] }
handle-encode_example =
    handle-encode socket byte_layout (Message.mixer 1 3 4 0x8000) (7 ∷ []) empty_queue
      (omega arith, omega arith, omega arith, omega arith)

abbrev two_messages : List Message
two_messages = Message.fader 3 100 ∷ Message.config default_settings 48000 ∷ []

serve_client-encode_all_example :
    serve_client 3 socket byte_layout (encode_all byte_layout two_messages) empty_queue
    ≡ record { keep = false; sent = []; queue = push_all two_messages empty_queue; rest = [] }
serve_client-encode_all_example =
    serve_client-encode_all socket byte_layout two_messages 3 empty_queue
      ((omega arith, omega arith), (omega arith, tt)) (omega arith)

abbrev old_hello : List ℕ
old_hello = u16_bytes 1 ++ u16_bytes 1 ++ u32_bytes 9 ++ (5 ∷ [] ++ [])

-- A client of version 1 that says hello is told no, and dropped.
handle_example :
    ((handle socket byte_layout old_hello empty_queue).keep ≡ false)
    × ((handle socket byte_layout old_hello empty_queue).queue ≡ empty_queue)
    × ((handle socket byte_layout old_hello empty_queue).sent ≡ hello_ack_msg 0)
handle_example =
    handle_lem socket byte_layout 1 1 9 (5 ∷ []) [] empty_queue (omega arith) (omega arith)
      (omega arith) refl

abbrev three_calls : List Operation
three_calls = receive ∷ send unity ∷ receive ∷ []

received_example : received three_calls empty_queue ≡ none ∷ some unity ∷ []
received_example = received_lem three_calls empty_queue [] empty_queue-Holds

overlapped_pop_example :
    let pushed = push_many 2 (λ k. record unity { src = k }) full_queue in
    let after = finish_pop 0 pushed in
    (pushed.tail ≡ 2)
    × (pushed.dropped ≡ 2)
    × (after.tail ≡ 1)
    × (after.head ≡ after.tail + 257)
    × (pop after ≡ some (record unity { src = 1 }, record after { tail = 2 }))
overlapped_pop_example =
    overlapped_pop 2 (λ k. record unity { src = k }) full_queue (omega arith) refl (omega arith)
      (omega arith) (omega arith)
