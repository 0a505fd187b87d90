-- ===== src/Ctl/Server/Session.antt =====
-- A client's whole session: `serve` calls `handle` until the client is dropped.
use userface.Base.{
  ℕ, zero, suc, ◌<◌, ◌≡◌, refl, List, [], ◌∷◌, ◌++◌, length, true, false, arith, if◌then◌else◌,
}
use userface.Ctl.Proto.{SettingsLayout}
use userface.Ctl.Queue.{CtlQueue, push}
use userface.Ctl.Server.{Socket, Outcome, handle_header, handle}
use userface.Ctl.Server.Message.{Message, encode, Fits, command, handle-encode}

-- The calls of `handle` for one client, as many as there are steps of fuel and as long as it is kept.
unfoldable pub serve_client : ℕ → Socket → SettingsLayout → List ℕ → CtlQueue → Outcome
serve_client zero sock layout input q = record { keep = true; sent = []; queue = q; rest = input }
serve_client (suc n) sock layout input q =
    let o = handle sock layout input q in
    let next = serve_client n sock layout o.rest o.queue in
    if o.keep then record next { sent = o.sent ++ next.sent } else o

abbrev pub encode_all : SettingsLayout → List Message → List ℕ
encode_all layout [] = []
encode_all layout (m ∷ ms) = encode layout m ++ encode_all layout ms

abbrev pub AllFit : List Message → Type 0
AllFit [] = Unit
AllFit (m ∷ ms) = Fits m × AllFit ms

abbrev pub push_all : List Message → CtlQueue → CtlQueue
push_all [] q = q
push_all (m ∷ ms) q = push_all ms (push (command m) q)

module _ (sock : Socket) (layout : SettingsLayout) where
  end_of_stream :
      (n : ℕ) (q : CtlQueue)
      → serve_client (suc n) sock layout [] q
        ≡ record { keep = false; sent = []; queue = q; rest = [] }
  unfolding serve_client handle handle_header
  end_of_stream n q = rw (sock.recv-short 8 [] (omega arith)) refl

  -- A client that sends messages, however many, and closes: the server reads them all, in step, puts their
  -- commands in the queue in that order, and drops the client only at the end of the stream. One call for
  -- each message and one for the end are enough.
  pub serve_client-encode_all :
      (ms : List Message) (n : ℕ) (q : CtlQueue)
      → AllFit ms
      → length ms < n
      → serve_client n sock layout (encode_all layout ms) q
        ≡ record { keep = false; sent = []; queue = push_all ms q; rest = [] }
  unfolding serve_client
  serve_client-encode_all [] zero q f l = absurd (omega arith)
  serve_client-encode_all [] (suc n) q f l = end_of_stream n q
  serve_client-encode_all (m ∷ ms) zero q f l = absurd (omega arith)
  serve_client-encode_all (m ∷ ms) (suc n) q (f, fs) l =
      rw
        (
          handle-encode sock layout m (encode_all layout ms) q f,
          serve_client-encode_all ms n (push (command m) q) fs (omega arith),
        )
        refl
