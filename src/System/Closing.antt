-- ===== src/System/Closing.antt =====
-- What the program sends after its connection has ended.
use barbarossa.Common.{
  String, true, false, ◌≡◌, ◌≢◌, inl, inr, refl, ap, List, [], ◌∷◌, ◌++◌, arith,
}
use barbarossa.Json.{JsonLib}
use barbarossa.Transport.{Caller}
use barbarossa.Session.{Session, on_attach, on_detach}
use barbarossa.Session.Run.{Event, attach, transport_becomes, step}
use barbarossa.Session.Uses.{SendsOnce, replaced, changed, disconnected, step-SendsOnce}
use barbarossa.WebSocket.{
  WebSocket, Command, start_perpetual, stop_perpetual, run, connect, send, close, is_connected,
  disconnect, stop_client, connect_begin,
}
use barbarossa.WebSocket.Callbacks.{on_client_open, on_client_close, on_client_fail}
use barbarossa.WebSocket.Receive
use barbarossa.WebSocket.Receive.{on_client_message}
use barbarossa.Main.{web_transport, session_web, session_handler}
use barbarossa.System.{SystemReach}
use barbarossa.System.Keeping.{SystemKeeping, SystemReach-keeps}

-- The texts that were given to the client to send.
abbrev pub sent_texts : List Command → List String
sent_texts [] = []
sent_texts (send text ∷ cs) = text ∷ sent_texts cs
sent_texts (_ ∷ cs) = sent_texts cs

sent_texts-connect : (cs : List Command) → sent_texts (cs ++ connect ∷ []) ≡ sent_texts cs
sent_texts-connect [] = refl
sent_texts-connect (send text ∷ cs) = ap (◌∷◌ text) (sent_texts-connect cs)
sent_texts-connect (start_perpetual ∷ cs) = sent_texts-connect cs
sent_texts-connect (stop_perpetual ∷ cs) = sent_texts-connect cs
sent_texts-connect (run ∷ cs) = sent_texts-connect cs
sent_texts-connect (connect ∷ cs) = sent_texts-connect cs
sent_texts-connect (close reason ∷ cs) = sent_texts-connect cs

-- The connection has ended, and these are the texts that were sent.
record Ended (ts : List String) (w : WebSocket) : Type 0 where
  is_done : w.done ≡ true
  texts : sent_texts w.commands ≡ ts

module _ (ts : List String) where
  connect_begin-Ended : (w : WebSocket) → Ended ts w → Ended ts (connect_begin w).1
  unfolding connect_begin
  connect_begin-Ended w v = ground (arith, sent_texts-connect w.commands)

  on_client_fail-Ended : (w : WebSocket) → Ended ts w → Ended ts (on_client_fail w).1
  unfolding on_client_fail
  on_client_fail-Ended w v = ground arith

  disconnect-Ended :
      (c : Caller) (w : WebSocket) → Ended ts w → Ended ts (disconnect on_client_close c w).1
  unfolding disconnect stop_client
  disconnect-Ended c w v = ground arith

module _ ⦃J : JsonLib⦄ where
  done_not_connected : (w : WebSocket) → w.done ≡ true → is_connected w ≢ true
  unfolding is_connected
  done_not_connected w d = ground arith

  -- A step of the session sends nothing over a transport that is done.
  keeps_transport :
      (s u : Session WebSocket)
      → s.transport.done ≡ true
      → SendsOnce s u
      → u.transport ≡ s.transport
  keeps_transport s u d (inl p) = p
  keeps_transport s u d (inr (m, a, c, p)) = elim (done_not_connected s.transport d c) [ ]

  module _ (ts : List String) where
    EndedIn : Session WebSocket → Type 0
    EndedIn s = Ended ts s.transport

    attach-Ended : (s : Session WebSocket) → EndedIn s → EndedIn (Receive.attach s).1
    unfolding EndedIn Receive.attach on_attach
    attach-Ended s v = ground arith

    detach-Ended : (s : Session WebSocket) → EndedIn s → EndedIn (Receive.detach s).1
    unfolding EndedIn Receive.detach on_detach
    detach-Ended s v = ground arith

    session-Ended :
        (e : Event WebSocket) (s : Session WebSocket)
        → ((t : WebSocket) → e ≢ attach t)
        → ((t : WebSocket) → e ≢ transport_becomes t)
        → EndedIn s
        → EndedIn (step e s).1
    unfolding EndedIn
    session-Ended e s a b v = elim (step-SendsOnce e s) [
      | inl q ↦ rw (keeps_transport s (step e s).1 v.is_done q) v
      | inr (replaced t q p) ↦ elim (a t q) [ ]
      | inr (changed t q p) ↦ elim (b t q) [ ]
      | inr (disconnected c q x p) ↦ rw p (disconnect-Ended ts c s.transport v)
    ]

    keeping-EndedIn : SystemKeeping EndedIn
    unfolding EndedIn on_client_open on_client_close
    keeping-EndedIn = record {
      opens = λ s v. ground arith;
      closes = λ s v. ground arith;
      fails = λ s v. on_client_fail-Ended ts s.transport v;
      begins_connect = λ s v. connect_begin-Ended ts s.transport v;
      attaches = attach-Ended;
      detaches = detach-Ended;
      events = session-Ended;
    }

  -- Once the connection was closed or has failed, the program sends nothing any more, whatever callbacks,
  -- calls, posted handlers and heartbeat rounds follow, and the transport is never connected again.
  pub SystemReach-sent :
      {s u : Session WebSocket}
      → SystemReach s u
      → s.transport.done ≡ true
      → (sent_texts u.transport.commands ≡ sent_texts s.transport.commands)
        × (is_connected u.transport ≡ false)
  unfolding EndedIn is_connected
  SystemReach-sent {s} r d =
      let v =
        SystemReach-keeps (keeping-EndedIn (sent_texts s.transport.commands)) r
          (record { is_done = d; texts = refl }) in
      (v.texts, ground arith)
