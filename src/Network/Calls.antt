-- ===== src/Network/Calls.antt =====
-- signaling.rs `start_listener`: the callbacks are called with what waits at the socket.
use mathlib.Core.List.{Mem, mem-cons_of_mem}
use magic_share.Base.{
  ◌≡◌, refl, true, false, Bool, Option, none, some, List, [], ◌∷◌, if◌then◌else◌, arith, All,
  All-append,
}
use magic_share.Signaling.{WsServerMessage, WsClientMessage, WsServerSdpMessage, WsClientSdpMessage}
use magic_share.Signaling.Client.{
  Callbacks, Connection, Event, incoming, register, outgoing, stop_listening, stop_writing, listen,
  answered, forward, on_answer, send, step as client_step,
}
use magic_share.Server.{Sender, server_sdp}
use magic_share.Network.{Member, IsOwn}

module _ (cbs : Callbacks) (who : Sender → Member) where
  -- An answer that a connection of the same IP group gave to the server, under this session id and
  -- with this description and for this client's id, and that carries the information which that
  -- connection joined with.
  unfoldable pub IsGenuine : List (Sender × WsClientMessage) → Sender → WsServerSdpMessage → Type 0
  IsGenuine sent t sdp =
      (u : Sender) × (m : WsClientSdpMessage) × Mem (u, WsClientMessage.answer m) sent
      × (sdp ≡ server_sdp (who u).peer m)
      × ((who u).group ≡ (who t).group)
      × (m.target ≡ (who t).peer.id)

  unfoldable pub Waits : List (Sender × WsClientMessage) → Sender → WsServerMessage → Type 0
  Waits sent t (WsServerMessage.answer sdp) = IsGenuine sent t sdp
  Waits sent t _ = Unit

  unfoldable pub Calls : List (Sender × WsClientMessage) → Sender → Connection cbs → Type 0
  Calls sent t c = All (λ k. IsGenuine sent t k.1) c.called

  -- What one turn of the listener calls.
  forward-called : (m : WsServerMessage) (c : Connection cbs) → (forward cbs m c).called ≡ c.called
  unfolding forward
  forward-called m c = ground arith

  ending-called :
      (m : WsServerMessage) (returned : Bool) (c : Connection cbs)
      → (if returned then forward cbs m c else record c { running = false }).called ≡ c.called
  ending-called m true c = forward-called m c
  ending-called m false c = refl

  answered-Calls :
      (sent : List (Sender × WsClientMessage)) (t : Sender) (sdp : WsServerSdpMessage)
      (w : Option cbs.AnswerCallback) (c : Connection cbs)
      → IsGenuine sent t sdp
      → Calls sent t c
      → Calls sent t (answered cbs sdp w c)
  unfolding answered Calls
  answered-Calls sent t sdp none c g k = rw (forward-called (WsServerMessage.answer sdp) c) k
  answered-Calls sent t sdp (some callback) c g k =
      rw (ending-called (WsServerMessage.answer sdp) (cbs.returns callback sdp) _)
        (All-append (λ k. IsGenuine sent t k.1) c.called ((callback, sdp) ∷ []) k (g, tt))

  listen-Calls :
      (sent : List (Sender × WsClientMessage)) (t : Sender) (m : WsServerMessage)
      (c : Connection cbs)
      → Waits sent t m
      → Calls sent t c
      → Calls sent t (listen cbs m c)
  unfolding listen Calls Waits
  listen-Calls sent t (WsServerMessage.answer sdp) c g k = answered-Calls sent t sdp _ c g k
  listen-Calls sent t m c g k = rw (forward-called m c) k

  pub turn-Calls :
      (sent : List (Sender × WsClientMessage)) (t : Sender) (m : WsServerMessage) (running : Bool)
      (c : Connection cbs)
      → Waits sent t m
      → Calls sent t c
      → Calls sent t (if running then listen cbs m c else c)
  turn-Calls sent t m true c g k = listen-Calls sent t m c g k
  turn-Calls sent t m false c g k = k

  pub act-called :
      (e : Event cbs) (c : Connection cbs) → IsOwn e → (client_step cbs e c).called ≡ c.called
  unfolding client_step on_answer send
  act-called (incoming m) c own = elim own [ ]
  act-called (register k callback) c own = refl
  act-called (outgoing m) c own = ground arith
  act-called stop_listening c own = refl
  act-called stop_writing c own = refl

  -- What is genuine stays so as more is sent.
  later-IsGenuine :
      (x : Sender × WsClientMessage) (sent : List (Sender × WsClientMessage)) (t : Sender)
      (sdp : WsServerSdpMessage)
      → IsGenuine sent t sdp
      → IsGenuine (x ∷ sent) t sdp
  unfolding IsGenuine
  later-IsGenuine x sent t sdp (u, m, i, e, g, to) = (u, m, mem-cons_of_mem x i, e, g, to)

  pub later-Waits :
      (x : Sender × WsClientMessage) (sent : List (Sender × WsClientMessage)) (t : Sender)
      (ms : List WsServerMessage)
      → All (Waits sent t) ms
      → All (Waits (x ∷ sent) t) ms
  unfolding Waits
  later-Waits x sent t [] h = tt
  later-Waits x sent t (WsServerMessage.answer sdp ∷ ms) (h, hs) =
      (later-IsGenuine x sent t sdp h, later-Waits x sent t ms hs)
  later-Waits x sent t (m ∷ ms) (h, hs) = (tt, later-Waits x sent t ms hs)

  pub later-Calls :
      (x : Sender × WsClientMessage) (sent : List (Sender × WsClientMessage)) (t : Sender)
      (ks : List (cbs.AnswerCallback × WsServerSdpMessage))
      → All (λ k. IsGenuine sent t k.1) ks
      → All (λ k. IsGenuine (x ∷ sent) t k.1) ks
  later-Calls x sent t [] h = tt
  later-Calls x sent t (k ∷ ks) (h, hs) =
      (later-IsGenuine x sent t k.1 h, later-Calls x sent t ks hs)
