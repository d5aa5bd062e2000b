-- ===== src/Network/Examples.antt =====
-- Two clients of one server, one of which answers the other.
use magic_share.Base.{
  ◌≡◌, refl, some, [], ◌∷◌, All, arith, text_eq, number_eq, list_eq, Result, ok, err, codes,
}
use magic_share.Map.{get, insert, remove}
use magic_share.Signaling.{client_info, WsServerMessage, WsClientMessage}
use magic_share.Signaling.Client.{
  register, outgoing, step as client_step, listen, answered, forward, on_answer, send,
}
use magic_share.Signaling.Client.Examples.{numbered, bob, fresh}
use magic_share.Server.{
  Limits, Sender, new, connect, receive, dispatch, send_to_peer, protect_ddos_request_count,
  step as server_step,
}
use magic_share.Server.Effects.{sends}
use magic_share.Network.Family.{update}
use magic_share.Network.{
  Member, Network, post, joins, acts, transmits, delivers, Steps, done, after,
}
use magic_share.Network.Calls.{IsGenuine}
use magic_share.Network.Genuine.{answers_are-IsGenuine}
use magic_share.Crypto.{Text}
use magic_share.Http.Examples.{shifted}
use magic_share.Signaling.Connect.{
  Wire, Socket, connect as client_connect, connect_info, read_frames, greet, parsed, connected,
  panicked,
}
use magic_share.Server.IpGroup.{v4, get_ip_group}
use magic_share.Server.Handler.{ws_handler, client_ip, forwarded_ip, peer_info}
use magic_share.Server.Handler.Examples.{bytes, pear}
use magic_share.Network.Handshake.{replies, handshake}
use magic_share.Network.Call.{Called, call_completes}

abbrev limits : Limits
limits = record { max_connections = 3; max_requests = 9 }

abbrev who : Sender → Member
who t = record { group = b'g' ∷ []; peer = record bob { id = t } }

abbrev start : Network numbered limits who
start = record { server = new; inbox = λ t. []; connection = λ t. fresh; sent = [] }

abbrev reply : WsClientMessage
reply = WsClientMessage.answer record { session_id = "s"; target = 1; sdp = "v=0" }

record Run : Type 0 where
  last : Network numbered limits who
  steps : Steps numbered limits who start last

joined : Run
joined = record {
  last = _;
  steps =
      after (after (after (after done (joins 1)) (joins 2)) (acts 1 (register "s" 7) tt))
        (acts 2 (outgoing reply) tt);
}

relayed : Run
unfolding joined update client_step send
relayed = record { last = _; steps = after joined.steps (transmits 2 {m = reply} {rest = []} refl) }

heard : Run
unfolding joined relayed update client_step send post sends connect receive dispatch send_to_peer
    protect_ddos_request_count server_step get insert listen answered forward on_answer remove
heard = record {
  last = _;
  steps = after (after (after relayed.steps (delivers 1 refl)) (delivers 1 refl)) (delivers 1 refl);
}

called :
    (heard.last.connection 1).called
    ≡ (7, record { peer = record bob { id = 2 }; session_id = "s"; sdp = "v=0" }) ∷ []
unfolding heard joined relayed update client_step send post sends connect receive dispatch
    send_to_peer protect_ddos_request_count server_step get insert listen answered forward on_answer
    remove
called = refl

answers_are-IsGenuine_example :
    All (λ k. IsGenuine numbered who heard.last.sent 1 k.1) (heard.last.connection 1).called
unfolding get
answers_are-IsGenuine_example =
    answers_are-IsGenuine numbered who limits (omega arith) {n = start} {n' = heard.last}
      (λ g. refl) (λ t. refl) (λ t. refl) heard.steps 1

-- Both have joined and heard of each other.
met : Run
unfolding update client_step post sends connect receive dispatch send_to_peer
    protect_ddos_request_count server_step get insert listen answered forward
met = record {
  last = _;
  steps =
      after
        (after (after (after (after done (joins 1)) (joins 2)) (delivers 1 refl)) (delivers 1 refl))
        (delivers 2 refl);
}

call_completes_example : Called numbered who limits (b'g' ∷ []) 1 2 "s" 7 "offer" "answer" met.last
unfolding met update client_step post sends connect receive dispatch send_to_peer
    protect_ddos_request_count server_step get insert listen answered forward
call_completes_example =
    call_completes numbered who limits (b'g' ∷ []) 1 2 "s" 7 "offer" "answer" (omega arith)
      (omega arith) met.last
      (record {
        caller_group = refl;
        callee_group = refl;
        caller_ready = refl;
        callee_ready = refl;
        caller_inbox = refl;
        callee_inbox = refl;
        caller_state = _;
        callee_state = _;
        caller_here = refl;
        callee_here = refl;
        caller_tx = refl;
        callee_tx = refl;
        quota = omega arith;
        returns = refl;
      })

-- A server that is full and one that is not, for the only client.
abbrev full : Limits
full = record { max_connections = 0; max_requests = 9 }

abbrev only_hello : WsServerMessage
only_hello = WsServerMessage.hello (client_info pear 5) []

abbrev short : Text → Result WsServerMessage
short (c ∷ []) = ok only_hello
short _ = err "expected value"

abbrev toy_wire : Wire
toy_wire = record { info_to_string = λ info. ok (codes "p"); from_str = short; as_bytes = λ t. t }

abbrev toy_write : WsServerMessage → Text
toy_write m = codes "h"

abbrev serves : Limits → Text → Result Socket
serves lim uri =
    ok (replies toy_write 1 (connect lim (get_ip_group (v4 1 2 3 4)) (client_info pear 5) 1 new).1)

handshake_example :
    (client_info pear 5 ≡ client_info pear 5)
    × (client_connect toy_wire shifted 0 (serves limits) (codes "ws") pear
        ≡ connected (client_info pear 5) (only_hello ∷ []))
unfolding ws_handler client_ip forwarded_ip peer_info get
handshake_example =
    handshake bytes shifted (λ t. some pear) toy_wire toy_write 0 (serves limits) (codes "ws") pear
      (codes "p") [] (v4 1 2 3 4) 5 limits new (get_ip_group (v4 1 2 3 4)) (client_info pear 5) 1
      refl refl refl refl {e = "expected value"} refl (λ h. h) refl refl

refused : client_connect toy_wire shifted 0 (serves full) (codes "ws") pear ≡ panicked
unfolding client_connect connect_info read_frames connect get greet parsed
refused = refl
