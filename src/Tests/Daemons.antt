-- ===== src/Tests/Daemons.antt =====
-- Two daemons that shake hands and open a session.
use judica_vm.Base.{◌≡◌, ◌⊎◌, refl, true, false, none, some, [], ◌∷◌, done}
use judica_vm.Base.Int.{pos}
use judica_vm.Base.Exec.{ok, err}
use judica_vm.Session.{AttestProtocolError}
use judica_vm.Base.Text.{Text, ascii}
use judica_vm.Session.Cookies.{ServiceUrl, server, add_a_cookie}
use judica_vm.Session.Connections.{
  Connections, new_connections, set_conn_pending, Attempt, get_conn_turn,
}
use judica_vm.Session.Exclusive.{
  IsRegistry, empty, next, pends, IsExclusive, IsRegistry-IsExclusive,
}
use judica_vm.Session.Reconnect.{IsServed, get_conn_turn-IsServed}
use judica_vm.Session.SetUp.{IsAdmitted, begin_session, begin_session-IsAdmitted}
use judica_vm.Session.Handshake.{
  Coding, Wire, got, late, handshake_protocol_server, handshake_protocol_client,
}
use judica_vm.Session.Serve.{text_message}
use judica_vm.Session.Accepts.{
  IsAccepted, handshake_protocol_server-IsAccepted, handshake_protocol_agrees, client_begin,
  client_end, server_begin, server_end,
}

abbrev me : ServiceUrl
me = (ascii "b.onion", 7)

abbrev peer : ServiceUrl
peer = (ascii "a.onion", 7)

abbrev coding : Coding
coding = record {
  sha256 = λ t. 1 ∷ t;
  to_hex = λ t. t;
  from_hex = λ t. some t;
  to_string = λ s. s.0;
  from_str = λ t. some (t, 7);
}

-- The peer is pending.
abbrev pending : Connections
pending = (set_conn_pending peer false new_connections).1

pending-IsRegistry : IsRegistry pending
pending-IsRegistry = next empty (pends peer false new_connections)

IsRegistry-IsExclusive_example : IsExclusive pending
IsRegistry-IsExclusive_example = IsRegistry-IsExclusive pending-IsRegistry

begin_session-IsAdmitted_example :
    IsAdmitted
      (ok me)
      server
      pending
      (begin_session server (ok (some peer)) none (ok tt) (ok me) pending)
begin_session-IsAdmitted_example =
    begin_session-IsAdmitted server (ok (some peer)) none (ok tt) (ok me) pending pending-IsRegistry

abbrev attempt : Attempt
attempt = record { cookie = some 0; ojh = true }

get_conn_turn-IsServed_example :
    ((e : AttestProtocolError) × (ok me ≡ err e))
    ⊎ IsServed true peer
        (some 0)
        pending
        pending
        (get_conn_turn (ok me) true peer attempt pending pending)
get_conn_turn-IsServed_example =
    get_conn_turn-IsServed (ok me) true peer attempt pending pending pending-IsRegistry

abbrev secret : Text
secret = ascii "cookie"

abbrev wire : Wire
wire = record {
  arriving =
      got (text_message peer.0) ∷ late ∷ got (text_message []) ∷ got (text_message secret) ∷ [];
  takes = 1;
  sent = [];
  cookies = [];
  authenticated = [];
}

handshake_protocol_server-IsAccepted_example :
    IsAccepted coding secret true wire (handshake_protocol_server coding secret (ok tt) true wire)
handshake_protocol_server-IsAccepted_example =
    handshake_protocol_server-IsAccepted coding secret (ok tt) true wire

handshake_protocol_agrees_example :
    (handshake_protocol_client coding
        (ok peer)
        (pos 0)
        (pos 20_000)
        3
        (some secret)
        (client_begin coding secret peer [] (pos 0) (pos 20_000) 3 0)
      ≡ done (ok tt, client_end coding secret peer [] (pos 0) (pos 20_000) 3 0))
    × ((add_a_cookie coding.sha256 secret
          (client_end coding secret peer [] (pos 0) (pos 20_000) 3 0).cookies).0
        ≡ some (3, secret))
    × (handshake_protocol_server coding secret
          (ok tt)
          true
          (server_begin coding secret peer [] (pos 0) (pos 20_000) 3 0 [])
        ≡ done (ok peer, server_end coding secret peer [] (pos 0) (pos 20_000) 3 0 []))
handshake_protocol_agrees_example =
    handshake_protocol_agrees coding secret peer [] (pos 0) (pos 20_000) 3 0 [] refl refl
