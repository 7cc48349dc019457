-- ===== src/Session/Handshake.antt =====
-- common/attest/src/attestations/server/protocol/authentication_handshake.rs: how two daemons learn
-- who they talk to.
use judica_vm.Base.{
  ℕ, zero, suc, Bool, true, false, not, Option, none, some, List, [], ◌∷◌, ◌++◌, done,
  if◌then◌else◌,
}
use judica_vm.Base.Int.{ℤ}
use judica_vm.Base.Exec.{Exec, Result, ok, err, pure, modify, and_then, ◌>>=◌}
use judica_vm.Base.Hash.{same}
use judica_vm.Base.Order.{text_ord}
use judica_vm.Base.Text.{Text}
use judica_vm.Session.{
  AttestProtocolError, json_error, socket_error, socket_closed, non_zero_sync, cookie_miss_match,
  timed_out, failed_to_authenticate, invalid_challenge_hash_string,
}
use judica_vm.Session.Cookies.{ServiceUrl, CookieJar, expect_a_cookie}
use judica_vm.Session.Serve.{Message, only_text}

-- What the socket gives next: a message, an error of its own, or nothing for a minute.
pub data Arriving : Type 0 where
  got : Message → Arriving
  broken late : Arriving

-- The two ends of a handshake: what still arrives, how many more messages the socket takes, and what
-- was sent; the jar of the daemon, and the services that a secret was sent to.
pub record Wire : Type 0 where
  pub arriving : List Arriving
  pub takes : ℕ
  pub sent : List Text
  pub cookies : CookieJar
  pub authenticated : List (Text × ServiceUrl)

abbrev pub Handshaking : Type 0 → Type 0
Handshaking A = Exec Wire (Result AttestProtocolError A)

-- A read without a limit waits on.
abbrev pub receive : List Arriving → Result AttestProtocolError Message × List Arriving
receive [] = (err socket_closed, [])
receive (got m ∷ rest) = (ok m, rest)
receive (broken ∷ rest) = (err socket_error, rest)
receive (late ∷ rest) = receive rest

-- A read that is given up after a minute.
abbrev pub receive_within : List Arriving → Result AttestProtocolError Message × List Arriving
receive_within [] = (err socket_closed, [])
receive_within (got m ∷ rest) = (ok m, rest)
receive_within (broken ∷ rest) = (err socket_error, rest)
receive_within (late ∷ rest) = (err timed_out, rest)

abbrev pub text_of : Result AttestProtocolError Message → Result AttestProtocolError Text
text_of (ok m) = only_text m
text_of (err e) = err e

unfoldable pub recv_text : Handshaking Text
unfolding only_text
recv_text w = let (m, rest) = receive w.arriving in done (text_of m, record w { arriving = rest })

unfoldable pub recv_text_within : Handshaking Text
unfolding only_text
recv_text_within w =
    let (m, rest) = receive_within w.arriving in done (text_of m, record w { arriving = rest })

-- A send, with the error that the caller makes of a failure.
abbrev pub take_text :
    ℕ → AttestProtocolError → Text → Wire → Result AttestProtocolError Unit × Wire
take_text zero e text w = (err e, w)
take_text (suc n) e text w = (ok tt, record w { takes = n; sent = w.sent ++ text ∷ [] })

unfoldable pub send_text : AttestProtocolError → Text → Handshaking Unit
send_text e text w = done (take_text w.takes e text w)

abbrev pub ok_or : {A : Type 0} → AttestProtocolError → Option A → Result AttestProtocolError A
ok_or e none = err e
ok_or e (some a) = ok a

unfoldable pub is_empty : Text → Bool
is_empty [] = true
is_empty (b ∷ text) = false

unfoldable pub acknowledged : Text → Result AttestProtocolError Unit
unfolding is_empty
acknowledged text = if not (is_empty text) then err non_zero_sync else ok tt

unfoldable pub answers : Text → Text → Result AttestProtocolError Unit
answers secret text = if same text secret then ok tt else err cookie_miss_match

-- The hash, the two ways to write bytes in hex, and those to write a service in JSON.
pub record Coding : Type 0 where
  pub sha256 : Text → Text
  pub to_hex : Text → Text
  pub from_hex : Text → Option Text
  pub to_string : ServiceUrl → Text
  pub from_str : Text → Option ServiceUrl

-- `authenticate`: whether the peer's own address took the secret.
unfoldable pub authenticate_service : Bool → Text → ServiceUrl → Handshaking Unit
authenticate_service reached secret s w = done (
  if reached then ok tt else err failed_to_authenticate,
  record w { authenticated = w.authenticated ++ (secret, s) ∷ [] },
)

module _ (c : Coding) where
  unfoldable pub accept_reply : Text → ServiceUrl → Text → Handshaking ServiceUrl
  unfolding answers and_then pure
  accept_reply secret s answer = and_then (answers (c.to_hex secret) answer) λ answered. pure (ok s)

  -- From the sending of the secret on.
  unfoldable pub send_secret : Text → Bool → ServiceUrl → Handshaking ServiceUrl
  unfolding authenticate_service recv_text_within accept_reply and_then ◌>>=◌
  send_secret secret reached s = authenticate_service reached secret s >>= λ authed.
      and_then authed
        λ is_authed. recv_text_within >>= λ reply. and_then reply (accept_reply secret s)

  unfoldable pub await_ack : Text → Bool → ServiceUrl → Handshaking ServiceUrl
  unfolding recv_text acknowledged send_secret and_then ◌>>=◌
  await_ack secret reached s = recv_text >>= λ ack.
      and_then ack λ challenge_ack.
        and_then (acknowledged challenge_ack) λ synced. send_secret secret reached s

  -- From the name of the peer on.
  unfoldable pub send_challenge :
      Text → Result AttestProtocolError Unit → Bool → Text → Handshaking ServiceUrl
  unfolding send_text await_ack and_then ◌>>=◌
  send_challenge secret client reached text = and_then (ok_or json_error (c.from_str text)) λ s.
      and_then client λ got_client.
        send_text socket_closed (c.to_hex (c.sha256 secret)) >>= λ challenged.
        and_then challenged λ is_sent. await_ack secret reached s

  -- `secret` is the new cookie, `client` the error of a daemon that has no client.
  unfoldable pub handshake_protocol_server :
      Text → Result AttestProtocolError Unit → Bool → Handshaking ServiceUrl
  unfolding recv_text send_challenge and_then ◌>>=◌
  handshake_protocol_server secret client reached =
      recv_text >>= λ t. and_then t (send_challenge secret client reached)

  abbrev pub expect : ℤ → ℤ → Text → ℕ → Wire → Wire
  expect stale now hash tx w = record w { cookies = expect_a_cookie stale now hash tx w.cookies }

  -- `me` is the name of the daemon, `tx` the channel that it waits on, and `learned` what comes of it
  -- within a minute.
  unfoldable pub handshake_protocol_client :
      Result AttestProtocolError ServiceUrl → ℤ → ℤ → ℕ → Option Text → Handshaking Unit
  unfolding recv_text send_text expect_a_cookie and_then ◌>>=◌
  handshake_protocol_client me stale now tx learned = and_then me λ name.
      send_text socket_closed (c.to_string name) >>= λ identified.
      and_then identified λ is_identified. recv_text >>= λ challenge.
      and_then challenge λ challenge_hash_string.
        and_then (ok_or invalid_challenge_hash_string (c.from_hex challenge_hash_string)) λ hash.
          modify (expect stale now hash tx) >>= λ expecting. send_text timed_out [] >>= λ confirmed.
          and_then confirmed λ is_confirmed.
            and_then (ok_or timed_out learned) λ cookie. send_text socket_closed (c.to_hex cookie)
