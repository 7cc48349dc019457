-- ===== src/Session/Accepts.antt =====
-- common/attest/src/attestations/server/protocol/authentication_handshake.rs: whom a server accepts,
-- and that two daemons come to an agreement.
use judica_vm.Base.{
  ℕ, zero, suc, ◌≡◌, refl, subst, ap, ◌∙◌, Bool, true, false, some, [], ◌∷◌, ◌++◌, length, ltb, map,
  Outcome, done, panic, if◌then◌else◌, Bool-cases, inl, inr,
}
use judica_vm.Base.Int.{ℤ}
use judica_vm.Base.Exec.{Result, ok, err, pure, modify, and_then, ◌>>=◌}
use judica_vm.Base.Hash.{same, same→eq, same_refl}
use judica_vm.Base.Map.{lookup-insert_self}
use judica_vm.Base.Order.{text_ord}
use judica_vm.Base.Text.{Text}
use judica_vm.Session.{AttestProtocolError, socket_closed, json_error}
use judica_vm.Session.Cookies.{
  ServiceUrl, CookieJar, expect_a_cookie, collect_garbage, add_a_cookie,
}
use judica_vm.Session.Serve.{text_message, only_text}
use judica_vm.Session.Handshake.{
  got, Wire, Handshaking, receive, receive_within, text_of, recv_text, recv_text_within, take_text,
  send_text, ok_or, is_empty, acknowledged, answers, Coding, authenticate_service, accept_reply,
  send_secret, await_ack, send_challenge, handshake_protocol_server, handshake_protocol_client,
}

abbrev Ended : Type 0
Ended = Outcome (Result AttestProtocolError ServiceUrl × Wire)

-- A service that is accepted is the one that the secret was sent to, at its own address and after
-- the challenge, and the secret came back.
pub IsAccepted : Coding → Text → Bool → Wire → Ended → Type 0
IsAccepted c secret reached w panic = Unit
IsAccepted c secret reached w (done (err e, w')) = Unit
IsAccepted c secret reached w (done (ok s, w')) =
    (reached ≡ true)
    × (w'.authenticated ≡ w.authenticated ++ (secret, s) ∷ [])
    × (w'.sent ≡ w.sent ++ c.to_hex (c.sha256 secret) ∷ [])
    × (text_of (receive_within (receive (receive w.arriving).1).1).0 ≡ ok (c.to_hex secret))

-- A step that fails ends the handshake.
and_then-cases :
    {A : Type 0} (P : Ended → Type 0) (o : Result AttestProtocolError A)
    (f : A → Handshaking ServiceUrl) (w : Wire)
    → ((e : AttestProtocolError) → P (done (err e, w)))
    → ((a : A) → o ≡ ok a → P (f a w))
    → P (and_then o f w)
unfolding and_then pure
and_then-cases P (err e) f w refused given = refused e
and_then-cases P (ok a) f w refused given = given a refl

answers_lem : (secret text : Text) {u : Unit {0}} → answers secret text ≡ ok u → text ≡ secret
unfolding answers
answers_lem secret text h = elim (Bool-cases (same text secret)) [
  | inl on ↦ same→eq text secret on
  | inr off ↦ let no = rw (off) at h in cc
]

-- From a state of the socket in which the challenge was sent and two messages were read.
send_secret-IsAccepted :
    (c : Coding) (secret : Text) (s : ServiceUrl) (reached : Bool) (w v : Wire)
    → v.authenticated ≡ w.authenticated
    → v.sent ≡ w.sent ++ c.to_hex (c.sha256 secret) ∷ []
    → v.arriving ≡ (receive (receive w.arriving).1).1
    → IsAccepted c secret reached w (send_secret c secret reached s v)
unfolding IsAccepted send_secret authenticate_service and_then ◌>>=◌ recv_text_within pure
send_secret-IsAccepted c secret s false w v before sent left = tt
send_secret-IsAccepted c secret s true w v before sent left =
    let told = v.authenticated ++ (secret, s) ∷ [] in
    let u : Wire = record v { authenticated = told; arriving = (receive_within v.arriving).1 } in
    and_then-cases (IsAccepted c secret true w) (text_of (receive_within v.arriving).0)
      (accept_reply c secret s) u (λ e. tt)
      λ answer got_it.
        and_then-cases (IsAccepted c secret true w) (answers (c.to_hex secret) answer)
          (λ answered. pure (ok s)) u (λ e. tt)
          λ answered matches. (
            refl,
            ap (λ l. l ++ (secret, s) ∷ []) before,
            sent,
            subst (λ l. text_of (receive_within l).0 ≡ ok (c.to_hex secret)) left
                (got_it ∙ ap ok (answers_lem (c.to_hex secret) answer matches)),
          )

await_ack-IsAccepted :
    (c : Coding) (secret : Text) (s : ServiceUrl) (reached : Bool) (w v : Wire)
    → v.authenticated ≡ w.authenticated
    → v.sent ≡ w.sent ++ c.to_hex (c.sha256 secret) ∷ []
    → v.arriving ≡ (receive w.arriving).1
    → IsAccepted c secret reached w (await_ack c secret reached s v)
unfolding IsAccepted await_ack recv_text ◌>>=◌
await_ack-IsAccepted c secret s reached w v before sent left =
    let u : Wire = record v { arriving = (receive v.arriving).1 } in
    and_then-cases (IsAccepted c secret reached w) (text_of (receive v.arriving).0)
      (λ ack. and_then (acknowledged ack) λ synced. send_secret c secret reached s) u (λ e. tt)
      λ ack read.
        and_then-cases (IsAccepted c secret reached w) (acknowledged ack)
          (λ synced. send_secret c secret reached s) u (λ e. tt)
          λ synced acked.
            send_secret-IsAccepted c secret s reached w u before sent (ap (λ l. (receive l).1) left)

take_text-IsAccepted :
    (c : Coding) (secret : Text) (s : ServiceUrl) (reached : Bool) (w v : Wire) (takes : ℕ)
    → v.authenticated ≡ w.authenticated
    → v.sent ≡ w.sent
    → v.arriving ≡ (receive w.arriving).1
    → IsAccepted c secret reached w (
        let (r, u) = take_text takes socket_closed (c.to_hex (c.sha256 secret)) v in
        and_then r (λ is_sent. await_ack c secret reached s) u)
unfolding IsAccepted and_then pure
take_text-IsAccepted c secret s reached w v zero before sent left = tt
take_text-IsAccepted c secret s reached w v (suc n) before sent left =
    let all = v.sent ++ c.to_hex (c.sha256 secret) ∷ [] in
    await_ack-IsAccepted c secret s reached w (record v { takes = n; sent = all }) before
      (ap (λ l. l ++ c.to_hex (c.sha256 secret) ∷ []) sent) left

-- Whatever arrives and however the socket fails, a server that accepts a service has sent the
-- challenge and nothing else, and the secret to that service's own address, where it was taken; and
-- the third message, within the minute, was the secret's hex.
pub handshake_protocol_server-IsAccepted :
    (c : Coding) (secret : Text) (client : Result AttestProtocolError Unit) (reached : Bool)
    (w : Wire)
    → IsAccepted c secret reached w (handshake_protocol_server c secret client reached w)
unfolding handshake_protocol_server recv_text send_challenge send_text ◌>>=◌ IsAccepted
handshake_protocol_server-IsAccepted c secret client reached w =
    let P = IsAccepted c secret reached w in
    let v : Wire = record w { arriving = (receive w.arriving).1 } in
    let challenge_to = λ (s : ServiceUrl).
      send_text socket_closed (c.to_hex (c.sha256 secret)) >>= λ challenged.
      and_then challenged λ is_sent. await_ack c secret reached s in
    and_then-cases P (text_of (receive w.arriving).0) (send_challenge c secret client reached) v
      (λ e. tt)
      λ text read.
        and_then-cases P (ok_or json_error (c.from_str text))
          (λ s. and_then client λ got_client. challenge_to s) v (λ e. tt)
          λ s named.
            and_then-cases P client (λ got_client. challenge_to s) v (λ e. tt)
              λ got_client has_client.
                take_text-IsAccepted c secret s reached w v v.takes refl refl refl

-- Two daemons: the client names itself, and takes the challenge into its jar; the secret, sent to
-- its address, goes to the channel that it waits on; and its answers make the server accept it.
module _ (c : Coding) (secret : Text) (me : ServiceUrl) (jar : CookieJar) (stale now : ℤ)
    (tx n : ℕ) where
  abbrev pub challenge : Text
  challenge = c.to_hex (c.sha256 secret)

  abbrev pub client_begin : Wire
  client_begin = record {
    arriving = got (text_message challenge) ∷ [];
    takes = suc (suc (suc n));
    sent = [];
    cookies = jar;
    authenticated = [];
  }

  abbrev pub client_end : Wire
  client_end = record {
    arriving = [];
    takes = n;
    sent = c.to_string me ∷ [] ∷ c.to_hex secret ∷ [];
    cookies = expect_a_cookie stale now (c.sha256 secret) tx jar;
    authenticated = [];
  }

  abbrev pub server_begin : CookieJar → Wire
  server_begin other = record {
    arriving = map (λ text. got (text_message text)) client_end.sent;
    takes = suc n;
    sent = [];
    cookies = other;
    authenticated = [];
  }

  abbrev pub server_end : CookieJar → Wire
  server_end other = record {
    arriving = [];
    takes = n;
    sent = challenge ∷ [];
    cookies = other;
    authenticated = (secret, me) ∷ [];
  }

  client_run :
      c.from_hex challenge ≡ some (c.sha256 secret)
      → handshake_protocol_client c (ok me) stale now tx (some secret) client_begin
        ≡ done (ok tt, client_end)
  unfolding handshake_protocol_client recv_text send_text ◌>>=◌ and_then modify only_text pure
  client_run hex = rw (hex) refl

  server_run :
      (other : CookieJar)
      → c.from_str (c.to_string me) ≡ some me
      → handshake_protocol_server c secret (ok tt) true (server_begin other)
        ≡ done (ok me, server_end other)
  unfolding handshake_protocol_server send_challenge await_ack send_secret accept_reply recv_text
      recv_text_within send_text ◌>>=◌ and_then only_text pure acknowledged is_empty answers
      authenticate_service
  server_run other names = rw (names, same_refl (c.to_hex secret)) refl

  -- When the client can read the challenge's hex and the server the client's name, and the socket of
  -- each takes its messages: the client, whose channel gets the secret, ends well; the secret, once
  -- it comes to the client's address, is forwarded to that very channel; and on what the client sent
  -- the server accepts the client under its name.
  pub handshake_protocol_agrees :
      (other : CookieJar)
      → c.from_hex challenge ≡ some (c.sha256 secret)
      → c.from_str (c.to_string me) ≡ some me
      → (handshake_protocol_client c (ok me) stale now tx (some secret) client_begin
          ≡ done (ok tt, client_end))
        × ((add_a_cookie c.sha256 secret client_end.cookies).0 ≡ some (tx, secret))
        × (handshake_protocol_server c secret (ok tt) true (server_begin other)
            ≡ done (ok me, server_end other))
  unfolding expect_a_cookie add_a_cookie
  handshake_protocol_agrees other hex names = (
    client_run hex,
    let kept = if ltb 100 (length jar) then collect_garbage stale jar else jar in
        rw (add_a_cookie, lookup-insert_self (c.sha256 secret) (tx, now) kept) refl,
    server_run other names,
  )
