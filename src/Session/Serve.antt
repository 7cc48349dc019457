-- ===== src/Session/Serve.antt =====
-- common/attest/src/attestations/server/protocol.rs: what a session does with a message of its peer,
-- and one turn of its loop.
use judica_vm.Base.{ℕ, ◌≡◌, Bool, true, Option, none, some, List, [], ◌∷◌, Outcome, done, ◌>>=◌}
use judica_vm.Base.Exec.{Result, ok, err}
use judica_vm.Base.Sort.{sort, dedup}
use judica_vm.Base.Text.{Text}
use judica_vm.Setup.{text_leb, text_eq}
use judica_vm.Envelope.{CanonicalEnvelopeHash, GenericEnvelope, Authenticated, Crypto}
use judica_vm.Envelope.Canonical.{Checked, self_authenticate}
use judica_vm.Session.{
  AttestRequest, latest_tips, specific_tips, post, latest_tips_response, specific_tips_response,
  post_response, AttestSocketProtocol, request, response, AttestProtocolError, json_error,
  incorrect_message_owned, database_error, socket_closed, Session, Handled, t_send, new_session,
  handle_internal_request, handle_response, Internal, request_of, sender_of, next_seq,
  takes_internal,
}

-- `Message` of the websocket library.
pub data Message : Type 0 where
  text_message : Text → Message
  binary ping pong close : Message

-- `only_text` of authentication_handshake.rs
unfoldable pub only_text : Message → Result AttestProtocolError Text
only_text (text_message s) = ok s
only_text binary = err incorrect_message_owned
only_text ping = err incorrect_message_owned
only_text pong = err incorrect_message_owned
only_text close = err incorrect_message_owned

-- The statements of the database that a session runs: an insertion, which tells whether it
-- succeeded, and two reads, which can fail.
pub record Database (M D : Type 0) : Type 0 where
  pub try_insert_authenticated_envelope : Authenticated (GenericEnvelope M) → D → Bool × D
  pub messages_by_hash : List CanonicalEnvelopeHash → D → Option (List (GenericEnvelope M))
  pub get_tips_for_all_users : D → Option (List (GenericEnvelope M))

-- The turn either goes on with the session or ends it.
pub data Turn (M D : Type 0) : Type 0 where
  live : Session M D → Turn M D
  quit : Turn M D
  failed : AttestProtocolError → Turn M D

-- What `select!` finds first: a message of the peer, the end of the connection, or a request of
-- another task, with whether the socket takes what is then sent.
pub data Arrival (M : Type 0) : Type 0 where
  from_peer : Bool → Message → Arrival M
  disconnected : Arrival M
  internal : Bool → Internal M → Arrival M
  all_closed : Arrival M

module _ {M E D : Type 0} (c : Crypto M E) (database : Database M D)
    (from_str : Text → Option (AttestSocketProtocol M)) where
  -- The envelopes up to the first that is not authentic.
  abbrev pub and_authed :
      Checked M E
      → Outcome (List (Authenticated (GenericEnvelope M)))
      → Outcome (List (Authenticated (GenericEnvelope M)))
  and_authed (ok valid) rest = rest >>= λ authed. done (valid ∷ authed)
  and_authed (err e) rest = done []

  unfoldable pub authed_of :
      List (GenericEnvelope M) → Outcome (List (Authenticated (GenericEnvelope M)))
  unfolding self_authenticate
  authed_of [] = done []
  authed_of (envelope ∷ envelopes) =
      let rest = authed_of envelopes in
      self_authenticate c envelope >>= λ valid. and_authed valid rest

  unfoldable pub insert_all : List (Authenticated (GenericEnvelope M)) → D → List Bool × D
  insert_all [] db = ([], db)
  insert_all (envelope ∷ envelopes) db =
      let (success, db') = database.try_insert_authenticated_envelope envelope db in
      let (outcomes, db'') = insert_all envelopes db' in (success ∷ outcomes, db'')

  unfoldable pub post_envelope : Bool → List (GenericEnvelope M) → ℕ → Session M D → Handled M D
  unfolding authed_of insert_all t_send
  post_envelope sends envelopes seq s = do
    authed ← authed_of envelopes
    let (outcomes, db) = insert_all authed s.db
    done (t_send sends socket_closed (response seq (post_response outcomes)) (record s { db = db }))

  unfoldable pub fetch_specific_tips :
      Bool → List CanonicalEnvelopeHash → ℕ → Session M D → Result AttestProtocolError (Session M D)
  unfolding sort dedup text_leb text_eq t_send
  fetch_specific_tips sends tips seq s =
      elim (database.messages_by_hash (dedup text_eq (sort text_leb tips)) s.db) [
        | none ↦ err database_error
        | some all_tips ↦
            t_send sends socket_closed (response seq (specific_tips_response all_tips)) s
      ]

  unfoldable pub fetch_latest_tips :
      Bool → ℕ → Session M D → Result AttestProtocolError (Session M D)
  unfolding t_send
  fetch_latest_tips sends seq s = elim (database.get_tips_for_all_users s.db) [
    | none ↦ err database_error
    | some v ↦ t_send sends socket_closed (response seq (latest_tips_response v)) s
  ]

  unfoldable pub handle_request : Bool → ℕ → AttestRequest M → Session M D → Handled M D
  unfolding post_envelope fetch_specific_tips fetch_latest_tips
  handle_request sends seq latest_tips s = done (fetch_latest_tips sends seq s)
  handle_request sends seq (specific_tips tips) s = done (fetch_specific_tips sends tips seq s)
  handle_request sends seq (post envelopes) s = post_envelope sends envelopes seq s

  unfoldable pub handle_protocol :
      Bool → Option (AttestSocketProtocol M) → Session M D → Handled M D
  unfolding handle_request handle_response
  handle_protocol sends none s = done (err json_error)
  handle_protocol sends (some (request seq m)) s = handle_request sends seq m s
  handle_protocol sends (some (response seq r)) s = handle_response seq r s

  unfoldable pub handle_text : Bool → Result AttestProtocolError Text → Session M D → Handled M D
  unfolding handle_protocol
  handle_text sends (err e) s = done (err e)
  handle_text sends (ok text) s = handle_protocol sends (from_str text) s

  unfoldable pub handle_message_from_peer : Bool → Message → Session M D → Handled M D
  unfolding handle_text only_text
  handle_message_from_peer sends msg s = handle_text sends (only_text msg) s

  abbrev pub turn_of : Result AttestProtocolError (Session M D) → Turn M D
  turn_of (ok s) = live s
  turn_of (err e) = failed e

  -- A turn of the loop, on the event that is taken.
  unfoldable pub take_event : Arrival M → Session M D → Outcome (Turn M D)
  unfolding handle_message_from_peer handle_internal_request request_of sender_of takes_internal
  take_event (from_peer sends msg) s =
      handle_message_from_peer sends msg s >>= λ r. done (turn_of r)
  take_event disconnected s = done quit
  take_event (internal sends i) s =
      handle_internal_request sends (request_of i) (sender_of i) s >>= λ r. done (turn_of r)
  take_event all_closed s = done quit

  unfoldable pub run_turn : Arrival M → Session M D → Outcome (Turn M D)
  unfolding next_seq take_event
  run_turn e s = next_seq s >>= λ s'. take_event e s'

  -- The events that `select!` can find.
  unfoldable pub is_enabled : Arrival M → Session M D → Bool
  unfolding takes_internal
  is_enabled (from_peer sends msg) s = true
  is_enabled disconnected s = true
  is_enabled (internal sends i) s = takes_internal s
  is_enabled all_closed s = true

  -- The sessions that the loop comes to.
  pub data IsLive : Session M D → Type 0 where
    begun : (s : Session M D) (db : D) → s ≡ new_session db → IsLive s
    turned :
        (e : Arrival M) {s s' : Session M D}
        → IsLive s
        → is_enabled e s ≡ true
        → run_turn e s ≡ done (live s')
        → IsLive s'
