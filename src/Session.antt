-- ===== src/Session.antt =====
-- common/attest/src/attestations/server/protocol.rs: one session of two attestation daemons, from
-- the end of the handshake.
pub mod Serve
pub mod Live
pub mod Books
pub mod Answer
pub mod Cookies
pub mod Connections
pub mod Exclusive
pub mod Reconnect
pub mod Handshake
pub mod SetUp
pub mod Accepts
use judica_vm.Base.{
  ℕ, Bool, true, false, not, Option, none, some, List, [], ◌∷◌, ◌++◌, Outcome, done, ◌>>=◌, add,
  u64, ◌==◌, if◌then◌else◌,
}
use judica_vm.Base.Int.{ℤ, pos, add_one, sub_one, less_int}
use judica_vm.Base.Exec.{Result, ok, err}
use judica_vm.Base.Order.{nat_ord}
use judica_vm.Base.Map.{BTreeMap, lookup, insert, remove}
use judica_vm.Base.Text.{Text}
use judica_vm.Envelope.{CanonicalEnvelopeHash, GenericEnvelope}

pub data AttestRequest (M : Type 0) : Type 0 where
  latest_tips : AttestRequest M
  specific_tips : List CanonicalEnvelopeHash → AttestRequest M
  post : List (GenericEnvelope M) → AttestRequest M

-- A post is answered by the success of each insertion.
pub data AttestResponse (M : Type 0) : Type 0 where
  latest_tips_response : List (GenericEnvelope M) → AttestResponse M
  specific_tips_response : List (GenericEnvelope M) → AttestResponse M
  post_response : List Bool → AttestResponse M

pub data AttestSocketProtocol (M : Type 0) : Type 0 where
  request : ℕ → AttestRequest M → AttestSocketProtocol M
  response : ℕ → AttestResponse M → AttestSocketProtocol M

abbrev pub ResponseCode : Type 0
ResponseCode = ℕ

unfoldable pub request_code_of : {M : Type 0} → AttestRequest M → ResponseCode
request_code_of latest_tips = 0
request_code_of (specific_tips _) = 1
request_code_of (post _) = 2

unfoldable pub response_code_of : {M : Type 0} → AttestResponse M → ResponseCode
response_code_of (latest_tips_response _) = 0
response_code_of (specific_tips_response _) = 1
response_code_of (post_response _) = 2

pub data AttestProtocolError : Type 0 where
  json_error socket_error incorrect_message_owned database_error response_type_incorrect :
      AttestProtocolError
  unrequested_response socket_closed invalid_setup self_connection : AttestProtocolError
  hostname_unknown non_zero_sync cookie_miss_match timed_out : AttestProtocolError
  failed_to_authenticate already_connected invalid_challenge_hash_string : AttestProtocolError

-- A oneshot channel by its number, in the variant for what it carries.
pub data AnySender : Type 0 where
  latest_tips_sender : ℕ → AnySender
  specific_tips_sender : ℕ → AnySender
  post_sender : ℕ → AnySender

pub record ResponseRouter : Type 0 where
  pub code : ResponseCode
  pub sender : AnySender

abbrev pub max_message_defecit : ℤ
max_message_defecit = pos 10

-- The variables of the loop; `D` is the database. `sent` and `delivered` record what went to the
-- socket and to the channels, oldest first.
pub record Session (M D : Type 0) : Type 0 where
  pub defecit : ℤ
  pub inflight_requests : BTreeMap ℕ ResponseRouter
  pub seq : ℕ
  pub db : D
  pub sent : List (AttestSocketProtocol M)
  pub delivered : List (ℕ × AttestResponse M)

abbrev pub Handled : Type 0 → Type 0 → Type 0
Handled M D = Outcome (Result AttestProtocolError (Session M D))

module _ {M D : Type 0} where
  unfoldable pub new_session : D → Session M D
  new_session db = record {
    defecit = pos 0;
    inflight_requests = [];
    seq = 0;
    db = db;
    sent = [];
    delivered = [];
  }

  -- A send, with the error that the caller makes of a failure.
  unfoldable pub t_send :
      Bool
      → AttestProtocolError
      → AttestSocketProtocol M
      → Session M D
      → Result AttestProtocolError (Session M D)
  t_send true e msg s = ok (record s { sent = s.sent ++ msg ∷ [] })
  t_send false e msg s = err e

  -- `handle_internal_request`; the flag says whether the socket takes the message.
  unfoldable pub handle_internal_request :
      Bool → AttestRequest M → AnySender → Session M D → Handled M D
  unfolding request_code_of add_one t_send
  handle_internal_request sends msg chan s = do
    let router : ResponseRouter = record { code = request_code_of msg; sender = chan }
    defecit ← add_one s.defecit
    done (
        t_send sends socket_error (request s.seq msg) (record s {
          inflight_requests = insert s.seq router s.inflight_requests;
          defecit = defecit;
        }))

  abbrev pub deliver : ℕ → AttestResponse M → Session M D → Result AttestProtocolError (Session M D)
  deliver chan r s = ok (record s { delivered = s.delivered ++ (chan, r) ∷ [] })

  -- The match on the sender and the response. That the receiver dropped is no error.
  unfoldable pub forward :
      AnySender → AttestResponse M → Session M D → Result AttestProtocolError (Session M D)
  forward (latest_tips_sender c) (latest_tips_response m) s = deliver c (latest_tips_response m) s
  forward (latest_tips_sender c) (specific_tips_response m) s = err response_type_incorrect
  forward (latest_tips_sender c) (post_response m) s = err response_type_incorrect
  forward (post_sender c) (post_response m) s = deliver c (post_response m) s
  forward (post_sender c) (latest_tips_response m) s = err response_type_incorrect
  forward (post_sender c) (specific_tips_response m) s = err response_type_incorrect
  forward (specific_tips_sender c) (specific_tips_response m) s =
      deliver c (specific_tips_response m) s
  forward (specific_tips_sender c) (latest_tips_response m) s = err response_type_incorrect
  forward (specific_tips_sender c) (post_response m) s = err response_type_incorrect

  unfoldable pub route_response :
      Option ResponseRouter
      → AttestResponse M
      → Session M D
      → Result AttestProtocolError (Session M D)
  unfolding response_code_of forward
  route_response none r s = err unrequested_response
  route_response (some k) r s =
      if not (response_code_of r == k.code)
      then err response_type_incorrect
      else forward k.sender r s

  -- The `Response` arm of `handle_message_from_peer`.
  unfoldable pub handle_response : ℕ → AttestResponse M → Session M D → Handled M D
  unfolding sub_one route_response
  handle_response seq r s = do
    defecit ← sub_one s.defecit
    done (
        route_response (lookup seq s.inflight_requests) r
          (record s { defecit = defecit; inflight_requests = remove seq s.inflight_requests }))

-- What the other tasks ask for, each with a channel for that kind of answer.
pub data Internal (M : Type 0) : Type 0 where
  ask_post : List (GenericEnvelope M) → ℕ → Internal M
  ask_specific_tips : List CanonicalEnvelopeHash → ℕ → Internal M
  ask_latest_tips : ℕ → Internal M

module _ {M : Type 0} where
  unfoldable pub request_of : Internal M → AttestRequest M
  request_of (ask_post envelopes chan) = post envelopes
  request_of (ask_specific_tips tips chan) = specific_tips tips
  request_of (ask_latest_tips chan) = latest_tips

  unfoldable pub sender_of : Internal M → AnySender
  sender_of (ask_post envelopes chan) = post_sender chan
  sender_of (ask_specific_tips tips chan) = specific_tips_sender chan
  sender_of (ask_latest_tips chan) = latest_tips_sender chan

module _ {M D : Type 0} where
  -- `seq += 1` at the head of the loop.
  unfoldable pub next_seq : Session M D → Outcome (Session M D)
  unfolding add
  next_seq s = do n ← add u64 s.seq 1; done (record s { seq = n })

  -- The guard of the three internal channels.
  unfoldable pub takes_internal : Session M D → Bool
  takes_internal s = less_int s.defecit max_message_defecit
