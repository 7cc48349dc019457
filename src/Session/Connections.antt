-- ===== src/Session/Connections.antt =====
-- common/attest/src/attestations/client.rs and client/connection_creation.rs: the connections that a
-- daemon keeps to its peers, and how it asks for one.
use judica_vm.Base.{
  ℕ, suc, ◌+◌, ◌%◌, ◌^◌, Bool, true, false, not, ◌&&◌, ◌||◌, Option, none, some, List, [], ◌∷◌,
  Outcome, done, panic, ◌>>=◌, if◌then◌else◌, ◌==◌,
}
use judica_vm.Base.Exec.{Result, ok, err}
use judica_vm.Base.Hash.{HashMap, get, put}
use judica_vm.Session.{AttestProtocolError}
use judica_vm.Session.Cookies.{ServiceUrl, Role, service_ord}

-- An open peer is known by the channel to its session, a pending one by the cookie of the attempt.
pub data PeerState : Type 0 where
  open_peer : ℕ → Role → PeerState
  closed_peer : PeerState
  pending_peer : ℕ → PeerState

-- The connections, the next cookie, the next channel, and the channels whose receiver is alive, each
-- with the peer of the session that holds it.
pub record Connections : Type 0 where
  pub connections : HashMap ServiceUrl PeerState
  pub pending_cookie : ℕ
  pub next_channel : ℕ
  pub receivers : List (ServiceUrl × ℕ)

unfoldable pub new_connections : Connections
new_connections = record { connections = []; pending_cookie = 0; next_channel = 0; receivers = [] }

unfoldable pub is_received : ℕ → List (ServiceUrl × ℕ) → Bool
is_received c [] = false
is_received c ((svc, d) ∷ receivers) = (c == d) || is_received c receivers

-- A channel is closed once its receiver is dropped.
unfoldable pub is_closed : ℕ → Connections → Bool
unfolding is_received
is_closed c r = not (is_received c r.receivers)

unfoldable pub set_state : ServiceUrl → PeerState → Connections → Connections
unfolding put
set_state svc p r = record r { connections = put svc p r.connections }

abbrev pub peer_state : Option PeerState → Connections → PeerState
peer_state none r = closed_peer
peer_state (some closed_peer) r = closed_peer
peer_state (some (open_peer c role)) r = if is_closed c r then closed_peer else open_peer c role
peer_state (some (pending_peer cookie)) r = pending_peer cookie

unfoldable pub conn_already_exists : ServiceUrl → Connections → PeerState
unfolding get is_closed
conn_already_exists svc r = peer_state (get svc r.connections) r

-- `expect`: the service is present.
abbrev pub close_pending : Option PeerState → ServiceUrl → ℕ → Connections → Outcome Connections
close_pending none svc current_cookie r = panic
close_pending (some closed_peer) svc current_cookie r = done r
close_pending (some (open_peer c role)) svc current_cookie r = done r
close_pending (some (pending_peer u)) svc current_cookie r =
    done (if u == current_cookie then set_state svc closed_peer r else r)

unfoldable pub set_conn_closed_from_pending : ServiceUrl → ℕ → Connections → Outcome Connections
unfolding get set_state
set_conn_closed_from_pending svc current_cookie r =
    close_pending (get svc r.connections) svc current_cookie r

-- `new_protocol_chan`: the peer is open to it, and the caller has the receiver.
unfoldable pub open_new : ServiceUrl → Role → Connections → Option ℕ × Connections
unfolding set_state
open_new svc role r = (
  some r.next_channel,
  set_state svc (open_peer r.next_channel role) (record r {
    next_channel = suc r.next_channel;
    receivers = (svc, r.next_channel) ∷ r.receivers;
  }),
)

abbrev pub open_from : Option PeerState → ServiceUrl → Role → Connections → Option ℕ × Connections
open_from none svc role r = open_new svc role r
open_from (some (open_peer c existing)) svc role r = (none, r)
open_from (some closed_peer) svc role r = open_new svc role r
open_from (some (pending_peer cookie)) svc role r = open_new svc role r

unfoldable pub set_conn_open_prob : ServiceUrl → Role → Connections → Option ℕ × Connections
unfolding get open_new
set_conn_open_prob svc role r = open_from (get svc r.connections) svc role r

-- `PENDING_COOKIE.fetch_add`
unfoldable pub new_pending : ServiceUrl → Connections → Option ℕ × Connections
unfolding set_state
new_pending svc r = (
  some r.pending_cookie,
  set_state svc (pending_peer r.pending_cookie)
      (record r { pending_cookie = (r.pending_cookie + 1) % 2 ^ 64 }),
)

abbrev pub pending_from :
    Option PeerState → ServiceUrl → Bool → Connections → Option ℕ × Connections
pending_from none svc force r = new_pending svc r
pending_from (some closed_peer) svc force r = new_pending svc r
pending_from (some (open_peer c role)) svc force r =
    if not (is_closed c r) then (none, r) else new_pending svc r
pending_from (some (pending_peer cookie)) svc force r =
    if force then new_pending svc r else (none, r)

unfoldable pub set_conn_pending : ServiceUrl → Bool → Connections → Option ℕ × Connections
unfolding get is_closed new_pending
set_conn_pending svc force r = pending_from (get svc r.connections) svc force r

-- The end of a session drops its receiver.
unfoldable pub drop_from : ℕ → List (ServiceUrl × ℕ) → List (ServiceUrl × ℕ)
drop_from c [] = []
drop_from c ((svc, d) ∷ receivers) =
    let rest = drop_from c receivers in if c == d then rest else (svc, d) ∷ rest

unfoldable pub drop_receiver : ℕ → Connections → Connections
unfolding drop_from
drop_receiver c r = record r { receivers = drop_from c r.receivers }

-- The variables of the loop of `get_conn`; of the task, whether there is one.
pub record Attempt : Type 0 where
  pub cookie : Option ℕ
  pub ojh : Bool

pub data GetTurn : Type 0 where
  found : ℕ → GetTurn
  again : Attempt → Connections → GetTurn
  spawned : Attempt → Connections → GetTurn

abbrev pub is_cookie : ℕ → Option ℕ → Bool
is_cookie k none = false
is_cookie k (some cookie) = k == cookie

abbrev pub begin_attempt : Option ℕ × Connections → Bool → GetTurn
begin_attempt (none, r) ojh = again (record { cookie = none; ojh = ojh }) r
begin_attempt (some cookie, r) ojh = spawned (record { cookie = some cookie; ojh = true }) r

abbrev pub take_state : PeerState → Bool → ServiceUrl → Attempt → Connections → Outcome GetTurn
take_state (open_peer c role) free svc a later = done (found c)
take_state (pending_peer current_cookie) free svc a later =
    if free && is_cookie current_cookie a.cookie
    then (set_conn_closed_from_pending svc current_cookie later >>= λ r. done (again a r))
    else done (again a later)
take_state closed_peer free svc a later =
    done (begin_attempt (set_conn_pending svc true later) a.ojh)

-- A turn of the loop. The connections are read in one state and, the lock being free and other tasks
-- running in between, written in a later one. The flag says whether the task has finished.
unfoldable pub get_conn_turn :
    Result AttestProtocolError ServiceUrl
    → Bool
    → ServiceUrl
    → Attempt
    → Connections
    → Connections
    → Outcome GetTurn
unfolding conn_already_exists set_conn_closed_from_pending set_conn_pending
get_conn_turn (err e) finished svc a seen later = panic
get_conn_turn (ok my_name) finished svc a seen later =
    take_state (conn_already_exists svc seen) (not a.ojh || finished) svc
      (record a { ojh = a.ojh && not finished }) later
