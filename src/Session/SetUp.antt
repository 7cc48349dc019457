-- ===== src/Session/SetUp.antt =====
-- common/attest/src/attestations/server/protocol.rs: `run_protocol_inner` from the handshake to the
-- loop, and whom it takes.
use judica_vm.Base.{ℕ, ◌≡◌, ◌≢◌, refl, subst, Option, none, some, []}
use judica_vm.Base.Exec.{Result, ok, err, same_ok}
use judica_vm.Base.Hash.{get}
use judica_vm.Session.{AttestProtocolError, already_connected, invalid_setup, self_connection}
use judica_vm.Session.Cookies.{
  ServiceUrl, Role, server, client, service_ord, service_refl, preferred_role,
}
use judica_vm.Session.Connections.{
  PeerState, open_peer, closed_peer, pending_peer, Connections, set_state, open_new, open_from,
  set_conn_open_prob,
}
use judica_vm.Session.Exclusive.{
  opens, IsRegistry, next, IsHeldAs, IsExclusive, IsRegistry-IsExclusive, held, held_none,
  held_closed, held_pending, get-put_self,
}

-- Only a server learns its peer's name from the handshake, and only a client has it before.
unfoldable pub peer_of :
    Role → Option ServiceUrl → Option ServiceUrl → Result AttestProtocolError ServiceUrl
peer_of server (some p) none = ok p
peer_of server (some p) (some q) = err invalid_setup
peer_of server none given = err invalid_setup
peer_of client none (some p) = ok p
peer_of client none none = err invalid_setup
peer_of client (some p) given = err invalid_setup

abbrev pub Admitted : Type 0
Admitted = Result AttestProtocolError (ServiceUrl × ℕ) × Connections

abbrev pub admit : ServiceUrl → Option ℕ × Connections → Admitted
admit p (none, r) = (err already_connected, r)
admit p (some c, r) = (ok (p, c), r)

abbrev pub open_as : Role → ServiceUrl → Result AttestProtocolError Role → Connections → Admitted
open_as role p (err e) r = (err e, r)
open_as role p (ok prefer_role) r = admit p (set_conn_open_prob p role r)

abbrev pub name_self :
    Role → ServiceUrl → Result AttestProtocolError ServiceUrl → Connections → Admitted
name_self role p (err e) r = (err e, r)
name_self role p (ok me) r = open_as role p (preferred_role me p) r

-- `found` is the error of a daemon that has no client.
abbrev pub with_client :
    Role
    → ServiceUrl
    → Result AttestProtocolError Unit
    → Result AttestProtocolError ServiceUrl
    → Connections
    → Admitted
with_client role p (err e) me r = (err e, r)
with_client role p (ok found) me r = name_self role p me r

abbrev pub with_peer :
    Role
    → Result AttestProtocolError ServiceUrl
    → Result AttestProtocolError Unit
    → Result AttestProtocolError ServiceUrl
    → Connections
    → Admitted
with_peer role (err e) found me r = (err e, r)
with_peer role (ok p) found me r = with_client role p found me r

-- The peer and the channel of the session that begins, or the error that ends it before it does.
unfoldable pub begin_session :
    Role
    → Result AttestProtocolError (Option ServiceUrl)
    → Option ServiceUrl
    → Result AttestProtocolError Unit
    → Result AttestProtocolError ServiceUrl
    → Connections
    → Admitted
unfolding peer_of preferred_role set_conn_open_prob
begin_session role (err e) given found me r = (err e, r)
begin_session role (ok named) given found me r =
    with_peer role (peer_of role named given) found me r

-- A session that begins is with another daemon, with which there was none, and to which the peer is
-- then open. One that does not begin leaves the connections as they were.
pub IsAdmitted : Result AttestProtocolError ServiceUrl → Role → Connections → Admitted → Type 0
IsAdmitted me role r (err e, r') = r' ≡ r
IsAdmitted me role r (ok (p, c), r') =
    (me ≢ ok p)
    × (held p r.receivers ≡ [])
    × (get p r'.connections ≡ some (open_peer c role))
    × IsRegistry r'

open_new-IsAdmitted :
    (me : ServiceUrl) (role : Role) (p : ServiceUrl) (r : Connections)
    → me ≢ p
    → held p r.receivers ≡ []
    → IsRegistry (open_new p role r).1
    → IsAdmitted (ok me) role r (admit p (open_new p role r))
unfolding IsAdmitted open_new set_state
open_new-IsAdmitted me role p r other free made = (
  (λ e. other (same_ok e)),
  free,
  get-put_self p (open_peer r.next_channel role) r.connections,
  made,
)

open_from-IsAdmitted :
    (me : ServiceUrl) (role : Role) (p : ServiceUrl) (r : Connections) (s : Option PeerState)
    → me ≢ p
    → IsHeldAs s (held p r.receivers)
    → IsRegistry (open_from s p role r).1
    → IsAdmitted (ok me) role r (admit p (open_from s p role r))
unfolding IsAdmitted
open_from-IsAdmitted me role p r none other here made =
    open_new-IsAdmitted me role p r other (held_none (held p r.receivers) here) made
open_from-IsAdmitted me role p r (some closed_peer) other here made =
    open_new-IsAdmitted me role p r other (held_closed (held p r.receivers) here) made
open_from-IsAdmitted me role p r (some (pending_peer k)) other here made =
    open_new-IsAdmitted me role p r other (held_pending (held p r.receivers) k here) made
open_from-IsAdmitted me role p r (some (open_peer c existing)) other here made = refl

preferred_role-other : (me p : ServiceUrl) (role : Role) → preferred_role me p ≡ ok role → me ≢ p
unfolding preferred_role
preferred_role-other me p role h e =
    let same_name : preferred_role me me ≡ err self_connection =
      rw (preferred_role, service_refl me) refl in
    let on = subst (λ x. preferred_role me x ≡ err self_connection) e same_name in cc

open_as-IsAdmitted :
    (me : ServiceUrl) (role : Role) (p : ServiceUrl) (r : Connections)
    (prefers : Result AttestProtocolError Role)
    → preferred_role me p ≡ prefers
    → IsRegistry r
    → IsAdmitted (ok me) role r (open_as role p prefers r)
unfolding IsAdmitted set_conn_open_prob IsExclusive
open_as-IsAdmitted me role p r (err e) h made = refl
open_as-IsAdmitted me role p r (ok prefer_role) h made =
    open_from-IsAdmitted me role p r (get p r.connections) (preferred_role-other me p prefer_role h)
      (IsRegistry-IsExclusive made p) (next made (opens p role r))

with_peer-IsAdmitted :
    (role : Role) (peer : Result AttestProtocolError ServiceUrl)
    (found : Result AttestProtocolError Unit) (me : Result AttestProtocolError ServiceUrl)
    (r : Connections)
    → IsRegistry r
    → IsAdmitted me role r (with_peer role peer found me r)
unfolding IsAdmitted
with_peer-IsAdmitted role (err e) found me r made = refl
with_peer-IsAdmitted role (ok p) (err e) me r made = refl
with_peer-IsAdmitted role (ok p) (ok u) (err e) r made = refl
with_peer-IsAdmitted role (ok p) (ok u) (ok me) r made =
    open_as-IsAdmitted me role p r (preferred_role me p) refl made

-- From connections that the tasks of a daemon come to, and whatever the handshake gave, a session
-- that begins is not with the daemon itself, no other session with its peer holds a receiver, the
-- peer is then open to it, and the connections stay such. One that is refused leaves them as they
-- were.
pub begin_session-IsAdmitted :
    (role : Role) (named : Result AttestProtocolError (Option ServiceUrl))
    (given : Option ServiceUrl) (found : Result AttestProtocolError Unit)
    (me : Result AttestProtocolError ServiceUrl) (r : Connections)
    → IsRegistry r
    → IsAdmitted me role r (begin_session role named given found me r)
unfolding begin_session IsAdmitted
begin_session-IsAdmitted role (err e) given found me r made = refl
begin_session-IsAdmitted role (ok named) given found me r made =
    with_peer-IsAdmitted role (peer_of role named given) found me r made
