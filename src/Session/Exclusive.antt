-- ===== src/Session/Exclusive.antt =====
-- common/attest/src/attestations/client/connection_creation.rs: two sessions with one peer never run
-- at a time.
use judica_vm.Base.{
  ℕ, suc, ◌+◌, ◌%◌, ◌^◌, ◌≡◌, ◌≢◌, refl, sym, subst, Bool, true, false, Option, none, some, List,
  [], ◌∷◌, Outcome, done, panic, if◌then◌else◌, ◌==◌, Bool-cases, inl, inr, arith,
}
use judica_vm.Base.Hash.{HashMap, get, put, same, same→eq, same_refl, get-without_ne}
use judica_vm.Session.Cookies.{ServiceUrl, Role, service_ord}
use judica_vm.Session.Connections.{
  PeerState, open_peer, closed_peer, pending_peer, Connections, new_connections, is_received,
  is_closed, set_state, close_pending, set_conn_closed_from_pending, open_new, open_from,
  set_conn_open_prob, new_pending, pending_from, set_conn_pending, drop_from, drop_receiver,
}

-- The channels that sessions with a peer hold.
unfoldable pub held : ServiceUrl → List (ServiceUrl × ℕ) → List ℕ
held svc [] = []
held svc ((peer, c) ∷ receivers) =
    let rest = held svc receivers in if same svc peer then c ∷ rest else rest

-- Nobody holds a channel, or one session does and the peer is open to it.
pub data IsHeldAs : Option PeerState → List ℕ → Type 0 where
  idle : (p : Option PeerState) → IsHeldAs p []
  busy : (c : ℕ) (role : Role) → IsHeldAs (some (open_peer c role)) (c ∷ [])

unfoldable pub IsExclusive : Connections → Type 0
IsExclusive r = (svc : ServiceUrl) → IsHeldAs (get svc r.connections) (held svc r.receivers)

-- What the tasks of a daemon do to its connections, in any order.
pub data RegistryStep : Connections → Connections → Type 0 where
  pends :
      (svc : ServiceUrl) (force : Bool) (r : Connections)
      → RegistryStep r (set_conn_pending svc force r).1
  opens :
      (svc : ServiceUrl) (role : Role) (r : Connections)
      → RegistryStep r (set_conn_open_prob svc role r).1
  closes :
      (svc : ServiceUrl) (cookie : ℕ) (r r' : Connections)
      → set_conn_closed_from_pending svc cookie r ≡ done r'
      → RegistryStep r r'
  drops : (c : ℕ) (r : Connections) → RegistryStep r (drop_receiver c r)

pub data IsRegistry : Connections → Type 0 where
  empty : IsRegistry new_connections
  next : {r r' : Connections} → IsRegistry r → RegistryStep r r' → IsRegistry r'

-- A write changes what is known of one peer.
pub get-put_self :
    (svc : ServiceUrl) (p : PeerState) (m : HashMap ServiceUrl PeerState)
    → get svc (put svc p m) ≡ some p
unfolding get put
get-put_self svc p m = rw (same_refl svc) refl

get-put_off :
    (svc j : ServiceUrl) (p : PeerState) (m : HashMap ServiceUrl PeerState)
    → same j svc ≡ false
    → get j (put svc p m) ≡ get j m
unfolding get put
get-put_off svc j p m off =
    let apart : j ≢ svc =
      λ e. let on = same_refl j in let on' = subst (λ x. same j x ≡ true) e on in cc in
    rw (off) (get-without_ne svc j m apart)

set_state-IsExclusive :
    (svc : ServiceUrl) (p : PeerState) (r : Connections)
    → IsHeldAs (some p) (held svc r.receivers)
    → ((j : ServiceUrl) → same j svc ≡ false → IsHeldAs (get j r.connections) (held j r.receivers))
    → IsExclusive (set_state svc p r)
unfolding IsExclusive set_state
set_state-IsExclusive svc p r here others j = elim (Bool-cases (same j svc)) [
  | inl on ↦
      let fits : IsHeldAs (get svc (put svc p r.connections)) (held svc r.receivers) =
        subst (λ s. IsHeldAs s (held svc r.receivers)) (sym (get-put_self svc p r.connections))
          here in
      subst (λ i. IsHeldAs (get i (put svc p r.connections)) (held i r.receivers))
        (sym (same→eq j svc on)) fits
  | inr off ↦
      subst (λ s. IsHeldAs s (held j r.receivers)) (sym (get-put_off svc j p r.connections off))
        (others j off)
]

-- A peer that is not open has no session.
pub held_none : (l : List ℕ) → IsHeldAs none l → l ≡ []
held_none l (idle _) = refl

pub held_closed : (l : List ℕ) → IsHeldAs (some closed_peer) l → l ≡ []
held_closed l (idle _) = refl

pub held_pending : (l : List ℕ) (k : ℕ) → IsHeldAs (some (pending_peer k)) l → l ≡ []
held_pending l k (idle _) = refl

held-IsReceived :
    (svc : ServiceUrl) (c : ℕ) (l : List ℕ) (rs : List (ServiceUrl × ℕ))
    → held svc rs ≡ c ∷ l
    → is_received c rs ≡ true
unfolding held is_received
held-IsReceived svc c l [] h = cc
held-IsReceived svc c l ((peer, d) ∷ rs) h = ground (arith, held-IsReceived svc c l rs)

held_open :
    (svc : ServiceUrl) (c : ℕ) (role : Role) (rs : List (ServiceUrl × ℕ)) (l : List ℕ)
    → l ≡ held svc rs
    → is_received c rs ≡ false
    → IsHeldAs (some (open_peer c role)) l
    → l ≡ []
held_open svc c role rs l same_l off (idle _) = refl
held_open svc c role rs l same_l off (busy _ _) =
    let on = held-IsReceived svc c [] rs (sym same_l) in cc

drop_all : ℕ → List ℕ → List ℕ
drop_all c [] = []
drop_all c (d ∷ l) = let rest = drop_all c l in if c == d then rest else d ∷ rest

held-drop_from :
    (svc : ServiceUrl) (c : ℕ) (rs : List (ServiceUrl × ℕ))
    → drop_all c (held svc rs) ≡ held svc (drop_from c rs)
unfolding held drop_from drop_all
held-drop_from svc c [] = refl
held-drop_from svc c ((peer, d) ∷ rs) = ground (arith, held-drop_from svc c rs)

IsHeldAs-drop_all :
    (c : ℕ) (p : Option PeerState) (l : List ℕ) → IsHeldAs p l → IsHeldAs p (drop_all c l)
unfolding drop_all
IsHeldAs-drop_all c p l (idle _) = idle p
IsHeldAs-drop_all c p l (busy d role) = elim (Bool-cases (c == d)) [
  | inl on ↦ rw (on) (idle p)
  | inr off ↦ rw (off) (busy d role)
]

drop_receiver-IsExclusive :
    (c : ℕ) (r : Connections) → IsExclusive r → IsExclusive (drop_receiver c r)
unfolding IsExclusive drop_receiver
drop_receiver-IsExclusive c r all svc =
    let left = IsHeldAs-drop_all c (get svc r.connections) (held svc r.receivers) (all svc) in
    subst (λ l. IsHeldAs (get svc r.connections) l) (held-drop_from svc c r.receivers) left

-- A peer that nobody holds can be given any state.
free-IsExclusive :
    (svc : ServiceUrl) (p : PeerState) (r : Connections)
    → held svc r.receivers ≡ []
    → IsExclusive r
    → IsExclusive (set_state svc p r)
unfolding IsExclusive
free-IsExclusive svc p r free all =
    set_state-IsExclusive svc p r (subst (λ l. IsHeldAs (some p) l) (sym free) (idle (some p)))
      (λ j off. all j)

new_pending-IsExclusive :
    (svc : ServiceUrl) (r : Connections)
    → held svc r.receivers ≡ []
    → IsExclusive r
    → IsExclusive (new_pending svc r).1
unfolding new_pending IsExclusive
new_pending-IsExclusive svc r free all =
    free-IsExclusive svc (pending_peer r.pending_cookie)
      (record r { pending_cookie = (r.pending_cookie + 1) % 2 ^ 64 }) free all

open_new-IsExclusive :
    (svc : ServiceUrl) (role : Role) (r : Connections)
    → held svc r.receivers ≡ []
    → IsExclusive r
    → IsExclusive (open_new svc role r).1
unfolding open_new IsExclusive held
open_new-IsExclusive svc role r free all =
    set_state-IsExclusive svc (open_peer r.next_channel role)
      (record r {
        next_channel = suc r.next_channel;
        receivers = (svc, r.next_channel) ∷ r.receivers;
      })
      (rw (same_refl svc, free) (busy r.next_channel role)) (λ j off. rw (off) (all j))

-- What is known of the peer decides.
pending_from-IsExclusive :
    (svc : ServiceUrl) (force : Bool) (r : Connections) (p : Option PeerState)
    → IsHeldAs p (held svc r.receivers)
    → IsExclusive r
    → IsExclusive (pending_from p svc force r).1
unfolding is_closed
pending_from-IsExclusive svc force r none here all =
    new_pending-IsExclusive svc r (held_none (held svc r.receivers) here) all
pending_from-IsExclusive svc force r (some closed_peer) here all =
    new_pending-IsExclusive svc r (held_closed (held svc r.receivers) here) all
pending_from-IsExclusive svc force r (some (open_peer c role)) here all =
    elim (Bool-cases (is_received c r.receivers)) [
      | inl on ↦ rw (on) all
      | inr off ↦ rw (off) (
          new_pending-IsExclusive svc r
            (held_open svc c role r.receivers (held svc r.receivers) refl off here) all)
    ]
pending_from-IsExclusive svc true r (some (pending_peer k)) here all =
    new_pending-IsExclusive svc r (held_pending (held svc r.receivers) k here) all
pending_from-IsExclusive svc false r (some (pending_peer k)) here all = all

open_from-IsExclusive :
    (svc : ServiceUrl) (role : Role) (r : Connections) (p : Option PeerState)
    → IsHeldAs p (held svc r.receivers)
    → IsExclusive r
    → IsExclusive (open_from p svc role r).1
open_from-IsExclusive svc role r none here all =
    open_new-IsExclusive svc role r (held_none (held svc r.receivers) here) all
open_from-IsExclusive svc role r (some closed_peer) here all =
    open_new-IsExclusive svc role r (held_closed (held svc r.receivers) here) all
open_from-IsExclusive svc role r (some (open_peer c existing)) here all = all
open_from-IsExclusive svc role r (some (pending_peer k)) here all =
    open_new-IsExclusive svc role r (held_pending (held svc r.receivers) k here) all

AfterClose : Outcome Connections → Type 0
AfterClose panic = Unit
AfterClose (done r) = IsExclusive r

close_pending-IsExclusive :
    (svc : ServiceUrl) (k : ℕ) (r : Connections) (p : Option PeerState)
    → IsHeldAs p (held svc r.receivers)
    → IsExclusive r
    → AfterClose (close_pending p svc k r)
unfolding AfterClose
close_pending-IsExclusive svc k r none here all = tt
close_pending-IsExclusive svc k r (some closed_peer) here all = all
close_pending-IsExclusive svc k r (some (open_peer c role)) here all = all
close_pending-IsExclusive svc k r (some (pending_peer u)) here all =
    let free =
      free-IsExclusive svc closed_peer r (held_pending (held svc r.receivers) u here) all in
    elim (Bool-cases (u == k)) [ inl on ↦ rw (on) free | inr off ↦ rw (off) all ]

IsExclusive-RegistryStep : {r r' : Connections} → RegistryStep r r' → IsExclusive r → IsExclusive r'
unfolding IsExclusive set_conn_pending set_conn_open_prob set_conn_closed_from_pending AfterClose
IsExclusive-RegistryStep (pends svc force r) all =
    pending_from-IsExclusive svc force r (get svc r.connections) (all svc) all
IsExclusive-RegistryStep (opens svc role r) all =
    open_from-IsExclusive svc role r (get svc r.connections) (all svc) all
IsExclusive-RegistryStep (closes svc cookie r r' e) all =
    subst AfterClose e
      (close_pending-IsExclusive svc cookie r (get svc r.connections) (all svc) all)
IsExclusive-RegistryStep (drops c r) all = drop_receiver-IsExclusive c r all

-- Whatever the tasks of a daemon do to its connections and in whatever order, at most one session
-- with each peer holds a receiver, and while one does the peer is recorded as open to that session.
pub IsRegistry-IsExclusive : {r : Connections} → IsRegistry r → IsExclusive r
unfolding IsExclusive new_connections get held
IsRegistry-IsExclusive empty = λ svc. idle none
IsRegistry-IsExclusive (next before step) =
    IsExclusive-RegistryStep step (IsRegistry-IsExclusive before)
