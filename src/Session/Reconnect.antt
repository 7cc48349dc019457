-- ===== src/Session/Reconnect.antt =====
-- common/attest/src/attestations/client/connection_creation.rs, `get_conn`: what a turn of its loop
-- gives.
use judica_vm.Base.{
  ℕ, ◌≡◌, ◌≢◌, ◌⊎◌, ◌∙◌, ◌==◌, arith, refl, sym, subst, ap, Bool, true, false, not, ◌&&◌, ◌||◌,
  Option, none, some, Outcome, done, panic, ◌>>=◌, Bool-cases, inl, inr,
}
use judica_vm.Base.Exec.{Result, ok, err}
use judica_vm.Base.Hash.{get}
use judica_vm.Session.{AttestProtocolError}
use judica_vm.Session.Cookies.{ServiceUrl, Role, service_ord}
use judica_vm.Session.Connections.{
  PeerState, open_peer, closed_peer, pending_peer, Connections, is_closed, set_state, peer_state,
  conn_already_exists, close_pending, set_conn_closed_from_pending, new_pending, pending_from,
  set_conn_pending, Attempt, GetTurn, found, again, spawned, is_cookie, begin_attempt, take_state,
  get_conn_turn,
}
use judica_vm.Session.Exclusive.{pends, closes, IsRegistry, next, get-put_self}

-- A live session with the peer, and a peer that is not known, is closed, or whose session has ended.
abbrev pub IsLiveWith : ServiceUrl → Connections → ℕ → Type 0
IsLiveWith svc r c =
    (role : Role) × (get svc r.connections ≡ some (open_peer c role)) × (is_closed c r ≡ false)

abbrev pub IsAbsent : ServiceUrl → Connections → Type 0
IsAbsent svc r =
    (get svc r.connections ≡ none)
    ⊎ (get svc r.connections ≡ some closed_peer)
    ⊎ ((c : ℕ) × (role : Role) × (get svc r.connections ≡ some (open_peer c role))
        × (is_closed c r ≡ true))

-- The peer is closed where it is still pending with the cookie, and else nothing is written.
abbrev pub IsGivenUp : ServiceUrl → ℕ → Connections → Connections → Type 0
IsGivenUp svc k later r =
    (get svc later.connections ≡ some (pending_peer k)
      → (get svc r.connections ≡ some closed_peer) × (r.receivers ≡ later.receivers))
    × (get svc later.connections ≢ some (pending_peer k) → r ≡ later)

-- Why a turn ends with nothing found and no task begun: another attempt is pending, or this one's
-- task still runs; this one's task has ended; or a session was opened since the connections were read.
abbrev pub IsAgain : Bool → ServiceUrl → Option ℕ → Connections → Connections → Connections → Type 0
IsAgain free svc mine seen later r =
    ((k : ℕ) × (get svc seen.connections ≡ some (pending_peer k))
      × (free ≡ true → mine ≢ some k)
      × (r ≡ later))
    ⊎ ((k : ℕ) × (get svc seen.connections ≡ some (pending_peer k))
        × (free ≡ true)
        × (mine ≡ some k)
        × IsGivenUp svc k later r)
    ⊎ (IsAbsent svc seen × ((c : ℕ) × IsLiveWith svc later c) × (r ≡ later))

-- What a turn does: `free` is whether the attempt has no task that runs, `mine` its cookie.
pub IsServed : Bool → ServiceUrl → Option ℕ → Connections → Connections → Outcome GetTurn → Type 0
IsServed free svc mine seen later panic = get svc later.connections ≡ none
IsServed free svc mine seen later (done (found c)) = IsLiveWith svc seen c
IsServed free svc mine seen later (done (again a r)) =
    IsRegistry r × IsAgain free svc mine seen later r
IsServed free svc mine seen later (done (spawned a r)) =
    IsRegistry r
    × IsAbsent svc seen
    × ((c : ℕ) → ¬ IsLiveWith svc later c)
    × (a.cookie ≡ some later.pending_cookie)
    × (get svc r.connections ≡ some (pending_peer later.pending_cookie))

peer_state-open :
    (seen : Connections) (c : ℕ) (role : Role) (p : Option PeerState)
    → peer_state p seen ≡ open_peer c role
    → (p ≡ some (open_peer c role)) × (is_closed c seen ≡ false)
peer_state-open seen c role none h = cc
peer_state-open seen c role (some closed_peer) h = cc
peer_state-open seen c role (some (pending_peer k)) h = cc
peer_state-open seen c role (some (open_peer d role')) h = elim (Bool-cases (is_closed d seen)) [
  | inl off ↦ let gone : closed_peer ≡ open_peer c role = rw off at h in cc
  | inr on ↦
      let same_peer : open_peer d role' ≡ open_peer c role = rw on at h in
      let same_channel : d ≡ c = cc in
      (ap some same_peer, subst (λ x. is_closed x seen ≡ false) same_channel on)
]

peer_state-pending :
    (seen : Connections) (k : ℕ) (p : Option PeerState)
    → peer_state p seen ≡ pending_peer k
    → p ≡ some (pending_peer k)
peer_state-pending seen k none h = cc
peer_state-pending seen k (some closed_peer) h = cc
peer_state-pending seen k (some (pending_peer j)) h = ap some h
peer_state-pending seen k (some (open_peer d role)) h = elim (Bool-cases (is_closed d seen)) [
  | inl off ↦ let gone : closed_peer ≡ pending_peer k = rw off at h in cc
  | inr on ↦ let here : open_peer d role ≡ pending_peer k = rw on at h in cc
]

peer_state-closed :
    (svc : ServiceUrl) (seen : Connections) (p : Option PeerState)
    → get svc seen.connections ≡ p
    → peer_state p seen ≡ closed_peer
    → IsAbsent svc seen
peer_state-closed svc seen none at h = inl at
peer_state-closed svc seen (some closed_peer) at h = inr (inl at)
peer_state-closed svc seen (some (pending_peer j)) at h = cc
peer_state-closed svc seen (some (open_peer d role)) at h = elim (Bool-cases (is_closed d seen)) [
  | inl off ↦ inr (inr (d, role, at, off))
  | inr on ↦ let here : open_peer d role ≡ closed_peer = rw on at h in cc
]

module _ (free : Bool) (svc : ServiceUrl) (mine : Option ℕ) (seen later : Connections)
    (made : IsRegistry later) where
  begins-IsServed :
      (ojh : Bool)
      → IsAbsent svc seen
      → ((c : ℕ) → ¬ IsLiveWith svc later c)
      → IsRegistry (new_pending svc later).1
      → IsServed free svc mine seen later (done (begin_attempt (new_pending svc later) ojh))
  unfolding IsServed new_pending set_state
  begins-IsServed ojh lost none_lives reached = (
    reached,
    lost,
    none_lives,
    refl,
    get-put_self svc (pending_peer later.pending_cookie) later.connections,
  )

  pending_from-IsServed :
      (ojh : Bool) (p : Option PeerState)
      → get svc later.connections ≡ p
      → IsAbsent svc seen
      → IsRegistry (pending_from p svc true later).1
      → IsServed free svc mine seen later (done (begin_attempt (pending_from p svc true later) ojh))
  unfolding IsServed
  pending_from-IsServed ojh none at lost reached =
      begins-IsServed ojh lost (λ c (role, there, on). cc) reached
  pending_from-IsServed ojh (some closed_peer) at lost reached =
      begins-IsServed ojh lost (λ c (role, there, on). cc) reached
  pending_from-IsServed ojh (some (pending_peer k)) at lost reached =
      begins-IsServed ojh lost (λ c (role, there, on). cc) reached
  pending_from-IsServed ojh (some (open_peer d role)) at lost reached =
      elim (Bool-cases (is_closed d later)) [
        | inl off ↦
            let reached' = rw off at reached in
            rw off (
              begins-IsServed ojh lost
                (λ c (role', there, on).
                  let same_peer : some (open_peer d role) ≡ some (open_peer c role') = cc in
                  let same_channel : d ≡ c = cc in
                  let off' = subst (λ x. is_closed x later ≡ true) same_channel off in cc)
                reached')
        | inr on ↦ rw on (made, inr (inr (lost, (d, (role, at, on)), refl)))
      ]

  close_pending-IsServed :
      (a : Attempt) (k : ℕ) (p : Option PeerState)
      → get svc later.connections ≡ p
      → get svc seen.connections ≡ some (pending_peer k)
      → free ≡ true
      → mine ≡ some k
      → ((r : Connections) → close_pending p svc k later ≡ done r → IsRegistry r)
      → IsServed free svc mine seen later (close_pending p svc k later >>= λ r. done (again a r))
  unfolding IsServed set_state
  close_pending-IsServed a k none at was is_free own reached = at
  close_pending-IsServed a k (some closed_peer) at was is_free own reached =
      (made, inr (inl (k, was, is_free, own, (λ there. cc, λ other. refl))))
  close_pending-IsServed a k (some (open_peer c role)) at was is_free own reached =
      (made, inr (inl (k, was, is_free, own, (λ there. cc, λ other. refl))))
  close_pending-IsServed a k (some (pending_peer u)) at was is_free own reached =
      elim (Bool-cases (u == k)) [
        | inl same_cookie ↦
            let e : u ≡ k = ground arith in
            let there : get svc later.connections ≡ some (pending_peer k) =
              at ∙ ap (λ x. some (pending_peer x)) e in
            let reached' = rw same_cookie at reached in
            rw same_cookie (
              reached' (set_state svc closed_peer later) refl,
              inr (
                  inl (
                    k,
                    was,
                    is_free,
                    own,
                    (
                      λ it. (get-put_self svc closed_peer later.connections, refl),
                      λ other. absurd (other there),
                    ),
                  )),
            )
        | inr other_cookie ↦ rw other_cookie (
          made,
          inr (
              inl (
                k,
                was,
                is_free,
                own,
                (
                  λ there.
                      let e : some (pending_peer u) ≡ some (pending_peer k) = cc in
                      let e' : u ≡ k = cc in absurd (ground arith),
                  λ other. refl,
                ),
              )),
        )
      ]

  take_state-IsServed :
      (a : Attempt) (p : PeerState)
      → a.cookie ≡ mine
      → conn_already_exists svc seen ≡ p
      → IsServed free svc mine seen later (take_state p free svc a later)
  unfolding IsServed conn_already_exists set_conn_pending set_conn_closed_from_pending
  take_state-IsServed a (open_peer c role) own h =
      let (at, on) = peer_state-open seen c role (get svc seen.connections) h in (role, at, on)
  take_state-IsServed a closed_peer own h =
      pending_from-IsServed a.ojh (get svc later.connections) refl
        (peer_state-closed svc seen (get svc seen.connections) refl h)
        (next made (pends svc true later))
  take_state-IsServed a (pending_peer k) own h =
      let was = peer_state-pending seen k (get svc seen.connections) h in
      elim (Bool-cases (free && is_cookie k a.cookie)) [
        | inl on ↦
            let (is_free, cookie) = owner k a.cookie free on in
            rw on (
              close_pending-IsServed a k (get svc later.connections) refl was is_free
                (sym own ∙ cookie) (λ r e. next made (closes svc k later r e)))
        | inr off ↦ rw off (
          made,
          inl (k, was, (λ is_free it. stranger k a.cookie free off is_free (own ∙ it)), refl),
        )
      ]
    where
      owner :
          (k : ℕ) (cookie : Option ℕ) (b : Bool)
          → b && is_cookie k cookie ≡ true
          → (b ≡ true) × (cookie ≡ some k)
      owner k none b h = ground arith
      owner k (some j) b h = let e : j ≡ k = ground arith in (ground arith, ap some e)

      stranger :
          (k : ℕ) (cookie : Option ℕ) (b : Bool)
          → b && is_cookie k cookie ≡ false
          → b ≡ true
          → cookie ≢ some k
      stranger k none b h on = λ e. cc
      stranger k (some j) b h on = λ e. let e' : j ≡ k = cc in absurd (ground arith)

-- By the connections as the turn read them, and those that the tasks of the daemon came to when it
-- writes, the turn does one of these, and leaves connections that the tasks come to. It gives the
-- channel of a live session with the peer. Where it read that there is none, it begins a task, for
-- which the peer is pending with a new cookie, unless a session was opened since, and then it writes
-- nothing. Where it read that the peer is pending, it closes the peer if the attempt is its own and
-- its task has ended, and the peer is still pending with that cookie, and else it writes nothing. It
-- panics only where its own name is not found or the peer is no longer on record.
pub get_conn_turn-IsServed :
    (me : Result AttestProtocolError ServiceUrl) (finished : Bool) (svc : ServiceUrl) (a : Attempt)
    (seen later : Connections)
    → IsRegistry later
    → ((e : AttestProtocolError) × (me ≡ err e))
      ⊎ IsServed
          (not a.ojh || finished)
          svc
          a.cookie
          seen
          later
          (get_conn_turn me finished svc a seen later)
unfolding get_conn_turn
get_conn_turn-IsServed (err e) finished svc a seen later made = inl (e, refl)
get_conn_turn-IsServed (ok me) finished svc a seen later made = inr (
    take_state-IsServed (not a.ojh || finished) svc a.cookie seen later made
      (record a { ojh = a.ojh && not finished }) (conn_already_exists svc seen) refl refl)
