-- ===== src/Session/Cookies.antt =====
-- common/attest/src/attestations/server/protocol.rs: the jar of the challenges that a daemon has been
-- given, the order of services, and the role that it prefers towards a peer.
use Prim.Native.Nat.{compare, Ordering}
use judica_vm.Base.{
  ℕ, suc, ◌-◌, ◌≤◌, ◌≡◌, refl, Option, none, some, [], ◌∷◌, length, ltb, if◌then◌else◌, arith,
  Bool-cases, ltb→le, ap, inl, inr,
}
use judica_vm.Base.Int.{ℤ, less_int}
use judica_vm.Base.Exec.{Result, ok, err}
use judica_vm.Base.Order.{
  Ord, text_ord, text_cmp, then_cmp, text-gt, text-lt, text-eq, text_refl, text_trans, nat-gt,
  nat-lt, nat-eq, nat_refl, nat_trans,
}
use judica_vm.Base.Map.{BTreeMap, lookup, insert, remove}
use judica_vm.Base.Text.{Text}
use judica_vm.Session.{AttestProtocolError, self_connection}

-- A oneshot channel for the secret, by its number, and the time of the challenge.
abbrev pub ChallengeResponse : Type 0
ChallengeResponse = ℕ × ℤ

abbrev pub CookieJar : Type 0
CookieJar = BTreeMap Text ChallengeResponse

-- `retain`: what is later than the time stays.
unfoldable pub retain_fresh : ℤ → CookieJar → CookieJar
retain_fresh stale [] = []
retain_fresh stale ((k, x) ∷ jar) =
    let rest = retain_fresh stale jar in if less_int stale x.1 then (k, x) ∷ rest else rest

-- The first challenge goes, if there is one.
unfoldable pub remove_first : CookieJar → CookieJar
remove_first [] = []
remove_first ((k, x) ∷ jar) = remove k ((k, x) ∷ jar)

unfoldable pub collect_garbage : ℤ → CookieJar → CookieJar
unfolding retain_fresh remove_first
collect_garbage stale jar =
    let fresh = retain_fresh stale jar in
    if ltb 100 (length fresh) then remove_first fresh else fresh

-- `expect_a_cookie`: the clock is read for `now`, and before that for `stale`, twenty seconds less.
unfoldable pub expect_a_cookie : ℤ → ℤ → Text → ℕ → CookieJar → CookieJar
unfolding collect_garbage
expect_a_cookie stale now challenge tx jar =
    let kept = collect_garbage stale jar in
    insert challenge (tx, now) (if ltb 100 (length jar) then kept else jar)

-- `add_a_cookie`: the channel that the secret is sent to, if any, and the jar.
unfoldable pub add_a_cookie : (Text → Text) → Text → CookieJar → Option (ℕ × Text) × CookieJar
add_a_cookie sha256 cookie jar = elim (lookup (sha256 cookie) jar) [
  | none ↦ (none, jar)
  | some f ↦ (some (f.0, cookie), remove (sha256 cookie) jar)
]

length-insert_le :
    (k : Text) (v : ChallengeResponse) (jar : CookieJar)
    → length (insert k v jar) ≤ suc (length jar)
unfolding insert
length-insert_le k v [] = omega arith
length-insert_le k v ((j, w) ∷ jar) = let rest = length-insert_le k v jar in ground arith

length-retain_fresh : (stale : ℤ) (jar : CookieJar) → length (retain_fresh stale jar) ≤ length jar
unfolding retain_fresh
length-retain_fresh stale [] = omega arith
length-retain_fresh stale ((k, x) ∷ jar) = let rest = length-retain_fresh stale jar in ground arith

length-remove_first : (jar : CookieJar) → length (remove_first jar) ≤ length jar - 1
unfolding remove_first remove
length-remove_first [] = omega arith
length-remove_first ((k, x) ∷ jar) =
    let is : remove k ((k, x) ∷ jar) ≡ jar = rw (remove, text_refl k) refl in
    let same = ap length is in omega arith

length-collect_garbage :
    (stale : ℤ) (jar : CookieJar) → length jar ≤ 101 → length (collect_garbage stale jar) ≤ 100
unfolding collect_garbage
length-collect_garbage stale jar few =
    let fresh = length-retain_fresh stale jar in
    let dropped = length-remove_first (retain_fresh stale jar) in ground arith

-- A jar of at most 101 challenges stays one, whatever is expected and at whatever time.
pub length-expect_a_cookie :
    (stale now : ℤ) (challenge : Text) (tx : ℕ) (jar : CookieJar)
    → length jar ≤ 101
    → length (expect_a_cookie stale now challenge tx jar) ≤ 101
unfolding expect_a_cookie
length-expect_a_cookie stale now challenge tx jar few = elim (Bool-cases (ltb 100 (length jar))) [
  | inl full ↦
      let kept = length-collect_garbage stale jar few in
      let more = length-insert_le challenge (tx, now) (collect_garbage stale jar) in
      rw (full) (omega arith)
  | inr room ↦
      let more = length-insert_le challenge (tx, now) jar in
      let below = ltb→le 100 (length jar) room in rw (room) (omega arith)
]

-- A service by the name of its host and its port.
abbrev pub ServiceUrl : Type 0
ServiceUrl = Text × ℕ

pub data Role : Type 0 where
  server client : Role

abbrev pub service_cmp : ServiceUrl → ServiceUrl → Ordering
service_cmp (host, port) (host', port') = then_cmp (text_cmp host host') (compare port port')

unfoldable pub preferred_role : ServiceUrl → ServiceUrl → Result AttestProtocolError Role
preferred_role my_name peer_name = elim (service_cmp my_name peer_name) [
  | Ordering.lt ↦ ok client
  | Ordering.eq ↦ err self_connection
  | Ordering.gt ↦ ok server
]

abbrev pub other_role : Result AttestProtocolError Role → Result AttestProtocolError Role
other_role (ok server) = ok client
other_role (ok client) = ok server
other_role (err e) = err e

pub service-eq : (a b : ServiceUrl) → service_cmp a b ≡ Ordering.eq → a ≡ b
service-eq (host, port) (host', port') h = ground (arith, text-eq host host', nat-eq port port')

pub service_refl : (a : ServiceUrl) → service_cmp a a ≡ Ordering.eq
service_refl (host, port) = ground (arith, text_refl host, nat_refl port)

pub service-gt : (a b : ServiceUrl) → service_cmp a b ≡ Ordering.gt → service_cmp b a ≡ Ordering.lt
service-gt (host, port) (host', port') h =
    ground (arith, text-eq host host', text_refl host, text-gt host host', nat-gt port port')

pub service-lt : (a b : ServiceUrl) → service_cmp a b ≡ Ordering.lt → service_cmp b a ≡ Ordering.gt
service-lt (host, port) (host', port') h =
    ground (arith, text-eq host host', text_refl host, text-lt host host', nat-lt port port')

pub service_trans :
    (a b c : ServiceUrl)
    → service_cmp a b ≡ Ordering.lt
    → service_cmp b c ≡ Ordering.lt
    → service_cmp a c ≡ Ordering.lt
service_trans (h1, p1) (h2, p2) (h3, p3) h k = ground (
  arith,
  text-eq h1 h2,
  text-eq h2 h3,
  text_refl h1,
  text_refl h2,
  text_trans h1 h2 h3,
  nat_trans p1 p2 p3,
)

instance abbrev pub service_ord : Ord ServiceUrl
service_ord = record {
  cmp = service_cmp;
  cmp-eq = service-eq;
  cmp_refl = service_refl;
  cmp-gt = service-gt;
  cmp-lt = service-lt;
  cmp_trans = service_trans;
}

-- Two peers never prefer the same role, and both refuse when they have one name.
pub preferred_role-other_role :
    (me peer : ServiceUrl) → preferred_role peer me ≡ other_role (preferred_role me peer)
unfolding preferred_role
preferred_role-other_role (host, port) (host', port') = ground (
  arith,
  text-gt host host',
  text-lt host host',
  text-eq host host',
  text_refl host,
  nat-gt port port',
  nat-lt port port',
  nat-eq port port',
  nat_refl port,
)
