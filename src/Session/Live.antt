-- ===== src/Session/Live.antt =====
-- common/attest/src/attestations/server/protocol.rs: the books of a session that goes on.
use Prim.Native.Nat.{compare, Ordering}
use judica_vm.Base.{
  ℕ, suc, ◌≤◌, ◌<◌, ◌≡◌, ◌≢◌, refl, sym, ap, subst, ◌∙◌, ◌⊎◌, inl, inr, Bool, true, false, Option,
  none, some, [], ◌∷◌, ◌++◌, done, Option-cases, Bool-cases, >>=-eq-done, same_done, length, ◌==◌,
  arith,
}
use judica_vm.Base.Int.{ℤ, pos, add_one, sub_one}
use judica_vm.Base.Exec.{ok, same_ok}
use judica_vm.Base.Order.{nat_ord}
use judica_vm.Base.Map.{BTreeMap, lookup, insert, remove}
use judica_vm.Session.{
  AttestResponse, latest_tips_response, specific_tips_response, post_response, AttestSocketProtocol,
  request, AttestProtocolError, ResponseCode, AnySender, latest_tips_sender, specific_tips_sender,
  post_sender, ResponseRouter, socket_error, Session, t_send, handle_internal_request,
  handle_response, route_response, forward, Internal, ask_post, ask_specific_tips, ask_latest_tips,
  request_of, sender_of, request_code_of, response_code_of,
}

-- The code of the answers that a channel carries.
abbrev pub sender_code : AnySender → ResponseCode
sender_code (latest_tips_sender _) = 0
sender_code (specific_tips_sender _) = 1
sender_code (post_sender _) = 2

-- Requests with numbers up to `n`, each with the code of its channel.
abbrev pub Fits : ℕ → BTreeMap ℕ ResponseRouter → Type 0
Fits n [] = Unit
Fits n ((k, r) ∷ m) = (k ≤ n) × (r.code ≡ sender_code r.sender) × Fits n m

ordering : (o : Ordering) → (o ≡ Ordering.lt) ⊎ (o ≡ Ordering.eq) ⊎ (o ≡ Ordering.gt)
ordering Ordering.lt = inl refl
ordering Ordering.eq = inr (inl refl)
ordering Ordering.gt = inr (inr refl)

pub Fits-more : (n n' : ℕ) (m : BTreeMap ℕ ResponseRouter) → n ≤ n' → Fits n m → Fits n' m
Fits-more n n' [] le f = tt
Fits-more n n' ((k, r) ∷ m) le (at, code, f) = (omega arith, code, Fits-more n n' m le f)

Fits-insert :
    (n k : ℕ) (r : ResponseRouter) (m : BTreeMap ℕ ResponseRouter)
    → k ≤ n
    → r.code ≡ sender_code r.sender
    → Fits n m
    → Fits n (insert k r m)
unfolding insert
Fits-insert n k r [] le code f = (le, code, tt)
Fits-insert n k r ((j, w) ∷ m) le code (at, wcode, f) = elim (ordering (compare k j)) [
  | inl lt ↦ rw (insert, lt) (le, code, (at, wcode, f))
  | inr (inl eq) ↦ rw (insert, eq) (le, code, f)
  | inr (inr gt) ↦ rw (insert, gt) (at, wcode, Fits-insert n k r m le code f)
]

Fits-remove : (n k : ℕ) (m : BTreeMap ℕ ResponseRouter) → Fits n m → Fits n (remove k m)
unfolding remove
Fits-remove n k [] f = tt
Fits-remove n k ((j, w) ∷ m) (at, wcode, f) = elim (ordering (compare k j)) [
  | inl lt ↦ rw (remove, lt) (at, wcode, f)
  | inr (inl eq) ↦ rw (remove, eq) f
  | inr (inr gt) ↦ rw (remove, gt) (at, wcode, Fits-remove n k m f)
]

length-insert :
    (n k : ℕ) (r : ResponseRouter) (m : BTreeMap ℕ ResponseRouter)
    → n < k
    → Fits n m
    → length (insert k r m) ≡ suc (length m)
unfolding insert
length-insert n k r [] lt f = refl
length-insert n k r ((j, w) ∷ m) lt (at, wcode, f) =
    let rec = length-insert n k r m lt f in ground arith

-- A request that is found has the code of its channel, and taking it out leaves one fewer.
pub found-code :
    (n k : ℕ) (r : ResponseRouter) (m : BTreeMap ℕ ResponseRouter)
    → Fits n m
    → lookup k m ≡ some r
    → r.code ≡ sender_code r.sender
unfolding lookup
found-code n k r [] f found = ground arith
found-code n k r ((j, w) ∷ m) (at, wcode, f) found = ground (arith, found-code n k r m f)

pub length-remove :
    (k : ℕ) (r : ResponseRouter) (m : BTreeMap ℕ ResponseRouter)
    → lookup k m ≡ some r
    → length m ≡ suc (length (remove k m))
unfolding lookup remove
length-remove k r [] found = ground arith
length-remove k r ((j, w) ∷ m) found = ground (arith, length-remove k r m)

code-sender :
    {M : Type 0} (i : Internal M) → request_code_of (request_of i) ≡ sender_code (sender_of i)
unfolding request_code_of request_of sender_of
code-sender (ask_post envelopes chan) = refl
code-sender (ask_specific_tips tips chan) = refl
code-sender (ask_latest_tips chan) = refl

add_one_pos : (n : ℕ) (z : ℤ) → add_one (pos n) ≡ done z → z ≡ pos (suc n)
unfolding add_one
add_one_pos n z h = ground arith

sub_one_pos : (n : ℕ) (z : ℤ) → sub_one (pos (suc n)) ≡ done z → z ≡ pos n
unfolding sub_one
sub_one_pos n z h = ground arith

module _ {M D : Type 0} where
  -- The deficit is the number of requests in flight, which are at most ten, have numbers up to the
  -- session's and have the code of their channel.
  pub record IsBalanced (s : Session M D) : Type 0 where
    pub balance : s.defecit ≡ pos (length s.inflight_requests)
    pub few : length s.inflight_requests ≤ 10
    pub fits : Fits s.seq s.inflight_requests

  -- Only the books count.
  pub same_books :
      (s s' : Session M D)
      → s'.defecit ≡ s.defecit
      → s'.inflight_requests ≡ s.inflight_requests
      → s'.seq ≡ s.seq
      → IsBalanced s
      → IsBalanced s'
  same_books s s' d i n b = record {
    balance = d ∙ b.balance ∙ ap (λ m. pos (length m)) (sym i);
    few = subst (λ m. length m ≤ 10) (sym i) b.few;
    fits =
        subst (λ m. Fits s'.seq m) (sym i) (subst (λ k. Fits k s.inflight_requests) (sym n) b.fits);
  }

  -- A message that is sent leaves the books.
  pub t_send-IsBalanced :
      (sends : Bool) (e : AttestProtocolError) (msg : AttestSocketProtocol M) (s s' : Session M D)
      → IsBalanced s
      → t_send sends e msg s ≡ ok s'
      → IsBalanced s'
  unfolding t_send
  t_send-IsBalanced true e msg s s' b ran =
      subst IsBalanced (same_ok ran)
        (same_books s (record s { sent = s.sent ++ msg ∷ [] }) refl refl refl b)
  t_send-IsBalanced false e msg s s' b ran = cc

  pub internal-IsBalanced :
      (sends : Bool) (i : Internal M) (s s' : Session M D) (n : ℕ)
      → n < s.seq
      → Fits n s.inflight_requests
      → s.defecit ≡ pos (length s.inflight_requests)
      → length s.inflight_requests < 10
      → handle_internal_request sends (request_of i) (sender_of i) s ≡ done (ok s')
      → IsBalanced s'
  unfolding handle_internal_request
  internal-IsBalanced sends i s s' n before f balance room ran =
      let m = s.inflight_requests in
      let router : ResponseRouter = record {
        code = request_code_of (request_of i);
        sender = sender_of i;
      } in
      let (defecit, is, rest) = >>=-eq-done (add_one s.defecit) _ ran in
      let grown = length-insert n s.seq router m before f in
      let booked : Session M D = record s {
        inflight_requests = insert s.seq router m;
        defecit = defecit;
      } in
      t_send-IsBalanced sends socket_error (request s.seq (request_of i)) booked s'
        (record {
          balance =
              add_one_pos (length m) defecit (ap add_one (sym balance) ∙ is) ∙ ap pos (sym grown);
          few = omega arith;
          fits =
              Fits-insert s.seq s.seq router m (omega arith) (code-sender i)
                (Fits-more n s.seq m (omega arith) f);
        })
        (same_done rest)

  -- An answer that is forwarded goes to the channel, and is of its kind.
  pub forwarded :
      (sender : AnySender) (r : AttestResponse M) (s s' : Session M D)
      → forward sender r s ≡ ok s'
      → (chan : ℕ) × (record s { delivered = s.delivered ++ (chan, r) ∷ [] } ≡ s')
        × (response_code_of r ≡ sender_code sender)
  unfolding forward response_code_of
  forwarded (latest_tips_sender chan) (latest_tips_response m) s s' ran = (chan, same_ok ran, refl)
  forwarded (latest_tips_sender chan) (specific_tips_response m) s s' ran = cc
  forwarded (latest_tips_sender chan) (post_response m) s s' ran = cc
  forwarded (specific_tips_sender chan) (latest_tips_response m) s s' ran = cc
  forwarded (specific_tips_sender chan) (specific_tips_response m) s s' ran =
      (chan, same_ok ran, refl)
  forwarded (specific_tips_sender chan) (post_response m) s s' ran = cc
  forwarded (post_sender chan) (latest_tips_response m) s s' ran = cc
  forwarded (post_sender chan) (specific_tips_response m) s s' ran = cc
  forwarded (post_sender chan) (post_response m) s s' ran = (chan, same_ok ran, refl)

  route-IsBalanced :
      (k : Option ResponseRouter) (r : AttestResponse M) (s s' : Session M D)
      → (k ≢ none → IsBalanced s)
      → route_response k r s ≡ ok s'
      → IsBalanced s'
  unfolding route_response
  route-IsBalanced none r s s' b ran = cc
  route-IsBalanced (some k) r s s' b ran = elim (Bool-cases (response_code_of r == k.code)) [
    | inl right ↦
        let (chan, is, _) = forwarded k.sender r s s' (ground arith) in
        subst IsBalanced is (same_books s _ refl refl refl (b (λ h. cc)))
    | inr wrong ↦ ground arith
  ]

  -- The books after a request has been taken out.
  answered :
      (seq : ℕ) (s : Session M D) (defecit : ℤ)
      → IsBalanced s
      → sub_one s.defecit ≡ done defecit
      → lookup seq s.inflight_requests ≢ none
      → IsBalanced
          (record s { defecit = defecit; inflight_requests = remove seq s.inflight_requests })
  answered seq s defecit b is there = elim (Option-cases (lookup seq s.inflight_requests)) [
    | inl gone ↦ elim (there gone) [ ]
    | inr (k, found) ↦
        let fewer = length-remove seq k s.inflight_requests found in
        record {
          balance =
              sub_one_pos (length (remove seq s.inflight_requests)) defecit
                (ap sub_one (ap pos (sym fewer) ∙ sym b.balance) ∙ is);
          few = let few = b.few in omega arith;
          fits = Fits-remove s.seq seq s.inflight_requests b.fits;
        }
  ]

  pub response-IsBalanced :
      (seq : ℕ) (r : AttestResponse M) (s s' : Session M D)
      → IsBalanced s
      → handle_response seq r s ≡ done (ok s')
      → IsBalanced s'
  unfolding handle_response
  response-IsBalanced seq r s s' b ran =
      let (defecit, is, rest) = >>=-eq-done (sub_one s.defecit) _ ran in
      route-IsBalanced (lookup seq s.inflight_requests) r
        (record s { defecit = defecit; inflight_requests = remove seq s.inflight_requests }) s'
        (answered seq s defecit b is) (same_done rest)
