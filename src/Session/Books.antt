-- ===== src/Session/Books.antt =====
-- common/attest/src/attestations/server/protocol.rs: the books of a session from turn to
-- turn.
use judica_vm.Base.{
  ℕ, ◌<◌, ◌≡◌, refl, sym, ap, subst, ◌∙◌, Bool, true, Option, none, some, done, >>=-eq-done,
  same_done, add, u64, add-eq-done, length, arith,
}
use judica_vm.Base.Int.{ℤ, pos, less_int}
use judica_vm.Base.Exec.{Result, ok, err}
use judica_vm.Base.Sort.{sort, dedup}
use judica_vm.Base.Text.{Text}
use judica_vm.Setup.{text_leb, text_eq}
use judica_vm.Envelope.{Crypto}
use judica_vm.Session.{
  AttestRequest, latest_tips, specific_tips, post, latest_tips_response, specific_tips_response,
  post_response, AttestSocketProtocol, request, response, AttestProtocolError, database_error,
  socket_closed, Session, new_session, handle_internal_request, request_of, sender_of, next_seq,
  takes_internal,
}
use judica_vm.Session.Serve.{
  Database, live, Arrival, from_peer, disconnected, internal, all_closed, only_text, authed_of,
  insert_all, post_envelope, fetch_specific_tips, fetch_latest_tips, handle_request,
  handle_protocol, handle_text, handle_message_from_peer, turn_of, take_event, run_turn, is_enabled,
  IsLive, begun, turned,
}
use judica_vm.Session.Live.{
  IsBalanced, Fits, Fits-more, same_books, t_send-IsBalanced, internal-IsBalanced,
  response-IsBalanced,
}

module _ {A B : Type 0} where
  abbrev or_database_error :
      Option A → (A → Result AttestProtocolError B) → Result AttestProtocolError B
  or_database_error o f = elim o [ none ↦ err database_error | some v ↦ f v ]

  -- A read that the database answers.
  read_ok :
      (o : Option A) (f : A → Result AttestProtocolError B) {b : B}
      → or_database_error o f ≡ ok b
      → (v : A) × (f v ≡ ok b)
  read_ok none f h = cc
  read_ok (some v) f h = (v, h)

-- The guard leaves room for one more request.
room : (n : ℕ) (z : ℤ) → z ≡ pos n → less_int z (pos 10) ≡ true → n < 10
room n z is below = let here = subst (λ w. less_int w (pos 10) ≡ true) is below in ground arith

module _ {M E D : Type 0} (c : Crypto M E) (database : Database M D)
    (from_str : Text → Option (AttestSocketProtocol M)) where
  request-IsBalanced :
      (sends : Bool) (seq : ℕ) (m : AttestRequest M) (s s' : Session M D)
      → IsBalanced s
      → handle_request c database from_str sends seq m s ≡ done (ok s')
      → IsBalanced s'
  unfolding handle_request post_envelope fetch_specific_tips fetch_latest_tips
  request-IsBalanced sends seq latest_tips s s' b ran =
      let (v, sent) = read_ok (database.get_tips_for_all_users s.db) _ (same_done ran) in
      t_send-IsBalanced sends socket_closed (response seq (latest_tips_response v)) s s' b sent
  request-IsBalanced sends seq (specific_tips tips) s s' b ran =
      let (v, sent) =
        read_ok (database.messages_by_hash (dedup text_eq (sort text_leb tips)) s.db) _
          (same_done ran) in
      t_send-IsBalanced sends socket_closed (response seq (specific_tips_response v)) s s' b sent
  request-IsBalanced sends seq (post envelopes) s s' b ran =
      let (authed, is, rest) = >>=-eq-done (authed_of c database from_str envelopes) _ ran in
      let out = insert_all c database from_str authed s.db in
      t_send-IsBalanced sends socket_closed (response seq (post_response out.0))
        (record s { db = out.1 }) s' (same_books s (record s { db = out.1 }) refl refl refl b)
        (same_done rest)

  protocol-IsBalanced :
      (sends : Bool) (a : Option (AttestSocketProtocol M)) (s s' : Session M D)
      → IsBalanced s
      → handle_protocol c database from_str sends a s ≡ done (ok s')
      → IsBalanced s'
  unfolding handle_protocol
  protocol-IsBalanced sends none s s' b ran = cc
  protocol-IsBalanced sends (some (request seq m)) s s' b ran =
      request-IsBalanced sends seq m s s' b ran
  protocol-IsBalanced sends (some (response seq r)) s s' b ran =
      response-IsBalanced seq r s s' b ran

  text-IsBalanced :
      (sends : Bool) (t : Result AttestProtocolError Text) (s s' : Session M D)
      → IsBalanced s
      → handle_text c database from_str sends t s ≡ done (ok s')
      → IsBalanced s'
  unfolding handle_text
  text-IsBalanced sends (err e) s s' b ran = cc
  text-IsBalanced sends (ok text) s s' b ran = protocol-IsBalanced sends (from_str text) s s' b ran

  turn_of-live :
      (r : Result AttestProtocolError (Session M D)) (s' : Session M D)
      → turn_of c database from_str r ≡ live s'
      → r ≡ ok s'
  turn_of-live (ok s) s' ran = cc
  turn_of-live (err e) s' ran = cc

  take_event-IsBalanced :
      (e : Arrival M) (s s' : Session M D) (n : ℕ)
      → n < s.seq
      → Fits n s.inflight_requests
      → IsBalanced s
      → is_enabled c database from_str e s ≡ true
      → take_event c database from_str e s ≡ done (live s')
      → IsBalanced s'
  unfolding take_event handle_message_from_peer is_enabled takes_internal
  take_event-IsBalanced (from_peer sends msg) s s' n lt f b on ran =
      let (r, is, same) =
        >>=-eq-done (handle_text c database from_str sends (only_text msg) s) _ ran in
      text-IsBalanced sends (only_text msg) s s' b
        (is ∙ ap done (turn_of-live r s' (same_done same)))
  take_event-IsBalanced disconnected s s' n lt f b on ran = cc
  take_event-IsBalanced (internal sends i) s s' n lt f b on ran =
      let (r, is, same) =
        >>=-eq-done (handle_internal_request sends (request_of i) (sender_of i) s) _ ran in
      internal-IsBalanced sends i s s' n lt f b.balance
        (room (length s.inflight_requests) s.defecit b.balance on)
        (is ∙ ap done (turn_of-live r s' (same_done same)))
  take_event-IsBalanced all_closed s s' n lt f b on ran = cc

  still_enabled :
      (e : Arrival M) (s : Session M D) (n : ℕ)
      → is_enabled c database from_str e (record s { seq = n }) ≡ is_enabled c database from_str e s
  unfolding is_enabled takes_internal
  still_enabled (from_peer sends msg) s n = refl
  still_enabled disconnected s n = refl
  still_enabled (internal sends i) s n = refl
  still_enabled all_closed s n = refl

  run_turn-IsBalanced :
      (e : Arrival M) (s s' : Session M D)
      → IsBalanced s
      → is_enabled c database from_str e s ≡ true
      → run_turn c database from_str e s ≡ done (live s')
      → IsBalanced s'
  unfolding run_turn next_seq
  run_turn-IsBalanced e s s' b on ran =
      let (t, ran1, rest) = >>=-eq-done (next_seq s) _ ran in
      let (n, added, made) = >>=-eq-done (add u64 s.seq 1) _ ran1 in
      let (is, _) = add-eq-done u64 s.seq 1 added in
      let next : Session M D = record s { seq = n } in
      take_event-IsBalanced e next s' s.seq (omega arith) b.fits
        (record {
          balance = b.balance;
          few = b.few;
          fits = Fits-more s.seq n s.inflight_requests (omega arith) b.fits;
        })
        (still_enabled e s n ∙ on) (ap (take_event c database from_str e) (same_done made) ∙ rest)

  -- In a session that goes on, whatever the peer and the other tasks do: the deficit is the number of
  -- requests in flight, these are at most ten, their numbers do not exceed the session's, and each is
  -- on record with the code of the answers that its channel carries.
  pub IsLive-IsBalanced : {s : Session M D} → IsLive c database from_str s → IsBalanced s
  unfolding new_session
  IsLive-IsBalanced (begun s db is) =
      subst IsBalanced (sym is) (record { balance = refl; few = omega arith; fits = tt })
  IsLive-IsBalanced (turned e {s} {s'} before on ran) =
      run_turn-IsBalanced e s s' (IsLive-IsBalanced before) on ran
