-- ===== src/MsgDb/Reached.antt =====
-- attest-database/src: every database that the operations lead to keeps the promise of `connected`.
use judica_vm.Base.{
  ℕ, zero, suc, ◌≡◌, refl, sym, ap, ◌∙◌, subst, ◌⊎◌, inl, inr, Bool, true, false, ◌||◌, Option,
  none, some, List, [], ◌∷◌, ◌++◌, map, length, done, unwrap, Bool-cases, ◌&&◌, >>=-eq-done,
  same_done, arith,
}
use judica_vm.Base.Int.{ℤ, is_zero}
use judica_vm.Base.Exec.{Result}
use judica_vm.Base.Text.{Text}
use judica_vm.Envelope.{Key, CanonicalEnvelopeHash, GenericEnvelope, Authenticated, Crypto}
use judica_vm.Envelope.Canonical.{take, get_genesis_hash, canonicalized_hash_ref}
use judica_vm.MsgDb.{
  MessageRow, UserRow, MsgDb, SqliteFail, by_hash, no_messages, user_by_key, first_where,
}
use judica_vm.MsgDb.Insert.{
  is_attached, message_parents, new_row, insert_row, insert_envelope, set_messages, prev_of,
  nonce_is_used, try_insert_authenticated_envelope_with_txn, try_insert_authenticated_envelope,
  insert_user, insert_user_by_genesis_envelope,
}
use judica_vm.MsgDb.Connect.{
  attach, generation, generations, do_connect, attach_tips, resolve, resolve_if, resolve_parents,
}
use judica_vm.MsgDb.Anchored.{
  IsAnchored, above, AllAnchored, Keeps, Keeps-map, IsAnchored-Keeps, found_before, IsEarned,
  AllAnchored-insert,
}
use judica_vm.MsgDb.Attached.{
  attach-hash, attach_on, attach-prev_msg, attach_cases, before_generation,
}

module _ {M : Type 0} where
  generation-Keeps : (rows : List (MessageRow M)) → Keeps rows (generation rows)
  unfolding generation
  generation-Keeps rows = Keeps-map (attach rows) (attach-hash rows) rows (λ m on.
      let e = attach_on rows m on in
      (ap (λ r. r.connected) e ∙ on, ap (λ r. r.height) e, ap (λ r. r.prev_msg) e))

  row-IsAnchored :
      (rows : List (MessageRow M)) (h : CanonicalEnvelopeHash) (m m' : MessageRow M)
      → AllAnchored rows
      → by_hash h rows ≡ some m
      → by_hash h (generation rows) ≡ some m'
      → m'.connected ≡ true
      → m'.prev_msg ≡ m.prev_msg
      → (m.connected ≡ true)
        ⊎ (p : MessageRow M) × (by_hash m.prev_msg rows ≡ some p) × (p.connected ≡ true)
      → IsAnchored (generation rows) h
  row-IsAnchored rows h m m' all at at' on' prev (inl on) =
      IsAnchored-Keeps (generation-Keeps rows) (all h m at on)
  row-IsAnchored rows h m m' all at at' on' prev (inr (p, p_at, p_on)) = above m' at' on' (
      subst (IsAnchored (generation rows)) (sym prev)
        (IsAnchored-Keeps (generation-Keeps rows) (all m.prev_msg p p_at p_on)))

  AllAnchored-generation :
      (rows : List (MessageRow M)) → AllAnchored rows → AllAnchored (generation rows)
  AllAnchored-generation rows all h m' at' on' =
      let (m, at, e) = before_generation rows h m' at' in
      row-IsAnchored rows h m m' all at at' on' (ap (λ r. r.prev_msg) e ∙ attach-prev_msg rows m)
        (attach_cases rows m (sym (ap (λ r. r.connected) e) ∙ on'))

  AllAnchored-generations :
      (n : ℕ) (rows : List (MessageRow M)) → AllAnchored rows → AllAnchored (generations n rows)
  unfolding generations
  AllAnchored-generations zero rows all = all
  AllAnchored-generations (suc n) rows all =
      AllAnchored-generations n (generation rows) (AllAnchored-generation rows all)

  -- Resolving the ids of parents touches no connected row.
  resolve_if-hash :
      (on : Bool) (id : Option ℕ) (o : Option (MessageRow M)) (m : MessageRow M)
      → (resolve_if on id o m).hash ≡ m.hash
  resolve_if-hash true id o m = refl
  resolve_if-hash false (some id) o m = refl
  resolve_if-hash false none none m = refl
  resolve_if-hash false none (some p) m = refl

  resolve_if-connected :
      (on : Bool) (id : Option ℕ) (o : Option (MessageRow M)) (m : MessageRow M)
      → (resolve_if on id o m).connected ≡ m.connected
  resolve_if-connected true id o m = refl
  resolve_if-connected false (some id) o m = refl
  resolve_if-connected false none none m = refl
  resolve_if-connected false none (some p) m = refl

  resolve_if_on :
      (on : Bool) (id : Option ℕ) (o : Option (MessageRow M)) (m : MessageRow M)
      → on ≡ true
      → resolve_if on id o m ≡ m
  resolve_if_on true id o m h = refl
  resolve_if_on false id o m h = cc

  module _ (rows : List (MessageRow M)) where
    resolve-hash : (m : MessageRow M) → (resolve rows m).hash ≡ m.hash
    unfolding resolve
    resolve-hash m = resolve_if-hash m.connected m.prev_msg_id (by_hash m.prev_msg rows) m

    resolve-connected : (m : MessageRow M) → (resolve rows m).connected ≡ m.connected
    unfolding resolve
    resolve-connected m = resolve_if-connected m.connected m.prev_msg_id (by_hash m.prev_msg rows) m

    resolve_on : (m : MessageRow M) → m.connected ≡ true → resolve rows m ≡ m
    unfolding resolve
    resolve_on m on = resolve_if_on m.connected m.prev_msg_id (by_hash m.prev_msg rows) m on

    resolve-Keeps : Keeps rows (map (resolve rows) rows)
    resolve-Keeps = Keeps-map (resolve rows) resolve-hash rows (λ m on.
        let e = resolve_on m on in
        (ap (λ r. r.connected) e ∙ on, ap (λ r. r.height) e, ap (λ r. r.prev_msg) e))

    AllAnchored-resolve : AllAnchored rows → AllAnchored (map (resolve rows) rows)
    AllAnchored-resolve all h m' at' on' =
        let (m, at, e) = found_before (resolve rows) resolve-hash h rows m' at' in
        IsAnchored-Keeps resolve-Keeps
          (all h m at (sym (resolve-connected m) ∙ sym (ap (λ r. r.connected) e) ∙ on'))

  -- The mark of envelope.sql is earned.
  earned_by :
      (zero_high : Bool) (o : Option (MessageRow M))
      → (zero_high || is_attached o) ≡ true
      → (zero_high ≡ true) ⊎ (p : MessageRow M) × (o ≡ some p) × (p.connected ≡ true)
  earned_by true o h = inl refl
  earned_by false none h = cc
  earned_by false (some p) h = inr (p, refl, h)

  new_row-IsEarned :
      (e : GenericEnvelope M) (hash genesis : CanonicalEnvelopeHash) (nonce : Text) (now : ℤ)
      (user : ℕ) (rows : List (MessageRow M))
      → IsEarned rows (new_row e hash genesis nonce now user rows)
  unfolding new_row
  new_row-IsEarned e hash genesis nonce now user rows on =
      earned_by (is_zero e.header.height) (by_hash (prev_of e.header.ancestors) rows) on

  insert_row_cases :
      (m : MessageRow M) (db : MsgDb M)
      → ((insert_row m db).1 ≡ db)
        ⊎ ((insert_row m db).1 ≡ set_messages db (message_parents m (db.messages ++ m ∷ [])))
  unfolding insert_row
  insert_row_cases m db = ground arith

  AllAnchored-insert_row :
      (m : MessageRow M) (db : MsgDb M)
      → IsEarned db.messages m
      → AllAnchored db.messages
      → AllAnchored (insert_row m db).1.messages
  AllAnchored-insert_row m db earned all = elim (insert_row_cases m db) [
    | inl same ↦ subst (λ d. AllAnchored d.messages) (sym same) all
    | inr added ↦
        subst (λ d. AllAnchored d.messages) (sym added)
          (AllAnchored-insert db.messages m all earned)
  ]

  AllAnchored-insert_envelope :
      (e : GenericEnvelope M) (hash genesis : CanonicalEnvelopeHash) (nonce : Text) (now : ℤ)
      (user : Option UserRow) (db : MsgDb M)
      → AllAnchored db.messages
      → AllAnchored (insert_envelope e hash genesis nonce now user db).1.messages
  AllAnchored-insert_envelope e hash genesis nonce now none db all = unfold insert_envelope in all
  AllAnchored-insert_envelope e hash genesis nonce now (some user) db all =
      unfold insert_envelope in
      (AllAnchored-insert_row (new_row e hash genesis nonce now user.user_id db.messages) db
        (new_row-IsEarned e hash genesis nonce now user.user_id db.messages) all)

  nothing_found :
      {P : Type 0} (h : CanonicalEnvelopeHash) (m : MessageRow M) → by_hash h [] ≡ some m → P
  unfolding by_hash first_where
  nothing_found h m found = cc

  messages-insert_user :
      (nickname : Text) (key : Key) (db : MsgDb M)
      → (insert_user nickname key db).messages ≡ db.messages
  unfolding insert_user
  messages-insert_user nickname key db = ground arith

  module _ {E : Type 0} (c : Crypto M E) where
    -- The operations that write, each with the input that it takes.
    pub data DbStep : MsgDb M → MsgDb M → Type 0 where
      user_added :
          (nickname : Text) (key : Key) {db db' : MsgDb M}
          → insert_user nickname key db ≡ db'
          → DbStep db db'
      genesis_added :
          (nickname : Text) (authed : Authenticated (GenericEnvelope M)) (now : ℤ)
          (res : Result SqliteFail Key) {db db' : MsgDb M}
          → insert_user_by_genesis_envelope c nickname authed now db ≡ done (res, db')
          → DbStep db db'
      envelope_added :
          (authed : Authenticated (GenericEnvelope M)) (reuse_safe : Bool) (now : ℤ)
          (res : Result SqliteFail Unit) {db db' : MsgDb M}
          → try_insert_authenticated_envelope c authed reuse_safe now db ≡ done (res, db')
          → DbStep db db'
      tips_attached : {db db' : MsgDb M} → (attach_tips db).1 ≡ db' → DbStep db db'
      parents_resolved : {db db' : MsgDb M} → resolve_parents db ≡ db' → DbStep db db'

    pub data IsReachedDb : MsgDb M → Type 0 where
      created : {db : MsgDb M} → no_messages ≡ db → IsReachedDb db
      stepped : {db db' : MsgDb M} → IsReachedDb db → DbStep db db' → IsReachedDb db'

    -- What an insertion leaves, if it does not panic.
    AllAnchored-txn :
        (authed : Authenticated (GenericEnvelope M)) (now : ℤ) (db db' : MsgDb M)
        (res : Result SqliteFail Unit)
        → try_insert_authenticated_envelope_with_txn c authed now db ≡ done (res, db')
        → AllAnchored db.messages
        → AllAnchored db'.messages
    unfolding try_insert_authenticated_envelope_with_txn
    AllAnchored-txn authed now db db' res h all =
        let (genesis, _, h1) = >>=-eq-done (get_genesis_hash c authed.inner) _ h in
        let (hash, _, h2) = >>=-eq-done (canonicalized_hash_ref c authed.inner) _ h1 in
        let (sig, _, h3) = >>=-eq-done (unwrap authed.inner.header.unsigned.signature) _ h2 in
        subst (λ d. AllAnchored d.messages) (ap (λ r. r.1) (same_done h3))
          (AllAnchored-insert_envelope authed.inner hash genesis (take 32 sig) now
            (user_by_key authed.inner.header.key db.users) db all)

    AllAnchored-try_insert :
        (authed : Authenticated (GenericEnvelope M)) (reuse_safe : Bool) (now : ℤ)
        (db db' : MsgDb M) (res : Result SqliteFail Unit)
        → try_insert_authenticated_envelope c authed reuse_safe now db ≡ done (res, db')
        → AllAnchored db.messages
        → AllAnchored db'.messages
    unfolding try_insert_authenticated_envelope
    AllAnchored-try_insert authed reuse_safe now db db' res h all =
        elim (Bool-cases (reuse_safe && nonce_is_used authed.inner.header.ancestors db)) [
          | inl used ↦
              subst (λ d. AllAnchored d.messages) (ap (λ r. r.1) (same_done (rw used at h))) all
          | inr free ↦ AllAnchored-txn authed now db db' res (rw free at h) all
        ]

    AllAnchored-DbStep :
        {db db' : MsgDb M} → DbStep db db' → AllAnchored db.messages → AllAnchored db'.messages
    unfolding insert_user_by_genesis_envelope attach_tips do_connect resolve_parents
    AllAnchored-DbStep {db} (user_added nickname key e) all =
        subst (λ d. AllAnchored d.messages) e
          (subst (λ rows. AllAnchored rows) (sym (messages-insert_user nickname key db)) all)
    AllAnchored-DbStep {db} {db'} (genesis_added nickname authed now res h) all =
        let key = authed.inner.header.key in
        let db1 = insert_user nickname key db in
        let ((res1, db2), h1, h2) =
          >>=-eq-done (try_insert_authenticated_envelope_with_txn c authed now db1) _ h in
        subst (λ d. AllAnchored d.messages) (ap (λ r. r.1) (same_done h2))
          (AllAnchored-txn authed now db1 db2 res1 h1
            (subst (λ rows. AllAnchored rows) (sym (messages-insert_user nickname key db)) all))
    AllAnchored-DbStep {db} {db'} (envelope_added authed reuse_safe now res h) all =
        AllAnchored-try_insert authed reuse_safe now db db' res h all
    AllAnchored-DbStep {db} (tips_attached e) all =
        subst (λ d. AllAnchored d.messages) e
          (AllAnchored-generations (length db.messages) db.messages all)
    AllAnchored-DbStep {db} (parents_resolved e) all =
        subst (λ d. AllAnchored d.messages) e (AllAnchored-resolve db.messages all)

    -- In every database that the operations lead to from empty tables, each connected message has a
    -- chain of connected parents in the table, down to a message of height 0.
    pub IsReachedDb-AllAnchored : {db : MsgDb M} → IsReachedDb db → AllAnchored db.messages
    IsReachedDb-AllAnchored (created e) =
        subst (λ d. AllAnchored d.messages) e (λ h m found on. nothing_found h m found)
    IsReachedDb-AllAnchored (stepped before step) =
        AllAnchored-DbStep step (IsReachedDb-AllAnchored before)
