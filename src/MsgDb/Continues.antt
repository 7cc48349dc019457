-- ===== src/MsgDb/Continues.antt =====
-- attest-database/src/db_handle/create.rs: the message that is made continues the chain.
use judica_vm.Base.{
  ℕ, ◌+◌, ◌<◌, ◌^◌, ◌≡◌, refl, sym, ap, ◌∙◌, Bool, true, false, not, ◌&&◌, Option, none, some, List,
  [], ◌∷◌, done, Bool-cases, inl, inr, arith,
}
use judica_vm.Base.Int.{ℤ, pos, add_one, is_zero, is_positive}
use judica_vm.Base.Exec.{ok}
use judica_vm.Base.Order.{text_ord}
use judica_vm.Base.Hash.{same, same→eq}
use judica_vm.Base.Text.{Text}
use judica_vm.Envelope.{Key, CanonicalEnvelopeHash, Header, GenericEnvelope, Crypto}
use judica_vm.Envelope.Canonical.{
  is_some, stray_ancestors, lacks_ancestors, canonicalized_hash_ref, compute_hash, get_genesis_hash,
  extract_used_nonce, new_envelope, self_authenticate,
}
use judica_vm.Envelope.Signing.{sign_with, IsScheme, sign_with-self_authenticate}
use judica_vm.MsgDb.{NonceRow, MsgDb, SqlError, first_where}
use judica_vm.MsgDb.Get.{query_row, get_tip_for_user_by_key}
use judica_vm.MsgDb.Nonces.{get_secret_for_public_nonce, generate_fresh_nonce_for_user_by_key}
use judica_vm.MsgDb.Create.{
  TipControl, Attempt, swap_remove_where, gather_tips, tip_hashes, tip_or, following_header,
  with_next_nonce, with_secret, with_tip, with_tips, wrap_message_in_envelope_for_user_by_key,
}

module _ {M E : Type 0} (c : Crypto M E) where
  -- Every saved public nonce is that of the secret beside it.
  abbrev pub AllHonest : List NonceRow → Type 0
  AllHonest [] = Unit
  AllHonest (n ∷ ns) = (c.public_of n.private_nonce ≡ n.public_nonce) × AllHonest ns

  honest_found :
      (nonce : Key) (ns : List NonceRow) (n : NonceRow)
      → AllHonest ns
      → first_where (λ r. same r.public_nonce nonce) ns ≡ some n
      → c.public_of n.private_nonce ≡ nonce
  unfolding first_where
  honest_found nonce [] n all found = cc
  honest_found nonce (r ∷ ns) n (honest, all) found =
      elim (Bool-cases (same r.public_nonce nonce)) [
        | inl at ↦
            let e : r ≡ n = ground arith in
            ap (λ x. c.public_of x.private_nonce) (sym e) ∙ honest ∙ same→eq r.public_nonce nonce at
        | inr off ↦ honest_found nonce ns n all (ground arith)
      ]

  secret_of :
      (nonce : Key) (secret : Text) (found : Option NonceRow)
      → ((n : NonceRow) → found ≡ some n → c.public_of n.private_nonce ≡ nonce)
      → query_row (λ n. n.private_nonce) found ≡ ok secret
      → c.public_of secret ≡ nonce
  secret_of nonce secret none honest e = cc
  secret_of nonce secret (some n) honest e =
      let same_secret : n.private_nonce ≡ secret = cc in
      ap c.public_of (sym same_secret) ∙ honest n refl

  honest_secret :
      (nonce : Key) (secret : Text) (db : MsgDb M)
      → AllHonest db.message_nonces
      → get_secret_for_public_nonce nonce db ≡ ok secret
      → c.public_of secret ≡ nonce
  unfolding get_secret_for_public_nonce
  honest_secret nonce secret db all found =
      secret_of nonce secret (first_where (λ r. same r.public_nonce nonce) db.message_nonces)
        (λ n at. honest_found nonce db.message_nonces n all at) found

  off_zero : (n : ℕ) (b : Bool) → (is_zero (pos (n + 1)) && b) ≡ false
  off_zero n b = ground arith

  never_lacks : (b : Bool) → (b && false) ≡ false
  never_lacks true = refl
  never_lacks false = refl

  next_height : (n : ℕ) → n + 1 < 2 ^ 63 → add_one (pos n) ≡ done (pos (n + 1))
  unfolding add_one
  next_height n h = ground arith

  -- A message that follows another one: it names it and its genesis, stands one higher, is of the key
  -- pair's owner, is signed with the nonce that the other one promised, and is authentic.
  pub record Follows (tip e : GenericEnvelope M) (key next_nonce : Key)
      (prev genesis : CanonicalEnvelopeHash) (n : ℕ) : Type 0 where
    pub names : e.header.ancestors ≡ some (record { prev_msg = prev; genesis = genesis })
    pub height : e.header.height ≡ pos (n + 1)
    pub owner : e.header.key ≡ key
    pub promise : e.header.next_nonce ≡ next_nonce
    pub keeps_promise : extract_used_nonce c e ≡ some tip.header.next_nonce
    pub authentic : self_authenticate c e ≡ done (ok (record { inner = e }))

  module _ (s : IsScheme c) (msg : M)
      (canonical : (h : Header) → (t : Text) × (c.to_canonical_value h msg ≡ some t)) where
    made_new :
        (h : Header)
        → (d : CanonicalEnvelopeHash) × (new_envelope c h msg
            ≡ done (record { header = h; msg = msg; cache = some d }))
    unfolding new_envelope canonicalized_hash_ref compute_hash
    made_new h = let (t, found) = canonical h in (c.sha256 t, rw found refl)

    module _ (keypair secret : Text) (tip : GenericEnvelope M) (next_nonce : Key)
        (prev genesis : CanonicalEnvelopeHash) (n : ℕ)
        (owned : c.public_of secret ≡ tip.header.next_nonce) where
      signed_new :
          (h : Header)
          → h.ancestors ≡ some (record { prev_msg = prev; genesis = genesis })
          → h.height ≡ pos (n + 1)
          → h.key ≡ c.public_of keypair
          → h.next_nonce ≡ next_nonce
          → (e0 e : GenericEnvelope M) × (new_envelope c h msg ≡ done e0)
            × (sign_with c keypair secret e0 ≡ done (ok tt, e))
            × Follows tip e (c.public_of keypair) next_nonce prev genesis n
      unfolding stray_ancestors lacks_ancestors
      signed_new h names at owner promise =
          let (d, is_new) = made_new h in
          let e0 : GenericEnvelope M = record { header = h; msg = msg; cache = some d } in
          let no_stray : stray_ancestors h ≡ false =
            ap (λ z. is_zero z && is_some h.ancestors) at ∙ off_zero n (is_some h.ancestors) in
          let no_lack : lacks_ancestors h ≡ false =
            ap (λ o. is_positive h.height && not (is_some o)) names
            ∙ never_lacks (is_positive h.height) in
          let (e, is_signed, same_rest, fresh, used, accepted) =
            sign_with-self_authenticate c s e0 keypair secret canonical owner no_stray no_lack in
          (
            e0,
            e,
            is_new,
            is_signed,
            record {
              names = ap (λ r. r.header.ancestors) same_rest ∙ names;
              height = ap (λ r. r.header.height) same_rest ∙ at;
              owner = ap (λ r. r.header.key) same_rest ∙ owner;
              promise = ap (λ r. r.header.next_nonce) same_rest ∙ promise;
              keeps_promise = used ∙ ap some owned;
              authentic = accepted;
            },
          )

    -- With honest nonces, a tip of height n below 2^63 - 1 whose hash and genesis can be computed and
    -- whose promised nonce is saved, and with tips that can be gathered and a new nonce that is saved,
    -- the wrapping of a message with canonical forms ends with an envelope that follows the tip and
    -- promises the new nonce.
    pub wrap_message-Follows :
        (from_sql : GenericEnvelope M → Option (GenericEnvelope M)) (invalid : SqlError)
        (keypair : Text) (checkpoints : List (Text × ℤ)) (a : Attempt)
        (bypass : Option (GenericEnvelope M)) (tip_groups : TipControl) (db db' : MsgDb M)
        (tips : List (GenericEnvelope M)) (hashes : List (Key × ℤ × CanonicalEnvelopeHash))
        (tip : GenericEnvelope M) (prev genesis : CanonicalEnvelopeHash) (n : ℕ) (secret : Text)
        (next_nonce : Key)
        → gather_tips c from_sql invalid tip_groups (c.public_of keypair) db ≡ ok tips
        → tip_hashes c (swap_remove_where (λ t. same t.header.key (c.public_of keypair)) tips)
          ≡ done hashes
        → tip_or bypass (get_tip_for_user_by_key (c.public_of keypair) db) ≡ ok tip
        → canonicalized_hash_ref c tip ≡ done prev
        → get_genesis_hash c tip ≡ done genesis
        → tip.header.height ≡ pos n
        → n + 1 < 2 ^ 63
        → AllHonest db.message_nonces
        → get_secret_for_public_nonce tip.header.next_nonce db ≡ ok secret
        → generate_fresh_nonce_for_user_by_key c a.random (c.public_of keypair) db
          ≡ (ok next_nonce, db')
        → (e : GenericEnvelope M) × (wrap_message_in_envelope_for_user_by_key c from_sql invalid msg
              keypair checkpoints a bypass tip_groups db
            ≡ done (ok (ok e), db'))
          × Follows tip e (c.public_of keypair) next_nonce prev genesis n
    unfolding wrap_message_in_envelope_for_user_by_key with_tips with_tip with_secret
        with_next_nonce following_header
    wrap_message-Follows from_sql invalid keypair checkpoints a bypass tip_groups db db' tips hashes
          tip prev genesis n secret next_nonce gathered hashed is_tip is_hash is_genesis at small
          honest is_secret is_fresh =
        let header : Header = record {
          key = c.public_of keypair;
          next_nonce = next_nonce;
          ancestors = some (record { prev_msg = prev; genesis = genesis });
          tips = hashes;
          height = pos (n + 1);
          sent_time_ms = a.sent;
          unsigned = record { signature = none };
          checkpoints = checkpoints;
        } in
        let owned = honest_secret tip.header.next_nonce secret db honest is_secret in
        let (e0, e, is_new, is_signed, follows) =
          signed_new keypair secret tip next_nonce prev genesis n owned header refl refl refl
            refl in
        let higher : add_one tip.header.height ≡ done (pos (n + 1)) =
          ap add_one at ∙ next_height n small in
        (
          e,
          rw
              (
                gathered, hashed, is_tip, is_secret, is_fresh, is_hash, is_genesis, higher, is_new,
                is_signed,
              )
              refl,
          follows,
        )
