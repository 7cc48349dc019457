-- ===== src/Envelope/Signing.antt =====
-- attest-messages/src/lib.rs: `sign_with`, and what it means that an envelope is authentic.
use judica_vm.Base.{
  ◌≡◌, refl, ap, ◌↔◌, sym, ◌∙◌, Outcome-cases, >>=-eq-done, Option-cases, Bool-cases, inl, inr,
  false, Option, none, some, Outcome, done, ◌>>=◌, arith,
}
use judica_vm.Base.Exec.{Result, ok, err}
use judica_vm.Base.Text.{Text}
use judica_vm.Envelope.{Header, GenericEnvelope, Authenticated, SigningError, unhashable, Crypto}
use judica_vm.Envelope.Canonical.{
  take, set_signature, set_cache, stray_ancestors, lacks_ancestors, compute_hash, checked,
  canonicalized_hash_ref, signature_digest, verify_digest, verify, self_authenticate,
  extract_used_nonce,
}

-- An envelope as its signature sees it.
abbrev pub redact : {M : Type 0} → GenericEnvelope M → GenericEnvelope M
redact e = set_cache none (set_signature none e)

module _ {M E : Type 0} (c : Crypto M E) where
  -- nonce.rs
  unfoldable pub sign_with_precomitted_nonce : Text → Text → Text → Text
  sign_with_precomitted_nonce nonce msg keypair = c.sign_custom nonce msg keypair

  abbrev pub Signed : Type 0
  Signed = Outcome (Result (SigningError E) (Unit {0}) × GenericEnvelope M)

  unfoldable pub sign_digest : Text → Text → GenericEnvelope M → Option Text → Signed
  unfolding compute_hash sign_with_precomitted_nonce
  sign_digest keypair nonce e none = done (err unhashable, e)
  sign_digest keypair nonce e (some msg) = do
    let e = set_signature (some (sign_with_precomitted_nonce nonce msg keypair)) e
    h ← compute_hash c e
    done (ok tt, set_cache (some h) e)

  unfoldable pub sign_with : Text → Text → GenericEnvelope M → Signed
  unfolding signature_digest sign_digest
  sign_with keypair nonce e = do
    let cleared = redact e
    msg ← signature_digest c cleared
    sign_digest keypair nonce cleared msg

  -- The ancestors fit the height, and the signature is one of the redacted envelope by its key.
  pub record IsAuthentic (e : GenericEnvelope M) : Type 0 where
    pub none_stray : stray_ancestors e.header ≡ false
    pub none_lacking : lacks_ancestors e.header ≡ false
    pub signature : Text
    pub is_signed : e.header.unsigned.signature ≡ some signature
    pub digest : Text
    pub is_digest : compute_hash c (redact e) ≡ done digest
    pub is_verified : c.verify_schnorr signature digest e.header.key ≡ ok tt

  -- What secp256k1 promises: a signature by a key pair is valid for its public key, and its first
  -- half is the public nonce.
  pub record IsScheme : Type 0 where
    pub verify-sign :
        (nonce msg keypair : Text)
        → c.verify_schnorr (c.sign_custom nonce msg keypair) msg (c.public_of keypair) ≡ ok tt
    pub nonce-sign :
        (nonce msg keypair : Text)
        → c.from_slice (take 32 (c.sign_custom nonce msg keypair)) ≡ some (c.public_of nonce)

  checked-eq :
      (e : GenericEnvelope M) (r : Result E (Unit {0})) (a : Authenticated (GenericEnvelope M))
      → checked e r ≡ ok a
      → (r ≡ ok tt) × (a ≡ record { inner = e })
  checked-eq e (ok tt) a h = ground arith
  checked-eq e (err error) a h = ground arith

  verify-some :
      (e : GenericEnvelope M) (sig : Text)
      → verify c e (some sig) ≡ (
          compute_hash c (redact e) >>= λ h. done (checked e (c.verify_schnorr sig h e.header.key)))
  unfolding verify signature_digest canonicalized_hash_ref verify_digest
  verify-some e sig = elim (Outcome-cases (compute_hash c (redact e))) [
    | inl stop ↦ rw (stop) refl
    | inr (h, ran) ↦ rw (ran) refl
  ]

  module _ (e : GenericEnvelope M) where
    reaches :
        (sig : Text)
        → stray_ancestors e.header ≡ false
        → lacks_ancestors e.header ≡ false
        → e.header.unsigned.signature ≡ some sig
        → self_authenticate c e ≡ verify c e (some sig)
    unfolding self_authenticate
    reaches sig no_stray no_lack signed = rw (no_stray, no_lack, signed) refl

    accepted :
        (sig : Text) (a : Authenticated (GenericEnvelope M))
        → stray_ancestors e.header ≡ false
        → lacks_ancestors e.header ≡ false
        → e.header.unsigned.signature ≡ some sig
        → verify c e (some sig) ≡ done (ok a)
        → IsAuthentic e × (a ≡ record { inner = e })
    accepted sig a no_stray no_lack signed h =
        let (digest, is_digest, rest) =
          >>=-eq-done (compute_hash c (redact e)) _ (sym (verify-some e sig) ∙ h) in
        let (is_verified, same) = checked-eq e (c.verify_schnorr sig digest e.header.key) a cc in
        (
          record {
            none_stray = no_stray;
            none_lacking = no_lack;
            signature = sig;
            is_signed = signed;
            digest = digest;
            is_digest = is_digest;
            is_verified = is_verified;
          },
          same,
        )

    of_accepted :
        (a : Authenticated (GenericEnvelope M))
        → self_authenticate c e ≡ done (ok a)
        → IsAuthentic e × (a ≡ record { inner = e })
    unfolding self_authenticate verify
    of_accepted a h = elim (Bool-cases (stray_ancestors e.header)) [
      | inl stray ↦ ground arith
      | inr no_stray ↦ elim (Bool-cases (lacks_ancestors e.header)) [
        | inl lack ↦ ground arith
        | inr no_lack ↦ elim (Option-cases e.header.unsigned.signature) [
          | inl missing ↦ ground arith
          | inr (sig, signed) ↦
              accepted sig a no_stray no_lack signed (sym (reaches sig no_stray no_lack signed) ∙ h)
        ]
      ]
    ]

    to_accepted : IsAuthentic e → self_authenticate c e ≡ done (ok (record { inner = e }))
    to_accepted p =
        reaches p.signature p.none_stray p.none_lacking p.is_signed
        ∙ verify-some e p.signature
        ∙ rw (p.is_digest, p.is_verified) refl

    -- The check of an envelope accepts it, and returns it as it is, exactly when its ancestors fit its
    -- height and its signature is valid, by its own key, for the hash of the envelope without its
    -- signature, which is computed anew and not read from the cache.
    pub self_authenticate-IsAuthentic :
        (a : Authenticated (GenericEnvelope M))
        → (self_authenticate c e ≡ done (ok a)) ↔ (IsAuthentic e × (a ≡ record { inner = e }))
    self_authenticate-IsAuthentic a = (of_accepted a, λ p. to_accepted p.0 ∙ rw (p.1) refl)

  -- What signing makes of an envelope: the signature and the new hash.
  abbrev pub sealed : GenericEnvelope M → Text → Text → GenericEnvelope M
  sealed e sig h = set_cache (some h) (set_signature (some sig) (redact e))

  module _ (s : IsScheme) (e : GenericEnvelope M) (keypair nonce : Text)
      (canonical : (h : Header) → (t : Text) × (c.to_canonical_value h e.msg ≡ some t)) where
    hashed :
        (sig : Option Text)
        → (h : Text) × (compute_hash c (set_cache none (set_signature sig e)) ≡ done h)
    unfolding compute_hash
    hashed sig =
        let (t, found) = canonical (set_signature sig e).header in (c.sha256 t, rw (found) refl)

    valid :
        (digest : Text)
        → e.header.key ≡ c.public_of keypair
        → c.verify_schnorr (c.sign_custom nonce digest keypair) digest e.header.key ≡ ok tt
    valid digest key =
        ap (c.verify_schnorr (c.sign_custom nonce digest keypair) digest) key
        ∙ s.verify-sign nonce digest keypair

    -- Signing an envelope that names the public key of the key pair, whose ancestors fit its height and
    -- whose message has a canonical form under every header, succeeds. The outcome differs from the
    -- envelope in its signature and its cached hash at most, its hash is up to date, its signature
    -- shows the nonce that was chosen, and the check accepts it.
    pub sign_with-self_authenticate :
        e.header.key ≡ c.public_of keypair
        → stray_ancestors e.header ≡ false
        → lacks_ancestors e.header ≡ false
        → (e' : GenericEnvelope M) × (sign_with keypair nonce e ≡ done (ok tt, e'))
          × (redact e' ≡ redact e)
          × (canonicalized_hash_ref c e' ≡ compute_hash c e')
          × (extract_used_nonce c e' ≡ some (c.public_of nonce))
          × (self_authenticate c e' ≡ done (ok (record { inner = e' })))
    unfolding sign_with signature_digest sign_digest canonicalized_hash_ref extract_used_nonce
        sign_with_precomitted_nonce stray_ancestors lacks_ancestors
    sign_with-self_authenticate key no_stray no_lack =
        let (digest, is_digest) = hashed none in
        let sig : Text = c.sign_custom nonce digest keypair in
        let (hash, is_hash) = hashed (some sig) in
        (
          sealed e sig hash,
          rw (is_digest, is_hash) refl,
          refl,
          sym is_hash,
          s.nonce-sign nonce digest keypair,
          to_accepted (sealed e sig hash) (record {
            none_stray = no_stray;
            none_lacking = no_lack;
            signature = sig;
            is_signed = refl;
            digest = digest;
            is_digest = is_digest;
            is_verified = valid digest key;
          }),
        )
