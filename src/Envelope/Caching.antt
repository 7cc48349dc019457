-- ===== src/Envelope/Caching.antt =====
-- attest-messages/src/lib.rs: the cached hash of the envelopes that its operations make.
use judica_vm.Base.{◌≡◌, refl, sym, ap, subst, Option, none, some, done, >>=-eq-done, same_done}
use judica_vm.Base.Exec.{Result}
use judica_vm.Base.Text.{Text}
use judica_vm.Envelope.{Header, GenericEnvelope, SigningError, Crypto, CanonicalEnvelopeHash}
use judica_vm.Envelope.Canonical.{
  set_signature, set_cache, compute_hash, canonicalized_hash_ref, signature_digest,
  signature_digest_mut, new_envelope,
}
use judica_vm.Envelope.Signing.{redact, sign_with_precomitted_nonce, sign_digest, sign_with}

module _ {M E : Type 0} (c : Crypto M E) where
  -- The envelopes that the operations on an envelope make, whatever their arguments and results.
  pub data IsMade : GenericEnvelope M → Type 0 where
    made : (h : Header) (msg : M) {e : GenericEnvelope M} → new_envelope c h msg ≡ done e → IsMade e
    signed :
        (keypair nonce : Text) (r : Result (SigningError E) (Unit {0})) {e e' : GenericEnvelope M}
        → IsMade e
        → sign_with c keypair nonce e ≡ done (r, e')
        → IsMade e'
    digested :
        (digest : Text) {e e' : GenericEnvelope M}
        → IsMade e
        → signature_digest_mut c e ≡ done (digest, e')
        → IsMade e'

  -- The envelope's hash is the one that would be computed.
  abbrev pub IsFresh : GenericEnvelope M → Type 0
  IsFresh e = canonicalized_hash_ref c e ≡ compute_hash c e

  IsFresh-stored :
      (e : GenericEnvelope M) (h : CanonicalEnvelopeHash)
      → compute_hash c e ≡ done h
      → IsFresh (set_cache (some h) e)
  unfolding canonicalized_hash_ref compute_hash
  IsFresh-stored e h ran = sym ran

  IsFresh-new_envelope :
      (h : Header) (msg : M) (e : GenericEnvelope M) → new_envelope c h msg ≡ done e → IsFresh e
  unfolding new_envelope canonicalized_hash_ref
  IsFresh-new_envelope h msg e ran =
      let s : GenericEnvelope M = record { header = h; msg = msg; cache = none } in
      let (hash, is_hash, is) = >>=-eq-done (compute_hash c s) _ ran in
      subst IsFresh (same_done is) (IsFresh-stored s hash is_hash)

  IsFresh-sign_digest :
      (keypair nonce : Text) (r : Result (SigningError E) (Unit {0})) (e e' : GenericEnvelope M)
      (msg : Option Text)
      → e.cache ≡ none
      → sign_digest c keypair nonce e msg ≡ done (r, e')
      → IsFresh e'
  unfolding sign_digest canonicalized_hash_ref
  IsFresh-sign_digest keypair nonce r e e' none bare ran =
      subst IsFresh (ap (λ p. p.1) (same_done ran)) (rw (bare) refl)
  IsFresh-sign_digest keypair nonce r e e' (some msg) bare ran =
      let signed = set_signature (some (sign_with_precomitted_nonce c nonce msg keypair)) e in
      let (hash, is_hash, is) = >>=-eq-done (compute_hash c signed) _ ran in
      subst IsFresh (ap (λ p. p.1) (same_done is)) (IsFresh-stored signed hash is_hash)

  IsFresh-sign_with :
      (keypair nonce : Text) (r : Result (SigningError E) (Unit {0})) (e e' : GenericEnvelope M)
      → sign_with c keypair nonce e ≡ done (r, e')
      → IsFresh e'
  unfolding sign_with
  IsFresh-sign_with keypair nonce r e e' ran =
      let (msg, _, is) = >>=-eq-done (signature_digest c (redact e)) _ ran in
      IsFresh-sign_digest keypair nonce r (redact e) e' msg refl is

  signature_digest_mut_lem :
      (digest : Text) (e e' : GenericEnvelope M)
      → signature_digest_mut c e ≡ done (digest, e')
      → e ≡ e'
  unfolding signature_digest_mut
  signature_digest_mut_lem digest e e' ran =
      let (hash, _, is) = >>=-eq-done (canonicalized_hash_ref c (redact e)) _ ran in
      ap (λ p. p.1) (same_done is)

  -- The hash of every envelope that the operations make, signed or not and however often, is the hash
  -- of its present content, so that the cached one is never out of date.
  pub IsMade-IsFresh : {e : GenericEnvelope M} → IsMade e → IsFresh e
  IsMade-IsFresh (made h msg {e} ran) = IsFresh-new_envelope h msg e ran
  IsMade-IsFresh (signed keypair nonce r {e} {e'} before ran) =
      IsFresh-sign_with keypair nonce r e e' ran
  IsMade-IsFresh (digested digest {e} {e'} before ran) =
      subst IsFresh (signature_digest_mut_lem digest e e' ran) (IsMade-IsFresh before)
