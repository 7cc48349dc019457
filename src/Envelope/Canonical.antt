-- ===== src/Envelope/Canonical.antt =====
-- attest-messages/src/lib.rs: the hash of an envelope, its digest for a signature, and the check of
-- the signature.
use judica_vm.Base.{
  ℕ, zero, suc, Bool, true, false, not, ◌&&◌, Option, none, some, [], ◌∷◌, Outcome, done, ◌>>=◌,
  unwrap, if◌then◌else◌,
}
use judica_vm.Base.Int.{is_zero, is_positive}
use judica_vm.Base.Exec.{Result, ok, err}
use judica_vm.Base.Order.{text_ord}
use judica_vm.Base.Hash.{same}
use judica_vm.Base.Text.{Text}
use judica_vm.Envelope.{
  Key, CanonicalEnvelopeHash, Header, GenericEnvelope, Authenticated, AuthenticationError,
  no_signature, hashing_error, missing_ancestors, no_ancestors_for_genesis, validation_error,
  Crypto,
}

-- The hash that stands for the one before the first.
unfoldable pub zeros : ℕ → Text
zeros zero = []
zeros (suc n) = 0 ∷ zeros n

unfoldable pub genesis_hash : CanonicalEnvelopeHash
unfolding zeros
genesis_hash = zeros 32

unfoldable pub is_genesis : CanonicalEnvelopeHash → Bool
unfolding genesis_hash
is_genesis h = same h genesis_hash

-- Slices of a signature's 64 bytes.
unfoldable pub take : ℕ → Text → Text
take zero s = []
take (suc n) [] = []
take (suc n) (c ∷ s) = c ∷ take n s

unfoldable pub drop : ℕ → Text → Text
drop zero s = s
drop (suc n) [] = []
drop (suc n) (c ∷ s) = drop n s

abbrev pub is_some : {A : Type 0} → Option A → Bool
is_some none = false
is_some (some a) = true

abbrev pub set_signature : {M : Type 0} → Option Text → GenericEnvelope M → GenericEnvelope M
set_signature sig e = record e {
  header = record e.header { unsigned = record { signature = sig } };
}

abbrev pub set_cache :
    {M : Type 0} → Option CanonicalEnvelopeHash → GenericEnvelope M → GenericEnvelope M
set_cache hash e = record e { cache = hash }

-- The ancestors that a header must not have, or must have.
unfoldable pub stray_ancestors : Header → Bool
stray_ancestors h = is_zero h.height && is_some h.ancestors

unfoldable pub lacks_ancestors : Header → Bool
lacks_ancestors h = is_positive h.height && not (is_some h.ancestors)

abbrev pub Checked : Type 0 → Type 0 → Type 0
Checked M E = Result (AuthenticationError E) (Authenticated (GenericEnvelope M))

abbrev pub checked : {M E : Type 0} → GenericEnvelope M → Result E Unit → Checked M E
checked e (ok _) = ok (record { inner = e })
checked e (err error) = err (validation_error error)

unfoldable pub solemnly_swear_self_authenticated : {M E : Type 0} → GenericEnvelope M → Checked M E
unfolding stray_ancestors lacks_ancestors
solemnly_swear_self_authenticated e =
    if stray_ancestors e.header
    then err no_ancestors_for_genesis
    else if lacks_ancestors e.header
    then err missing_ancestors
    else ok (record { inner = e })

module _ {M E : Type 0} (c : Crypto M E) where
  -- A failure of the canonical form is a panic.
  unfoldable pub compute_hash : GenericEnvelope M → Outcome CanonicalEnvelopeHash
  compute_hash e = do
    canonical ← unwrap (c.to_canonical_value e.header e.msg)
    done (c.sha256 canonical)

  unfoldable pub canonicalized_hash_ref : GenericEnvelope M → Outcome CanonicalEnvelopeHash
  unfolding compute_hash
  canonicalized_hash_ref e = elim e.cache [ some h ↦ done h | none ↦ compute_hash e ]

  unfoldable pub signature_digest : GenericEnvelope M → Outcome (Option Text)
  unfolding canonicalized_hash_ref
  signature_digest e =
      if is_some e.header.unsigned.signature
      then done none
      else do msg_hash ← canonicalized_hash_ref e; done (some msg_hash)

  -- The envelope after the call is the one before it.
  unfoldable pub signature_digest_mut : GenericEnvelope M → Outcome (Text × GenericEnvelope M)
  unfolding canonicalized_hash_ref
  signature_digest_mut e = do
    let sig = e.header.unsigned.signature
    let cache = e.cache
    let cleared = set_cache none (set_signature none e)
    msg_hash ← canonicalized_hash_ref cleared
    done (msg_hash, set_signature sig (set_cache cache cleared))

  unfoldable pub get_genesis_hash : GenericEnvelope M → Outcome CanonicalEnvelopeHash
  unfolding canonicalized_hash_ref
  get_genesis_hash e = elim e.header.ancestors [
    | some a ↦ done a.genesis
    | none ↦ canonicalized_hash_ref e
  ]

  unfoldable pub extract_used_nonce : GenericEnvelope M → Option Key
  unfolding take
  extract_used_nonce e = elim e.header.unsigned.signature [
    | none ↦ none
    | some sig ↦ c.from_slice (take 32 sig)
  ]

  unfoldable pub extract_sig_s : GenericEnvelope M → Option Text
  unfolding take drop
  extract_sig_s e = elim e.header.unsigned.signature [
    | none ↦ none
    | some sig ↦ some (take 32 (drop 32 sig))
  ]

  -- `GenericEnvelope::new_envelope`
  unfoldable pub new_envelope : Header → M → Outcome (GenericEnvelope M)
  unfolding canonicalized_hash_ref
  new_envelope header msg = do
    let s : GenericEnvelope M = record { header = header; msg = msg; cache = none }
    h ← canonicalized_hash_ref s
    done (set_cache (some h) s)

  unfoldable pub verify_digest : GenericEnvelope M → Text → Option Text → Checked M E
  verify_digest e sig none = err hashing_error
  verify_digest e sig (some msg) = checked e (c.verify_schnorr sig msg e.header.key)

  unfoldable pub verify : GenericEnvelope M → Option Text → Outcome (Checked M E)
  unfolding signature_digest verify_digest
  verify e none = done (err no_signature)
  verify e (some sig) = do
    let redacted = set_cache none (set_signature none e)
    msg ← signature_digest redacted
    done (verify_digest e sig msg)

  unfoldable pub self_authenticate : GenericEnvelope M → Outcome (Checked M E)
  unfolding verify stray_ancestors lacks_ancestors
  self_authenticate e =
      if stray_ancestors e.header
      then done (err no_ancestors_for_genesis)
      else if lacks_ancestors e.header
      then done (err missing_ancestors)
      else verify e e.header.unsigned.signature
