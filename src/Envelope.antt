-- ===== src/Envelope.antt =====
-- common/attest-messages/src/lib.rs: signed envelopes, their hash, their signature and the check of
-- it. Keys, hashes, nonces and signatures are the bytes that they are serialized as.
pub mod Canonical
pub mod Signing
pub mod Caching
use judica_vm.Base.{Option, List, none}
use judica_vm.Base.Int.{ℤ}
use judica_vm.Base.Text.{Text}
use judica_vm.Base.Exec.{Result}

-- `XOnlyPublicKey`, and `PrecomittedPublicNonce`, which wraps one.
abbrev pub Key : Type 0
Key = Text

-- `CanonicalEnvelopeHash`: the 32 bytes of a sha256 hash.
abbrev pub CanonicalEnvelopeHash : Type 0
CanonicalEnvelopeHash = Text

pub record Unsigned : Type 0 where
  pub signature : Option Text

pub record Ancestors : Type 0 where
  pub prev_msg : CanonicalEnvelopeHash
  pub genesis : CanonicalEnvelopeHash

pub record Header : Type 0 where
  pub key : Key
  pub next_nonce : Key
  pub ancestors : Option Ancestors
  pub tips : List (Key × ℤ × CanonicalEnvelopeHash)
  pub height : ℤ
  pub sent_time_ms : ℤ
  pub unsigned : Unsigned
  pub checkpoints : List (Text × ℤ)

pub record GenericEnvelope (M : Type 0) : Type 0 where
  pub header : Header
  pub msg : M
  pub cache : Option CanonicalEnvelopeHash

-- `Authenticated<T>`
pub record Authenticated (A : Type 0) : Type 0 where
  pub inner : A

-- `E` holds the errors of serde_json and of secp256k1, which are those libraries' own.
pub data AuthenticationError (E : Type 0) : Type 0 where
  serializer_error : E → AuthenticationError E
  no_signature hashing_error missing_ancestors no_ancestors_for_genesis : AuthenticationError E
  validation_error : E → AuthenticationError E

pub data SigningError (E : Type 0) : Type 0 where
  unserializable : E → SigningError E
  unhashable : SigningError E

-- The libraries that an envelope is hashed and signed with: ruma_serde's canonical JSON of the
-- header and the message, sha256, and the Schnorr signatures of secp256k1 under a chosen nonce.
pub record Crypto (M E : Type 0) : Type 0 where
  pub to_canonical_value : Header → M → Option Text
  pub sha256 : Text → CanonicalEnvelopeHash
  pub verify_schnorr : Text → Text → Key → Result E Unit
  pub sign_custom : Text → Text → Text → Text
  pub from_slice : Text → Option Key
  pub public_of : Text → Key
