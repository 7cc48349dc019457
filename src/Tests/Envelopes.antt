-- ===== src/Tests/Envelopes.antt =====
-- Envelopes at concrete inputs, under a signature that holds the nonce, the key and the digest.
use judica_vm.Base.{
  ℕ, zero, suc, ◌≡◌, refl, sym, ap, ◌∙◌, ◌↔◌, Bool, true, false, none, some, List, [], ◌∷◌, ◌++◌,
  done, if◌then◌else◌,
}
use judica_vm.Base.Int.{pos}
use judica_vm.Base.Exec.{ok, err}
use judica_vm.Base.Order.{text_ord}
use judica_vm.Base.Hash.{same, same_refl}
use judica_vm.Base.Text.{Text, ascii}
use judica_vm.Envelope.{Header, GenericEnvelope, Authenticated, Crypto}
use judica_vm.Envelope.Canonical.{
  take, drop, stray_ancestors, lacks_ancestors, compute_hash, canonicalized_hash_ref,
  self_authenticate, extract_used_nonce,
}
use judica_vm.Envelope.Signing.{
  redact, sealed, sign_with, IsScheme, IsAuthentic, self_authenticate-IsAuthentic,
  sign_with-self_authenticate,
}

-- The first bytes of a text, filled up with zeros.
unfoldable pub pad : ℕ → Text → Text
pad zero s = []
pad (suc n) [] = 0 ∷ pad n []
pad (suc n) (b ∷ s) = b ∷ pad n s

take-pad : (n : ℕ) (s t : Text) → take n (pad n s ++ t) ≡ pad n s
unfolding take pad
take-pad zero s t = refl
take-pad (suc n) [] t = ap (λ r. 0 ∷ r) (take-pad n [] t)
take-pad (suc n) (b ∷ s) t = ap (λ r. b ∷ r) (take-pad n s t)

drop-pad : (n : ℕ) (s t : Text) → drop n (pad n s ++ t) ≡ t
unfolding drop pad
drop-pad zero s t = refl
drop-pad (suc n) [] t = drop-pad n [] t
drop-pad (suc n) (b ∷ s) t = drop-pad n s t

abbrev pub signature_of : Header → Text
signature_of h = elim h.unsigned.signature [ none ↦ [] | some sig ↦ sig ]

abbrev pub toy : Crypto Text (Unit {0})
toy = record {
  to_canonical_value = λ h msg. some (h.key ++ msg ++ signature_of h);
  sha256 = λ t. t;
  verify_schnorr = λ sig msg key. if same (drop 32 sig) (key ++ msg) then ok tt else err tt;
  sign_custom = λ nonce msg keypair. pad 32 nonce ++ (pad 32 keypair ++ msg);
  from_slice = λ s. some s;
  public_of = pad 32;
}

pub toy-IsScheme : IsScheme toy
toy-IsScheme = record {
  verify-sign = λ nonce msg keypair.
      ap (λ t. if same t (pad 32 keypair ++ msg) then ok tt else err tt)
        (drop-pad 32 nonce (pad 32 keypair ++ msg))
      ∙ ap (λ b. if b then ok tt else err tt) (same_refl (pad 32 keypair ++ msg));
  nonce-sign = λ nonce msg keypair. ap some (take-pad 32 nonce (pad 32 keypair ++ msg));
}

abbrev pub header : Header
header = record {
  key = pad 32 (ascii "player");
  next_nonce = pad 32 (ascii "next");
  ancestors = none;
  tips = [];
  height = pos 0;
  sent_time_ms = pos 12_431;
  unsigned = record { signature = none };
  checkpoints = [];
}

abbrev pub letter : GenericEnvelope Text
letter = record { header = header; msg = ascii "hi"; cache = none }

abbrev pub letter_digest : Text
letter_digest = pad 32 (ascii "player") ++ (ascii "hi" ++ [])

abbrev pub letter_signature : Text
letter_signature = pad 32 (ascii "nonce") ++ (pad 32 (ascii "player") ++ letter_digest)

abbrev pub signed_letter : GenericEnvelope Text
signed_letter =
    sealed toy letter letter_signature (pad 32 (ascii "player") ++ (ascii "hi" ++ letter_signature))

self_authenticate-IsAuthentic_example :
    (self_authenticate toy signed_letter ≡ done (ok (record { inner = signed_letter }))) ↔ (
      IsAuthentic toy signed_letter
      × (◌≡◌ {A = Authenticated (GenericEnvelope Text)}
          (record { inner = signed_letter })
          (record { inner = signed_letter })))
self_authenticate-IsAuthentic_example =
    self_authenticate-IsAuthentic toy signed_letter (record { inner = signed_letter })

accepts_letter : self_authenticate toy signed_letter ≡ done (ok (record { inner = signed_letter }))
unfolding self_authenticate judica_vm.Base.Order.text_cmp drop pad
accepts_letter = refl

sign_with-self_authenticate_example :
    (e : GenericEnvelope Text) × (sign_with toy (ascii "player") (ascii "nonce") letter
      ≡ done (ok tt, e))
    × (redact e ≡ redact letter)
    × (canonicalized_hash_ref toy e ≡ compute_hash toy e)
    × (extract_used_nonce toy e ≡ some (pad 32 (ascii "nonce")))
    × (self_authenticate toy e ≡ done (ok (record { inner = e })))
unfolding stray_ancestors lacks_ancestors
sign_with-self_authenticate_example =
    sign_with-self_authenticate toy toy-IsScheme letter (ascii "player") (ascii "nonce")
      (λ h. (h.key ++ ascii "hi" ++ signature_of h, refl)) refl refl refl

letter_signed : sign_with toy (ascii "player") (ascii "nonce") letter ≡ done (ok tt, signed_letter)
unfolding sign_with pad
letter_signed = refl
