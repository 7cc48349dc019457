-- ===== src/MsgDb/Keys.antt =====
-- attest-database/src/db_handle/get/nonces.rs: the secret key from two messages signed with one nonce.
use judica_vm.Base.{
  ℕ, ◌+◌, ◌-◌, ◌*◌, ◌%◌, ◌<◌, ◌≡◌, refl, sym, ap, subst, Bool, false, not, Option, none, some, ◌++◌,
  Outcome, done, panic, ◌==◌, ◌>>=◌, if◌then◌else◌, length, arith,
}
use mathlib.Core.List.{reverse}
use judica_vm.Base.Int.{ℤ, pos}
use judica_vm.Base.Congruence.{
  Cong, Cong-mod, Cong-eq_of_lt, pos_part, neg_part, sub_ℕ, sub_parts, ◌*ℤ◌, mod_floor,
  mod_floor-Cong, mod_floor-lt,
}
use judica_vm.Base.Order.{text_ord}
use judica_vm.Base.Hash.{same}
use judica_vm.Base.Text.{Text, ascii}
use judica_vm.Envelope.{Key, GenericEnvelope, Authenticated, Crypto}
use judica_vm.Envelope.Canonical.{zeros, extract_used_nonce, signature_digest_mut, extract_sig_s}

-- num_bigint and num_integer: bytes of a number, most and least significant first, and the coefficient
-- `x` of the extended greatest common divisor. And the check of secp256k1 that bytes are a secret key.
pub record BigInts : Type 0 where
  pub from_bytes_be : Text → ℕ
  pub to_bytes_le : ℕ → Text
  pub extended_gcd_x : ℤ → ℕ → ℤ
  pub secret_from_slice : Text → Option Text

-- The order of the curve.
unfoldable pub field : ℕ
field = 0xFFFFFFFFFFFFFFFFFFFFFFFFFFFFFFFEBAAEDCE6AF48A03BBFD25E8CD0364141

abbrev pub bip340_challenge : Text
bip340_challenge = ascii "BIP0340/challenge"

unfoldable pub secret_bytes : BigInts → ℕ → Text
unfolding zeros
secret_bytes b result =
    let sig_bytes = b.to_bytes_le result in reverse (sig_bytes ++ zeros (32 - length sig_bytes))

module _ {M E : Type 0} (c : Crypto M E) (b : BigInts) where
  -- The bytes that are hashed first.
  unfoldable pub get_signature_tagged_hash : Text
  get_signature_tagged_hash = let tag = c.sha256 bip340_challenge in tag ++ tag

  unfoldable pub challenge : Key → Text → Text → ℕ
  unfolding get_signature_tagged_hash
  challenge key nonce m =
      b.from_bytes_be (c.sha256 (get_signature_tagged_hash ++ nonce ++ key ++ m))

  unfoldable pub secret_number : ℕ → ℕ → ℕ → ℕ → ℕ
  secret_number d1 d2 s1 s2 =
      let divisor = sub_ℕ d1 d2 in
      let inv = mod_floor (b.extended_gcd_x divisor field) field in
      mod_floor (pos inv *ℤ sub_ℕ s1 s2) field

  -- A number of sign `NoSign` is a panic.
  unfoldable pub extract_sk : Key → Text → Text → Text → Text → Text → Outcome (Option Text)
  extract_sk key m1 m2 nonce s1 s2 =
      let result =
        secret_number (challenge key nonce m1) (challenge key nonce m2) (b.from_bytes_be s1)
          (b.from_bytes_be s2) in
      if result == 0 then panic else done (b.secret_from_slice (secret_bytes b result))

  abbrev pub sk_of :
      Key → Text → Text → Option Text → Option Text → Option Text → Outcome (Option Text)
  sk_of key m1 m2 used none s2 = done none
  sk_of key m1 m2 used (some s1) none = done none
  sk_of key m1 m2 none (some s1) (some s2) = done none
  sk_of key m1 m2 (some nonce) (some s1) (some s2) = extract_sk key m1 m2 nonce s1 s2

  abbrev pub same_nonce : Option Key → Option Key → Bool
  same_nonce none other = false
  same_nonce (some n) none = false
  same_nonce (some n) (some n') = same n n'

  unfoldable pub extract_sk_from_envelopes :
      Authenticated (GenericEnvelope M) → Authenticated (GenericEnvelope M) → Outcome (Option Text)
  extract_sk_from_envelopes a1 a2 =
      let e1 = a1.inner in
      let e2 = a2.inner in
      let used = extract_used_nonce c e1 in
      if not (same e1.header.key e2.header.key)
      then done none
      else if not (same_nonce used (extract_used_nonce c e2))
      then done none
      else (do
        (m1, _) ← signature_digest_mut c e1
        (m2, _) ← signature_digest_mut c e2
        sk_of e1.header.key m1 m2 used (extract_sig_s c e1) (extract_sig_s c e2))

-- The arithmetic, modulo n: positive and negative parts of the differences are apart.
module _ (n p inv : ℕ) where
  differs_by :
      (d1 d2 s1 s2 k pz nz pw nw : ℕ)
      → Cong n s1 (k + d1 * p)
      → Cong n s2 (k + d2 * p)
      → pz + d2 ≡ nz + d1
      → pw + s2 ≡ nw + s1
      → Cong n (pw + nz * p) (nw + pz * p)
  differs_by d1 d2 s1 s2 k pz nz pw nw (u1, v1, e1) (u2, v2, e2) ez ew =
      (u1 + v2, v1 + u2, grind (arith, ap (λ (t : ℕ). t * p) ez))

  unit :
      (px nx pz nz : ℕ)
      → Cong n (inv + nx) px
      → Cong n (1 + (px * nz + nx * pz)) (px * pz + nx * nz)
      → Cong n (inv * pz) (1 + inv * nz)
  unit px nx pz nz (u, v, e) (u', v', e') = (
    u * pz + v * nz + v',
    v * pz + u * nz + u',
    grind (arith, ap (λ (t : ℕ). t * pz) e, ap (λ (t : ℕ). t * nz) e),
  )

  solved :
      (r pz nz pw nw : ℕ)
      → Cong n (pw + nz * p) (nw + pz * p)
      → Cong n (inv * pz) (1 + inv * nz)
      → Cong n (r + inv * nw) (inv * pw)
      → Cong n r p
  solved r pz nz pw nw (u1, v1, e1) (u2, v2, e2) (u3, v3, e3) = (
    u3 + u1 * inv + u2 * p,
    v3 + v1 * inv + v2 * p,
    grind (arith, ap (λ (t : ℕ). t * inv) e1, ap (λ (t : ℕ). t * p) e2),
  )

unit_product : (n pp np a b : ℕ) → Cong n (1 + np) pp → pp + b ≡ np + a → Cong n (1 + b) a
unit_product n pp np a b (u, v, e) parts = (u, v, omega arith)

scaled :
    (n r inv pw nw pr nr : ℕ)
    → Cong n (r + nr) pr
    → pr + (inv * nw + 0 * pw) ≡ nr + (inv * pw + 0 * nw)
    → Cong n (r + inv * nw) (inv * pw)
scaled n r inv pw nw pr nr (u, v, e) parts = (u, v, grind arith)

-- The coefficient of the extended greatest common divisor is an inverse.
inverse :
    (n : ℕ) (x z : ℤ)
    → 0 < n
    → mod_floor (x *ℤ z) n ≡ 1
    → Cong n (mod_floor x n * pos_part z) (1 + mod_floor x n * neg_part z)
unfolding ◌*ℤ◌
inverse n x z positive one =
    let product = x *ℤ z in
    let reduced = mod_floor-Cong product n positive in
    let parts =
      sub_parts (pos_part x * pos_part z + neg_part x * neg_part z)
        (pos_part x * neg_part z + neg_part x * pos_part z) in
    unit n 0 (mod_floor x n) (pos_part x) (neg_part x) (pos_part z) (neg_part z)
      (mod_floor-Cong x n positive)
      (unit_product n (pos_part product) (neg_part product)
        (pos_part x * pos_part z + neg_part x * neg_part z)
        (pos_part x * neg_part z + neg_part x * pos_part z)
        (subst (λ r. Cong n (r + neg_part product) (pos_part product)) one reduced) parts)

module _ {M E : Type 0} (c : Crypto M E) (b : BigInts) where
  recovers :
      (d1 d2 s1 s2 k p : ℕ)
      → p < field
      → s1 ≡ (k + d1 * p) % field
      → s2 ≡ (k + d2 * p) % field
      → mod_floor (b.extended_gcd_x (sub_ℕ d1 d2) field *ℤ sub_ℕ d1 d2) field ≡ 1
      → secret_number c b d1 d2 s1 s2 ≡ p
  unfolding secret_number ◌*ℤ◌
  recovers d1 d2 s1 s2 k p small is_s1 is_s2 one =
      let positive : 0 < field = omega arith in
      let z = sub_ℕ d1 d2 in
      let w = sub_ℕ s1 s2 in
      let inv = mod_floor (b.extended_gcd_x z field) field in
      let result = pos inv *ℤ w in
      Cong-eq_of_lt field (mod_floor result field) p (mod_floor-lt result field positive) small (
        solved field p inv (mod_floor result field) (pos_part z) (neg_part z) (pos_part w)
          (neg_part w)
          (differs_by field p inv d1 d2 s1 s2 k (pos_part z) (neg_part z) (pos_part w) (neg_part w)
            (subst (λ s. Cong field s (k + d1 * p)) (sym is_s1) (Cong-mod field (k + d1 * p)))
            (subst (λ s. Cong field s (k + d2 * p)) (sym is_s2) (Cong-mod field (k + d2 * p)))
            (sub_parts d1 d2) (sub_parts s1 s2))
          (inverse field (b.extended_gcd_x z field) z positive one)
          (scaled field (mod_floor result field) inv (pos_part w) (neg_part w) (pos_part result)
            (neg_part result) (mod_floor-Cong result field positive)
            (sub_parts (inv * pos_part w + 0 * neg_part w) (inv * neg_part w + 0 * pos_part w))))

  -- Let two signature halves be those of Schnorr's scheme for one secret number p above 0 and below the
  -- order of the curve, one nonce number k and two messages, and let the coefficient that is computed
  -- invert the difference of the challenges. Then the key that is extracted is the one of p.
  pub extract_sk_lem :
      (key m1 m2 nonce s1 s2 : Text) (k p : ℕ)
      → 0 < p
      → p < field
      → b.from_bytes_be s1 ≡ (k + challenge c b key nonce m1 * p) % field
      → b.from_bytes_be s2 ≡ (k + challenge c b key nonce m2 * p) % field
      → (let divisor = sub_ℕ (challenge c b key nonce m1) (challenge c b key nonce m2) in
          mod_floor (b.extended_gcd_x divisor field *ℤ divisor) field ≡ 1)
      → extract_sk c b key m1 m2 nonce s1 s2 ≡ done (b.secret_from_slice (secret_bytes b p))
  unfolding extract_sk
  extract_sk_lem key m1 m2 nonce s1 s2 k p above small is_s1 is_s2 one =
      let found =
        recovers (challenge c b key nonce m1) (challenge c b key nonce m2) (b.from_bytes_be s1)
          (b.from_bytes_be s2) k p small is_s1 is_s2 one in
      let nonzero : (p == 0) ≡ false = ground arith in rw (found, nonzero) refl
