-- ===== src/Entity/RoundTrip.antt =====
-- The text form of an entity id is read back as the same id.
use judica_vm.Base.{
  ℕ, zero, suc, ◌+◌, ◌*◌, ◌/◌, ◌%◌, ◌≤◌, ◌<◌, ◌≡◌, refl, some, [], ◌∷◌, arith, u64, ◌==◌, inl, inr,
  Bool-cases, ◌∙◌, sym, ap,
}
use judica_vm.Base.Text.{Text}
use judica_vm.Entity.{EntityId, to_digit, digits, to_hex, hex_value, read_digits, try_from, parsed}

hex_value-to_digit : (d : ℕ) → d < 16 → hex_value (to_digit d) ≡ some d
hex_value-to_digit d h = ground arith

read_digits-cons :
    (acc d : ℕ) (s : Text)
    → d < 16
    → acc * 16 + d < u64
    → read_digits acc (to_digit d ∷ s) ≡ read_digits (acc * 16 + d) s
unfolding read_digits
read_digits-cons acc d s h fits = ground (arith, hex_value-to_digit d)

read_digits-digits :
    (f n : ℕ) (acc : Text) → n < f → n < u64 → read_digits 0 (digits f 16 n acc) ≡ read_digits n acc
unfolding digits
read_digits-digits zero n acc h fits = elim h [ ]
read_digits-digits (suc f) n acc h fits = elim (Bool-cases (n / 16 == 0)) [
  | inl last ↦
      let e : n ≡ 0 * 16 + n % 16 = ground arith in
      rw last (
        read_digits-cons 0 (n % 16) acc (omega arith) (omega arith)
        ∙ ap (λ k. read_digits k acc) (sym e))
  | inr more ↦
      let e : n ≡ n / 16 * 16 + n % 16 = omega arith in
      rw more (
        read_digits-digits f (n / 16) (to_digit (n % 16) ∷ acc) (ground arith) (omega arith)
        ∙ read_digits-cons (n / 16) (n % 16) acc (omega arith) (omega arith)
        ∙ ap (λ k. read_digits k acc) (sym e))
]

read_digits-nil : (n : ℕ) → read_digits n [] ≡ parsed n
unfolding read_digits
read_digits-nil n = refl

digits-head :
    (f n : ℕ) (acc : Text) → n < f → (c : ℕ) × (s : Text) × (digits f 16 n acc ≡ c ∷ s) × (48 ≤ c)
unfolding digits
digits-head zero n acc h = elim h [ ]
digits-head (suc f) n acc h = elim (Bool-cases (n / 16 == 0)) [
  | inl last ↦ (to_digit (n % 16), acc, rw last, ground arith)
  | inr more ↦ rw more (digits-head f (n / 16) (to_digit (n % 16) ∷ acc) (ground arith))
]

try_from-digits :
    (c : ℕ) (s : Text) {n : ℕ}
    → 48 ≤ c
    → read_digits 0 (c ∷ s) ≡ parsed n
    → try_from (c ∷ s) ≡ parsed n
unfolding try_from
try_from-digits c [] h e = ground arith
try_from-digits c (d ∷ s) h e = ground arith

-- `EntityID::try_from(String::from(id))` is `Ok(id)` for every 64-bit id.
pub try_from-to_hex : (id : EntityId) → id < u64 → try_from (to_hex id) ≡ parsed id
unfolding to_hex
try_from-to_hex id h =
    let (c, s, e, digit) = digits-head (id + 1) id [] (omega arith) in
    rw e (
      try_from-digits c s digit (
        ap (read_digits 0) (sym e)
        ∙ read_digits-digits (id + 1) id [] (omega arith) h
        ∙ read_digits-nil id))
