-- ===== src/TradingPair/RoundTrip.antt =====
-- The text form of a trading pair is read back as the same pair.
use judica_vm.Base.{
  ℕ, zero, suc, ◌+◌, ◌/◌, ◌%◌, ◌<◌, ◌≡◌, refl, arith, u64, Bool, true, not, ◌&&◌, ◌==◌, [], ◌∷◌,
  ◌++◌, inl, inr, Bool-cases,
}
use judica_vm.Base.Text.{Text}
use judica_vm.Entity.{to_digit, digits, to_hex}
use judica_vm.Entity.RoundTrip.{try_from-to_hex}
use judica_vm.TradingPair.{TradingPairId, split, terms, both_terms, to_text, try_pair_from, pair}

abbrev no_colon : Text → Bool
no_colon [] = true
no_colon (c ∷ s) = not (c == 58) && no_colon s

no_colon-to_digit :
    (d : ℕ) (s : Text) → d < 16 → no_colon s ≡ true → no_colon (to_digit d ∷ s) ≡ true
no_colon-to_digit d s h e = ground arith

no_colon-digits : (f n : ℕ) (acc : Text) → no_colon acc ≡ true → no_colon (digits f 16 n acc) ≡ true
unfolding digits
no_colon-digits zero n acc h = h
no_colon-digits (suc f) n acc h = elim (Bool-cases (n / 16 == 0)) [
  | inl last ↦ rw last (no_colon-to_digit (n % 16) acc (omega arith) h)
  | inr more ↦ rw more (
      no_colon-digits f (n / 16) (to_digit (n % 16) ∷ acc)
        (no_colon-to_digit (n % 16) acc (omega arith) h))
]

no_colon-to_hex : (n : ℕ) → no_colon (to_hex n) ≡ true
unfolding to_hex
no_colon-to_hex n = no_colon-digits (n + 1) n [] refl

split_one : (s : Text) → no_colon s ≡ true → split s ≡ s ∷ []
unfolding split
split_one [] h = refl
split_one (c ∷ s) h = ground (arith, split_one s)

split_two : (s t : Text) → no_colon s ≡ true → split (s ++ 58 ∷ t) ≡ s ∷ split t
unfolding split
split_two [] t h = refl
split_two (c ∷ s) t h = ground (arith, split_two s t)

-- A pair of 64-bit ids that is printed and parsed again is the same pair.
pub try_pair_from-to_text :
    (p : TradingPairId) → p.asset_a < u64 → p.asset_b < u64 → try_pair_from (to_text p) ≡ pair p
unfolding try_pair_from to_text terms both_terms
try_pair_from-to_text p a b =
    rw
      (
        split_two (to_hex p.asset_a) (to_hex p.asset_b) (no_colon-to_hex p.asset_a),
        split_one (to_hex p.asset_b) (no_colon-to_hex p.asset_b),
        try_from-to_hex p.asset_a a,
        try_from-to_hex p.asset_b b,
      )
      refl
