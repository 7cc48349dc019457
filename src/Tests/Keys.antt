-- ===== src/Tests/Keys.antt =====
-- A key extracted from two signatures, under a hash that keeps the last byte.
use judica_vm.Base.{ℕ, ◌+◌, ◌*◌, ◌≡◌, refl, some, [], ◌∷◌, done, arith}
use judica_vm.Base.Int.{pos}
use judica_vm.Base.Text.{Text, ascii}
use judica_vm.Base.Congruence.{sub_ℕ, ◌*ℤ◌, mod_floor}
use judica_vm.Envelope.{Crypto}
use judica_vm.Tests.Envelopes.{toy}
use judica_vm.MsgDb.Keys.{BigInts, field, challenge, secret_bytes, extract_sk, extract_sk_lem}

last_byte : Text → Text
last_byte [] = []
last_byte (b ∷ []) = b ∷ []
last_byte (b ∷ d ∷ t) = last_byte (d ∷ t)

abbrev tiny : Crypto Text (Unit {0})
tiny = record toy { sha256 = last_byte }

number_from : ℕ → Text → ℕ
number_from n [] = n
number_from n (b ∷ t) = number_from (n * 256 + b) t

abbrev small_numbers : BigInts
small_numbers = record {
  from_bytes_be = number_from 0;
  to_bytes_le = λ n. n ∷ [];
  extended_gcd_x = λ z n. pos 1;
  secret_from_slice = λ t. some t;
}

extract_sk_lem_example :
    extract_sk tiny small_numbers
      (ascii "key")
      (5 ∷ [])
      (4 ∷ [])
      (ascii "nonce")
      (22 ∷ [])
      (19 ∷ [])
    ≡ done (some (secret_bytes small_numbers 3))
unfolding field challenge number_from last_byte sub_ℕ ◌*ℤ◌ mod_floor
extract_sk_lem_example =
    extract_sk_lem tiny small_numbers (ascii "key") (5 ∷ []) (4 ∷ []) (ascii "nonce") (22 ∷ [])
      (19 ∷ []) 7 3 (omega arith) (omega arith) refl refl refl
