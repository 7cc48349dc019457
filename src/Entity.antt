-- ===== src/Entity.antt =====
-- common/mine-with-friends-board/src/entity.rs: entity ids, their allocator and their text form.
-- A `u64` is printed and read by the standard library's formatting and `from_str_radix`.
pub mod RoundTrip
use judica_vm.Base.{
  ℕ, zero, suc, ◌+◌, ◌-◌, ◌*◌, ◌/◌, ◌%◌, Bool, true, false, not, ◌&&◌, ◌||◌, Option, none, some,
  List, [], ◌∷◌, Outcome, done, panic, ◌>>=◌, add, u64, ltb, leb, ◌==◌, if◌then◌else◌,
}
use judica_vm.Base.Text.{Text}

-- `EntityID(pub u64)`; `TokenPointer` and `NftPtr` wrap one.
abbrev pub EntityId : Type 0
EntityId = ℕ

unfoldable pub is_valid : EntityId → Bool
is_valid id = not (id == 0)

-- `EntityIDAllocator(pub u64)`
abbrev pub EntityIdAllocator : Type 0
EntityIdAllocator = ℕ

abbrev pub new_allocator : EntityIdAllocator
new_allocator = 0xc0de0000

-- The new id is also the new state of the allocator.
unfoldable pub make : EntityIdAllocator → Outcome (EntityId × EntityIdAllocator)
unfolding add
make a = do next ← add u64 a 1; done (next, next)

-- The ASCII byte of a digit, in lower case.
abbrev pub to_digit : ℕ → ℕ
to_digit d = if ltb d 10 then 48 + d else 87 + d

-- Digits of `n` to the base `r`, most significant first, in front of `acc`.
unfoldable pub digits : ℕ → ℕ → ℕ → Text → Text
digits zero r n acc = acc
digits (suc f) r n acc =
    let rest = digits f r (n / r) (to_digit (n % r) ∷ acc) in
    if n / r == 0 then to_digit (n % r) ∷ acc else rest

-- `format!("{:x}", n)` and `format!("{}", n)`
unfoldable pub to_hex : ℕ → Text
unfolding digits
to_hex n = digits (n + 1) 16 n []

unfoldable pub to_decimal : ℕ → Text
unfolding digits
to_decimal n = digits (n + 1) 10 n []

-- `IntErrorKind` of a `ParseIntError`
pub data ParseIntError : Type 0 where
  empty invalid_digit pos_overflow : ParseIntError

pub data Parsed : Type 0 where
  parsed : ℕ → Parsed
  failed : ParseIntError → Parsed

-- `char::to_digit(16)`
abbrev pub hex_value : ℕ → Option ℕ
hex_value c =
    if leb 48 c && leb c 57
    then some (c - 48)
    else if leb 97 c && leb c 102
    then some (c - 87)
    else if leb 65 c && leb c 70
    then some (c - 55)
    else none

-- One step of `u64::from_str_radix` at base 16.
unfoldable pub push_digit : ℕ → Option ℕ → Parsed
push_digit acc none = failed invalid_digit
push_digit acc (some d) =
    if ltb (acc * 16 + d) u64 then parsed (acc * 16 + d) else failed pos_overflow

unfoldable pub read_digits : ℕ → Text → Parsed
unfolding push_digit
read_digits acc [] = parsed acc
read_digits acc (c ∷ s) = elim (push_digit acc (hex_value c)) [
  | failed e ↦ failed e
  | parsed n ↦ read_digits n s
]

-- A sign alone is no digit; a leading plus is skipped.
unfoldable pub try_from : Text → Parsed
unfolding read_digits
try_from [] = failed empty
try_from (c ∷ []) = if c == 43 || c == 45 then failed invalid_digit else read_digits 0 (c ∷ [])
try_from (c ∷ d ∷ s) = if c == 43 then read_digits 0 (d ∷ s) else read_digits 0 (c ∷ d ∷ s)
