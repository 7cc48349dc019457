-- ===== src/Base/Text.antt =====
-- `String` as its bytes.
use Prim.Native.Char.{code}
use Prim.Native.Nat.{ℕ}
use Prim.Native.String.{String}
use mathlib.Core.List.{List, [], ◌∷◌}

abbrev pub Text : Type 0
Text = List ℕ

-- The bytes of an ASCII literal.
abbrev pub ascii : String → Text
ascii String.[] = []
ascii (String.◌∷◌ c s) = code c ∷ ascii s
