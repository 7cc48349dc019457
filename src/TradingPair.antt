-- ===== src/TradingPair.antt =====
-- `TradingPairID` of common/mine-with-friends-board/src/tokens/token_swap.rs, with its text form.
pub mod RoundTrip
use Prim.Native.Nat.{compare, Ordering}
use judica_vm.Base.{ℕ, ◌≡◌, Bool, List, [], ◌∷◌, ◌++◌, Outcome, arith, leb, ◌==◌, if◌then◌else◌}
use judica_vm.Base.Order.{Ord, then_cmp}
use judica_vm.Base.Text.{Text}
use judica_vm.Entity.{ParseIntError, Parsed, parsed, failed, to_hex, try_from}
use judica_vm.Tokens.{TokenPointer}

pub record TradingPairId : Type 0 where
  pub asset_a : TokenPointer
  pub asset_b : TokenPointer

-- The derived `Ord`: the fields in turn.
unfoldable pub pair_cmp : TradingPairId → TradingPairId → Ordering
pair_cmp p q = then_cmp (compare p.asset_a q.asset_a) (compare p.asset_b q.asset_b)

pub pair-eq : (p q : TradingPairId) → pair_cmp p q ≡ Ordering.eq → p ≡ q
unfolding pair_cmp
pair-eq p q h = ground arith

pub pair_refl : (p : TradingPairId) → pair_cmp p p ≡ Ordering.eq
unfolding pair_cmp
pair_refl p = ground arith

pub pair-gt : (p q : TradingPairId) → pair_cmp p q ≡ Ordering.gt → pair_cmp q p ≡ Ordering.lt
unfolding pair_cmp
pair-gt p q h = ground arith

pub pair-lt : (p q : TradingPairId) → pair_cmp p q ≡ Ordering.lt → pair_cmp q p ≡ Ordering.gt
unfolding pair_cmp
pair-lt p q h = ground arith

pub pair_trans :
    (p q r : TradingPairId)
    → pair_cmp p q ≡ Ordering.lt
    → pair_cmp q r ≡ Ordering.lt
    → pair_cmp p r ≡ Ordering.lt
unfolding pair_cmp
pair_trans p q r h k = ground arith

instance abbrev pub trading_pair_ord : Ord TradingPairId
trading_pair_ord = record {
  cmp = pair_cmp;
  cmp-eq = pair-eq;
  cmp_refl = pair_refl;
  cmp-gt = pair-gt;
  cmp-lt = pair-lt;
  cmp_trans = pair_trans;
}

unfoldable pub is_normal : TradingPairId → Bool
is_normal id = leb id.asset_a id.asset_b

unfoldable pub normalize : TradingPairId → TradingPairId
normalize id =
    if leb id.asset_a id.asset_b then id else record { asset_a = id.asset_b; asset_b = id.asset_a }

pub data TradingPairIdParseError : Type 0 where
  wrong_number_of_terms : TradingPairIdParseError
  entity_id_parse_error : ParseIntError → TradingPairIdParseError

pub data ParsedPair : Type 0 where
  pair : TradingPairId → ParsedPair
  bad_pair : TradingPairIdParseError → ParsedPair

-- `str::split(':')`: the terms between the colons.
abbrev pub add_to_first : ℕ → List Text → List Text
add_to_first c [] = (c ∷ []) ∷ []
add_to_first c (t ∷ ts) = (c ∷ t) ∷ ts

unfoldable pub split : Text → List Text
split [] = [] ∷ []
split (c ∷ s) = if c == 58 then [] ∷ split s else add_to_first c (split s)

unfoldable pub both_terms : Parsed → Parsed → ParsedPair
both_terms (failed e) _ = bad_pair (entity_id_parse_error e)
both_terms (parsed a) (failed e) = bad_pair (entity_id_parse_error e)
both_terms (parsed a) (parsed b) = pair (record { asset_a = a; asset_b = b })

unfoldable pub terms : List Text → ParsedPair
unfolding both_terms
terms (a ∷ b ∷ []) = both_terms (try_from a) (try_from b)
terms _ = bad_pair wrong_number_of_terms

-- `TryFrom<String>`
unfoldable pub try_pair_from : Text → ParsedPair
unfolding terms
try_pair_from value = terms (split value)

-- `From<TradingPairID> for String`
unfoldable pub to_text : TradingPairId → Text
to_text s = to_hex s.asset_a ++ 58 ∷ to_hex s.asset_b
