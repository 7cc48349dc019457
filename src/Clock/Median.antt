-- ===== src/Clock/Median.antt =====
-- `update_current_time` of common/mine-with-friends-board/src/game/mod.rs: what its median is among
-- the players' times, in whatever order these come.
use judica_vm.Base.{
  ℕ, zero, suc, ◌+◌, ◌-◌, ◌*◌, ◌/◌, ◌%◌, ◌≤◌, ◌<◌, ◌≡◌, ◌≢◌, refl, arith, ◌==◌, true, false, some,
  List, [], ◌∷◌, done, add, sub, leb, ltb, if◌then◌else◌, length, get_elem?, Bool-cases, inl, inr,
  leb→le, leb→lt, same_value,
}
use judica_vm.Base.Sort.{sort, insert_sorted}
use judica_vm.Clock.{median}

abbrev pub count_below : ℕ → List ℕ → ℕ
count_below m [] = 0
count_below m (x ∷ xs) = let rest = count_below m xs in if ltb x m then suc rest else rest

abbrev pub count_above : ℕ → List ℕ → ℕ
count_above m [] = 0
count_above m (x ∷ xs) = let rest = count_above m xs in if ltb m x then suc rest else rest

-- No more than half of the times are before it, and no more than half after it.
abbrev pub IsMedian : List ℕ → ℕ → Type 0
IsMedian xs m = (2 * count_below m xs ≤ length xs) × (2 * count_above m xs ≤ length xs)

abbrev AtLeast : ℕ → List ℕ → Type 0
AtLeast a [] = Unit
AtLeast a (x ∷ xs) = (a ≤ x) × AtLeast a xs

abbrev IsSorted : List ℕ → Type 0
IsSorted [] = Unit
IsSorted (x ∷ xs) = AtLeast x xs × IsSorted xs

AtLeast-le : (a b : ℕ) (xs : List ℕ) → a ≤ b → AtLeast b xs → AtLeast a xs
AtLeast-le a b [] le all = tt
AtLeast-le a b (x ∷ xs) le (at, all) = (omega arith, AtLeast-le a b xs le all)

AtLeast-insert_sorted :
    (a x : ℕ) (xs : List ℕ) → a ≤ x → AtLeast a xs → AtLeast a (insert_sorted leb x xs)
unfolding insert_sorted
AtLeast-insert_sorted a x [] le all = (le, tt)
AtLeast-insert_sorted a x (y ∷ ys) le (at, all) = elim (Bool-cases (leb x y)) [
  | inl low ↦ rw (low) (le, (at, all))
  | inr high ↦ rw (high) (at, AtLeast-insert_sorted a x ys le all)
]

insert_sorted-IsSorted : (x : ℕ) (xs : List ℕ) → IsSorted xs → IsSorted (insert_sorted leb x xs)
unfolding insert_sorted
insert_sorted-IsSorted x [] sorted = (tt, tt)
insert_sorted-IsSorted x (y ∷ ys) (all, sorted) = elim (Bool-cases (leb x y)) [
  | inl low ↦ let le = leb→le x y low in rw (low) ((le, AtLeast-le x y ys le all), (all, sorted))
  | inr high ↦
      let lt = leb→lt x y high in
      rw (high) (AtLeast-insert_sorted y x ys (omega arith) all, insert_sorted-IsSorted x ys sorted)
]

sort-IsSorted : (xs : List ℕ) → IsSorted (sort leb xs)
unfolding sort
sort-IsSorted [] = tt
sort-IsSorted (x ∷ xs) = insert_sorted-IsSorted x (sort leb xs) (sort-IsSorted xs)

-- Sorting counts the same.
same_counts :
    (m x : ℕ) (xs : List ℕ)
    → (count_below m (insert_sorted leb x xs) ≡ count_below m (x ∷ xs))
      × (count_above m (insert_sorted leb x xs) ≡ count_above m (x ∷ xs))
      × (length (insert_sorted leb x xs) ≡ suc (length xs))
unfolding insert_sorted
same_counts m x [] = (refl, refl, refl)
same_counts m x (y ∷ ys) = let rest = same_counts m x ys in ground arith

counts-sort :
    (m : ℕ) (xs : List ℕ)
    → (count_below m (sort leb xs) ≡ count_below m xs)
      × (count_above m (sort leb xs) ≡ count_above m xs)
      × (length (sort leb xs) ≡ length xs)
unfolding sort
counts-sort m [] = (refl, refl, refl)
counts-sort m (x ∷ xs) =
    let rest = counts-sort m xs in let now = same_counts m x (sort leb xs) in ground arith

none_below : (m : ℕ) (xs : List ℕ) → AtLeast m xs → count_below m xs ≡ 0
none_below m [] all = refl
none_below m (x ∷ xs) (at, all) = let rest = none_below m xs all in ground arith

count_above_le : (m : ℕ) (xs : List ℕ) → count_above m xs ≤ length xs
count_above_le m [] = omega arith
count_above_le m (x ∷ xs) = let rest = count_above_le m xs in ground arith

get_elem-AtLeast : (a v i : ℕ) (xs : List ℕ) → AtLeast a xs → get_elem? xs i ≡ some v → a ≤ v
get_elem-AtLeast a v i [] all at = cc
get_elem-AtLeast a v zero (x ∷ xs) (le, all) at = let e : x ≡ v = cc in omega arith
get_elem-AtLeast a v (suc i) (x ∷ xs) (le, all) at = get_elem-AtLeast a v i xs all at

few_below :
    (m v i : ℕ) (xs : List ℕ) → IsSorted xs → get_elem? xs i ≡ some v → m ≤ v → count_below m xs ≤ i
few_below m v i [] sorted at le = omega arith
few_below m v zero (x ∷ xs) (all, sorted) at le =
    let e : x ≡ v = cc in
    let rest = none_below m xs (AtLeast-le m x xs (omega arith) all) in ground arith
few_below m v (suc i) (x ∷ xs) (all, sorted) at le =
    let rest = few_below m v i xs sorted at le in ground arith

few_above :
    (m v i : ℕ) (xs : List ℕ)
    → IsSorted xs
    → get_elem? xs i ≡ some v
    → v ≤ m
    → count_above m xs + i + 1 ≤ length xs
few_above m v i [] sorted at le = cc
few_above m v zero (x ∷ xs) (all, sorted) at le =
    let e : x ≡ v = cc in let rest = count_above_le m xs in ground arith
few_above m v (suc i) (x ∷ xs) (all, sorted) at le =
    let low = get_elem-AtLeast x v i xs all at in
    let rest = few_above m v i xs sorted at le in ground arith

next_le :
    (u v i : ℕ) (xs : List ℕ)
    → IsSorted xs
    → get_elem? xs i ≡ some u
    → get_elem? xs (suc i) ≡ some v
    → u ≤ v
next_le u v i [] sorted at after = cc
next_le u v zero (x ∷ xs) (all, sorted) at after =
    let e : x ≡ u = cc in let le = get_elem-AtLeast x v 0 xs all after in omega arith
next_le u v (suc i) (x ∷ xs) (all, sorted) at after = next_le u v i xs sorted at after

get_elem-of_lt : (i : ℕ) (xs : List ℕ) → i < length xs → (v : ℕ) × (get_elem? xs i ≡ some v)
get_elem-of_lt i [] lt = absurd (omega arith)
get_elem-of_lt zero (x ∷ xs) lt = (x, refl)
get_elem-of_lt (suc i) (x ∷ xs) lt = get_elem-of_lt i xs (omega arith)

odd_median :
    (v : ℕ) (xs : List ℕ)
    → (length xs % 2 == 0) ≡ false
    → get_elem? xs (length xs / 2) ≡ some v
    → median xs ≡ done v
unfolding median
odd_median v xs odd at = rw (odd, at) refl

even_median :
    (m u v : ℕ) (xs : List ℕ)
    → (length xs % 2 == 0) ≡ true
    → get_elem? xs (length xs / 2 - 1) ≡ some u
    → get_elem? xs (length xs / 2) ≡ some v
    → median xs ≡ done m
    → m ≡ (u + v) / 2
unfolding median add sub
even_median m u v xs even before at ran = ground arith

empty_median : (m : ℕ) (xs : List ℕ) → length xs ≡ 0 → median xs ≢ done m
unfolding median sub
empty_median m [] none_there = λ ran. cc
empty_median m (x ∷ xs) some_there = absurd (omega arith)

-- Of times in order.
median-IsMedian : (m : ℕ) (xs : List ℕ) → IsSorted xs → median xs ≡ done m → IsMedian xs m
median-IsMedian m xs sorted ran = elim (Bool-cases (length xs % 2 == 0)) [
  | inr odd ↦
      let parity : length xs % 2 ≡ 1 = ground arith in
      let (v, at) = get_elem-of_lt (length xs / 2) xs (omega arith) in
      let e : m ≡ v = same_value (median xs) v m (odd_median v xs odd at) ran in
      let below = few_below m v (length xs / 2) xs sorted at (omega arith) in
      let above = few_above m v (length xs / 2) xs sorted at (omega arith) in
      (omega arith, omega arith)
  | inl even ↦ elim (Bool-cases (length xs == 0)) [
    | inl empty ↦ let nil : length xs ≡ 0 = ground arith in absurd (empty_median m xs nil ran)
    | inr more ↦
        let parity : length xs % 2 ≡ 0 = ground arith in
        let many : length xs ≢ 0 = ground arith in
        let k = length xs / 2 - 1 in
        let step : suc k ≡ length xs / 2 = omega arith in
        let (u, before) = get_elem-of_lt k xs (omega arith) in
        let (v, at) = get_elem-of_lt (length xs / 2) xs (omega arith) in
        let le = next_le u v k xs sorted before (rw (step) at) in
        let e = even_median m u v xs even before at ran in
        let below = few_below m v (length xs / 2) xs sorted at (omega arith) in
        let above = few_above m u k xs sorted before (omega arith) in (omega arith, omega arith)
  ]
]

-- Of the times as they come.
pub median-sort-IsMedian : (m : ℕ) (xs : List ℕ) → median (sort leb xs) ≡ done m → IsMedian xs m
median-sort-IsMedian m xs ran =
    let found = median-IsMedian m (sort leb xs) (sort-IsSorted xs) ran in
    let same = counts-sort m xs in (omega arith, omega arith)
