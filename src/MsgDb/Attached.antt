-- ===== src/MsgDb/Attached.antt =====
-- attest-database/src/db_handle/update.rs and sql/update/do_connect.sql: which rows `attach_tips` marks.
use judica_vm.Base.{
  ℕ, zero, suc, ◌≤◌, ◌≡◌, refl, sym, ap, ◌∙◌, subst, ◌↔◌, ◌⊎◌, inl, inr, Bool, true, false, Option,
  none, some, List, [], ◌∷◌, map, length, Bool-cases, arith,
}
use judica_vm.Base.Order.{text_ord}
use judica_vm.Envelope.{CanonicalEnvelopeHash}
use judica_vm.MsgDb.{MessageRow, MsgDb, by_hash}
use judica_vm.MsgDb.Connect.{
  attach, attach_if, generation, generations, do_connect, attach_tips, count_off,
}
use judica_vm.MsgDb.Rows.{through, by_hash-map}
use judica_vm.MsgDb.Anchored.{found_before}

-- A row hangs, by the links to the parents, on a row that is connected.
pub data IsRooted {M : Type 0} (rows : List (MessageRow M)) : CanonicalEnvelopeHash → Type 0 where
  held :
      {h : CanonicalEnvelopeHash} (m : MessageRow M)
      → by_hash h rows ≡ some m
      → m.connected ≡ true
      → IsRooted rows h
  hangs :
      {h : CanonicalEnvelopeHash} (m : MessageRow M)
      → by_hash h rows ≡ some m
      → IsRooted rows m.prev_msg
      → IsRooted rows h

module _ {M : Type 0} where
  -- What `attach` leaves of a row.
  attach_if-hash :
      (on : Bool) (o : Option (MessageRow M)) (m : MessageRow M) → (attach_if on o m).hash ≡ m.hash
  attach_if-hash true o m = refl
  attach_if-hash false none m = refl
  attach_if-hash false (some p) m = ground arith

  attach_if-prev_msg :
      (on : Bool) (o : Option (MessageRow M)) (m : MessageRow M)
      → (attach_if on o m).prev_msg ≡ m.prev_msg
  attach_if-prev_msg true o m = refl
  attach_if-prev_msg false none m = refl
  attach_if-prev_msg false (some p) m = ground arith

  attach_if_on :
      (on : Bool) (o : Option (MessageRow M)) (m : MessageRow M) → on ≡ true → attach_if on o m ≡ m
  attach_if_on true o m h = refl
  attach_if_on false o m h = cc

  attach_if_off :
      (on : Bool) (p m : MessageRow M)
      → p.connected ≡ true
      → m.connected ≡ on
      → (attach_if on (some p) m).connected ≡ true
  attach_if_off true p m p_on e = e
  attach_if_off false p m p_on e = ground arith

  -- A row is on after the step if it was, or if its parent is.
  attach_if_cases :
      (on : Bool) (o : Option (MessageRow M)) (m : MessageRow M)
      → m.connected ≡ on
      → (attach_if on o m).connected ≡ true
      → (m.connected ≡ true) ⊎ (p : MessageRow M) × (o ≡ some p) × (p.connected ≡ true)
  attach_if_cases true o m e h = inl e
  attach_if_cases false none m e h = inl h
  attach_if_cases false (some p) m e h = elim (Bool-cases p.connected) [
    | inl p_on ↦ inr (p, refl, p_on)
    | inr p_off ↦ ground arith
  ]

  -- The step leaves a row, or marks one that was off.
  attach_if_step :
      (on : Bool) (o : Option (MessageRow M)) (m : MessageRow M)
      → m.connected ≡ on
      → (attach_if on o m ≡ m) ⊎ (m.connected ≡ false) × ((attach_if on o m).connected ≡ true)
  attach_if_step true o m e = inl refl
  attach_if_step false none m e = inl refl
  attach_if_step false (some p) m e = elim (Bool-cases p.connected) [
    | inl p_on ↦ inr (e, attach_if_off false p m p_on e)
    | inr p_off ↦ inl (ground arith)
  ]

  module _ (rows : List (MessageRow M)) where
    pub attach-hash : (m : MessageRow M) → (attach rows m).hash ≡ m.hash
    unfolding attach
    attach-hash m = attach_if-hash m.connected (by_hash m.prev_msg rows) m

    pub attach-prev_msg : (m : MessageRow M) → (attach rows m).prev_msg ≡ m.prev_msg
    unfolding attach
    attach-prev_msg m = attach_if-prev_msg m.connected (by_hash m.prev_msg rows) m

    pub attach_on : (m : MessageRow M) → m.connected ≡ true → attach rows m ≡ m
    unfolding attach
    attach_on m h = attach_if_on m.connected (by_hash m.prev_msg rows) m h

    pub attach_cases :
        (m : MessageRow M)
        → (attach rows m).connected ≡ true
        → (m.connected ≡ true)
          ⊎ (p : MessageRow M) × (by_hash m.prev_msg rows ≡ some p) × (p.connected ≡ true)
    unfolding attach
    attach_cases m h = attach_if_cases m.connected (by_hash m.prev_msg rows) m refl h

    attach_step :
        (m : MessageRow M)
        → (attach rows m ≡ m) ⊎ (m.connected ≡ false) × ((attach rows m).connected ≡ true)
    unfolding attach
    attach_step m = attach_if_step m.connected (by_hash m.prev_msg rows) m refl

    attach_parent :
        (m p : MessageRow M)
        → by_hash m.prev_msg rows ≡ some p
        → p.connected ≡ true
        → (attach rows m).connected ≡ true
    unfolding attach
    attach_parent m p at p_on =
        ap (λ o. (attach_if m.connected o m).connected) at ∙ attach_if_off m.connected p m p_on refl

    pub found_generation :
        (h : CanonicalEnvelopeHash) (m : MessageRow M)
        → by_hash h rows ≡ some m
        → by_hash h (generation rows) ≡ some (attach rows m)
    unfolding generation
    found_generation h m at =
        by_hash-map (attach rows) attach-hash h rows ∙ ap (through (attach rows)) at

    pub before_generation :
        (h : CanonicalEnvelopeHash) (m' : MessageRow M)
        → by_hash h (generation rows) ≡ some m'
        → (m : MessageRow M) × (by_hash h rows ≡ some m) × (m' ≡ attach rows m)
    unfolding generation
    before_generation h m' at = found_before (attach rows) attach-hash h rows m' at

    -- What is rooted stays so, and was so before.
    generation-IsRooted :
        {h : CanonicalEnvelopeHash} → IsRooted rows h → IsRooted (generation rows) h
    generation-IsRooted (held m at on) =
        held (attach rows m) (found_generation _ m at) (ap (λ r. r.connected) (attach_on m on) ∙ on)
    generation-IsRooted (hangs m at rest) =
        hangs (attach rows m) (found_generation _ m at)
          (subst (IsRooted (generation rows)) (sym (attach-prev_msg m)) (generation-IsRooted rest))

    parent-IsRooted :
        {h : CanonicalEnvelopeHash} (m : MessageRow M)
        → by_hash h rows ≡ some m
        → (m.connected ≡ true)
          ⊎ (p : MessageRow M) × (by_hash m.prev_msg rows ≡ some p) × (p.connected ≡ true)
        → IsRooted rows h
    parent-IsRooted m at (inl on) = held m at on
    parent-IsRooted m at (inr (p, p_at, p_on)) = hangs m at (held p p_at p_on)

    before-IsRooted : {h : CanonicalEnvelopeHash} → IsRooted (generation rows) h → IsRooted rows h
    before-IsRooted (held m' at' on') =
        let (m, at, e) = before_generation _ m' at' in
        parent-IsRooted m at (attach_cases m (sym (ap (λ r. r.connected) e) ∙ on'))
    before-IsRooted (hangs m' at' rest) =
        let (m, at, e) = before_generation _ m' at' in
        hangs m at (
          subst (IsRooted rows) (ap (λ r. r.prev_msg) e ∙ attach-prev_msg m) (before-IsRooted rest))

    -- In a table that the step leaves alone, what is rooted is connected.
    rooted_on :
        generation rows ≡ rows
        → {h : CanonicalEnvelopeHash} → IsRooted rows h
        → (m : MessageRow M) × (by_hash h rows ≡ some m) × (m.connected ≡ true)
    rooted_on fixed (held m at on) = (m, at, on)
    rooted_on fixed {h} (hangs m at rest) =
        let (p, p_at, p_on) = rooted_on fixed rest in
        let there : by_hash h rows ≡ some (attach rows m) =
          sym (ap (by_hash h) fixed) ∙ found_generation h m at in
        (attach rows m, there, attach_parent m p p_at p_on)

    count_cons :
        (m : MessageRow M) (rest : List (MessageRow M))
        → (attach rows m ≡ m) ⊎ (m.connected ≡ false) × ((attach rows m).connected ≡ true)
        → (map (attach rows) rest ≡ rest)
          ⊎ (suc (count_off (map (attach rows) rest)) ≤ count_off rest)
        → (map (attach rows) (m ∷ rest) ≡ m ∷ rest)
          ⊎ (suc (count_off (map (attach rows) (m ∷ rest))) ≤ count_off (m ∷ rest))
    unfolding count_off
    count_cons m rest (inl same) (inl alike) = inl (λ i. same i ∷ alike i)
    count_cons m rest (inl same) (inr less) =
        let e = ap (λ r. r.connected) same in inr (ground arith)
    count_cons m rest (inr (off, on)) (inl alike) = let e = ap count_off alike in inr (ground arith)
    count_cons m rest (inr (off, on)) (inr less) = inr (ground arith)

    -- Each generation but the last marks a row.
    count_step :
        (rest : List (MessageRow M))
        → (map (attach rows) rest ≡ rest)
          ⊎ (suc (count_off (map (attach rows) rest)) ≤ count_off rest)
    unfolding count_off
    count_step [] = inl refl
    count_step (m ∷ rest) = count_cons m rest (attach_step m) (count_step rest)

  generations_fixed :
      (n : ℕ) (rows : List (MessageRow M)) → generation rows ≡ rows → generations n rows ≡ rows
  unfolding generations
  generations_fixed zero rows fixed = refl
  generations_fixed (suc n) rows fixed = ap (generations n) fixed ∙ generations_fixed n rows fixed

  -- The generations come to an end.
  generations_settle :
      (n : ℕ) (rows : List (MessageRow M))
      → count_off rows ≤ n
      → generation (generations n rows) ≡ generations n rows
  unfolding generations generation
  generations_settle zero rows few = elim (count_step rows rows) [
    | inl fixed ↦ fixed
    | inr less ↦ absurd (omega arith)
  ]
  generations_settle (suc n) rows few = elim (count_step rows rows) [
    | inl fixed ↦
        let still = generations_fixed n rows fixed in
        let at : generations n (generation rows) ≡ rows = ap (generations n) fixed ∙ still in
        ap generation at ∙ fixed ∙ sym at
    | inr less ↦ generations_settle n (generation rows) (omega arith)
  ]

  count_off-le : (rows : List (MessageRow M)) → count_off rows ≤ length rows
  unfolding count_off
  count_off-le [] = omega arith
  count_off-le (m ∷ rows) = ground (arith, count_off-le rows)

  IsRooted-generations :
      (n : ℕ) (rows : List (MessageRow M)) (h : CanonicalEnvelopeHash)
      → (IsRooted (generations n rows) h) ↔ (IsRooted rows h)
  unfolding generations
  IsRooted-generations zero rows h = (λ r. r, λ r. r)
  IsRooted-generations (suc n) rows h =
      let (back, on) = IsRooted-generations n (generation rows) h in
      (λ r. before-IsRooted rows (back r), λ r. on (generation-IsRooted rows r))

  -- After `attach_tips` the row of a hash is there and connected exactly when, before it, the row hung
  -- by the links to the parents, over any number of rows, on a row that was connected.
  pub attach_tips-IsRooted :
      (db : MsgDb M) (h : CanonicalEnvelopeHash)
      → ((m : MessageRow M) × (by_hash h (attach_tips db).1.messages ≡ some m)
          × (m.connected ≡ true))
        ↔ (IsRooted db.messages h)
  unfolding attach_tips do_connect
  attach_tips-IsRooted db h =
      let rows = db.messages in
      let (back, on) = IsRooted-generations (length rows) rows h in
      (
        λ r. let (m, at, m_on) = r in back (held m at m_on),
        λ r.
            rooted_on (generations (length rows) rows)
              (generations_settle (length rows) rows (count_off-le rows)) (on r),
      )
