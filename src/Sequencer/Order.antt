-- ===== src/Sequencer/Order.antt =====
-- game-sequencer/src/lib.rs: the order of the envelopes that the offline sequencer gives out.
use judica_vm.Base.{
  ◌≡◌, refl, sym, ap, subst, ◌∙◌, ◌≢◌, ◌↔◌, inl, inr, Option, none, some, List, [], ◌∷◌, ◌++◌,
  append_assoc, append-nil, Outcome, done, panic, Outcome-cases, Option-cases,
}
use judica_vm.Base.Exec.{Result, ok, err, pure, modify, continue, ◌>>=◌, and_then}
use judica_vm.Base.Order.{text_ord}
use judica_vm.Base.Hash.{get, without, get-without_self, get-without_ne}
use judica_vm.Envelope.{CanonicalEnvelopeHash, GenericEnvelope, Authenticated}
use judica_vm.Sequencer.{
  MsgCache, SequenceingError, missing_envelope, push_mapped, sequence_found, sequence_one,
  sequence_batch, sequence_batches, directly_sequence_map, directly_sequence,
}

abbrev pub concat : {A : Type 0} → List (List A) → List A
concat [] = []
concat (b ∷ bs) = b ++ concat bs

abbrev pub Absent : CanonicalEnvelopeHash → List CanonicalEnvelopeHash → Type 0
Absent h [] = Unit
Absent h (j ∷ js) = (j ≢ h) × Absent h js

module _ {M : Type 0} where
  -- The envelopes of hashes that are all different and all in the cache.
  pub data IsOrdered (cache : MsgCache M)
      : List CanonicalEnvelopeHash → List (Authenticated (GenericEnvelope M)) → Type 0 where
    no_more : IsOrdered cache [] []
    taken :
        {h : CanonicalEnvelopeHash} {e : Authenticated (GenericEnvelope M)}
        {hs : List CanonicalEnvelopeHash} {es : List (Authenticated (GenericEnvelope M))}
        → get h cache ≡ some e
        → Absent h hs
        → IsOrdered cache hs es
        → IsOrdered cache (h ∷ hs) (e ∷ es)

  taken_out :
      (h j : CanonicalEnvelopeHash) (cache : MsgCache M) {e : Authenticated (GenericEnvelope M)}
      → j ≡ h
      → get j (without h cache) ≢ some e
  taken_out h j cache same found = let gone = get-without_self h cache in cc

  -- A hash that was taken out is not among those that are found in what is left.
  pub IsOrdered-without :
      (h : CanonicalEnvelopeHash) (cache : MsgCache M) (hs : List CanonicalEnvelopeHash)
      (es : List (Authenticated (GenericEnvelope M)))
      → IsOrdered (without h cache) hs es
      → IsOrdered cache hs es × Absent h hs
  IsOrdered-without h cache [] [] no_more = (no_more, tt)
  IsOrdered-without h cache [] (e ∷ es) p = elim p [ ]
  IsOrdered-without h cache (j ∷ js) [] p = elim p [ ]
  IsOrdered-without h cache (j ∷ js) (e ∷ es) (taken found once rest) =
      let (rest', absent) = IsOrdered-without h cache js es rest in
      let other : j ≢ h = λ same. taken_out h j cache same found in
      (taken (sym (get-without_ne h j cache other) ∙ found) once rest', (other, absent))

  pub without-IsOrdered :
      (h : CanonicalEnvelopeHash) (cache : MsgCache M) (hs : List CanonicalEnvelopeHash)
      (es : List (Authenticated (GenericEnvelope M)))
      → IsOrdered cache hs es
      → Absent h hs
      → IsOrdered (without h cache) hs es
  without-IsOrdered h cache [] [] no_more absent = no_more
  without-IsOrdered h cache [] (e ∷ es) p absent = elim p [ ]
  without-IsOrdered h cache (j ∷ js) [] p absent = elim p [ ]
  without-IsOrdered h cache (j ∷ js) (e ∷ es) (taken found once rest) (other, absent) =
      taken (get-without_ne h j cache other ∙ found) once
        (without-IsOrdered h cache js es rest absent)

-- What a map keeps of the envelopes.
abbrev pub keep : {R : Type 0} → Option R → List R → List R
keep none rs = rs
keep (some r) rs = r ∷ rs

abbrev pub collect : {A R : Type 0} → (A → Option R) → List A → List R
collect g [] = []
collect g (a ∷ rest) = keep (g a) (collect g rest)

abbrev pub push_kept : {R : Type 0} → List R → Option R → List R
push_kept v none = v
push_kept v (some r) = v ++ r ∷ []

pub push_kept-keep :
    {R : Type 0} (v : List R) (o : Option R) (rs : List R) → push_kept v o ++ rs ≡ v ++ keep o rs
push_kept-keep v none rs = refl
push_kept-keep v (some r) rs = append_assoc v (r ∷ []) rs

abbrev Answer : Type 0 → Type 0 → Type 0 → Type 0
Answer E A S = Outcome (Result E A × S)

module _ {E A S : Type 0} where
  same_ok : {x y : A} {s t : S} → ◌≡◌ {A = Answer E A S} (done (ok x, s)) (done (ok y, t)) → y ≡ x
  same_ok h = cc

  no_ok :
      {C : Type 0} {y : A} {e : E} {s t : S}
      → ◌≡◌ {A = Answer E A S} (done (err e, s)) (done (ok y, t))
      → C
  no_ok h = cc

module _ {M R E : Type 0} (g : Authenticated (GenericEnvelope M) → Option R) where
  -- A map that cannot fail.
  abbrev pub total : Authenticated (GenericEnvelope M) → Result E (Option R)
  total e = ok (g e)

  sequence_one_missing :
      (h : CanonicalEnvelopeHash) (v : List R) (cache : MsgCache M)
      → get h cache ≡ none
      → sequence_one total h v cache ≡ done (err (missing_envelope h), cache)
  unfolding sequence_one sequence_found pure
  sequence_one_missing h v cache gone = rw (gone) refl

  sequence_one_found :
      (h : CanonicalEnvelopeHash) (v : List R) (cache : MsgCache M)
      (e : Authenticated (GenericEnvelope M))
      → get h cache ≡ some e
      → sequence_one total h v cache ≡ done (ok (push_kept v (g e)), without h cache)
  unfolding sequence_one sequence_found push_mapped pure modify ◌>>=◌
  sequence_one_found h v cache e found = elim (Option-cases (g e)) [
    | inl nothing ↦ rw (found, nothing) refl
    | inr (r, kept) ↦ rw (found, kept) refl
  ]

  batch_next :
      (h : CanonicalEnvelopeHash) (hs : List CanonicalEnvelopeHash) (v : List R)
      (cache : MsgCache M) (e : Authenticated (GenericEnvelope M))
      → get h cache ≡ some e
      → sequence_batch total (h ∷ hs) v cache
        ≡ sequence_batch total hs (push_kept v (g e)) (without h cache)
  unfolding sequence_batch and_then ◌>>=◌
  batch_next h hs v cache e found = rw (sequence_one_found h v cache e found) refl

  batch_stop :
      (h : CanonicalEnvelopeHash) (hs : List CanonicalEnvelopeHash) (v : List R)
      (cache : MsgCache M)
      → get h cache ≡ none
      → sequence_batch total (h ∷ hs) v cache ≡ done (err (missing_envelope h), cache)
  unfolding sequence_batch and_then pure ◌>>=◌
  batch_stop h hs v cache gone = rw (sequence_one_missing h v cache gone) refl

  -- The loop gives out the envelopes of the hashes, in their order, exactly when all of them are
  -- there.
  batch_found :
      (hs : List CanonicalEnvelopeHash) (v : List R) (cache : MsgCache M)
      (es : List (Authenticated (GenericEnvelope M)))
      → IsOrdered cache hs es
      → (left : MsgCache M) × (sequence_batch total hs v cache
          ≡ done (ok (v ++ collect g es), left))
  unfolding sequence_batch pure
  batch_found [] v cache [] no_more = (cache, rw (append-nil v) refl)
  batch_found [] v cache (e ∷ es) p = elim p [ ]
  batch_found (h ∷ hs) v cache [] p = elim p [ ]
  batch_found (h ∷ hs) v cache (e ∷ es) (taken found once rest) =
      let (left, ran) =
        batch_found hs (push_kept v (g e)) (without h cache) es
          (without-IsOrdered h cache hs es rest once) in
      (
        left,
        batch_next h hs v cache e found
            ∙ ran
            ∙ ap (λ w. done (ok w, left)) (push_kept-keep v (g e) (collect g es)),
      )

  batch-IsOrdered :
      (hs : List CanonicalEnvelopeHash) (v w : List R) (cache left : MsgCache M)
      → sequence_batch total hs v cache ≡ done (ok w, left)
      → (es : List (Authenticated (GenericEnvelope M))) × IsOrdered cache hs es
        × (w ≡ v ++ collect g es)
  unfolding sequence_batch pure
  batch-IsOrdered [] v w cache left ran = ([], no_more, same_ok ran ∙ sym (append-nil v))
  batch-IsOrdered (h ∷ hs) v w cache left ran = elim (Option-cases (get h cache)) [
    | inl gone ↦ no_ok (sym (batch_stop h hs v cache gone) ∙ ran)
    | inr (e, found) ↦
        let (es, ordered, is) =
          batch-IsOrdered hs (push_kept v (g e)) w (without h cache) left
            (sym (batch_next h hs v cache e found) ∙ ran) in
        let (ordered', absent) = IsOrdered-without h cache hs es ordered in
        (e ∷ es, taken found absent ordered', is ∙ push_kept-keep v (g e) (collect g es))
  ]

-- Two loops over two batches are one over both.
module _ {M R E : Type 0} (f : Authenticated (GenericEnvelope M) → Result E (Option R)) where
  batch-append :
      (b hs : List CanonicalEnvelopeHash) (v : List R) (cache : MsgCache M)
      → sequence_batch f (b ++ hs) v cache
        ≡ (sequence_batch f b v >>= λ r. and_then r (sequence_batch f hs)) cache
  unfolding sequence_batch and_then pure ◌>>=◌
  batch-append [] hs v cache = refl
  batch-append (h ∷ b) hs v cache = elim (Outcome-cases (sequence_one f h v cache)) [
    | inl stop ↦ rw (stop) refl
    | inr ((err e, left), ran) ↦ rw (ran) refl
    | inr ((ok w, left), ran) ↦ rw (ran) (batch-append b hs w left)
  ]

  same_rest :
      (bs : List (List CanonicalEnvelopeHash))
      → ((v : List R) (cache : MsgCache M)
          → sequence_batches f bs v cache ≡ sequence_batch f (concat bs) v cache)
      → (o : Outcome (Result (SequenceingError E) (List R) × MsgCache M))
      → continue o (λ r. and_then r (sequence_batches f bs))
        ≡ continue o (λ r. and_then r (sequence_batch f (concat bs)))
  unfolding and_then
  same_rest bs same panic = refl
  same_rest bs same (done (err e, left)) = refl
  same_rest bs same (done (ok w, left)) = same w left

  batches-concat :
      (bs : List (List CanonicalEnvelopeHash)) (v : List R) (cache : MsgCache M)
      → sequence_batches f bs v cache ≡ sequence_batch f (concat bs) v cache
  unfolding sequence_batches sequence_batch pure ◌>>=◌
  batches-concat [] v cache = refl
  batches-concat (b ∷ bs) v cache =
      same_rest bs (batches-concat bs) (sequence_batch f b v cache)
      ∙ sym (batch-append b (concat bs) v cache)

module _ {M R E : Type 0} (g : Authenticated (GenericEnvelope M) → Option R)
    (batches : List (List CanonicalEnvelopeHash)) (cache : MsgCache M) where
  in_one :
      directly_sequence_map {E = E} (total g) batches cache
      ≡ sequence_batch (total g) (concat batches) [] cache
  unfolding directly_sequence_map
  in_one = batches-concat (total g) batches [] cache

  -- With a map that cannot fail, the results are what the map keeps of the envelopes.
  pub directly_sequence_map-IsOrdered :
      (w : List R)
      → ((left : MsgCache M) × (directly_sequence_map {E = E} (total g) batches cache
            ≡ done (ok w, left)))
        ↔ ((es : List (Authenticated (GenericEnvelope M))) × IsOrdered cache (concat batches) es
            × (w ≡ collect g es))
  directly_sequence_map-IsOrdered w = (
    λ (left, ran). batch-IsOrdered g (concat batches) [] w cache left (sym in_one ∙ ran),
    λ (es, ordered, is).
        let (left, ran) = batch_found g (concat batches) [] cache es ordered in
        (left, in_one ∙ ran ∙ ap (λ v. done (ok v, left)) (sym is)),
  )

collect-some : {A : Type 0} (xs : List A) → collect some xs ≡ xs
collect-some [] = refl
collect-some (x ∷ xs) = ap (λ t. x ∷ t) (collect-some xs)

-- The offline sequencer gives out envelopes, and no error, exactly when the hashes of all batches are
-- different and all in the cache. The envelopes are then those of the hashes, in the order of the
-- batches and of the hashes in each.
pub directly_sequence-IsOrdered :
    {M : Type 0} (batches : List (List CanonicalEnvelopeHash)) (cache : MsgCache M)
    (es : List (Authenticated (GenericEnvelope M)))
    → ((left : MsgCache M) × (directly_sequence batches cache ≡ done (ok es, left)))
      ↔ IsOrdered cache (concat batches) es
unfolding directly_sequence
directly_sequence-IsOrdered batches cache es =
    let (there, back) = directly_sequence_map-IsOrdered some batches cache es in
    (
      λ p.
          let (es', ordered, is) = there p in
          subst (IsOrdered cache (concat batches)) (sym (is ∙ collect-some es')) ordered,
      λ ordered. back (es, ordered, sym (collect-some es)),
    )
