-- ===== src/Sequencer/Batcher/InOrder.antt =====
-- game-sequencer/src/lib.rs: the order of what a batcher gives out under interleaved events.
use judica_vm.Base.{
  ◌≡◌, refl, sym, ap, subst, ◌∙◌, inl, inr, Bool, true, ◌&&◌, false, some, List, [], ◌∷◌, ◌++◌,
  append_assoc, append-nil, Option-cases,
}
use judica_vm.Base.Order.{text_ord}
use judica_vm.Base.Hash.{get, get-without_le, get-put}
use judica_vm.Envelope.{CanonicalEnvelopeHash, GenericEnvelope, Authenticated}
use judica_vm.Sequencer.Order.{concat}
use judica_vm.Sequencer.Batcher.{
  Batcher, push_next, drain, drain_next, drain_stop, resume_empty, resume_held, receive,
  resume_with, run_batches, run_batcher, offline, Event, batch_scheduled, envelope_fetched,
  shut_down, wake, is_waiting, run_as, step, steps,
}

module _ {M : Type 0} where
  abbrev pub scheduled : List (Event M) → List (List CanonicalEnvelopeHash)
  scheduled [] = []
  scheduled (batch_scheduled b ∷ es) = b ∷ scheduled es
  scheduled (envelope_fetched h e ∷ es) = scheduled es
  scheduled (shut_down ∷ es) = scheduled es
  scheduled (wake ∷ es) = scheduled es

  module _ (P : CanonicalEnvelopeHash → Authenticated (GenericEnvelope M) → Type 0) where
    -- Each envelope that is fetched has the property with its hash.
    abbrev pub Fetches : List (Event M) → Type 0
    Fetches [] = Unit
    Fetches (batch_scheduled b ∷ es) = Fetches es
    Fetches (envelope_fetched h e ∷ es) = P h e × Fetches es
    Fetches (shut_down ∷ es) = Fetches es
    Fetches (wake ∷ es) = Fetches es

    pub data Paired
        : List CanonicalEnvelopeHash → List (Authenticated (GenericEnvelope M)) → Type 0 where
      no_pairs : Paired [] []
      pair :
          {h : CanonicalEnvelopeHash} {e : Authenticated (GenericEnvelope M)}
          {hs : List CanonicalEnvelopeHash} {es : List (Authenticated (GenericEnvelope M))}
          → P h e
          → Paired hs es
          → Paired (h ∷ hs) (e ∷ es)

    Paired-append :
        (hs js : List CanonicalEnvelopeHash) (es ds : List (Authenticated (GenericEnvelope M)))
        → Paired hs es
        → Paired js ds
        → Paired (hs ++ js) (es ++ ds)
    Paired-append [] js [] ds no_pairs q = q
    Paired-append [] js (e ∷ es) ds p q = elim p [ ]
    Paired-append (h ∷ hs) js [] ds p q = elim p [ ]
    Paired-append (h ∷ hs) js (e ∷ es) ds (pair p ps) q = pair p (Paired-append hs js es ds ps q)

    abbrev pending : Batcher M → List CanonicalEnvelopeHash
    pending s = s.envelope_hashes ++ concat s.batches_to_sequence

    -- The hashes given out and those that are pending are those scheduled, in order.
    pub record IsInOrder (all : List CanonicalEnvelopeHash) (s : Batcher M) : Type 0 where
      pub given : List CanonicalEnvelopeHash
      pub split : given ++ (s.envelope_hashes ++ concat s.batches_to_sequence) ≡ all
      pub paired : Paired given s.next_envelopes
      pub cached :
          (h : CanonicalEnvelopeHash) (e : Authenticated (GenericEnvelope M))
          → get h s.msg_cache ≡ some e
          → P h e

    IsInOrder-push :
        (all hs : List CanonicalEnvelopeHash) (h : CanonicalEnvelopeHash)
        (e : Authenticated (GenericEnvelope M)) (s : Batcher M)
        → get h s.msg_cache ≡ some e
        → s.envelope_hashes ≡ h ∷ hs
        → IsInOrder all s
        → IsInOrder all (push_next h hs e s)
    IsInOrder-push all hs h e s found current i = record {
      given = i.given ++ h ∷ [];
      split =
          append_assoc i.given (h ∷ []) (hs ++ concat s.batches_to_sequence)
          ∙ ap (λ t. i.given ++ (t ++ concat s.batches_to_sequence)) (sym current)
          ∙ i.split;
      paired =
          Paired-append i.given (h ∷ []) s.next_envelopes (e ∷ []) i.paired
            (pair (i.cached h e found) no_pairs);
      cached = λ j d there. i.cached j d (get-without_le h j s.msg_cache d there);
    }

    IsInOrder-held :
        (all hs : List CanonicalEnvelopeHash) (s : Batcher M)
        → s.envelope_hashes ≡ hs
        → IsInOrder all s
        → IsInOrder all (record s { envelope_hashes = hs })
    IsInOrder-held all hs s current i = record {
      given = i.given;
      split = ap (λ t. i.given ++ (t ++ concat s.batches_to_sequence)) (sym current) ∙ i.split;
      paired = i.paired;
      cached = i.cached;
    }

    IsInOrder-drain :
        (all hs : List CanonicalEnvelopeHash) (s : Batcher M)
        → s.envelope_hashes ≡ hs
        → IsInOrder all s
        → IsInOrder all (drain hs s)
    unfolding drain
    IsInOrder-drain all [] s current i = IsInOrder-held all [] s current i
    IsInOrder-drain all (h ∷ hs) s current i = elim (Option-cases (get h s.msg_cache)) [
      | inl gone ↦
          subst (IsInOrder all) (drain_stop h hs s gone) (IsInOrder-held all (h ∷ hs) s current i)
      | inr (e, found) ↦ subst (IsInOrder all) (drain_next h hs s e found) (
          IsInOrder-drain all hs (push_next h hs e s) refl
            (IsInOrder-push all hs h e s found current i))
    ]

    drain_channel :
        (hs : List CanonicalEnvelopeHash) (s : Batcher M)
        → (drain hs s).batches_to_sequence ≡ s.batches_to_sequence
    unfolding drain
    drain_channel [] s = refl
    drain_channel (h ∷ hs) s = elim (Option-cases (get h s.msg_cache)) [
      | inl gone ↦ ap (λ t. t.batches_to_sequence) (sym (drain_stop h hs s gone))
      | inr (e, found) ↦
          ap (λ t. t.batches_to_sequence) (sym (drain_next h hs s e found))
          ∙ drain_channel hs (push_next h hs e s)
    ]

    IsInOrder-receive :
        (all b : List CanonicalEnvelopeHash) (bs : List (List CanonicalEnvelopeHash))
        (s : Batcher M)
        → s.batches_to_sequence ≡ b ∷ bs
        → s.envelope_hashes ≡ []
        → IsInOrder all s
        → IsInOrder all (receive b bs s)
    IsInOrder-receive all b bs s channel empty i = record {
      given = i.given;
      split =
          ap (λ t. i.given ++ concat t) (sym channel)
          ∙ ap (λ t. i.given ++ (t ++ concat s.batches_to_sequence)) (sym empty)
          ∙ i.split;
      paired = i.paired;
      cached = i.cached;
    }

    IsInOrder-resume :
        (all : List CanonicalEnvelopeHash) (next : Batcher M → Batcher M) (t : Batcher M)
        (hs : List CanonicalEnvelopeHash)
        → t.envelope_hashes ≡ hs
        → IsInOrder all t
        → (t.envelope_hashes ≡ [] → IsInOrder all (next t))
        → IsInOrder all (resume_with next t)
    IsInOrder-resume all next t [] empty i later =
        subst (IsInOrder all) (resume_empty next t empty) (later empty)
    IsInOrder-resume all next t (h ∷ hs) held i later =
        subst (IsInOrder all) (resume_held h hs next t held) i

    IsInOrder-run_batches :
        (all : List CanonicalEnvelopeHash) (bs : List (List CanonicalEnvelopeHash)) (s : Batcher M)
        → s.batches_to_sequence ≡ bs
        → IsInOrder all s
        → IsInOrder all (run_batches bs s)
    unfolding run_batches
    IsInOrder-run_batches all [] s channel i = IsInOrder-drain all s.envelope_hashes s refl i
    IsInOrder-run_batches all (b ∷ bs) s channel i =
        let t : Batcher M = drain s.envelope_hashes s in
        let drained = IsInOrder-drain all s.envelope_hashes s refl i in
        IsInOrder-resume all (λ x. run_batches bs (receive b bs x)) t t.envelope_hashes refl drained
          (λ empty. IsInOrder-run_batches all bs (receive b bs t) refl (
            IsInOrder-receive all b bs t (drain_channel s.envelope_hashes s ∙ channel) empty
              drained))

    -- Neither flag is spoken of.
    IsInOrder-flags :
        (all : List CanonicalEnvelopeHash) (over gone : Bool) (s : Batcher M)
        → IsInOrder all s
        → IsInOrder all (record s { shutdown = over; returned = gone })
    IsInOrder-flags all over gone s i = record {
      given = i.given;
      split = i.split;
      paired = i.paired;
      cached = i.cached;
    }

    IsInOrder-run_as :
        (all : List CanonicalEnvelopeHash) (gone over : Bool) (s : Batcher M)
        → IsInOrder all s
        → IsInOrder all (run_as gone over s)
    IsInOrder-run_as all true over s i = i
    IsInOrder-run_as all false true s i = IsInOrder-flags all s.shutdown true s i
    IsInOrder-run_as all false false s i = IsInOrder-run_batches all s.batches_to_sequence s refl i

    concat-append :
        (bs : List (List CanonicalEnvelopeHash)) (b : List CanonicalEnvelopeHash)
        → concat (bs ++ b ∷ []) ≡ concat bs ++ b
    concat-append [] b = append-nil b
    concat-append (c ∷ bs) b =
        ap (λ t. c ++ t) (concat-append bs b) ∙ sym (append_assoc c (concat bs) b)

    IsInOrder-schedule :
        (all b : List CanonicalEnvelopeHash) (s : Batcher M)
        → IsInOrder all s
        → IsInOrder (all ++ b) (step (batch_scheduled b) s)
    unfolding step
    IsInOrder-schedule all b s i = record {
      given = i.given;
      split =
          ap (λ t. i.given ++ (s.envelope_hashes ++ t)) (concat-append s.batches_to_sequence b)
          ∙ ap (λ t. i.given ++ t)
              (sym (append_assoc s.envelope_hashes (concat s.batches_to_sequence) b))
          ∙ sym (append_assoc i.given (s.envelope_hashes ++ concat s.batches_to_sequence) b)
          ∙ ap (λ t. t ++ b) i.split;
      paired = i.paired;
      cached = i.cached;
    }

    IsInOrder-fetch :
        (all : List CanonicalEnvelopeHash) (h : CanonicalEnvelopeHash)
        (e : Authenticated (GenericEnvelope M)) (s : Batcher M)
        → P h e
        → IsInOrder all s
        → IsInOrder all (step (envelope_fetched h e) s)
    unfolding step
    IsInOrder-fetch all h e s p i = record {
      given = i.given;
      split = i.split;
      paired = i.paired;
      cached = λ j d found. elim (get-put h j e d s.msg_cache found) [
        | inl (at, new) ↦ rw (at, new) p
        | inr old ↦ i.cached j d old
      ];
    }

    IsInOrder-steps :
        (es : List (Event M)) (all : List CanonicalEnvelopeHash) (s : Batcher M)
        → Fetches es
        → IsInOrder all s
        → IsInOrder (all ++ concat (scheduled es)) (steps es s)
    unfolding steps step run_batcher
    IsInOrder-steps [] all s f i = subst (λ a. IsInOrder a s) (sym (append-nil all)) i
    IsInOrder-steps (batch_scheduled b ∷ es) all s f i =
        subst (λ a. IsInOrder a (steps es (step (batch_scheduled b) s)))
          (append_assoc all b (concat (scheduled es)))
          (IsInOrder-steps es (all ++ b) (step (batch_scheduled b) s) f
            (IsInOrder-schedule all b s i))
    IsInOrder-steps (envelope_fetched h e ∷ es) all s (p, f) i =
        IsInOrder-steps es all (step (envelope_fetched h e) s) f (IsInOrder-fetch all h e s p i)
    IsInOrder-steps (shut_down ∷ es) all s f i =
        IsInOrder-steps es all (step shut_down s) f (IsInOrder-flags all true s.returned s i)
    IsInOrder-steps (wake ∷ es) all s f i =
        IsInOrder-steps es all (run_batcher s) f
          (IsInOrder-run_as all s.returned (is_waiting s && s.shutdown) s i)

  -- However batches are scheduled, envelopes are fetched, the program is ended and the task is run, in
  -- whatever order: the hashes of the envelopes given out, followed by those that are pending, are the
  -- scheduled ones, in their order. A property that each fetched envelope has with its hash, each
  -- envelope given out has with the hash in its place.
  pub steps-IsInOrder :
      (P : CanonicalEnvelopeHash → Authenticated (GenericEnvelope M) → Type 0) (es : List (Event M))
      → Fetches P es
      → IsInOrder P (concat (scheduled es)) (steps es (offline [] []))
  unfolding offline get
  steps-IsInOrder P es f =
      IsInOrder-steps P es [] (offline [] []) f
        (record { given = []; split = refl; paired = no_pairs; cached = λ h e found. cc })
