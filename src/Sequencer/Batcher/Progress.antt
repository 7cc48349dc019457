-- ===== src/Sequencer/Batcher/Progress.antt =====
-- game-sequencer/src/lib.rs: what a run of a batcher gives out, against the offline sequencer.
use judica_vm.Base.{
  ◌≡◌, refl, sym, ap, arith, Bool, false, ◌&&◌, subst, ◌∙◌, List, [], ◌∷◌, ◌++◌, append_assoc,
  append-nil, done,
}
use judica_vm.Base.Exec.{ok}
use judica_vm.Base.Order.{text_ord}
use judica_vm.Envelope.{CanonicalEnvelopeHash, GenericEnvelope, Authenticated}
use judica_vm.Sequencer.{MsgCache, directly_sequence}
use judica_vm.Sequencer.Order.{
  concat, IsOrdered, taken, without-IsOrdered, directly_sequence-IsOrdered,
}
use judica_vm.Sequencer.Batcher.{
  Batcher, push_next, drain, drain_next, is_waiting, run_as, resume_empty, receive, run_batches,
  run_batcher, offline,
}

and_false : (b : Bool) → b && false ≡ false
and_false b = ground arith

module _ {M : Type 0} where
  -- What a drained batch leaves: the envelopes of the batch are out, those of the rest are there.
  record IsDrained (s t : Batcher M) (rest : List CanonicalEnvelopeHash)
      (es : List (Authenticated (GenericEnvelope M))) : Type 0 where
    given : List (Authenticated (GenericEnvelope M))
    later : List (Authenticated (GenericEnvelope M))
    split : es ≡ given ++ later
    is_empty : t.envelope_hashes ≡ []
    same_channel : t.batches_to_sequence ≡ s.batches_to_sequence
    pushed : t.next_envelopes ≡ s.next_envelopes ++ given
    ordered : IsOrdered t.msg_cache rest later

  drain-IsDrained :
      (hs rest : List CanonicalEnvelopeHash) (s : Batcher M)
      (es : List (Authenticated (GenericEnvelope M)))
      → IsOrdered s.msg_cache (hs ++ rest) es
      → IsDrained s (drain hs s) rest es
  unfolding drain
  drain-IsDrained [] rest s es ordered = record {
    given = [];
    later = es;
    split = refl;
    is_empty = refl;
    same_channel = refl;
    pushed = sym (append-nil s.next_envelopes);
    ordered = ordered;
  }
  drain-IsDrained (h ∷ hs) rest s [] p = elim p [ ]
  drain-IsDrained (h ∷ hs) rest s (e ∷ es) (taken found once ordered) =
      let d =
        drain-IsDrained hs rest (push_next h hs e s) es
          (without-IsOrdered h s.msg_cache (hs ++ rest) es ordered once) in
      subst (λ t. IsDrained s t rest (e ∷ es)) (drain_next h hs s e found)
        (record {
          given = e ∷ d.given;
          later = d.later;
          split = ap (λ t. e ∷ t) d.split;
          is_empty = d.is_empty;
          same_channel = d.same_channel;
          pushed = d.pushed ∙ append_assoc s.next_envelopes (e ∷ []) d.given;
          ordered = d.ordered;
        })

  -- A batcher that has given out everything waits for the next batch.
  pub record IsDone (t : Batcher M) (es : List (Authenticated (GenericEnvelope M))) : Type 0 where
    pub none_scheduled : t.batches_to_sequence ≡ []
    pub none_waiting : t.envelope_hashes ≡ []
    pub all_out : t.next_envelopes ≡ es

  nothing_left :
      (cache : MsgCache M) (es : List (Authenticated (GenericEnvelope M)))
      → IsOrdered cache [] es
      → es ≡ []
  nothing_left cache [] ordered = refl
  nothing_left cache (e ∷ es) ordered = elim ordered [ ]

  out_all :
      (before given later all : List (Authenticated (GenericEnvelope M)))
      → all ≡ given ++ later
      → (before ++ given) ++ later ≡ before ++ all
  out_all before given later all split =
      append_assoc before given later ∙ ap (λ t. before ++ t) (sym split)

  runs_on :
      (s : Batcher M)
      → s.returned ≡ false
      → s.shutdown ≡ false
      → run_batcher s ≡ run_batches s.batches_to_sequence s
  unfolding run_batcher
  runs_on s here on =
      ap (λ b. run_as b (is_waiting s && s.shutdown) s) here
      ∙ ap (λ b. run_as false b s) (ap (λ b. is_waiting s && b) on ∙ and_false (is_waiting s))

  run_batches-IsDone :
      (bs : List (List CanonicalEnvelopeHash)) (s : Batcher M)
      (es : List (Authenticated (GenericEnvelope M)))
      → s.batches_to_sequence ≡ bs
      → IsOrdered s.msg_cache (s.envelope_hashes ++ concat bs) es
      → IsDone (run_batches bs s) (s.next_envelopes ++ es)
  unfolding run_batches
  run_batches-IsDone [] s es channel ordered =
      let d = drain-IsDrained s.envelope_hashes [] s es ordered in
      record {
        none_scheduled = d.same_channel ∙ channel;
        none_waiting = d.is_empty;
        all_out =
            d.pushed
            ∙ sym (append-nil (s.next_envelopes ++ d.given))
            ∙ ap (λ t. (s.next_envelopes ++ d.given) ++ t) (sym (nothing_left _ d.later d.ordered))
            ∙ out_all s.next_envelopes d.given d.later es d.split;
      }
  run_batches-IsDone (b ∷ bs) s es channel ordered =
      let d = drain-IsDrained s.envelope_hashes (b ++ concat bs) s es ordered in
      let t : Batcher M = drain s.envelope_hashes s in
      let rest = run_batches-IsDone bs (receive b bs t) d.later refl d.ordered in
      let out : t.next_envelopes ++ d.later ≡ s.next_envelopes ++ es =
        ap (λ x. x ++ d.later) d.pushed ∙ out_all s.next_envelopes d.given d.later es d.split in
      subst (λ u. IsDone u (s.next_envelopes ++ es))
        (resume_empty (λ x. run_batches bs (receive b bs x)) t d.is_empty)
        (subst (IsDone (run_batches bs (receive b bs t))) out rest)

  -- Whenever a batcher's task has not returned and the program is not to end, the envelopes of all
  -- hashes that it still has to give out are in the cache, and these hashes are different: its next run
  -- gives out all of them, in their order, behind what it gave out before, and waits with nothing left
  -- to do.
  pub run_batcher-IsDone :
      (s : Batcher M) (es : List (Authenticated (GenericEnvelope M)))
      → s.returned ≡ false
      → s.shutdown ≡ false
      → IsOrdered s.msg_cache (s.envelope_hashes ++ concat s.batches_to_sequence) es
      → IsDone (run_batcher s) (s.next_envelopes ++ es)
  unfolding run_batcher
  run_batcher-IsDone s es here on ordered =
      subst (λ t. IsDone t (s.next_envelopes ++ es)) (sym (runs_on s here on))
        (run_batches-IsDone s.batches_to_sequence s es refl ordered)

  -- Where the offline sequencer gives out envelopes, the task over the same batches and cache gives out
  -- the same ones.
  pub run_batcher-directly_sequence :
      (batches : List (List CanonicalEnvelopeHash)) (cache left : MsgCache M)
      (es : List (Authenticated (GenericEnvelope M)))
      → directly_sequence batches cache ≡ done (ok es, left)
      → IsDone (run_batcher (offline batches cache)) es
  unfolding offline
  run_batcher-directly_sequence batches cache left es ran =
      run_batcher-IsDone (offline batches cache) es refl refl
        ((directly_sequence-IsOrdered batches cache es).0 (left, ran))
