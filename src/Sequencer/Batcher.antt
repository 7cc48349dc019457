-- ===== src/Sequencer/Batcher.antt =====
-- game-sequencer/src/lib.rs: the envelope batcher of a running sequencer, which shares the cache
-- with the task that fetches envelopes from the database, and waits for those that are missing.
pub mod InOrder
pub mod Progress
use judica_vm.Base.{◌≡◌, refl, Bool, true, false, ◌&&◌, Option, none, some, List, [], ◌∷◌, ◌++◌}
use judica_vm.Base.Exec.{Result, ok, err}
use judica_vm.Base.Order.{text_ord}
use judica_vm.Base.Hash.{get, without, put}
use judica_vm.Envelope.{CanonicalEnvelopeHash, GenericEnvelope, Authenticated}
use judica_vm.Sequencer.{MsgCache}

-- The channel of batches, the batch in hand, the cache, what was pushed on, oldest first, the flag
-- for the end of the program, and whether the task has returned. The sequencer holds the other end of
-- the output channel, so a push does not fail.
pub record Batcher (M : Type 0) : Type 0 where
  pub batches_to_sequence : List (List CanonicalEnvelopeHash)
  pub envelope_hashes : List CanonicalEnvelopeHash
  pub msg_cache : MsgCache M
  pub next_envelopes : List (Authenticated (GenericEnvelope M))
  pub shutdown : Bool
  pub returned : Bool

module _ {M : Type 0} where
  abbrev pub push_next :
      CanonicalEnvelopeHash
      → List CanonicalEnvelopeHash
      → Authenticated (GenericEnvelope M)
      → Batcher M
      → Batcher M
  push_next h hs e s = record s {
    envelope_hashes = hs;
    msg_cache = without h s.msg_cache;
    next_envelopes = s.next_envelopes ++ e ∷ [];
  }

  -- `while let Some(envelope) = envelope_hashes.pop_front()`, until one is vacant and is put back.
  unfoldable pub drain : List CanonicalEnvelopeHash → Batcher M → Batcher M
  drain [] s = record s { envelope_hashes = [] }
  drain (h ∷ hs) s = elim (get h s.msg_cache) [
    | none ↦ record s { envelope_hashes = h ∷ hs }
    | some e ↦ drain hs (push_next h hs e s)
  ]

  abbrev pub receive :
      List CanonicalEnvelopeHash → List (List CanonicalEnvelopeHash) → Batcher M → Batcher M
  receive b bs s = record s { batches_to_sequence = bs; envelope_hashes = b }

  -- The task runs until it waits, for an envelope or for a batch.
  abbrev pub resume_with : (Batcher M → Batcher M) → Batcher M → Batcher M
  resume_with next s = elim s.envelope_hashes [ [] ↦ next s | h ∷ hs ↦ s ]

  unfoldable pub run_batches : List (List CanonicalEnvelopeHash) → Batcher M → Batcher M
  unfolding drain
  run_batches [] s = drain s.envelope_hashes s
  run_batches (b ∷ bs) s =
      resume_with (λ t. run_batches bs (receive b bs t)) (drain s.envelope_hashes s)

  -- Whether the task was waiting for an envelope.
  unfoldable pub is_waiting : Batcher M → Bool
  is_waiting s = elim s.envelope_hashes [ [] ↦ false | h ∷ hs ↦ true ]

  -- By whether the task has returned, and whether it is to do so.
  abbrev pub run_as : Bool → Bool → Batcher M → Batcher M
  run_as true over s = s
  run_as false true s = record s { returned = true }
  run_as false false s = run_batches s.batches_to_sequence s

  -- A task that is awoken from its wait for an envelope returns where the program is to end; one that
  -- waits for a batch does not ask.
  unfoldable pub run_batcher : Batcher M → Batcher M
  unfolding run_batches is_waiting
  run_batcher s = run_as s.returned (is_waiting s && s.shutdown) s

  -- `OfflineDBFetcher::new`, under a batcher that has not begun.
  unfoldable pub offline : List (List CanonicalEnvelopeHash) → MsgCache M → Batcher M
  offline batches cache = record {
    batches_to_sequence = batches;
    envelope_hashes = [];
    msg_cache = cache;
    next_envelopes = [];
    shutdown = false;
    returned = false;
  }

-- What happens to a batcher: the host's next batch, an envelope from the database, the end of the
-- program, and a run of the task.
pub data Event (M : Type 0) : Type 0 where
  batch_scheduled : List CanonicalEnvelopeHash → Event M
  envelope_fetched : CanonicalEnvelopeHash → Authenticated (GenericEnvelope M) → Event M
  shut_down wake : Event M

module _ {M : Type 0} where
  unfoldable pub step : Event M → Batcher M → Batcher M
  unfolding run_batcher put
  step (batch_scheduled b) s = record s { batches_to_sequence = s.batches_to_sequence ++ b ∷ [] }
  step (envelope_fetched h e) s = record s { msg_cache = put h e s.msg_cache }
  step shut_down s = record s { shutdown = true }
  step wake s = run_batcher s

  unfoldable pub steps : List (Event M) → Batcher M → Batcher M
  unfolding step
  steps [] s = s
  steps (e ∷ es) s = steps es (step e s)

  -- A found envelope is pushed on, and a missing one stops the loop.
  pub drain_next :
      (h : CanonicalEnvelopeHash) (hs : List CanonicalEnvelopeHash) (s : Batcher M)
      (e : Authenticated (GenericEnvelope M))
      → get h s.msg_cache ≡ some e
      → drain hs (push_next h hs e s) ≡ drain (h ∷ hs) s
  unfolding drain
  drain_next h hs s e found = rw (drain, found) refl

  pub drain_stop :
      (h : CanonicalEnvelopeHash) (hs : List CanonicalEnvelopeHash) (s : Batcher M)
      → get h s.msg_cache ≡ none
      → record s { envelope_hashes = h ∷ hs } ≡ drain (h ∷ hs) s
  unfolding drain
  drain_stop h hs s gone = rw (drain, gone) refl

  pub resume_empty :
      (next : Batcher M → Batcher M) (t : Batcher M)
      → t.envelope_hashes ≡ []
      → next t ≡ resume_with next t
  resume_empty next t h = rw (h) refl

  pub resume_held :
      (h : CanonicalEnvelopeHash) (hs : List CanonicalEnvelopeHash) (next : Batcher M → Batcher M)
      (t : Batcher M)
      → t.envelope_hashes ≡ h ∷ hs
      → t ≡ resume_with next t
  resume_held h hs next t held = rw (held) refl

-- The second task: what the extractor fails on is skipped.
module _ {A R E : Type 0} (extractor : A → Result E R) where
  abbrev pub push_extracted : Result E R → List R → List R
  push_extracted (ok r) rest = r ∷ rest
  push_extracted (err e) rest = rest

  unfoldable pub deserialize : List A → List R
  deserialize [] = []
  deserialize (envelope ∷ rest) = push_extracted (extractor envelope) (deserialize rest)
