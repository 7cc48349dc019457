-- ===== src/Sequencer.antt =====
-- common/game-sequencer/src/lib.rs: the offline sequencer, which checks the host's chain of
-- envelopes and puts the players' envelopes in the order that the host gave them.
pub mod Chain
pub mod Order
pub mod Batcher
pub mod Extract
pub mod Demux
use judica_vm.Base.{
  Bool, true, false, not, Option, none, some, List, [], ◌∷◌, ◌++◌, Outcome, done, ◌>>=◌,
  if◌then◌else◌,
}
use judica_vm.Base.Int.{ℤ, is_zero, same_int, add_one}
use judica_vm.Base.Exec
use judica_vm.Base.Exec.{Exec, Result, ok, err, pure, modify, ◌>>◌, and_then}
use judica_vm.Base.Order.{text_ord}
use judica_vm.Base.Hash.{HashMap, same, get, without}
use judica_vm.Envelope.{
  Key, CanonicalEnvelopeHash, GenericEnvelope, Authenticated, AuthenticationError,
}
use judica_vm.Envelope.Canonical.{solemnly_swear_self_authenticated}
use judica_vm.Messages.{BroadcastByHost, game_setup, sequence, new_peer, heartbeat, Channelized}

abbrev pub Broadcast : Type 0
Broadcast = GenericEnvelope (Channelized BroadcastByHost)

abbrev pub MsgCache : Type 0 → Type 0
MsgCache M = HashMap CanonicalEnvelopeHash (Authenticated (GenericEnvelope M))

pub record UnauthenticatedRawSequencer (M : Type 0) : Type 0 where
  pub sequencer_envelopes : List Broadcast
  pub msg_cache : HashMap CanonicalEnvelopeHash (GenericEnvelope M)

pub record RawSequencer (M : Type 0) : Type 0 where
  pub sequencer_envelopes : List (Authenticated Broadcast)
  pub msg_cache : MsgCache M

pub record OfflineSequencer (M : Type 0) : Type 0 where
  pub batches_to_sequence : List (List CanonicalEnvelopeHash)
  pub msg_cache : MsgCache M

pub data SequencerError : Type 0 where
  bad_message_type message_from_wrong_entity missing_tip gap authentication_error : SequencerError

pub data SequenceingError (E : Type 0) : Type 0 where
  mapping_error : E → SequenceingError E
  missing_envelope : CanonicalEnvelopeHash → SequenceingError E

-- `?`
abbrev pub then_try : {E A B : Type 0} → Result E A → (A → Result E B) → Result E B
then_try (ok a) f = f a
then_try (err e) f = err e

-- `collect` of results: the first error, or all the values.
module _ {A E : Type 0} where
  unfoldable pub swear_all :
      List (GenericEnvelope A)
      → Result (AuthenticationError E) (List (Authenticated (GenericEnvelope A)))
  unfolding solemnly_swear_self_authenticated
  swear_all [] = ok []
  swear_all (v ∷ vs) =
      then_try (solemnly_swear_self_authenticated v)
        (λ a. then_try (swear_all vs) (λ rest. ok (a ∷ rest)))

module _ {M E : Type 0} where
  unfoldable pub swear_entries :
      HashMap CanonicalEnvelopeHash (GenericEnvelope M)
      → Result (AuthenticationError E) (MsgCache M)
  unfolding solemnly_swear_self_authenticated
  swear_entries [] = ok []
  swear_entries ((m, e) ∷ entries) =
      then_try (solemnly_swear_self_authenticated e)
        (λ a. then_try (swear_entries entries) (λ rest. ok ((m, a) ∷ rest)))

  unfoldable pub authenticate :
      UnauthenticatedRawSequencer M → Result (AuthenticationError E) (RawSequencer M)
  unfolding swear_all swear_entries
  authenticate value = then_try (swear_all value.sequencer_envelopes) (λ envelopes.
      then_try (swear_entries value.msg_cache)
        (λ cache. ok (record { sequencer_envelopes = envelopes; msg_cache = cache })))

-- `windows(2).any(...)`, which stops at the first pair that passes the test.
unfoldable pub any_window : {A : Type 0} → (A → A → Outcome Bool) → List A → Outcome Bool
any_window test [] = done false
any_window test (x ∷ []) = done false
any_window test (x ∷ y ∷ rest) = do
  found ← test x y
  if found then done true else any_window test (y ∷ rest)

abbrev pub height_of : Authenticated Broadcast → ℤ
height_of e = e.inner.header.height

abbrev pub key_of : Authenticated Broadcast → Key
key_of e = e.inner.header.key

unfoldable pub lacks_tip : List (Authenticated Broadcast) → Bool
lacks_tip [] = false
lacks_tip (v ∷ vs) = not (is_zero (height_of v))

unfoldable pub is_gap : Authenticated Broadcast → Authenticated Broadcast → Outcome Bool
unfolding add_one
is_gap a b = do next ← add_one (height_of a); done (not (same_int next (height_of b)))

unfoldable pub is_other_key : Authenticated Broadcast → Authenticated Broadcast → Outcome Bool
is_other_key a b = done (not (same (key_of a) (key_of b)))

abbrev pub push_batch :
    BroadcastByHost → List (List CanonicalEnvelopeHash) → List (List CanonicalEnvelopeHash)
push_batch (sequence s) batches = s ∷ batches
push_batch (new_peer p) batches = batches
push_batch heartbeat batches = batches
push_batch (game_setup s) batches = batches

unfoldable pub batches_of : List (Authenticated Broadcast) → List (List CanonicalEnvelopeHash)
batches_of [] = []
batches_of (e ∷ es) = push_batch e.inner.msg.data_of (batches_of es)

-- `OfflineSequencer::try_from`
unfoldable pub try_from_raw :
    {M : Type 0} → RawSequencer M → Outcome (Result SequencerError (OfflineSequencer M))
unfolding any_window lacks_tip is_gap is_other_key batches_of
try_from_raw value = do
  let envelopes = value.sequencer_envelopes
  if lacks_tip envelopes then done (err missing_tip) else do
    gapped ← any_window is_gap envelopes
    if gapped then done (err gap) else do
      foreign ← any_window is_other_key envelopes
      if foreign
          then done (err message_from_wrong_entity)
          else done (
              ok (record {
                batches_to_sequence = batches_of envelopes;
                msg_cache = value.msg_cache;
              }))

-- The body of the loops of `directly_sequence_map`, with the results so far, on the cache.
module _ {M R E : Type 0} (f : Authenticated (GenericEnvelope M) → Result E (Option R)) where
  abbrev pub Sequencing : Type 0
  Sequencing = Exec (MsgCache M) (Result (SequenceingError E) (List R))

  unfoldable pub push_mapped : List R → Result E (Option R) → Result (SequenceingError E) (List R)
  push_mapped v (err e) = err (mapping_error e)
  push_mapped v (ok none) = ok v
  push_mapped v (ok (some r)) = ok (v ++ r ∷ [])

  unfoldable pub sequence_found :
      CanonicalEnvelopeHash → List R → Option (Authenticated (GenericEnvelope M)) → Sequencing
  unfolding Exec.◌>>=◌ push_mapped
  sequence_found h v none = pure (err (missing_envelope h))
  sequence_found h v (some e) = modify (without h) >> pure (push_mapped v (f e))

  unfoldable pub sequence_one : CanonicalEnvelopeHash → List R → Sequencing
  unfolding sequence_found
  sequence_one h v cache = sequence_found h v (get h cache) cache

  unfoldable pub sequence_batch : List CanonicalEnvelopeHash → List R → Sequencing
  unfolding Exec.◌>>=◌ and_then sequence_one
  sequence_batch [] v = pure (ok v)
  sequence_batch (h ∷ hs) v = Exec.◌>>=◌ (sequence_one h v) (λ r. and_then r (sequence_batch hs))

  unfoldable pub sequence_batches : List (List CanonicalEnvelopeHash) → List R → Sequencing
  unfolding Exec.◌>>=◌ and_then sequence_batch
  sequence_batches [] v = pure (ok v)
  sequence_batches (b ∷ bs) v =
      Exec.◌>>=◌ (sequence_batch b v) (λ r. and_then r (sequence_batches bs))

  unfoldable pub directly_sequence_map : List (List CanonicalEnvelopeHash) → Sequencing
  unfolding sequence_batches
  directly_sequence_map batches = sequence_batches batches []

-- `directly_sequence`, whose map cannot fail: the error type `Void` has no values.
pub data Void : Type 0 where

unfoldable pub directly_sequence :
    {M : Type 0}
    → List (List CanonicalEnvelopeHash)
    → Exec (MsgCache M) (Result (SequenceingError Void) (List (Authenticated (GenericEnvelope M))))
unfolding directly_sequence_map
directly_sequence batches = directly_sequence_map (λ a. ok (some a)) batches
