-- ===== src/Sequencer/Extract.antt =====
-- common/game-sequencer/src/game_specific.rs: the moves among the sequenced envelopes, and the
-- routing of the envelopes by their kind.
use judica_vm.Base.{◌≡◌, refl, subst, ◌↔◌, Option, none, some, List, done}
use judica_vm.Base.Exec.{Exec, Result, ok}
use judica_vm.Envelope.{Key, CanonicalEnvelopeHash, GenericEnvelope, Authenticated}
use judica_vm.Moves.{MoveEnvelope}
use judica_vm.Messages.{ParticipantAction, move_envelope, custom, psbt_signing_coordination}
use judica_vm.Sequencer.{MsgCache, SequenceingError, directly_sequence_map}
use judica_vm.Sequencer.Order.{concat, collect, IsOrdered, total, directly_sequence_map-IsOrdered}

abbrev pub Move : Type 0
Move = MoveEnvelope × Key

abbrev pub Action : Type 0 → Type 0 → Type 0
Action J P = Authenticated (GenericEnvelope (ParticipantAction J P))

module _ {J P : Type 0} where
  unfoldable pub read_action : {E : Type 0} → Key → ParticipantAction J P → Result E (Option Move)
  read_action key (move_envelope me) = ok (some (me, key))
  read_action key (custom _) = ok none
  read_action key (psbt_signing_coordination _) = ok none

  unfoldable pub read_move : {E : Type 0} → Action J P → Result E (Option Move)
  unfolding read_action
  read_move m = read_action m.inner.header.key m.inner.msg

  -- `ExtractedMoveEnvelopes::try_from`, on the sequencer's cache.
  unfoldable pub extract :
      {E : Type 0}
      → List (List CanonicalEnvelopeHash)
      → Exec (MsgCache (ParticipantAction J P)) (Result (SequenceingError E) (List Move))
  unfolding directly_sequence_map read_move
  extract batches = directly_sequence_map read_move batches

  -- The move that an envelope holds.
  abbrev pub move_in : Key → ParticipantAction J P → Option Move
  move_in key (move_envelope me) = some (me, key)
  move_in key (custom _) = none
  move_in key (psbt_signing_coordination _) = none

  abbrev pub move_of : Action J P → Option Move
  move_of m = move_in m.inner.header.key m.inner.msg

  read_action_total :
      {E : Type 0} (key : Key) (a : ParticipantAction J P)
      → ◌≡◌ {A = Result E (Option Move)} (ok (move_in key a)) (read_action key a)
  unfolding read_action
  read_action_total key (move_envelope me) = refl
  read_action_total key (custom _) = refl
  read_action_total key (psbt_signing_coordination _) = refl

  read_move_total : {E : Type 0} → total {E = E} move_of ≡ read_move
  unfolding read_move
  read_move_total = λ i m. read_action_total m.inner.header.key m.inner.msg i

  -- The extraction gives moves, and no error, exactly when the hashes of all batches are different and
  -- all in the cache. They are then the moves among the envelopes of those hashes, in that order,
  -- each with the key that its envelope names.
  pub extract-IsOrdered :
      {E : Type 0} (batches : List (List CanonicalEnvelopeHash))
      (cache : MsgCache (ParticipantAction J P)) (moves : List Move)
      → ((left : MsgCache (ParticipantAction J P)) × (extract {E = E} batches cache
            ≡ done (ok moves, left)))
        ↔ ((es : List (Action J P)) × IsOrdered cache (concat batches) es
            × (moves ≡ collect move_of es))
  unfolding extract
  extract-IsOrdered {E = E} batches cache moves =
      subst
        (λ f.
          ((left : MsgCache (ParticipantAction J P)) × (directly_sequence_map f batches cache
              ≡ done (ok moves, left)))
          ↔ ((es : List (Action J P)) × IsOrdered cache (concat batches) es
              × (moves ≡ collect move_of es)))
        (read_move_total {E = E})
        (directly_sequence_map-IsOrdered {E = E} move_of batches cache moves)
