-- ===== src/Tests/Sequencing.antt =====
-- The sequencer at concrete inputs.
use judica_vm.Base.{
  false, ℕ, ◌+◌, ◌≤◌, ◌^◌, ◌≡◌, refl, ◌↔◌, none, some, List, [], ◌∷◌, done, length, arith,
}
use judica_vm.Base.Int.{pos}
use judica_vm.Base.Exec.{ok}
use judica_vm.Base.Text.{Text, ascii}
use judica_vm.Envelope.{CanonicalEnvelopeHash, Key, Header, GenericEnvelope, Authenticated}
use judica_vm.Messages.{BroadcastByHost, sequence, heartbeat}
use judica_vm.Sequencer.{
  Broadcast, MsgCache, RawSequencer, OfflineSequencer, try_from_raw, directly_sequence,
}
use judica_vm.Sequencer.Chain.{IsChain, try_from_raw-IsChain}
use judica_vm.Sequencer.Order.{IsOrdered, concat, directly_sequence-IsOrdered}
use judica_vm.Sequencer.Batcher.{
  Batcher, Event, batch_scheduled, envelope_fetched, shut_down, wake, steps, run_batcher, offline,
}
use judica_vm.Sequencer.Batcher.Progress.{IsDone, run_batcher-IsDone, run_batcher-directly_sequence}
use judica_vm.Sequencer.Batcher.InOrder.{IsInOrder, steps-IsInOrder}

abbrev header_at : Text → ℕ → Header
header_at key n = record {
  key = key;
  next_nonce = ascii "next";
  ancestors = none;
  tips = [];
  height = pos n;
  sent_time_ms = pos 0;
  unsigned = record { signature = none };
  checkpoints = [];
}

abbrev one : CanonicalEnvelopeHash
one = 1 ∷ []

abbrev two : CanonicalEnvelopeHash
two = 2 ∷ []

-- A player's envelope that carries its own hash.
abbrev sealed_as : CanonicalEnvelopeHash → Authenticated (GenericEnvelope Text)
sealed_as h = record {
  inner = record { header = header_at (ascii "player") 0; msg = h; cache = some h };
}

abbrev broadcast : ℕ → BroadcastByHost → Authenticated Broadcast
broadcast n what = record {
  inner = record {
    header = header_at (ascii "host") n;
    msg = record { data_of = what; channel = ascii "game" };
    cache = none;
  };
}

abbrev cache : MsgCache Text
cache = (one, sealed_as one) ∷ (two, sealed_as two) ∷ []

abbrev raw : RawSequencer Text
raw = record {
  sequencer_envelopes =
      broadcast 0 (sequence (two ∷ []))
      ∷ broadcast 1 heartbeat
      ∷ broadcast 2 (sequence (one ∷ []))
      ∷ [];
  msg_cache = cache;
}

abbrev batches : List (List CanonicalEnvelopeHash)
batches = (two ∷ []) ∷ (one ∷ []) ∷ []

raw_accepted :
    try_from_raw raw ≡ done (ok (record { batches_to_sequence = batches; msg_cache = cache }))
unfolding try_from_raw judica_vm.Base.Order.text_cmp
raw_accepted = refl

try_from_raw-IsChain_example :
    ((o : OfflineSequencer Text) × (try_from_raw raw ≡ done (ok o)))
    ↔ ((key : Key) × IsChain key 0 raw.sequencer_envelopes)
try_from_raw-IsChain_example = try_from_raw-IsChain raw (omega arith)

abbrev outcome : List (Authenticated (GenericEnvelope Text))
outcome = sealed_as two ∷ sealed_as one ∷ []

sequenced : directly_sequence batches cache ≡ done (ok outcome, [])
unfolding directly_sequence judica_vm.Base.Hash.get judica_vm.Base.Order.text_cmp
    judica_vm.Base.Hash.without
sequenced = refl

directly_sequence-IsOrdered_example :
    ((left : MsgCache Text) × (directly_sequence batches cache ≡ done (ok outcome, left)))
    ↔ IsOrdered cache (concat batches) outcome
directly_sequence-IsOrdered_example = directly_sequence-IsOrdered batches cache outcome

run_batcher-directly_sequence_example : IsDone (run_batcher (offline batches cache)) outcome
run_batcher-directly_sequence_example =
    run_batcher-directly_sequence batches cache [] outcome sequenced

-- A batcher that waits for the second envelope, which has come.
abbrev waiting : Batcher Text
waiting = record {
  batches_to_sequence = (one ∷ []) ∷ [];
  envelope_hashes = two ∷ [];
  msg_cache = cache;
  next_envelopes = [];
  shutdown = false;
  returned = false;
}

outcome_there : IsOrdered cache (two ∷ one ∷ []) outcome
outcome_there = (directly_sequence-IsOrdered batches cache outcome).0 ([], sequenced)

run_batcher-IsDone_example : IsDone (run_batcher waiting) outcome
run_batcher-IsDone_example = run_batcher-IsDone waiting outcome refl refl outcome_there

abbrev IsOwn : CanonicalEnvelopeHash → Authenticated (GenericEnvelope Text) → Type 0
IsOwn h e = e.inner.msg ≡ h

abbrev events : List (Event Text)
events =
    batch_scheduled (two ∷ one ∷ [])
    ∷ wake
    ∷ envelope_fetched one (sealed_as one)
    ∷ wake
    ∷ envelope_fetched two (sealed_as two)
    ∷ wake
    ∷ shut_down
    ∷ []

steps-IsInOrder_example : IsInOrder IsOwn (two ∷ one ∷ []) (steps events (offline [] []))
steps-IsInOrder_example = steps-IsInOrder IsOwn events (refl, (refl, tt))

steps_run : (steps events (offline [] [])).next_envelopes ≡ outcome
unfolding steps offline judica_vm.Base.Hash.get judica_vm.Base.Order.text_cmp
steps_run = refl
