-- ===== src/Sequencer/Demux.antt =====
-- common/game-sequencer/src/game_specific.rs: `DemuxedSequencer::run`, which sends each sequenced
-- envelope to the listener for its kind.
use judica_vm.Base.{
  ◌≡◌, sym, ap, ◌∙◌, Bool, true, false, ◌||◌, List, [], ◌∷◌, ◌++◌, append-nil, if◌then◌else◌, arith,
}
use judica_vm.Base.Text.{Text}
use judica_vm.Envelope.{Key}
use judica_vm.Messages.{ParticipantAction, move_envelope, custom, psbt_signing_coordination}
use judica_vm.Sequencer.Order.{collect, push_kept, push_kept-keep}
use judica_vm.Sequencer.Extract.{Move, Action, move_in, move_of}

-- Who still listens, and what was sent_to to each, oldest first.
pub record Demux (J P : Type 0) : Type 0 where
  pub listening_moves : Bool
  pub listening_custom : Bool
  pub listening_psbt : Bool
  pub sent_moves : List Move
  pub sent_custom : List J
  pub sent_psbt : List (P × Text)

-- Which of the receivers are still there.
pub record Open : Type 0 where
  pub moves_open : Bool
  pub custom_open : Bool
  pub psbt_open : Bool

-- A send arrives where the receiver is there, and tells whether it is.
abbrev pub sent_to : {A : Type 0} → Bool → A → List A → List A
sent_to true a log = log ++ a ∷ []
sent_to false a log = log

module _ {J P : Type 0} where
  abbrev pub new_demux : Demux J P
  new_demux = record {
    listening_moves = true;
    listening_custom = true;
    listening_psbt = true;
    sent_moves = [];
    sent_custom = [];
    sent_psbt = [];
  }

  unfoldable pub route_action : Open → Key → ParticipantAction J P → Demux J P → Demux J P
  route_action on key (move_envelope m) s =
      if s.listening_moves
      then record s {
        listening_moves = on.moves_open;
        sent_moves = sent_to on.moves_open (m, key) s.sent_moves;
      }
      else s
  route_action on key (custom c) s =
      if s.listening_custom
      then record s {
        listening_custom = on.custom_open;
        sent_custom = sent_to on.custom_open c s.sent_custom;
      }
      else s
  route_action on key (psbt_signing_coordination c) s =
      if s.listening_psbt
      then record s {
        listening_psbt = on.psbt_open;
        sent_psbt = sent_to on.psbt_open (c.data_of, c.channel) s.sent_psbt;
      }
      else s

  unfoldable pub route : Open → Action J P → Demux J P → Demux J P
  unfolding route_action
  route on e s = route_action on e.inner.header.key e.inner.msg s

  unfoldable pub is_listening : Demux J P → Bool
  is_listening s = s.listening_custom || s.listening_moves || s.listening_psbt

  -- The loop over the envelopes, each with the receivers that are there when it comes. It ends when
  -- nobody listens.
  unfoldable pub demux : List (Open × Action J P) → Demux J P → Demux J P
  unfolding route is_listening
  demux [] s = s
  demux ((on, e) ∷ es) s =
      let next = route on e s in
      let rest = demux es next in if is_listening next then rest else next

  -- Envelopes that come while the receiver of moves is there.
  abbrev pub HasOpenMoves : List (Open × Action J P) → Type 0
  HasOpenMoves [] = Unit
  HasOpenMoves ((on, e) ∷ es) = (on.moves_open ≡ true) × HasOpenMoves es

  abbrev pub envelopes : List (Open × Action J P) → List (Action J P)
  envelopes [] = []
  envelopes ((on, e) ∷ es) = e ∷ envelopes es

  route_listens :
      (on : Open) (key : Key) (a : ParticipantAction J P) (s : Demux J P)
      → on.moves_open ≡ true
      → s.listening_moves ≡ true
      → (route_action on key a s).listening_moves ≡ true
  unfolding route_action
  route_listens on key (move_envelope m) s there listens = ground arith
  route_listens on key (custom c) s there listens = ground arith
  route_listens on key (psbt_signing_coordination c) s there listens = ground arith

  route_moves :
      (on : Open) (key : Key) (a : ParticipantAction J P) (s : Demux J P)
      → on.moves_open ≡ true
      → s.listening_moves ≡ true
      → (route_action on key a s).sent_moves ≡ push_kept s.sent_moves (move_in key a)
  unfolding route_action
  route_moves on key (move_envelope m) s there listens = ground arith
  route_moves on key (custom c) s there listens = ground arith
  route_moves on key (psbt_signing_coordination c) s there listens = ground arith

  go_on : (s : Demux J P) → s.listening_moves ≡ true → is_listening s ≡ true
  unfolding is_listening
  go_on s listens = ground arith

  -- While the receiver of moves is there, it gets the moves of all envelopes, in their order, whatever
  -- becomes of the other two receivers.
  pub demux_moves :
      (es : List (Open × Action J P)) (s : Demux J P)
      → HasOpenMoves es
      → s.listening_moves ≡ true
      → (demux es s).sent_moves ≡ s.sent_moves ++ collect move_of (envelopes es)
  unfolding demux route
  demux_moves [] s there listens = sym (append-nil s.sent_moves)
  demux_moves ((on, e) ∷ es) s (now, later) listens =
      let next : Demux J P = route_action on e.inner.header.key e.inner.msg s in
      let goes = route_listens on e.inner.header.key e.inner.msg s now listens in
      ap (λ b. (if b then demux es next else next).sent_moves) (go_on next goes)
      ∙ demux_moves es next later goes
      ∙ ap (λ t. t ++ collect move_of (envelopes es))
          (route_moves on e.inner.header.key e.inner.msg s now listens)
      ∙ push_kept-keep s.sent_moves (move_of e) (collect move_of (envelopes es))
