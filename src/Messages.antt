-- ===== src/Messages.antt =====
-- What the envelopes carry: common/game-host-messages/src/lib.rs and
-- common/game-player-messages/src/lib.rs.
use judica_vm.Base.{ℕ, Bool, true, false, List}
use judica_vm.Base.Text.{Text}
use judica_vm.Envelope.{CanonicalEnvelopeHash}
use judica_vm.Moves.{GameMove, MoveEnvelope}
use judica_vm.Setup.{GameSetup}

pub record Peer : Type 0 where
  pub service_url : Text
  pub port : ℕ

pub data BroadcastByHost : Type 0 where
  game_setup : GameSetup → BroadcastByHost
  sequence : List CanonicalEnvelopeHash → BroadcastByHost
  new_peer : Peer → BroadcastByHost
  heartbeat : BroadcastByHost

unfoldable pub is_sequence : BroadcastByHost → Bool
is_sequence (sequence s) = true
is_sequence (game_setup s) = false
is_sequence (new_peer p) = false
is_sequence heartbeat = false

pub record Channelized (T : Type 0) : Type 0 where
  pub data_of : T
  pub channel : Text

pub record Multiplexed (T : Type 0) : Type 0 where
  pub data_of : T
  pub channel : Text

-- `J` and `P` are the libraries' canonical JSON values and partially signed transactions.
pub data ParticipantAction (J P : Type 0) : Type 0 where
  move_envelope : MoveEnvelope → ParticipantAction J P
  custom : J → ParticipantAction J P
  psbt_signing_coordination : Multiplexed P → ParticipantAction J P

-- `ParticipantAction::new`
unfoldable pub new_action : {J P : Type 0} → GameMove → ℕ → ℕ → ParticipantAction J P
new_action d place time_millis =
    move_envelope (record { d = d; sequence = place; time_millis = time_millis })
