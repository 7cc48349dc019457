-- ===== src/Tests/Sessions.antt =====
-- A session at concrete inputs: it asks for tips, and is answered.
use judica_vm.Base.{
  ℕ, suc, ◌≡◌, refl, Bool, true, false, Option, none, some, List, [], ◌∷◌, done, length,
}
use judica_vm.Base.Int.{pos}
use judica_vm.Base.Exec.{ok}
use judica_vm.Base.Text.{Text, ascii}
use judica_vm.Session.{
  AttestResponse, latest_tips_response, AttestSocketProtocol, request, latest_tips, ResponseRouter,
  latest_tips_sender, Session, new_session, Internal, ask_latest_tips, handle_response,
}
use judica_vm.Session.Serve.{Database, live, internal, run_turn, IsLive, begun, turned}
use judica_vm.Session.Live.{IsBalanced}
use judica_vm.Session.Books.{IsLive-IsBalanced}
use judica_vm.Session.Answer.{answered_by, handle_response-delivers}
use judica_vm.Session.Cookies.{ServiceUrl}
use judica_vm.Tests.Envelopes.{toy, letter}

-- A database that refuses what it is given and has one message.
abbrev database : Database Text (Unit {0})
database = record {
  try_insert_authenticated_envelope = λ envelope db. (false, db);
  messages_by_hash = λ tips db. some (letter ∷ []);
  get_tips_for_all_users = λ db. some (letter ∷ []);
}

abbrev from_str : Text → Option (AttestSocketProtocol Text)
from_str s = none

abbrev router : ResponseRouter
router = record { code = 0; sender = latest_tips_sender 7 }

abbrev asking : Session Text (Unit {0})
asking = record {
  defecit = pos 1;
  inflight_requests = (1, router) ∷ [];
  seq = 1;
  db = tt;
  sent = request 1 latest_tips ∷ [];
  delivered = [];
}

asked :
    run_turn toy database from_str (internal true (ask_latest_tips 7)) (new_session tt)
    ≡ done (live asking)
unfolding run_turn new_session judica_vm.Base.Map.insert
asked = refl

asking-IsLive : IsLive toy database from_str asking
unfolding judica_vm.Session.Serve.is_enabled new_session
asking-IsLive =
    turned (internal true (ask_latest_tips 7)) (begun (new_session tt) tt refl) refl asked

IsLive-IsBalanced_example : IsBalanced asking
IsLive-IsBalanced_example = IsLive-IsBalanced toy database from_str asking-IsLive

abbrev tips : AttestResponse Text
tips = latest_tips_response (letter ∷ [])

handle_response-delivers_example :
    (handle_response 1 tips asking ≡ done (ok (answered_by 1 tips router asking)))
    × (length asking.inflight_requests
        ≡ suc (length (answered_by 1 tips router asking).inflight_requests))
unfolding judica_vm.Base.Map.lookup judica_vm.Session.response_code_of
handle_response-delivers_example =
    handle_response-delivers toy database from_str asking 1 router tips asking-IsLive refl refl

abbrev me : ServiceUrl
me = (ascii "a.onion", 13_329)

abbrev peer : ServiceUrl
peer = (ascii "b.onion", 13_329)
