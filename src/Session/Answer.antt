-- ===== src/Session/Answer.antt =====
-- common/attest/src/attestations/server/protocol.rs: the answers of the peer to requests in
-- flight.
use judica_vm.Base.{
  ℕ, suc, ◌≡◌, refl, ap, ◌∙◌, Option, some, [], ◌∷◌, ◌++◌, done, ◌>>=◌, length, arith,
}
use judica_vm.Base.Int.{pos, sub_one}
use judica_vm.Base.Exec.{ok}
use judica_vm.Base.Order.{nat_ord}
use judica_vm.Base.Map.{lookup, remove}
use judica_vm.Base.Text.{Text}
use judica_vm.Envelope.{Crypto}
use judica_vm.Session.{
  AttestResponse, latest_tips_response, specific_tips_response, post_response, AttestSocketProtocol,
  AnySender, latest_tips_sender, specific_tips_sender, post_sender, ResponseRouter, Session,
  handle_response, route_response, forward, response_code_of,
}
use judica_vm.Session.Serve.{Database, IsLive}
use judica_vm.Session.Live.{sender_code, found-code, length-remove}
use judica_vm.Session.Books.{IsLive-IsBalanced}

abbrev pub channel_of : AnySender → ℕ
channel_of (latest_tips_sender chan) = chan
channel_of (specific_tips_sender chan) = chan
channel_of (post_sender chan) = chan

module _ {M D : Type 0} where
  -- The session after an answer to a request in flight.
  abbrev pub answered_by : ℕ → AttestResponse M → ResponseRouter → Session M D → Session M D
  answered_by seq r k s = record s {
    defecit = pos (length (remove seq s.inflight_requests));
    inflight_requests = remove seq s.inflight_requests;
    delivered = s.delivered ++ (channel_of k.sender, r) ∷ [];
  }

  forward-delivers :
      (sender : AnySender) (r : AttestResponse M) (s : Session M D)
      → response_code_of r ≡ sender_code sender
      → forward sender r s
        ≡ ok (record s { delivered = s.delivered ++ (channel_of sender, r) ∷ [] })
  unfolding forward response_code_of
  forward-delivers (latest_tips_sender chan) (latest_tips_response m) s same = refl
  forward-delivers (latest_tips_sender chan) (specific_tips_response m) s same = ground arith
  forward-delivers (latest_tips_sender chan) (post_response m) s same = ground arith
  forward-delivers (specific_tips_sender chan) (latest_tips_response m) s same = ground arith
  forward-delivers (specific_tips_sender chan) (specific_tips_response m) s same = refl
  forward-delivers (specific_tips_sender chan) (post_response m) s same = ground arith
  forward-delivers (post_sender chan) (latest_tips_response m) s same = ground arith
  forward-delivers (post_sender chan) (specific_tips_response m) s same = ground arith
  forward-delivers (post_sender chan) (post_response m) s same = refl

  routes :
      (k : ResponseRouter) (r : AttestResponse M) (s : Session M D)
      → response_code_of r ≡ k.code
      → route_response (some k) r s ≡ forward k.sender r s
  unfolding route_response
  routes k r s right = ground arith

module _ {M E D : Type 0} (c : Crypto M E) (database : Database M D)
    (from_str : Text → Option (AttestSocketProtocol M)) where
  -- In a session that goes on, an answer of the kind that a request in flight asked for is accepted,
  -- whatever was sent and answered before and in whatever order: it goes to the channel of that
  -- request and to no other, and the request is no longer counted.
  pub handle_response-delivers :
      (s : Session M D) (seq : ℕ) (k : ResponseRouter) (r : AttestResponse M)
      → IsLive c database from_str s
      → lookup seq s.inflight_requests ≡ some k
      → response_code_of r ≡ k.code
      → handle_response seq r s ≡ done (ok (answered_by seq r k s))
        × (length s.inflight_requests ≡ suc (length (answered_by seq r k s).inflight_requests))
  unfolding handle_response sub_one
  handle_response-delivers s seq k r going found right =
      let b = IsLive-IsBalanced c database from_str going in
      let code = found-code s.seq seq k s.inflight_requests b.fits found in
      let fewer = length-remove seq k s.inflight_requests found in
      let lower : sub_one s.defecit ≡ done (pos (length (remove seq s.inflight_requests))) =
        ap sub_one (b.balance ∙ ap pos fewer) in
      let out : Session M D = record s {
        defecit = pos (length (remove seq s.inflight_requests));
        inflight_requests = remove seq s.inflight_requests;
      } in
      (
        ap
              (λ o. o >>= λ defecit. done (
                route_response (lookup seq s.inflight_requests) r (record s {
                  defecit = defecit;
                  inflight_requests = remove seq s.inflight_requests;
                })))
              lower
            ∙ ap (λ o. done (route_response o r out)) found
            ∙ ap done (routes k r out right ∙ forward-delivers k.sender r out (right ∙ code)),
        fewer,
      )
