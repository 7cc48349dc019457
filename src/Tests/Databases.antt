-- ===== src/Tests/Databases.antt =====
-- The database of messages at work.
use judica_vm.Base.{
  ℕ, zero, suc, ◌+◌, ◌≡◌, refl, ◌↔◌, ◌≢◌, ◌⊎◌, Bool, true, false, Option, none, some, List, [], ◌∷◌,
  ◌++◌, done, arith,
}
use judica_vm.Base.Int.{ℤ, pos}
use judica_vm.Base.Exec.{Result, ok}
use judica_vm.Base.Text.{Text, ascii}
use judica_vm.Envelope.{CanonicalEnvelopeHash, GenericEnvelope}
use judica_vm.Envelope.Canonical.{
  zeros, genesis_hash, stray_ancestors, get_genesis_hash, canonicalized_hash_ref, take,
}
use judica_vm.Tests.Envelopes.{toy, toy-IsScheme, pad, letter, signed_letter, signature_of}
use judica_vm.MsgDb.{
  MessageRow, MsgDb, SqliteFail, query_returned_no_rows, no_messages, by_hash, user_by_key,
  first_where, exists_where, fresh_id, all_where,
}
use judica_vm.MsgDb.Insert.{
  insert_user, try_insert_authenticated_envelope, try_insert_authenticated_envelope_with_txn,
  insert_envelope, insert_row, new_row, passes_checks, message_parents, nonce_is_used,
}
use judica_vm.MsgDb.Connect.{attach_tips}
use judica_vm.MsgDb.Anchored.{IsAnchored}
use judica_vm.MsgDb.Attached.{IsRooted, held, hangs, attach_tips-IsRooted}
use judica_vm.MsgDb.Reached.{
  created, stepped, user_added, envelope_added, tips_attached, IsReachedDb-AllAnchored,
}
use judica_vm.MsgDb.Refusals.{Accepts, try_insert-Accepts}
use judica_vm.MsgDb.Get.{get_tip_for_user_by_key, highest}
use judica_vm.MsgDb.Nonces.{get_secret_for_public_nonce, generate_fresh_nonce_for_user_by_key}
use judica_vm.MsgDb.Create.{
  no_tips, Attempt, wrap_message_in_envelope_for_user_by_key, gather_tips, tip_hashes,
  swap_remove_where,
}
use judica_vm.MsgDb.Continues.{Follows, wrap_message-Follows}

-- A message, its parent that came later, and the genesis.
abbrev row : ℕ → Text → Text → ℤ → Bool → MessageRow Text
row id hash prev height connected = record {
  message_id = id;
  body = letter;
  hash = hash;
  user_id = 1;
  received_time = pos 5;
  prev_msg_id = none;
  genesis_id = none;
  height = height;
  sent_time = pos 4;
  prev_msg = prev;
  genesis = ascii "g";
  nonce = ascii "n";
  connected = connected;
}

abbrev late_rows : List (MessageRow Text)
late_rows =
    row 1 (ascii "g") (zeros 32) (pos 0) true
    ∷ row 2 (ascii "c") (ascii "b") (pos 2) false
    ∷ row 3 (ascii "b") (ascii "g") (pos 1) false
    ∷ row 4 (ascii "x") (ascii "y") (pos 3) false
    ∷ []

abbrev late : MsgDb Text
late = record no_messages { messages = late_rows }

attach_tips-IsRooted_example :
    ((m : MessageRow Text) × (by_hash (ascii "c") (attach_tips late).1.messages ≡ some m)
      × (m.connected ≡ true))
    ↔ (IsRooted late_rows (ascii "c"))
attach_tips-IsRooted_example = attach_tips-IsRooted late (ascii "c")

late-IsRooted : IsRooted late_rows (ascii "c")
unfolding by_hash first_where judica_vm.Base.Order.text_cmp zeros
late-IsRooted = hangs (row 2 (ascii "c") (ascii "b") (pos 2) false) refl (
    hangs (row 3 (ascii "b") (ascii "g") (pos 1) false) refl
      (held (row 1 (ascii "g") (zeros 32) (pos 0) true) refl refl))

-- Two rows are attached, and the one without a parent is not.
late_attached : (attach_tips late).0 ≡ 2
unfolding attach_tips by_hash first_where judica_vm.Base.Order.text_cmp zeros
late_attached = refl

abbrev player : Text
player = pad 32 (ascii "player")

abbrev letter_hash : CanonicalEnvelopeHash
letter_hash = player ++ (ascii "hi" ++ signature_of signed_letter.header)

abbrev known : MsgDb Text
known = record no_messages {
  users = record { user_id = 1; nickname = ascii "al"; key = player } ∷ [];
}

abbrev letter_row : MessageRow Text
letter_row = record {
  message_id = 1;
  body = signed_letter;
  hash = letter_hash;
  user_id = 1;
  received_time = pos 7;
  prev_msg_id = none;
  genesis_id = none;
  height = pos 0;
  sent_time = pos 12_431;
  prev_msg = zeros 32;
  genesis = letter_hash;
  nonce = pad 32 (ascii "nonce");
  connected = true;
}

abbrev posted : MsgDb Text
posted = record known { messages = letter_row ∷ [] }

posts_letter :
    try_insert_authenticated_envelope toy (record { inner = signed_letter }) true (pos 7) known
    ≡ done (ok tt, posted)
unfolding try_insert_authenticated_envelope try_insert_authenticated_envelope_with_txn
    canonicalized_hash_ref get_genesis_hash insert_envelope insert_row new_row passes_checks
    message_parents nonce_is_used user_by_key first_where by_hash fresh_id genesis_hash take pad
    exists_where judica_vm.Base.Order.text_cmp
posts_letter = refl

IsReachedDb-AllAnchored_example : IsAnchored (attach_tips posted).1.messages letter_hash
unfolding by_hash first_where attach_tips insert_user user_by_key fresh_id pad
    judica_vm.Base.Order.text_cmp
IsReachedDb-AllAnchored_example =
    IsReachedDb-AllAnchored toy {db = (attach_tips posted).1}
      (stepped {db = posted}
        (stepped {db = known}
          (stepped {db = no_messages} (created refl) (user_added (ascii "al") player refl))
          (envelope_added (record { inner = signed_letter }) true (pos 7) (ok tt) posts_letter))
        (tips_attached refl))
      letter_hash letter_row refl refl

try_insert-Accepts_example :
    (res : Result SqliteFail Unit) × (db' : MsgDb Text) × (try_insert_authenticated_envelope toy
        (record { inner = signed_letter })
        true
        (pos 7)
        known
      ≡ done (res, db'))
    × ((res ≡ ok tt) ↔ (Accepts signed_letter true letter_hash letter_hash known))
    × (((res ≡ ok tt)
          × (m : MessageRow Text) × (by_hash letter_hash db'.messages ≡ some m)
          × (m.body ≡ signed_letter))
        ⊎ (res ≢ ok tt) × (db' ≡ known))
unfolding stray_ancestors get_genesis_hash canonicalized_hash_ref
try_insert-Accepts_example =
    try_insert-Accepts toy signed_letter true (pos 7) known letter_hash letter_hash
      (signature_of signed_letter.header) refl refl refl refl

-- The letter's next nonce is saved beside its secret.
abbrev promised : MsgDb Text
promised = record posted {
  message_nonces =
      record {
        nonce_id = 1;
        key_id = none;
        private_nonce = ascii "next";
        public_nonce = pad 32 (ascii "next");
      }
      ∷ [];
}

abbrev attempt : Attempt
attempt = record { random = ascii "third"; sent = pos 8; received = pos 9 }

abbrev renewed : MsgDb Text
renewed = record promised {
  message_nonces =
      promised.message_nonces
      ++ record {
        nonce_id = 2;
        key_id = none;
        private_nonce = ascii "third";
        public_nonce = pad 32 (ascii "third");
      }
        ∷ [];
}

wrap_message-Follows_example :
    (e : GenericEnvelope Text) × (wrap_message_in_envelope_for_user_by_key toy
        (λ e. some e)
        query_returned_no_rows
        (ascii "yo")
        (ascii "player")
        []
        attempt
        none
        no_tips
        promised
      ≡ done (ok (ok e), renewed))
    × Follows toy signed_letter e player (pad 32 (ascii "third")) letter_hash letter_hash 0
unfolding gather_tips tip_hashes swap_remove_where get_tip_for_user_by_key canonicalized_hash_ref
    get_genesis_hash get_secret_for_public_nonce generate_fresh_nonce_for_user_by_key first_where
    exists_where highest all_where pad judica_vm.Base.Order.text_cmp
wrap_message-Follows_example =
    wrap_message-Follows toy toy-IsScheme (ascii "yo")
      (λ h. (h.key ++ ascii "yo" ++ signature_of h, refl)) (λ e. some e) query_returned_no_rows
      (ascii "player") [] attempt none no_tips promised renewed [] [] signed_letter letter_hash
      letter_hash 0 (ascii "next") (pad 32 (ascii "third")) refl refl refl refl refl refl
      (omega arith) (refl, tt) refl refl
