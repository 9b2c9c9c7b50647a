-- ===== src/Control.antt =====
-- internal/control/client.go: the node's end of the control channel. `Handlers` has one function for
-- each type of command; here stand the dispatch and the loop over the messages.
pub mod Messages
pub mod Handlers
pub mod Ticks
pub mod Drain
pub mod Replay
pub mod LeaseUpdates
pub mod Memory
use rmvpn.Base.{
  ℕ, String, Bool, true, false, not, ◌&&◌, Option, none, some, List, [], ◌∷◌, ◌++◌, ◌==◌, contains,
  length, ltb, if◌then◌else◌,
}
use rmvpn.Base.Time.{Time}
use rmvpn.Base.Outcome.{Result, ok, err, unsupported, invalid_encoding}
use rmvpn.Node.{Node, Reply}
use rmvpn.Exec.{M, pure, raise, modify, gets, ◌>>=◌, ◌>>◌}
use Messages.{
  Envelope, Command, device_upsert, quota_lease, device_revoke, session_kick, policy_override,
  compliance_feed, usage_ack, certificate_rotate, drain, update, unknown, malformed,
}
use Handlers.{
  Client, handle_upsert, handle_lease, handle_revoke, handle_kick, handle_override, handle_feed,
  handle_usage_ack, handle_rotate,
}

unfoldable pub handle : Client → Time → Command → M (Unit {0})
unfolding handle_upsert handle_lease handle_revoke handle_kick handle_override handle_feed
    handle_usage_ack handle_rotate
handle c now (device_upsert d) = handle_upsert c d
handle c now (quota_lease l) = handle_lease c now l
handle c now (device_revoke id) = handle_revoke c id
handle c now (session_kick id) = handle_kick c id
handle c now (policy_override o) = handle_override now o
handle c now (compliance_feed f) = handle_feed c now f
handle c now (usage_ack ids) = handle_usage_ack now ids
handle c now (certificate_rotate r) = handle_rotate c now r
handle c now drain = raise unsupported
handle c now update = raise unsupported
handle c now (unknown type) = raise unsupported
handle c now (malformed type) = raise invalid_encoding

-- The map is emptied when it holds more than 2048 IDs, and then the ID is added.
abbrev pub remember : String → List String → List String
remember id seen = if ltb 2048 (length seen) then id ∷ [] else id ∷ seen

unfoldable pub mark_seen : String → M (Unit {0})
mark_seen id = modify (λ n. record n { seen = remember id n.seen })

-- write and writeReply; whether the socket takes the reply is not looked at.
unfoldable pub reply : String → String → Bool → String → M (Unit {0})
reply kind id accepted code = modify (λ n. record n { sent = n.sent ++ answer ∷ [] })
  where
    answer : Reply
    answer = record { kind = kind; reply_to = id; accepted = accepted; code = code }

unfoldable pub conclude : String → Result (Unit {0}) → M (Unit {0})
unfolding reply mark_seen
conclude id (ok _) = if id == "" then pure tt else (do mark_seen id; reply "ack" id true "")
conclude id (err e) =
    if id == "" then reply "error" "" false "" else reply "nack" id false "apply-failed"

-- One round of readLoop over a text message that is an envelope.
unfoldable pub receive : Client → Time → Envelope → M (Unit {0})
unfolding handle reply conclude
receive c now m = do
  seen ← gets (λ n. n.seen)
  if not (m.message_id == "") && contains m.message_id seen
      then reply "ack" m.message_id true "duplicate"
      else (λ w. conclude m.message_id (handle c now m.command w).0 (handle c now m.command w).1)

unfoldable pub receive_all : Client → List (Time × Envelope) → M (Unit {0})
unfolding receive
receive_all c [] = pure tt
receive_all c ((now, m) ∷ rest) = do receive c now m; receive_all c rest
