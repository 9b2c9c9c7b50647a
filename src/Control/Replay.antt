-- ===== src/Control/Replay.antt =====
-- Commands are applied once: what the client does with a message that it has seen.
use rmvpn.Base.{
  ◌≡◌, ◌≢◌, refl, String, Bool, true, false, [], ◌∷◌, ◌++◌, eq_iff, ◌⊎◌, contains, arith, ap, sym,
  ◌∙◌, inl, inr, Bool-cases,
}
use rmvpn.Base.Time.{Time}
use rmvpn.Base.Outcome.{Result, ok, err, is_ok}
use rmvpn.Node.{Reply}
use rmvpn.Exec.{World}
use rmvpn.Control.Messages.{Envelope}
use rmvpn.Control.Handlers.{Client}
use rmvpn.Control.{handle, mark_seen, reply, conclude, receive}

abbrev pub answer_of : String → String → Bool → String → Reply
answer_of kind id accepted code = record {
  kind = kind;
  reply_to = id;
  accepted = accepted;
  code = code;
}

module _ (c : Client) (now : Time) (m : Envelope) (w : World) where
  -- A message with an ID that was seen changes nothing but the replies, to which an "ack" with the
  -- code "duplicate" is added.
  pub receive_duplicate :
      m.message_id ≢ ""
      → contains m.message_id w.held.seen ≡ true
      → (receive c now m w).1 ≡ record w {
        held = record (w.held) {
          sent = w.held.sent ++ answer_of "ack" m.message_id true "duplicate" ∷ [];
        };
      }
  unfolding receive reply
  receive_duplicate n s = ground (arith, eq_iff m.message_id "")

  concluded :
      (r : Result (Unit {0})) (v : World)
      → m.message_id ≢ ""
      → let n = (conclude m.message_id r v).1.held in
        ((r ≡ ok tt)
          × (contains m.message_id n.seen ≡ true)
          × (n.sent ≡ v.held.sent ++ answer_of "ack" m.message_id true "" ∷ []))
        ⊎ ((is_ok r ≡ false)
            × (n.seen ≡ v.held.seen)
            × (n.sent ≡ v.held.sent ++ answer_of "nack" m.message_id false "apply-failed" ∷ []))
  unfolding conclude mark_seen reply
  concluded (ok u) v n = inl (
    refl,
    ground (arith, eq_iff m.message_id "", eq_iff m.message_id m.message_id),
    ground (arith, eq_iff m.message_id ""),
  )
  concluded (err x) v n =
      inr (refl, ground (arith, eq_iff m.message_id ""), ground (arith, eq_iff m.message_id ""))

  -- A message with an ID that was not seen is handled. If that succeeds its ID is seen afterwards
  -- and the answer is an accepting "ack"; if not, the seen IDs are as the handler left them and the
  -- answer is a "nack".
  pub receive_fresh :
      m.message_id ≢ ""
      → contains m.message_id w.held.seen ≡ false
      → let handled = handle c now m.command w in
        let n = (receive c now m w).1.held in
        ((handled.0 ≡ ok tt)
          × (contains m.message_id n.seen ≡ true)
          × (n.sent ≡ handled.1.held.sent ++ answer_of "ack" m.message_id true "" ∷ []))
        ⊎ ((is_ok handled.0 ≡ false)
            × (n.seen ≡ handled.1.held.seen)
            × (n.sent
                ≡ handled.1.held.sent ++ answer_of "nack" m.message_id false "apply-failed" ∷ []))
  unfolding receive
  receive_fresh n s = ground (
    arith,
    eq_iff m.message_id "",
    concluded (handle c now m.command w).0 (handle c now m.command w).1 n,
  )

  remembered :
      m.message_id ≢ ""
      → (handle c now m.command w).0 ≡ ok tt
      → contains m.message_id (receive c now m w).1.held.seen ≡ true
  remembered n h = elim (Bool-cases (contains m.message_id w.held.seen)) [
    | inl e ↦ ap (λ v. contains m.message_id v.held.seen) (receive_duplicate n e) ∙ e
    | inr e ↦ ground (arith, receive_fresh n e)
  ]

module _ (c : Client) (now later : Time) (m again : Envelope) (w v : World) where
  -- A command with an ID whose handling succeeded is applied once: in a later state `v` in which
  -- the ID is still among the seen ones, a message with that ID, whatever it carries, leaves the
  -- store and the users of Xray as they are.
  pub receive_once :
      m.message_id ≢ ""
      → again.message_id ≡ m.message_id
      → (handle c now m.command w).0 ≡ ok tt
      → (contains m.message_id (receive c now m w).1.held.seen ≡ true
          → contains m.message_id v.held.seen ≡ true)
      → ((receive c later again v).1.held.store ≡ v.held.store)
        × ((receive c later again v).1.held.users ≡ v.held.users)
  receive_once n same h kept =
      let e : contains again.message_id v.held.seen ≡ true =
        ap (λ id. contains id v.held.seen) same ∙ kept (remembered c now m w n h) in
      let d = receive_duplicate c later again v (λ z. n (sym same ∙ z)) e in
      (ap (λ x. x.held.store) d, ap (λ x. x.held.users) d)
