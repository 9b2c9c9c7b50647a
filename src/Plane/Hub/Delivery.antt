-- ===== src/Plane/Hub/Delivery.antt =====
-- internal/controlplane/nodehub.go, `deliver`: queued commands are written to a node's connection
-- until the node answers, at growing intervals.
use rmvpn.Base.{
  ℕ, ◌+◌, ◌*◌, ◌^◌, String, Bool, ◌&&◌, List, [], ◌∷◌, ◌==◌, keep, take, change, sort_by, eqb, leb,
  ltb, if◌then◌else◌,
}
use rmvpn.Base.Time.{Time, second, minute}
use rmvpn.Plane.Tables.{Plane, CommandRow, delivered, overdue, command_sent}
use rmvpn.Plane.Queue.{is_open}
use rmvpn.Plane.Hub.Intake.{write}
use rmvpn.Exec.{Method, pure, attempt, select, update, ◌>>=◌, ◌>>◌}

-- commandDeliveryTimeout
unfoldable pub command_delivery_timeout : String → ℕ
command_delivery_timeout kind = if kind == "compliance.feed" then 2 * minute else 10 * second

abbrev pub at_most : ℕ → ℕ → ℕ
at_most a b = if leb a b then a else b

-- LEAST(interval '5 minutes',interval '2 seconds'*(2^LEAST(attempts,7)))
unfoldable pub backoff : ℕ → ℕ
backoff attempts = at_most (5 * minute) (2 * second * 2 ^ at_most attempts 7)

-- status IN ('pending','sent') AND not_before<=now() AND expires_at>now()
abbrev pub is_due : Time → String → CommandRow → Bool
is_due now node c =
    c.node_id == node && is_open c.status && leb c.not_before now && ltb now c.expires_at

abbrev pub created_le : CommandRow → CommandRow → Bool
created_le a b = leb a.created_at b.created_at

unfoldable pub due_commands : Time → String → Plane → List CommandRow
unfolding sort_by
due_commands now node p = take 50 (sort_by created_le (keep (is_due now node) p.node_commands))

abbrev pub has_command : ℕ → CommandRow → Bool
has_command id c = eqb c.id id

abbrev pub sent_again : Time → CommandRow → CommandRow
sent_again now c = record c {
  status = delivered;
  attempts = c.attempts + 1;
  not_before = now + backoff c.attempts;
}

abbrev pub mark_sent : Time → ℕ → Plane → Plane
mark_sent now id p = record p {
  node_commands = change (has_command id) (sent_again now) p.node_commands;
}

abbrev pub is_late : Time → String → CommandRow → Bool
is_late now node c = c.node_id == node && is_open c.status && leb c.expires_at now

abbrev pub lapse : CommandRow → CommandRow
lapse c = record c { status = overdue }

abbrev pub expire_commands : Time → String → Plane → Plane
expire_commands now node p = record p {
  node_commands = change (is_late now node) lapse p.node_commands;
}

-- The loop over the rows: a failed write ends it, a failed UPDATE does not.
unfoldable pub deliver_all : Time → String → List CommandRow → Method Plane (Unit {0})
unfolding write update backoff
deliver_all now node [] = pure tt
deliver_all now node (c ∷ cs) = do
  write node (command_sent c.id c.order)
  attempt (update (mark_sent now c.id))
  deliver_all now node cs

unfoldable pub deliver : Time → String → Method Plane (Unit {0})
unfolding select deliver_all update due_commands
deliver now node = do
  due ← select (due_commands now node)
  deliver_all now node due
  attempt (update (expire_commands now node))
  pure tt
