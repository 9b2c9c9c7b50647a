-- ===== src/Control/Ticks.antt =====
-- internal/control/client.go, the usage events of a tick of the session: those that the store has
-- unsent go out, and the acknowledgement that comes back for them.
use rmvpn.Base.{ℕ, ◌+◌, Bool, not, ◌&&◌, List, [], ◌∷◌, map, keep, is_empty, if◌then◌else◌}
use rmvpn.Base.Int.{pos}
use rmvpn.Base.Time.{Time}
use rmvpn.Node.Tables.{UsageRow}
use rmvpn.Exec.{World, M, pure, ◌>>=◌, ◌>>◌}
use rmvpn.Store.Usage.{UsageEvent, is_unsent, pending_usage}
use rmvpn.Control.Messages.{EventId}
use rmvpn.Control.Handlers.{handle_usage_ack}

-- The batch is empty, it or its acknowledgement is lost, or it is acknowledged event by event.
unfoldable pub tick : (UsageEvent → EventId) → Time → Bool → M (Unit {0})
unfolding pending_usage handle_usage_ack
tick ack now delivered = do
  events ← pending_usage (pos 1_000)
  if not (is_empty events) && delivered then handle_usage_ack now (map ack events) else pure tt

unfoldable pub ticks : (UsageEvent → EventId) → List (Time × Bool) → M (Unit {0})
unfolding tick
ticks ack [] = pure tt
ticks ack ((now, delivered) ∷ rest) = do tick ack now delivered; ticks ack rest

abbrev pub carried : Bool → ℕ
carried delivered = if delivered then 1_000 else 0

-- How many events the acknowledged batches can hold.
unfoldable pub capacity : List (Time × Bool) → ℕ
capacity [] = 0
capacity ((now, delivered) ∷ rest) = carried delivered + capacity rest

abbrev pub unsent : World → List UsageRow
unsent w = keep is_unsent w.held.store.usage_events
