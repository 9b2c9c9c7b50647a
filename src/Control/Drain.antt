-- ===== src/Control/Drain.antt =====
-- The ticks of a session of internal/control/client.go bring every usage event to the controller.
use rmvpn.Base.{
  ℕ, zero, suc, ◌+◌, ◌≤◌, ◌≡◌, refl, Bool, true, false, not, ◌&&◌, List, [], ◌∷◌, ◌++◌, map, keep,
  take, length, sort_by, insert_by, is_empty, if◌then◌else◌, arith, ap, sym, subst, ◌∙◌, ltb, ◌⊎◌,
  inl, inr, length-take-le,
}
use rmvpn.Base.Int.{ℤ, pos}
use rmvpn.Base.Time.{Time}
use rmvpn.Base.Outcome.{Result, ok}
use rmvpn.Node.Tables.{UsageRow}
use rmvpn.Node.{Node}
use rmvpn.Exec.{World, pure, call, query, exec}
use rmvpn.Store.Usage.{UsageEvent, scan_event, row_le, acked, pending_usage, mark_usage_sent}
use rmvpn.Store.Outbox.{unsent-mark_usage_sent}
use rmvpn.Control.Messages.{EventId}
use rmvpn.Control.Handlers.{event_ids, handle_usage_ack}
use rmvpn.Control.Ticks.{tick, ticks, carried, capacity, unsent}

module _ (q : UsageRow → Bool) where
  length-keep-insert :
      (x : UsageRow) (ys : List UsageRow)
      → length (keep q (insert_by row_le x ys)) ≡ length (keep q (x ∷ ys))
  unfolding insert_by
  length-keep-insert x [] = refl
  length-keep-insert x (y ∷ ys) = ground (arith, length-keep-insert x ys)

  length-keep-sort : (xs : List UsageRow) → length (keep q (sort_by row_le xs)) ≡ length (keep q xs)
  unfolding sort_by
  length-keep-sort [] = refl
  length-keep-sort (x ∷ xs) =
      ground (arith, length-keep-insert x (sort_by row_le xs), length-keep-sort xs)

  length-keep-le : (xs : List UsageRow) → length (keep q xs) ≤ length xs
  length-keep-le [] = omega arith
  length-keep-le (x ∷ xs) = ground (arith, length-keep-le xs)

  length-keep-take :
      (n k : ℕ) (xs : List UsageRow)
      → length xs ≤ n + k
      → length (keep q xs) ≤ length (keep q (take n xs)) + k
  length-keep-take zero k xs h = omega (arith, length-keep-le xs, h)
  length-keep-take (suc n) k [] h = omega arith
  length-keep-take (suc n) k (x ∷ xs) h = ground (arith, length-keep-take n k xs (omega (arith, h)))

abbrev id_of : UsageRow → ℤ
id_of row = pos row.id

acked_in : (before after : List ℤ) (row : UsageRow) → acked (before ++ id_of row ∷ after) row ≡ true
acked_in [] after row = ground (arith)
acked_in (x ∷ before) after row = ground (arith, acked_in before after row)

append_assoc : (xs : List ℤ) (x : ℤ) (ys : List ℤ) → (xs ++ x ∷ []) ++ ys ≡ xs ++ x ∷ ys
append_assoc [] x ys = refl
append_assoc (z ∷ xs) x ys = ap (z ∷◌) (append_assoc xs x ys)

-- Nothing that an acknowledgement names remains.
keep-named :
    (before : List ℤ) (rows : List UsageRow)
    → keep (λ row. not (acked (before ++ map id_of rows) row)) rows ≡ []
keep-named before [] = refl
keep-named before (row ∷ rows) =
    let rest =
      subst (λ ids. keep (λ r. not (acked ids r)) rows ≡ [])
        (append_assoc before (id_of row) (map id_of rows))
        (keep-named (before ++ id_of row ∷ []) rows) in
    ground (arith, acked_in before (map id_of rows) row, rest)

length-insert :
    (x : UsageRow) (ys : List UsageRow) → length (insert_by row_le x ys) ≡ suc (length ys)
unfolding insert_by
length-insert x [] = refl
length-insert x (y ∷ ys) = ground (arith, length-insert x ys)

length-sort : (xs : List UsageRow) → length (sort_by row_le xs) ≡ length xs
unfolding sort_by
length-sort [] = refl
length-sort (x ∷ xs) = ground (arith, length-insert x (sort_by row_le xs), length-sort xs)

-- An acknowledgement of the first page.
length-keep-page :
    (k : ℕ) (rows : List UsageRow)
    → length rows ≤ 1_000 + k
    → let ids = map id_of (take 1_000 (sort_by row_le rows)) in
      length (keep (λ row. not (acked ids row)) rows) ≤ k
length-keep-page k rows h =
    let page = take 1_000 (sort_by row_le rows) in
    let q : UsageRow → Bool = λ row. not (acked (map id_of page) row) in
    let all : length (sort_by row_le rows) ≡ length rows = length-sort rows in
    let few = length-keep-take q 1_000 k (sort_by row_le rows) (omega (arith, all, h)) in
    let none_left = ap length (keep-named [] page) in
    omega (arith, length-keep-sort q rows, few, none_left)

module _ (ack : UsageEvent → EventId)
    (read_back : (e : UsageEvent) (rest : List EventId)
      → event_ids (ack e ∷ rest) ≡ e.id ∷ event_ids rest) where
  event_ids-acks :
      (rows : List UsageRow) → event_ids (map ack (map scan_event rows)) ≡ map id_of rows
  unfolding event_ids
  event_ids-acks [] = refl
  event_ids-acks (row ∷ rows) =
      read_back (scan_event row) _ ∙ ap (id_of row ∷◌) (event_ids-acks rows)

  length-acks : (rows : List UsageRow) → length (map ack (map scan_event rows)) ≡ length rows
  length-acks [] = refl
  length-acks (row ∷ rows) = ap suc (length-acks rows)

  -- What a tick leaves of the unsent events.
  record IsTicked (before : ℕ) (room : ℕ) (r : Result (Unit {0}) × World) : Type 0 where
    returns : r.0 ≡ ok tt
    answering : r.1.faults ≡ []
    fewer : (k : ℕ) → before ≤ room + k → length (unsent r.1) ≤ k

  marked :
      (ids : List ℤ) (now : Time) (w : World)
      → w.faults ≡ []
      → ((mark_usage_sent ids now w).0 ≡ ok tt) × ((mark_usage_sent ids now w).1.faults ≡ [])
  unfolding mark_usage_sent exec call
  marked [] now w f = (refl, f)
  marked (id ∷ ids) now w f = (ground (arith, f), ground (arith, f))

  page_marked :
      (ids : List ℤ) (now : Time) (w : World)
      → w.faults ≡ []
      → ids ≡ map id_of (take 1_000 (sort_by row_le (unsent w)))
      → IsTicked (length (unsent w)) 1_000 (mark_usage_sent ids now w)
  page_marked ids now w f p =
      let (e, g) = marked ids now w f in
      record {
        returns = e;
        answering = g;
        fewer = λ k h.
            (let page = length-keep-page k (unsent w) h in
              let left = ap length (unsent-mark_usage_sent ids now w e) in
              let named =
                subst (λ z. length (keep (λ row. not (acked z row)) (unsent w)) ≤ k) (sym p) page in
              omega (arith, left, named));
      }

  acknowledged :
      (now : Time) (w : World)
      → w.faults ≡ []
      → let page = take 1_000 (sort_by row_le (unsent w)) in
        IsTicked (length (unsent w)) 1_000 (handle_usage_ack now (map ack (map scan_event page)) w)
  unfolding handle_usage_ack
  acknowledged now w f =
      let page = take 1_000 (sort_by row_le (unsent w)) in
      let acks = map ack (map scan_event page) in
      let few : ltb 5_000 (length acks) ≡ false =
        ground (arith, length-acks page, length-take-le 1_000 (sort_by row_le (unsent w))) in
      rw few (page_marked (event_ids acks) now w f (event_ids-acks page))

  paged :
      (h : Node) (faults : List Bool)
      → faults ≡ []
      → let w : World = record { held = h; faults = faults } in
        pending_usage (pos 1_000) w
        ≡ (ok (map scan_event (take 1_000 (sort_by row_le (unsent w)))), w)
  unfolding pending_usage query call
  paged h [] e = refl
  paged h (b ∷ faults) e = absurd (ground (arith, e))

  -- A tick without a batch, or whose batch is lost.
  idle :
      (room : ℕ) (w : World)
      → w.faults ≡ []
      → (length (unsent w) ≡ 0) ⊎ (room ≡ 0)
      → IsTicked (length (unsent w)) room (pure tt w)
  idle room w f o = record {
    returns = refl;
    answering = f;
    fewer = λ k h. elim o [ inl p ↦ omega (arith, p, h) | inr p ↦ omega (arith, p, h) ];
  }

  no_events : (rows : List UsageRow) → map scan_event (take 1_000 rows) ≡ [] → length rows ≡ 0
  no_events [] e = refl
  no_events (row ∷ rows) e = absurd (ground (arith, e))

  no_page :
      (rows : List UsageRow)
      → map scan_event (take 1_000 (sort_by row_le rows)) ≡ []
      → length rows ≡ 0
  no_page rows e = sym (length-sort rows) ∙ no_events (sort_by row_le rows) e

  sent_page :
      (now : Time) (delivered : Bool) (w : World) (events : List UsageEvent)
      → w.faults ≡ []
      → events ≡ map scan_event (take 1_000 (sort_by row_le (unsent w)))
      → IsTicked (length (unsent w)) (carried delivered) (
          (if not (is_empty events) && delivered
              then handle_usage_ack now (map ack events)
              else pure tt)
            w)
  sent_page now delivered w [] f p = idle (carried delivered) w f (inl (no_page (unsent w) (sym p)))
  sent_page now false w (e ∷ es) f p = idle 0 w f (inr refl)
  sent_page now true w (e ∷ es) f p =
      subst (λ z. IsTicked (length (unsent w)) 1_000 (handle_usage_ack now (map ack z) w)) (sym p)
        (acknowledged now w f)

  ticked :
      (now : Time) (delivered : Bool) (w : World)
      → w.faults ≡ []
      → IsTicked (length (unsent w)) (carried delivered) (tick ack now delivered w)
  unfolding tick
  ticked now delivered w f = rw (paged w.held w.faults f) (sent_page now delivered w _ f refl)

  drained :
      (ts : List (Time × Bool)) (w : World)
      → w.faults ≡ []
      → IsTicked (length (unsent w)) (capacity ts) (ticks ack ts w)
  unfolding ticks capacity
  drained [] w f = idle 0 w f (inr refl)
  drained ((now, delivered) ∷ ts) w f =
      let t = ticked now delivered w f in
      let rest = drained ts (tick ack now delivered w).1 t.answering in
      rw (t.returns) (record {
        returns = rest.returns;
        answering = rest.answering;
        fewer = λ k h. rest.fewer k (t.fewer (capacity ts + k) (omega (arith, h)));
      })

-- With a database that answers, and acknowledgements that name just the events of their batch, the
-- ticks of a session return, and no event is unsent after them once the batches that were
-- acknowledged, of a thousand events each, have room for all that were.
pub ticks-drain :
    (ack : UsageEvent → EventId)
    → ((e : UsageEvent) (rest : List EventId) → event_ids (ack e ∷ rest) ≡ e.id ∷ event_ids rest)
    → (ts : List (Time × Bool)) (w : World) → w.faults ≡ []
    → length (unsent w) ≤ capacity ts
    → ((ticks ack ts w).0 ≡ ok tt) × (unsent (ticks ack ts w).1 ≡ [])
ticks-drain ack read_back ts w f h =
    let t = drained ack read_back ts w f in
    let left = t.fewer 0 (omega (arith, h)) in (t.returns, ground (arith, left))
