-- ===== src/Store/Outbox.antt =====
-- The usage events as an outbox: what is pending, and what an acknowledgement takes off.
use rmvpn.Base.{
  ℕ, ◌≡◌, refl, Bool, true, false, not, ◌⊎◌, inl, inr, some, List, [], ◌∷◌, arith, ap, sym, subst,
  keep, change, if◌then◌else◌,
}
use rmvpn.Base.Rows.{Memᴰ, Forall₂, any-eq-true, any-Memᴰ, change-Forall₂}
use rmvpn.Base.Int.{ℤ, pos, negsuc}
use rmvpn.Base.Time.{Time, unix}
use rmvpn.Base.Outcome.{ok}
use rmvpn.Node.Tables.{UsageRow}
use rmvpn.Exec.{World, exec, call}
use rmvpn.Store.Usage.{is_unsent, is_event, acked, mark_usage_sent}

abbrev sent_at : ℕ → UsageRow → UsageRow
sent_at t row = record row { sent_at = some t }

keep-change :
    (ids : List ℤ) (t : ℕ) (rows : List UsageRow)
    → keep is_unsent (change (acked ids) (sent_at t) rows)
      ≡ keep (λ row. not (acked ids row)) (keep is_unsent rows)
keep-change ids t [] = refl
keep-change ids t (row ∷ rows) = ground (arith, keep-change ids t rows)

keep_all : (rows : List UsageRow) → keep (λ row. not (acked [] row)) rows ≡ rows
keep_all [] = refl
keep_all (row ∷ rows) = ap (row ∷◌) (keep_all rows)

-- The unsent events after an acknowledgement.
pub unsent-mark_usage_sent :
    (ids : List ℤ) (now : Time) (w : World)
    → (mark_usage_sent ids now w).0 ≡ ok tt
    → let before = w.held.store.usage_events in
      let rows = (mark_usage_sent ids now w).1.held.store.usage_events in
      keep is_unsent rows ≡ keep (λ row. not (acked ids row)) (keep is_unsent before)
unfolding mark_usage_sent exec call
unsent-mark_usage_sent [] now w e = sym (keep_all _)
unsent-mark_usage_sent (id ∷ ids) now w e =
    ground (arith, keep-change (id ∷ ids) (unix now) w.held.store.usage_events)

-- What becomes of an event: it is sent at `t` if it is named, and stays as it is if not.
abbrev pub IsMarked : List ℤ → ℕ → UsageRow → UsageRow → Type 0
IsMarked ids t before after =
    (Memᴰ (pos before.id) ids × (after ≡ record before { sent_at = some t }))
    ⊎ ((Memᴰ (pos before.id) ids → ⊥) × (after ≡ before))

named_id : (id : ℕ) (z : ℤ) → is_event id z ≡ true → z ≡ pos id
named_id id (pos n) e = ground arith
named_id id (negsuc n) e = cc

own_id : (id : ℕ) → is_event id (pos id) ≡ true
own_id id = ground arith

acked-IsMarked :
    (ids : List ℤ) (t : ℕ) (row : UsageRow) (b : Bool)
    → acked ids row ≡ b
    → IsMarked ids t row (if b then sent_at t row else row)
acked-IsMarked ids t row true e =
    let (z, m, hit) = any-eq-true (is_event row.id) ids e in
    inl (subst (λ y. Memᴰ y ids) (named_id row.id z hit) m, refl)
acked-IsMarked ids t row false e =
    inr
      (λ m. ground (arith, any-Memᴰ (is_event row.id) ids (pos row.id) m (own_id row.id), e), refl)

change_none : (t : ℕ) (rows : List UsageRow) → change (acked []) (sent_at t) rows ≡ rows
change_none t [] = refl
change_none t (row ∷ rows) = ap (row ∷◌) (change_none t rows)

change-IsMarked :
    (ids : List ℤ) (t : ℕ) (rows : List UsageRow)
    → Forall₂ (IsMarked ids t) rows (change (acked ids) (sent_at t) rows)
change-IsMarked ids t rows =
    change-Forall₂ (IsMarked ids t) (acked ids) (sent_at t) (λ row. acked-IsMarked ids t row _ refl)
      rows

-- An acknowledgement that returns keeps the table of usage events row by row: an event whose ID it
-- names is sent at that time, and every other event is as it was.
pub mark_usage_sent_sound :
    (ids : List ℤ) (now : Time) (w : World)
    → (mark_usage_sent ids now w).0 ≡ ok tt
    → Forall₂
        (IsMarked ids (unix now))
        w.held.store.usage_events
        (mark_usage_sent ids now w).1.held.store.usage_events
unfolding mark_usage_sent exec call
mark_usage_sent_sound [] now w e =
    subst (Forall₂ (IsMarked [] (unix now)) w.held.store.usage_events)
      (change_none (unix now) w.held.store.usage_events)
      (change-IsMarked [] (unix now) w.held.store.usage_events)
mark_usage_sent_sound (id ∷ ids) now w e =
    subst (Forall₂ (IsMarked (id ∷ ids) (unix now)) w.held.store.usage_events) (ground arith)
      (change-IsMarked (id ∷ ids) (unix now) w.held.store.usage_events)
