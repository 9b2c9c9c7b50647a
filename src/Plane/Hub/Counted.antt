-- ===== src/Plane/Hub/Counted.antt =====
-- What counting an event's bytes does to a user's subscription, beside the recorded events.
use rmvpn.Base.{
  String, Bool, false, Option, none, some, List, [], ◌∷◌, ◌++◌, ◌≡◌, refl, subst, arith, find,
  change_checked, cons_option-eq-some, if◌then◌else◌, inl, inr, Bool-cases, ◌==◌, eq_iff,
}
use rmvpn.Base.Int.{ℤ, pos, ◌+ℤ◌, ◌-ℤ◌, add64, sql_add, +ℤ_swap, -ℤ_both, sql_add-eq-some}
use rmvpn.Base.Outcome.{ok}
use rmvpn.Plane.Tables.{Plane, EventRow, SubscriptionRow}
use rmvpn.Plane.Queue.{of_user, same_text}
use rmvpn.Plane.Hub.Intake.{owner, count_used, count_for, more_used, with_used, with_subscriptions}

module _ (user : String) where
  -- The bytes of the events of the user's devices.
  unfoldable pub recorded : Plane → List EventRow → ℤ
  recorded p [] = pos 0
  recorded p (e ∷ es) =
      let rest = recorded p es in
      if same_text user (owner e.device_id p) then rest +ℤ add64 e.rx_bytes e.tx_bytes else rest

  abbrev pub less : ℤ → Option SubscriptionRow → Option ℤ
  less z none = none
  less z (some s) = some (s.used_bytes -ℤ z)

  -- What the user's subscription counts beyond the recorded events: the traffic of before the
  -- period's start, with the sign changed, and of events that were deleted.
  unfoldable pub uncounted : Plane → Option ℤ
  unfolding recorded
  uncounted p = less (recorded p p.usage_events) (find (of_user user) p.subscriptions)

  pub recorded-snoc :
      (p : Plane) (es : List EventRow) (e : EventRow)
      → recorded p (es ++ e ∷ []) ≡ (
          if same_text user (owner e.device_id p)
          then recorded p es +ℤ add64 e.rx_bytes e.tx_bytes
          else recorded p es)
  unfolding recorded
  recorded-snoc p [] e = refl
  recorded-snoc p (x ∷ xs) e = ground (
    arith,
    recorded-snoc p xs e,
    +ℤ_swap (recorded p xs) (add64 e.rx_bytes e.tx_bytes) (add64 x.rx_bytes x.tx_bytes),
  )

  head_used :
      (row : SubscriptionRow) (z b : ℤ) (o : Option ℤ) {row' : SubscriptionRow}
      → sql_add row.used_bytes b ≡ o
      → with_used row o ≡ some row'
      → (row'.user_id ≡ row.user_id) × (less (z +ℤ b) (some row') ≡ less z (some row))
  head_used row z b none q e = cc
  head_used row z b (some c) q e =
      ground (arith, sql_add-eq-some row.used_bytes b q, -ℤ_both row.used_bytes z b)

  -- An UPDATE of the user's own subscription, and one of another's.
  find-moved :
      (z b : ℤ) (rows : List SubscriptionRow) {rows' : List SubscriptionRow}
      → change_checked (of_user user) (more_used b) rows ≡ some rows'
      → less (z +ℤ b) (find (of_user user) rows') ≡ less z (find (of_user user) rows)
  unfolding change_checked
  find-moved z b [] e = ground arith
  find-moved z b (row ∷ rows) e =
      let (x, ys, ex, er, exs) = cons_option-eq-some _ _ e in
      rw exs (elim (Bool-cases (row.user_id == user)) [
        | inl t ↦
            let head =
              head_used row z b (sql_add row.used_bytes b) {row' = x} refl
                (ground (arith, ex, t)) in
            ground (arith, t, head.0, head.1)
        | inr n ↦ ground (arith, n, ex, find-moved z b rows er)
      ])

  find-kept :
      (u : String) (b : ℤ) (rows : List SubscriptionRow) {rows' : List SubscriptionRow}
      → (u == user) ≡ false
      → change_checked (of_user u) (more_used b) rows ≡ some rows'
      → find (of_user user) rows' ≡ find (of_user user) rows
  unfolding change_checked
  find-kept u b [] n e = ground arith
  find-kept u b (row ∷ rows) n e =
      let (x, ys, ex, er, exs) = cons_option-eq-some _ _ e in
      rw exs (elim (Bool-cases (row.user_id == u)) [
        | inl t ↦
            let head =
              head_used row (pos 0) b (sql_add row.used_bytes b) {row' = x} refl
                (ground (arith, ex, t)) in
            let own = (eq_iff row.user_id u).0 t in
            ground (arith, n, head.0, own, find-kept u b rows n er)
        | inr f ↦ ground (arith, f, ex, find-kept u b rows n er)
      ])

  pub recorded_same :
      (p q : Plane) (es : List EventRow) → q.devices ≡ p.devices → recorded q es ≡ recorded p es
  unfolding recorded
  recorded_same p q [] h = refl
  recorded_same p q (e ∷ es) h = rw h (rw (recorded_same p q es h) refl)

  abbrev pub grown : ℤ → ℤ → Bool → ℤ
  grown z b own = if own then z +ℤ b else z

  -- What an UPDATE of `used_bytes` keeps, and what it adds.
  pub record IsCounted (z b : ℤ) (own : Bool) (p q : Plane) : Type 0 where
    pub same_events : q.usage_events ≡ p.usage_events
    pub same_devices : q.devices ≡ p.devices
    pub added :
        less (grown z b own) (find (of_user user) q.subscriptions)
        ≡ less z (find (of_user user) p.subscriptions)

  with_subscriptions-IsCounted :
      (u : String) (z b : ℤ) (p : Plane) (r : Option (List SubscriptionRow)) {q : Plane}
      → change_checked (of_user u) (more_used b) p.subscriptions ≡ r
      → with_subscriptions p r ≡ ok q
      → IsCounted z b (u == user) p q
  with_subscriptions-IsCounted u z b p none c e = cc
  with_subscriptions-IsCounted u z b p (some rows) c e = record {
    same_events = ground arith;
    same_devices = ground arith;
    added = elim (Bool-cases (u == user)) [
      | inl t ↦
          let own =
            subst (λ v. change_checked (of_user v) (more_used b) p.subscriptions ≡ some rows)
              ((eq_iff u user).0 t) c in
          ground (arith, t, e, find-moved z b p.subscriptions own)
      | inr n ↦ ground (arith, n, e, find-kept u b p.subscriptions n c)
    ];
  }

  count_for-IsCounted :
      (o : Option String) (z b : ℤ) (p : Plane) {q : Plane}
      → count_for o b p ≡ ok q
      → IsCounted z b (same_text user o) p q
  count_for-IsCounted none z b p e = record {
    same_events = ground arith;
    same_devices = ground arith;
    added = ground arith;
  }
  count_for-IsCounted (some u) z b p e = with_subscriptions-IsCounted u z b p _ refl e

  pub count_used-IsCounted :
      (device : String) (z b : ℤ) (p : Plane) {q : Plane}
      → count_used device b p ≡ ok q
      → IsCounted z b (same_text user (owner device p)) p q
  unfolding count_used
  count_used-IsCounted device z b p e = count_for-IsCounted (owner device p) z b p e
