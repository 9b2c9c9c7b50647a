-- ===== src/Plane/Wallet/Bookings.antt =====
-- The handlers keep every wallet equal to its ledger.
use rmvpn.Base.{
  Bool, true, String, false, Option, none, some, List, [], ◌∷◌, ◌++◌, ◌≡◌, refl, sym, ap, subst,
  ◌∙◌, arith, not, ◌&&◌, change,
}
use rmvpn.Base.Int.{
  ℤ, pos, ◌+ℤ◌, add64, sql_add, ltb_ℤ, sql_add-eq-some, sql_add-IsInt64, add64-IsInt64, IsInt64,
}
use rmvpn.Base.Text.{Runes, trim_space}
use rmvpn.Base.Outcome.{ok, problem}
use rmvpn.Plane.Tables.{Plane, LedgerRow, WalletRow}
use rmvpn.Plane.Wallet.{
  balance, has_wallet, with_balance, set_balance, insert_ledger, ledger_row, add_balance,
  raise_from, raised_to, record_change, credit_body, credit_wallet, adjust_body, adjust_wallet,
  audit, flattened, WalletChange, has_reason, key_or, role_of, roles_refuse, is_nothing,
}
use rmvpn.Plane.Wallet.Ledger.{IsSound, IsChanged, changed-IsSound, added_exact}
use rmvpn.Exec.{
  Run, update_checked, update_returning, select, attempt, dropped, call, guard, or_raise, handled,
  ◌>>◌,
}
use rmvpn.Exec.Keeps.{Keeps, Keeps-bind, Keeps-guard, Keeps-attempt, Keeps-select}
use rmvpn.Exec.Success.{
  >>=-eq-ok, update_checked-eq-ok, update_returning-eq-ok, select-held, Keeps-handled,
  Keeps-or_raise, opted, guarded,
}

-- What the two INSERTs of a change do.
pub record IsRecorded (user : String) (amount : ℤ) (p q : Plane) : Type 0 where
  pub same_wallets : q.wallets ≡ p.wallets
  pub same_plans : q.plans ≡ p.plans
  pub entry : LedgerRow
  pub entry_user : entry.user_id ≡ user
  pub entry_amount : entry.amount_kopecks ≡ amount
  pub ledger : q.ledger_entries ≡ p.ledger_entries ++ entry ∷ []

insert_ledger-IsRecorded :
    (user : String) (amount after : ℤ) (reason : Runes) (key : String) (p : Plane) {q : Plane}
    → insert_ledger user amount after reason key p ≡ ok q
    → IsRecorded user amount p q
unfolding insert_ledger
insert_ledger-IsRecorded user amount after reason key p h = record {
  same_wallets = ground arith;
  same_plans = ground arith;
  entry = ledger_row user amount after key;
  entry_user = refl;
  entry_amount = refl;
  ledger = ground arith;
}

audited :
    (is_cast : Bool) (actor action subject : String) (p q : Plane)
    → audit is_cast actor action subject p ≡ ok q
    → q ≡ record p { audit_events = q.audit_events }
unfolding audit
audited is_cast actor action subject p q h = ground arith

pub record_change-IsRecorded :
    (is_cast : Bool) (action actor user : String) (amount after : ℤ) (reason : Runes) (key : String)
    (w : Run Plane) {u : Unit {0}}
    → (record_change is_cast action actor user amount after reason key w).0 ≡ ok u
    → IsRecorded user amount w.held
        (record_change is_cast action actor user amount after reason key w).1.held
unfolding record_change
record_change-IsRecorded is_cast action actor user amount after reason key w h =
    let insert = update_checked (insert_ledger user amount after reason key) in
    let (t, a, b, s) = >>=-eq-ok insert _ w h in
    let i =
      insert_ledger-IsRecorded user amount after reason key w.held
        (update_checked-eq-ok (insert_ledger user amount after reason key) w a) in
    let e =
      ap (λ (x : Run Plane). x.held) s
      ∙ audited is_cast actor action user (insert w).1.held _
          (update_checked-eq-ok (audit is_cast actor action user) (insert w).1 b) in
    record {
      same_wallets = ap (λ (p : Plane). p.wallets) e ∙ i.same_wallets;
      same_plans = ap (λ (p : Plane). p.plans) e ∙ i.same_plans;
      entry = i.entry;
      entry_user = i.entry_user;
      entry_amount = i.entry_amount;
      ledger = ap (λ (p : Plane). p.ledger_entries) e ∙ i.ledger;
    }

abbrev pub change_wallets : String → ℤ → Plane → List WalletRow
change_wallets user b p = change (has_wallet user) (with_balance b) p.wallets

-- An UPDATE of a wallet, and then the INSERTs.
pub booked_change :
    (u : String) (a b amount : ℤ) (p q r : Plane)
    → balance u p ≡ some a
    → b ≡ a +ℤ amount
    → ltb_ℤ b (pos 0) ≡ false
    → IsInt64 b
    → q.wallets ≡ change (has_wallet u) (with_balance b) p.wallets
    → q.ledger_entries ≡ p.ledger_entries
    → q.plans ≡ p.plans
    → IsRecorded u amount q r
    → IsChanged u a b amount p r
booked_change u a b amount p q r held sum allowed fits wallets ledger plans i = record {
  held = held;
  sum = sum;
  allowed = allowed;
  in_range = fits;
  wallets = i.same_wallets ∙ wallets;
  entry = i.entry;
  entry_user = i.entry_user;
  entry_amount = i.entry_amount;
  ledger = i.ledger ∙ ap (◌++ i.entry ∷ []) ledger;
  same_plans = i.same_plans ∙ plans;
}

raised :
    (user : String) (p q : Plane) (b : ℤ) (o : Option ℤ)
    → raised_to user p o ≡ ok (b, q)
    → (o ≡ some b)
      × (ltb_ℤ b (pos 0) ≡ false)
      × (q.wallets ≡ change (has_wallet user) (with_balance b) p.wallets)
      × (q.ledger_entries ≡ p.ledger_entries)
      × (q.plans ≡ p.plans)
raised user p q b none h = cc
raised user p q b (some c) h = ground arith

raised_from :
    (user : String) (amount : ℤ) (p q : Plane) (b : ℤ) (o : Option ℤ)
    → raise_from user amount p o ≡ ok (b, q)
    → (a : ℤ) × (o ≡ some a)
      × (b ≡ a +ℤ amount)
      × (ltb_ℤ b (pos 0) ≡ false)
      × IsInt64 b
      × (q.wallets ≡ change (has_wallet user) (with_balance b) p.wallets)
      × (q.ledger_entries ≡ p.ledger_entries)
      × (q.plans ≡ p.plans)
raised_from user amount p q b none h = cc
raised_from user amount p q b (some a) h =
    let (e, allowed, wallets, ledger, plans) = raised user p q b (sql_add a amount) h in
    (
      a,
      refl,
      sql_add-eq-some a amount e,
      allowed,
      sql_add-IsInt64 a amount e,
      wallets,
      ledger,
      plans,
    )

pub set_balance_set :
    (user : String) (b : ℤ) (p q : Plane)
    → set_balance user b p ≡ ok q
    → (ltb_ℤ b (pos 0) ≡ false)
      × (q.wallets ≡ change_wallets user b p)
      × (q.ledger_entries ≡ p.ledger_entries)
      × (q.plans ≡ p.plans)
unfolding set_balance
set_balance_set user b p q h = ground arith

selected_balance :
    (user : String) (w : Run Plane) (old : ℤ)
    → flattened (dropped (select (balance user) w).0) ≡ some old
    → balance user w.held ≡ some old
unfolding select call
selected_balance user w old f = ground arith

module _ (actor user : String) (amount : ℤ) (reason : Runes) (key : String) where
  credit_body-IsSound :
      (w : Run Plane) {c : ℤ}
      → (credit_body actor user amount reason key w).0 ≡ ok c
      → IsSound w.held
      → IsSound (credit_body actor user amount reason key w).1.held
  unfolding credit_body add_balance
  credit_body-IsSound w h k =
      let (after, a, b, s) = >>=-eq-ok (update_returning (add_balance user amount)) _ w h in
      let x : Run Plane = (update_returning (add_balance user amount) w).1 in
      let (t, c, d, s2) =
        >>=-eq-ok (record_change true "wallet.credit" actor user amount after reason key) _ x b in
      let y : Run Plane =
        (record_change true "wallet.credit" actor user amount after reason key x).1 in
      let (old, held, sum, allowed, fits, wallets, ledger, plans) =
        raised_from user amount w.held x.held after (balance user w.held)
          (update_returning-eq-ok (add_balance user amount) w a) in
      let i =
        record_change-IsRecorded true "wallet.credit" actor user amount after reason key x c in
      subst (λ (z : Run Plane). IsSound z.held) (sym (s ∙ s2))
        (changed-IsSound user old after amount w.held y.held
          (booked_change user old after amount w.held x.held y.held held sum allowed fits wallets
            ledger plans i)
          k)

  adjust_body-IsSound :
      IsInt64 amount
      → (w : Run Plane) {c : ℤ} → (adjust_body actor user amount reason key w).0 ≡ ok c
      → IsSound w.held
      → IsSound (adjust_body actor user amount reason key w).1.held
  unfolding adjust_body
  adjust_body-IsSound fits w h k =
      let o = flattened (dropped (select (balance user) w).0) in
      let v : Run Plane = (select (balance user) w).1 in
      let same = select-held (balance user) w in
      let (old, f, e, n) = opted (problem 404 "user") o _ v h in
      let held = selected_balance user w old f in
      let updated = add64 old amount in
      let (g, e2, n2) = guarded (not (ltb_ℤ updated (pos 0))) _ _ v e in
      let set = update_checked (set_balance user updated) in
      let (t, a, b, s) = >>=-eq-ok set _ v e2 in
      let x : Run Plane = (set v).1 in
      let change = record_change true "wallet.adjust" actor user amount updated reason key in
      let (t2, c, d, s2) = >>=-eq-ok change _ x b in
      let (allowed, wallets, ledger, plans) =
        set_balance_set user updated v.held x.held
          (update_checked-eq-ok (set_balance user updated) v a) in
      let i =
        record_change-IsRecorded true "wallet.adjust" actor user amount updated reason key x c in
      subst (λ (z : Run Plane). IsSound z.held) (sym (n ∙ n2 ∙ s ∙ s2))
        (changed-IsSound user old updated amount w.held (change x).1.held
          (booked_change user old updated amount w.held x.held (change x).1.held held
            (added_exact user old amount w.held held k fits allowed) allowed
            (add64-IsInt64 old amount)
            (wallets ∙ ap (λ (p : Plane). change_wallets user updated p) same)
            (ledger ∙ ap (λ (p : Plane). p.ledger_entries) same)
            (plans ∙ ap (λ (p : Plane). p.plans) same) i)
          k)

pub credit_wallet-IsSound :
    (actor user fresh : String) (body : Option WalletChange)
    → Keeps IsSound (credit_wallet actor user body fresh)
unfolding credit_wallet
credit_wallet-IsSound actor user fresh body =
    Keeps-bind (or_raise (problem 400 "invalid-credit") body) _ (Keeps-or_raise _ body) (λ change.
      Keeps-bind (guard (ltb_ℤ (pos 0) change.amount_kopecks && has_reason change.reason) _) _
        (Keeps-guard _ _)
        (λ u.
          let key = key_or fresh change.idempotency_key in
          let reason = trim_space change.reason in
          Keeps-handled _ _ (credit_body actor user change.amount_kopecks reason key)
            (λ w a h k. credit_body-IsSound actor user change.amount_kopecks reason key w h k)))

pub adjust_wallet-IsSound :
    (actor user fresh : String) (body : Option WalletChange)
    → Keeps IsSound (adjust_wallet actor user body fresh)
unfolding adjust_wallet
adjust_wallet-IsSound actor user fresh body =
    Keeps-bind (attempt (select (λ p. (role_of actor p, role_of user p)))) _
      (Keeps-attempt _ (Keeps-select _))
      (λ roles.
        Keeps-bind (guard (not (roles_refuse roles)) (problem 403 "admin-wallet")) _
          (Keeps-guard _ _)
          (λ u.
            Keeps-bind (or_raise (problem 400 "wallet-adjustment") body) _ (Keeps-or_raise _ body)
              (λ change. adjusted change)))
  where
    adjusted :
        (change : WalletChange)
        → Keeps IsSound (
            guard
              (not (is_nothing change.amount_kopecks) && has_reason change.reason)
              (problem 400 "wallet-adjustment")
            >> handled
                (problem 500 "db")
                (problem 500 "ledger")
                (adjust_body actor user change.amount_kopecks (trim_space change.reason) fresh))
    adjusted change =
        let reason = trim_space change.reason in
        Keeps-bind (guard (not (is_nothing change.amount_kopecks) && has_reason change.reason) _) _
          (Keeps-guard _ _)
          (λ u.
            Keeps-handled _ _ (adjust_body actor user change.amount_kopecks reason fresh)
              (λ w a h k.
                adjust_body-IsSound actor user change.amount_kopecks reason fresh change.fits w h
                  k))
