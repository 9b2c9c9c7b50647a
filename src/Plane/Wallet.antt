-- ===== src/Plane/Wallet.antt =====
-- internal/controlplane/admin.go, creditWallet and adjustWallet: the wallets and their ledger. The
-- keys that are not the client's are UUIDs, and arguments.
pub mod Ledger
pub mod Bookings
use rmvpn.Base.{
  ℕ, suc, ◌+◌, String, Bool, true, false, not, ◌&&◌, ◌||◌, Option, none, some, List, [], ◌∷◌, ◌++◌,
  ◌==◌, any, find, change, length, leb, ltb, if◌then◌else◌,
}
use rmvpn.Base.Int.{ℤ, pos, IsInt64, add64, sql_add, ltb_ℤ, leb_ℤ}
use rmvpn.Base.Text.{Runes, trim_space}
use rmvpn.Base.Outcome.{
  Result, ok, err, backend, no_rows, constraint_violated, value_out_of_range, problem,
}
use rmvpn.Plane.Tables.{Plane, WalletRow, LedgerRow, RoleRow, AuditRow}
use rmvpn.Exec.{
  Method, pure, guard, or_raise, attempt, select, update, update_checked, update_returning, handled,
  ◌>>=◌, ◌>>◌,
}

abbrev pub has_wallet : String → WalletRow → Bool
has_wallet user row = row.user_id == user

abbrev pub wallet_balance : Option WalletRow → Option ℤ
wallet_balance none = none
wallet_balance (some row) = some row.balance_kopecks

abbrev pub balance : String → Plane → Option ℤ
balance user p = wallet_balance (find (has_wallet user) p.wallets)

abbrev pub with_balance : ℤ → WalletRow → WalletRow
with_balance b row = record row { balance_kopecks = b }

-- UPDATE wallets SET balance_kopecks=… WHERE user_id=…, with its CHECK (balance_kopecks >= 0)
unfoldable pub set_balance : String → ℤ → Plane → Result Plane
set_balance user b p =
    if ltb_ℤ b (pos 0)
    then err constraint_violated
    else ok (record p { wallets = change (has_wallet user) (with_balance b) p.wallets })

abbrev pub has_key : String → LedgerRow → Bool
has_key key row = row.idempotency_key == key

abbrev pub ledger_row : String → ℤ → ℤ → String → LedgerRow
ledger_row user amount after key = record {
  user_id = user;
  amount_kopecks = amount;
  balance_after_kopecks = after;
  idempotency_key = key;
}

abbrev pub is_nothing : ℤ → Bool
is_nothing z = leb_ℤ z (pos 0) && leb_ℤ (pos 0) z

-- INSERT INTO ledger_entries with its CHECKs, of which the one on the reason counts characters, and
-- the UNIQUE key.
unfoldable pub insert_ledger : String → ℤ → ℤ → Runes → String → Plane → Result Plane
insert_ledger user amount after reason key p =
    if is_nothing amount
      || ltb_ℤ after (pos 0)
      || ltb (length reason) 3
      || any (has_key key) p.ledger_entries
    then err constraint_violated
    else ok
        (record p { ledger_entries = p.ledger_entries ++ ledger_row user amount after key ∷ [] })

-- INSERT INTO audit_events … jsonb_build_object(…): where its parameters are not cast, the database
-- refuses the statement unless it infers their types.
unfoldable pub audit : Bool → String → String → String → Plane → Result Plane
audit is_cast actor action subject p =
    if is_cast || p.infers_types
    then ok (record p {
      audit_events =
          p.audit_events
          ++ record { actor_user_id = actor; action = action; subject_id = subject } ∷ [];
    })
    else err backend

-- The length in bytes of a text in UTF-8.
abbrev pub rune_bytes : ℕ → ℕ
rune_bytes c = if ltb c 0x80 then 1 else if ltb c 0x800 then 2 else if ltb c 0x10000 then 3 else 4

unfoldable pub byte_length : Runes → ℕ
byte_length [] = 0
byte_length (c ∷ cs) = rune_bytes c + byte_length cs

-- len(strings.TrimSpace(reason)) >= 3
abbrev pub has_reason : Runes → Bool
has_reason reason = leb 3 (byte_length (trim_space reason))

-- The body of a request, `none` where it does not decode: the amount is an int64.
pub record WalletChange : Type 0 where
  pub amount_kopecks : ℤ
  pub fits : IsInt64 amount_kopecks
  pub reason : Runes
  pub idempotency_key : String

-- UPDATE wallets SET balance_kopecks=balance_kopecks+… WHERE user_id=… RETURNING balance_kopecks
abbrev pub raised_to : String → Plane → Option ℤ → Result (ℤ × Plane)
raised_to user p none = err value_out_of_range
raised_to user p (some b) =
    if ltb_ℤ b (pos 0)
    then err constraint_violated
    else ok (b, record p { wallets = change (has_wallet user) (with_balance b) p.wallets })

abbrev pub raise_from : String → ℤ → Plane → Option ℤ → Result (ℤ × Plane)
raise_from user amount p none = err no_rows
raise_from user amount p (some b) = raised_to user p (sql_add b amount)

unfoldable pub add_balance : String → ℤ → Plane → Result (ℤ × Plane)
add_balance user amount p = raise_from user amount p (balance user p)

-- The ledger's entry and the audit's, after the wallet was changed.
unfoldable pub record_change :
    Bool → String → String → String → ℤ → ℤ → Runes → String → Method Plane (Unit {0})
unfolding update_checked insert_ledger audit
record_change is_cast action actor user amount after reason key = do
  update_checked (insert_ledger user amount after reason key)
  update_checked (audit is_cast actor action user)

unfoldable pub credit_body : String → String → ℤ → Runes → String → Method Plane ℤ
unfolding update_returning add_balance record_change
credit_body actor user amount reason key = do
  after ← update_returning (add_balance user amount)
  record_change true "wallet.credit" actor user amount after reason key
  pure after

abbrev pub key_or : String → String → String
key_or fresh key = if key == "" then fresh else key

unfoldable pub credit_wallet : String → String → Option WalletChange → String → Method Plane ℤ
unfolding handled credit_body trim_space byte_length
credit_wallet actor user body fresh = do
  change ← or_raise (problem 400 "invalid-credit") body
  guard (ltb_ℤ (pos 0) change.amount_kopecks && has_reason change.reason)
      (problem 400 "invalid-credit")
  handled (problem 500 "db") (problem 409 "ledger") (
      credit_body actor user change.amount_kopecks (trim_space change.reason)
        (key_or fresh change.idempotency_key))

-- (SELECT role FROM user_roles WHERE user_id=… LIMIT 1), '' for none
abbrev pub has_role : String → RoleRow → Bool
has_role user row = row.user_id == user

abbrev pub role_text : Option RoleRow → String
role_text none = ""
role_text (some row) = row.role

abbrev pub role_of : String → Plane → String
role_of user p = role_text (find (has_role user) p.user_roles)

abbrev pub text_or : Option String → String
text_or none = ""
text_or (some s) = s

abbrev pub roles_refuse : Option (String × String) → Bool
roles_refuse none = false
roles_refuse (some roles) = roles.0 == "support" && not (roles.1 == "")

abbrev pub flattened : {A : Type 0} → Option (Option A) → Option A
flattened none = none
flattened (some o) = o

unfoldable pub adjust_body : String → String → ℤ → Runes → String → Method Plane ℤ
unfolding select add64 update_checked set_balance record_change
adjust_body actor user amount reason key = do
  current ← attempt (select (balance user))
  old ← or_raise (problem 404 "user") (flattened current)
  let updated = add64 old amount
  guard (not (ltb_ℤ updated (pos 0))) (problem 409 "negative-balance")
  update_checked (set_balance user updated)
  record_change true "wallet.adjust" actor user amount updated reason key
  pure updated

unfoldable pub adjust_wallet : String → String → Option WalletChange → String → Method Plane ℤ
unfolding select handled adjust_body trim_space byte_length
adjust_wallet actor user body fresh = do
  roles ← attempt (select (λ p. (role_of actor p, role_of user p)))
  guard (not (roles_refuse roles)) (problem 403 "admin-wallet")
  change ← or_raise (problem 400 "wallet-adjustment") body
  guard (not (is_nothing change.amount_kopecks) && has_reason change.reason)
      (problem 400 "wallet-adjustment")
  handled (problem 500 "db") (problem 500 "ledger")
      (adjust_body actor user change.amount_kopecks (trim_space change.reason) fresh)
