-- ===== src/Plane/Wallet/Ledger.antt =====
-- Each wallet holds what its ledger adds up to.
use rmvpn.Base.{
  String, false, Option, none, some, List, [], ◌∷◌, ◌++◌, ◌==◌, ◌≡◌, refl, sym, ap, subst, arith,
  find, change, if◌then◌else◌, inl, inr, Bool-cases, eq_iff, All,
}
use rmvpn.Base.Int.{ℤ, pos, ◌+ℤ◌, ◌≤ℤ◌, IsInt64, add64, ltb_ℤ, +ℤ_swap}
use rmvpn.Plane.Tables.{Plane, WalletRow, LedgerRow, PlanRow}
use rmvpn.Plane.Wallet.{balance, wallet_balance, has_wallet, with_balance}

abbrev pub or_nothing : Option ℤ → ℤ
or_nothing none = pos 0
or_nothing (some b) = b

-- The change of a wallet by an amount, with the entry of that amount.
pub record IsChanged (u : String) (a b amount : ℤ) (p q : Plane) : Type 0 where
  pub held : balance u p ≡ some a
  pub sum : b ≡ a +ℤ amount
  pub allowed : ltb_ℤ b (pos 0) ≡ false
  pub in_range : IsInt64 b
  pub wallets : q.wallets ≡ change (has_wallet u) (with_balance b) p.wallets
  pub entry : LedgerRow
  pub entry_user : entry.user_id ≡ u
  pub entry_amount : entry.amount_kopecks ≡ amount
  pub ledger : q.ledger_entries ≡ p.ledger_entries ++ entry ∷ []
  pub same_plans : q.plans ≡ p.plans

module _ (user : String) where
  -- The sum of the user's entries.
  unfoldable pub booked : List LedgerRow → ℤ
  unfolding ◌+ℤ◌
  booked [] = pos 0
  booked (e ∷ es) =
      let rest = booked es in if e.user_id == user then rest +ℤ e.amount_kopecks else rest

  -- The balance, which is 0 for a user without a wallet, is that sum, not negative, and an int64.
  pub record IsBalanced (p : Plane) : Type 0 where
    pub exact : or_nothing (balance user p) ≡ booked p.ledger_entries
    pub nonnegative : pos 0 ≤ℤ or_nothing (balance user p)
    pub fits : IsInt64 (or_nothing (balance user p))

  booked-snoc :
      (es : List LedgerRow) (e : LedgerRow)
      → booked (es ++ e ∷ [])
        ≡ (if e.user_id == user then booked es +ℤ e.amount_kopecks else booked es)
  unfolding booked
  booked-snoc [] e = refl
  booked-snoc (x ∷ xs) e =
      ground (arith, booked-snoc xs e, +ℤ_swap (booked xs) e.amount_kopecks x.amount_kopecks)

  -- A wallet that is set, and another's.
  find-set :
      (a b : ℤ) (rows : List WalletRow)
      → wallet_balance (find (has_wallet user) rows) ≡ some a
      → wallet_balance (find (has_wallet user) (change (has_wallet user) (with_balance b) rows))
        ≡ some b
  find-set a b [] h = cc
  find-set a b (row ∷ rows) h = elim (Bool-cases (row.user_id == user)) [
    | inl t ↦ ground (arith, t)
    | inr f ↦ ground (arith, f, find-set a b rows (ground (arith, f, h)))
  ]

  find-other :
      (u : String) (b : ℤ) (rows : List WalletRow)
      → (u == user) ≡ false
      → find (has_wallet user) (change (has_wallet u) (with_balance b) rows)
        ≡ find (has_wallet user) rows
  find-other u b [] n = refl
  find-other u b (row ∷ rows) n = elim (Bool-cases (row.user_id == u)) [
    | inl t ↦ let own = (eq_iff row.user_id u).0 t in ground (arith, n, own, find-other u b rows n)
    | inr f ↦ ground (arith, f, find-other u b rows n)
  ]

  own_changed :
      (a b amount : ℤ) (p q : Plane) → IsChanged user a b amount p q → IsBalanced p → IsBalanced q
  own_changed a b amount p q c h =
      let new : balance user q ≡ some b = rw c.wallets (find-set a b p.wallets c.held) in
      let total : booked q.ledger_entries ≡ booked p.ledger_entries +ℤ amount = rw c.ledger (
        ground (
          arith,
          booked-snoc p.ledger_entries c.entry,
          c.entry_user,
          c.entry_amount,
          (eq_iff user user).1 refl,
        )) in
      record {
        exact = ground (arith, new, total, h.exact, c.held, c.sum);
        nonnegative = rw new (ground (arith, c.allowed));
        fits = rw new c.in_range;
      }

  other_changed :
      (u : String) (a b amount : ℤ) (p q : Plane)
      → (u == user) ≡ false
      → IsChanged u a b amount p q
      → IsBalanced p
      → IsBalanced q
  other_changed u a b amount p q f c h =
      let new : balance user q ≡ balance user p =
        rw c.wallets (ap wallet_balance (find-other u b p.wallets f)) in
      let total : booked q.ledger_entries ≡ booked p.ledger_entries =
        rw c.ledger (ground (arith, booked-snoc p.ledger_entries c.entry, c.entry_user, f)) in
      record {
        exact = ground (arith, new, total, h.exact);
        nonnegative = rw new h.nonnegative;
        fits = rw new h.fits;
      }

  pub changed :
      (u : String) (a b amount : ℤ) (p q : Plane)
      → IsChanged u a b amount p q
      → IsBalanced p
      → IsBalanced q
  changed u a b amount p q c h = elim (Bool-cases (u == user)) [
    | inl t ↦
        own_changed a b amount p q (subst (λ v. IsChanged v a b amount p q) ((eq_iff u user).0 t) c)
          h
    | inr f ↦ other_changed u a b amount p q f c h
  ]

-- CHECK (price_kopecks >= 0)
abbrev pub IsPriced : PlanRow → Type 0
IsPriced row = pos 0 ≤ℤ row.price_kopecks

-- The invariant of the tables: each wallet, of whatever user, and the prices of the plans.
pub record IsSound (p : Plane) : Type 0 where
  pub of_user : (user : String) → IsBalanced user p
  pub priced : All IsPriced p.plans

pub changed-IsSound :
    (u : String) (a b amount : ℤ) (p q : Plane) → IsChanged u a b amount p q → IsSound p → IsSound q
changed-IsSound u a b amount p q c h = record {
  of_user = λ user. changed user u a b amount p q c (h.of_user user);
  priced = subst (All IsPriced) (sym c.same_plans) h.priced;
}

-- An old balance is not negative, so that a sum which is not negative did not wrap around.
sum_exact :
    (a amount : ℤ)
    → pos 0 ≤ℤ a
    → IsInt64 a
    → IsInt64 amount
    → ltb_ℤ (add64 a amount) (pos 0) ≡ false
    → add64 a amount ≡ a +ℤ amount
unfolding add64
sum_exact a amount h k l n = ground arith

pub added_exact :
    (u : String) (a amount : ℤ) (p : Plane)
    → balance u p ≡ some a
    → IsSound p
    → IsInt64 amount
    → ltb_ℤ (add64 a amount) (pos 0) ≡ false
    → add64 a amount ≡ a +ℤ amount
added_exact u a amount p e s k n =
    let h = s.of_user u in
    sum_exact a amount (subst (λ o. pos 0 ≤ℤ or_nothing o) e h.nonnegative)
      (subst (λ o. IsInt64 (or_nothing o)) e h.fits) k n

-- Only the wallets, the ledger and the plans count.
pub same-IsSound :
    (p q : Plane)
    → q.wallets ≡ p.wallets
    → q.ledger_entries ≡ p.ledger_entries
    → q.plans ≡ p.plans
    → IsSound p
    → IsSound q
same-IsSound p q wallets ledger plans k = record {
  of_user = λ user.
      let h = k.of_user user in
      record {
        exact = rw wallets (rw ledger h.exact);
        nonnegative = rw wallets h.nonnegative;
        fits = rw wallets h.fits;
      };
  priced = rw plans k.priced;
}
