-- ===== src/Exec/Keeps.antt =====
-- Invariants of methods: one rule for each way to build a method.
use rmvpn.Base.{Bool, true, false, inl, inr, arith, refl, ◌≡◌, Bool-cases, if◌then◌else◌}
use rmvpn.Base.Outcome.{Error, Result, ok, err}
use rmvpn.Node.{Node}
use rmvpn.Node.Tables.{Store}
use rmvpn.Exec.{
  Run, Method, failing, spent, pure, raise, lift, guard, follow, ◌>>=◌, attempt, gets, modify, call,
  on_store, kept_or, query, exec, exec_checked, settle, transaction, select, update, update_checked,
  update_returning, replaced_or, returned_or,
}

-- Whatever fails, `m` leads from a state with `P` to one with `P`.
pub record Keeps {S A : Type 0} (P : S → Type 0) (m : Method S A) : Type 0 where
  pub at : (w : Run S) → P w.held → P (m w).1.held

settle_keeps :
    {S A : Type 0} (P : S → Type 0) (n : S) (r : Result A) (w : Run S)
    → P n
    → P w.held
    → P (settle n (r, w)).1.held
unfolding settle
settle_keeps P n (ok a) w hn hw = elim (Bool-cases (failing w.faults)) [
  | inl e ↦ rw e hn
  | inr e ↦ rw e hw
]
settle_keeps P n (err e) w hn hw = hn

module _ {S : Type 0} {P : S → Type 0} where
  pub Keeps-pure : {A : Type 0} (a : A) → Keeps P (pure a)
  Keeps-pure a = record { at = λ w h. h }

  pub Keeps-raise : {A : Type 0} (e : Error) → Keeps P (raise {A = A} e)
  Keeps-raise e = record { at = λ w h. h }

  pub Keeps-guard : (b : Bool) (e : Error) → Keeps P (guard b e)
  Keeps-guard true e = Keeps-pure tt
  Keeps-guard false e = Keeps-raise e

  pub Keeps-lift : {A : Type 0} (r : Result A) → Keeps P (lift r)
  Keeps-lift r = record { at = λ w h. h }

  pub Keeps-gets : {A : Type 0} (f : S → A) → Keeps P (gets f)
  Keeps-gets f = record { at = λ w h. h }

  pub Keeps-modify : (f : S → S) → ((n : S) → P n → P (f n)) → Keeps P (modify f)
  Keeps-modify f k = record { at = λ w h. k w.held h }

  pub Keeps-if :
      {A : Type 0} (b : Bool) (m n : Method S A)
      → Keeps P m
      → Keeps P n
      → Keeps P (if b then m else n)
  Keeps-if true m n km kn = km
  Keeps-if false m n km kn = kn

  pub Keeps-follow :
      {A B : Type 0} (f : A → Method S B) (r : Result A)
      → ((a : A) → Keeps P (f a))
      → Keeps P (follow f r)
  Keeps-follow f (ok a) k = record { at = λ w h. (k a).at w h }
  Keeps-follow f (err e) k = record { at = λ w h. h }

  pub Keeps-bind :
      {A B : Type 0} (m : Method S A) (f : A → Method S B)
      → Keeps P m
      → ((a : A) → Keeps P (f a))
      → Keeps P (m >>= f)
  Keeps-bind m f km kf = record { at = λ w h. (Keeps-follow f (m w).0 kf).at (m w).1 (km.at w h) }

  pub Keeps-attempt : {A : Type 0} (m : Method S A) → Keeps P m → Keeps P (attempt m)
  Keeps-attempt m k = record { at = λ w h. k.at w h }

  pub Keeps-call :
      {A : Type 0} (f : S → Result A × S) → ((n : S) → P n → P (f n).1) → Keeps P (call f)
  unfolding call
  Keeps-call f k = record { at = λ w h. ground (arith, k w.held h) }

  pub Keeps-transaction : {A : Type 0} (m : Method S A) → Keeps P m → Keeps P (transaction m)
  unfolding transaction
  Keeps-transaction m k = record {
    at = λ w h. elim (Bool-cases (failing w.faults)) [
      | inl e ↦ rw e h
      | inr e ↦ rw e (settle_keeps P w.held (m (spent w)).0 (m (spent w)).1 h (k.at (spent w) h))
    ];
  }

module _ {S : Type 0} {P : S → Type 0} where
  pub Keeps-select : {A : Type 0} (f : S → A) → Keeps P (select f)
  unfolding select
  Keeps-select f = Keeps-call _ (λ s h. h)

  pub Keeps-update : (f : S → S) → ((s : S) → P s → P (f s)) → Keeps P (update f)
  unfolding update
  Keeps-update f k = Keeps-call _ k

  replaced_keeps :
      (f : S → Result S) (s : S) (r : Result S)
      → f s ≡ r
      → ((t : S) → f s ≡ ok t → P t)
      → P s
      → P (replaced_or s r).1
  replaced_keeps f s (ok t) e k h = k t e
  replaced_keeps f s (err x) e k h = h

  -- What a checked statement leaves has `P` if each state that passes its checks has.
  pub Keeps-update_checked :
      (f : S → Result S) → ((s t : S) → f s ≡ ok t → P s → P t) → Keeps P (update_checked f)
  unfolding update_checked
  Keeps-update_checked f k =
      Keeps-call _ (λ s h. replaced_keeps f s (f s) refl (λ t e. k s t e h) h)

  returned_keeps :
      {A : Type 0} (f : S → Result (A × S)) (s : S) (r : Result (A × S))
      → f s ≡ r
      → ((n : A) (t : S) → f s ≡ ok (n, t) → P t)
      → P s
      → P (returned_or s r).1
  returned_keeps f s (ok (n, t)) e k h = k n t e
  returned_keeps f s (err x) e k h = h

  pub Keeps-update_returning :
      {A : Type 0} (f : S → Result (A × S))
      → ((s : S) (n : A) (t : S) → f s ≡ ok (n, t) → P s → P t)
      → Keeps P (update_returning f)
  unfolding update_returning
  Keeps-update_returning f k =
      Keeps-call _ (λ s h. returned_keeps f s (f s) refl (λ n t e. k s n t e h) h)

module _ {P : Node → Type 0} where
  pub Keeps-query : {A : Type 0} (f : Store → A) → Keeps P (query f)
  unfolding query
  Keeps-query f = Keeps-call _ (λ n h. h)

  pub Keeps-exec : (f : Store → Store) → ((n : Node) → P n → P (on_store f n)) → Keeps P (exec f)
  unfolding exec
  Keeps-exec f k = Keeps-call _ k

  pub Keeps-exec_checked :
      (f : Store → Result Store)
      → ((n : Node) → P n → P (kept_or n (f n.store)).1)
      → Keeps P (exec_checked f)
  unfolding exec_checked
  Keeps-exec_checked f k = Keeps-call _ k

pub ruleset keeps_rules = (
  Keeps-pure, Keeps-raise, Keeps-lift, Keeps-gets, Keeps-if, Keeps-bind, Keeps-attempt, Keeps-query,
  Keeps-transaction, Keeps-select, Keeps-guard,
)
