-- ===== src/Exec/Success.antt =====
-- Inversion of methods: what a result says of the parts, and what a failed transaction leaves.
use rmvpn.Base.{◌≡◌, refl, sym, subst, Bool, true, false, Option, none, some, arith, if◌then◌else◌}
use rmvpn.Base.Outcome.{Error, Result, ok, err, backend}
use rmvpn.Exec.Keeps.{Keeps, Keeps-raise, Keeps-pure}
use rmvpn.Exec.{
  update, update_checked, update_returning, select, replaced_or, returned_or, call, Run, Method,
  failing, spent, follow, ◌>>=◌, guard, or_raise, settle, transaction, lift, answered, handled,
}

module _ {S A B : Type 0} where
  followed :
      (m : Method S A) (f : A → Method S B) (w : Run S) (r : Result A) {b : B}
      → (m w).0 ≡ r
      → (follow f r (m w).1).0 ≡ ok b
      → (a : A) × ((m w).0 ≡ ok a) × ((f a (m w).1).0 ≡ ok b) × (((m >>= f) w).1 ≡ (f a (m w).1).1)
  followed m f w (ok a) p q = (a, p, q, rw p)
  followed m f w (err x) p q = cc

  -- A sequence that returns has a first part that returned; it ends where its second part ends.
  pub >>=-eq-ok :
      (m : Method S A) (f : A → Method S B) (w : Run S) {b : B}
      → ((m >>= f) w).0 ≡ ok b
      → (a : A) × ((m w).0 ≡ ok a) × ((f a (m w).1).0 ≡ ok b) × (((m >>= f) w).1 ≡ (f a (m w).1).1)
  >>=-eq-ok m f w e = followed m f w (m w).0 refl e

module _ {S A : Type 0} where
  settle_ok :
      (n : S) (r : Result A) (w : Run S) {a : A}
      → (settle n (r, w)).0 ≡ ok a
      → (r ≡ ok a) × ((settle n (r, w)).1.held ≡ w.held)
  unfolding settle
  settle_ok n (ok a) w e = ground arith
  settle_ok n (err x) w e = cc

  settle_err :
      (n : S) (r : Result A) (w : Run S) {x : Error}
      → (settle n (r, w)).0 ≡ err x
      → (settle n (r, w)).1.held ≡ n
  unfolding settle
  settle_err n (ok a) w e = ground arith
  settle_err n (err x) w e = refl

  begun_ok :
      (b : Bool) (n : S) (v : Run S) (r : Result A) (w : Run S) {a : A}
      → (if b then (err backend, v) else settle n (r, w)).0 ≡ ok a
      → (r ≡ ok a) × ((if b then (err backend, v) else settle n (r, w)).1.held ≡ w.held)
  begun_ok true n v r w e = cc
  begun_ok false n v r w e = settle_ok n r w e

  begun_err :
      (b : Bool) (n : S) (v : Run S) (r : Result A) (w : Run S) {x : Error}
      → v.held ≡ n
      → (if b then (err backend, v) else settle n (r, w)).0 ≡ err x
      → (if b then (err backend, v) else settle n (r, w)).1.held ≡ n
  begun_err true n v r w same e = same
  begun_err false n v r w same e = settle_err n r w e

  -- A transaction that returns has run its body to the end and kept what the body did.
  pub transaction-eq-ok :
      (m : Method S A) (w : Run S) {a : A}
      → (transaction m w).0 ≡ ok a
      → ((m (spent w)).0 ≡ ok a) × ((transaction m w).1.held ≡ (m (spent w)).1.held)
  unfolding transaction
  transaction-eq-ok m w e =
      begun_ok (failing w.faults) w.held (spent w) (m (spent w)).0 (m (spent w)).1 e

  -- A transaction that fails leaves everything as it was.
  pub transaction_atomic :
      (m : Method S A) (w : Run S) {x : Error}
      → (transaction m w).0 ≡ err x
      → (transaction m w).1.held ≡ w.held
  unfolding transaction
  transaction_atomic m w e =
      begun_err (failing w.faults) w.held (spent w) (m (spent w)).0 (m (spent w)).1 refl e

-- An invariant that the body has wherever it runs to its end is one of the transaction.
pub transaction_result :
    {S A : Type 0} (P : S → Type 0) (m : Method S A) (w : Run S) (r : Result A)
    → ((a : A) → (m (spent w)).0 ≡ ok a → P w.held → P (m (spent w)).1.held)
    → (transaction m w).0 ≡ r
    → P w.held
    → P (transaction m w).1.held
transaction_result P m w (ok a) k e h =
    let (body, same) = transaction-eq-ok m w e in subst P (sym same) (k a body h)
transaction_result P m w (err x) k e h = subst P (sym (transaction_atomic m w e)) h

pub Keeps-transaction_ok :
    {S A : Type 0} {P : S → Type 0} (m : Method S A)
    → ((w : Run S) (a : A) → (m w).0 ≡ ok a → P w.held → P (m w).1.held)
    → Keeps P (transaction m)
Keeps-transaction_ok {P = P} m k = record {
  at = λ w h. transaction_result P m w (transaction m w).0 (k (spent w)) refl h;
}

answered_held :
    {S A : Type 0} (other : Error) (r : Result A) (w : Run S)
    → (answered other (r, w)).1.held ≡ w.held
answered_held other (ok a) w = refl
answered_held other (err e) w = refl

answered_keeps :
    {S A : Type 0} (P : S → Type 0) (b : Bool) (begun other : Error) (v : Run S)
    (r : Result A × Run S)
    → P v.held
    → P r.1.held
    → P (if b then (err begun, v) else answered other r).1.held
answered_keeps P true begun other v r hv hr = hv
answered_keeps P false begun other v r hv hr = subst P (sym (answered_held other r.0 r.1)) hr

pub Keeps-handled :
    {S A : Type 0} {P : S → Type 0} (begun other : Error) (m : Method S A)
    → ((w : Run S) (a : A) → (m w).0 ≡ ok a → P w.held → P (m w).1.held)
    → Keeps P (handled begun other m)
unfolding handled
Keeps-handled {P = P} begun other m k = record {
  at = λ w h.
      answered_keeps P (failing w.faults) begun other (spent w) (transaction m w) h
        ((Keeps-transaction_ok {P = P} m k).at w h);
}

-- What the body relates the state before to the state after by, wherever it runs to its end.
pub handled_related :
    {S A : Type 0} (R : S → S → Type 0) (begun other : Error) (m : Method S A) (w : Run S)
    → ((s : S) → R s s)
    → ((v : Run S) (a : A) → (m v).0 ≡ ok a → R v.held (m v).1.held)
    → R w.held (handled begun other m w).1.held
unfolding handled
handled_related R begun other m w same k =
    answered_keeps (R w.held) (failing w.faults) begun other (spent w) (transaction m w)
      (same w.held)
      (transaction_result (R w.held) m w _ (λ a e h. k (spent w) a e) refl (same w.held))

pub Keeps-or_raise :
    {S A : Type 0} {P : S → Type 0} (x : Error) (o : Option A) → Keeps P (or_raise x o)
Keeps-or_raise x none = Keeps-raise x
Keeps-or_raise x (some a) = Keeps-pure a

pub guard-eq-ok :
    {S : Type 0} (b : Bool) (x : Error) (w : Run S) {u : Unit {0}}
    → (guard b x w).0 ≡ ok u
    → b ≡ true
guard-eq-ok true x w e = refl
guard-eq-ok false x w e = cc

pub or_raise-eq-ok :
    {S A : Type 0} (x : Error) (o : Option A) (w : Run S) {a : A}
    → (or_raise x o w).0 ≡ ok a
    → o ≡ some a
or_raise-eq-ok x none w e = cc
or_raise-eq-ok x (some b) w e = ground arith

pub guard_world : {S : Type 0} (b : Bool) (x : Error) (w : Run S) → (guard b x w).1 ≡ w
guard_world true x w = refl
guard_world false x w = refl

-- A sequence that begins with a test, and one that begins with an optional value, and return.
pub guarded :
    {S B : Type 0} (b : Bool) (x : Error) (m : Method S B) (w : Run S) {v : B}
    → ((guard b x >>= λ _. m) w).0 ≡ ok v
    → (b ≡ true) × ((m w).0 ≡ ok v) × (((guard b x >>= λ _. m) w).1 ≡ (m w).1)
guarded true x m w e = (refl, e, refl)
guarded false x m w e = cc

pub opted :
    {S A B : Type 0} (x : Error) (o : Option A) (f : A → Method S B) (w : Run S) {v : B}
    → ((or_raise x o >>= f) w).0 ≡ ok v
    → (a : A) × (o ≡ some a) × ((f a w).0 ≡ ok v) × (((or_raise x o >>= f) w).1 ≡ (f a w).1)
opted x none f w e = cc
opted x (some a) f w e = (a, refl, e, refl)

-- A sequence that begins with a result.
pub lifted :
    {S B : Type 0} (r : Result (Unit {0})) (m : Method S B) (w : Run S) {v : B}
    → ((lift r >>= λ _. m) w).0 ≡ ok v
    → (r ≡ ok tt) × ((m w).0 ≡ ok v) × (((lift r >>= λ _. m) w).1 ≡ (m w).1)
lifted (ok u) m w e = (refl, e, refl)
lifted (err x) m w e = cc

module _ {S : Type 0} where
  -- A call that returns was not made to fail; its answer and its state are the service's.
  pub call-eq-ok :
      {A : Type 0} (f : S → Result A × S) (w : Run S) {a : A}
      → (call f w).0 ≡ ok a
      → ((f w.held).0 ≡ ok a) × ((call f w).1.held ≡ (f w.held).1)
  unfolding call
  call-eq-ok f w e = ground arith

  pub select-eq-ok :
      {A : Type 0} (f : S → A) (w : Run S) {a : A}
      → (select f w).0 ≡ ok a
      → (f w.held ≡ a) × ((select f w).1.held ≡ w.held)
  unfolding select
  select-eq-ok f w e = let (r, s) = call-eq-ok (λ s. (ok (f s), s)) w e in (ground arith, s)

  -- A SELECT changes nothing, whether it returns or fails.
  pub select-held : {A : Type 0} (f : S → A) (w : Run S) → (select f w).1.held ≡ w.held
  unfolding select call
  select-held f w = ground arith

  pub update-eq-ok :
      (f : S → S) (w : Run S) {u : Unit {0}}
      → (update f w).0 ≡ ok u
      → (update f w).1.held ≡ f w.held
  unfolding update
  update-eq-ok f w e = (call-eq-ok (λ s. (ok tt, f s)) w e).1

  replaced_ok :
      (s : S) (r : Result S) {u : Unit {0}}
      → (replaced_or s r).0 ≡ ok u
      → r ≡ ok (replaced_or s r).1
  replaced_ok s (ok t) e = refl
  replaced_ok s (err x) e = cc

  pub update_checked-eq-ok :
      (f : S → Result S) (w : Run S) {u : Unit {0}}
      → (update_checked f w).0 ≡ ok u
      → f w.held ≡ ok (update_checked f w).1.held
  unfolding update_checked
  update_checked-eq-ok f w e =
      let (r, s) = call-eq-ok (λ s. replaced_or s (f s)) w e in
      rw s (replaced_ok w.held (f w.held) r)

  returned_ok :
      {A : Type 0} (s : S) (r : Result (A × S)) {n : A}
      → (returned_or s r).0 ≡ ok n
      → r ≡ ok (n, (returned_or s r).1)
  returned_ok s (ok (m, t)) e = ground arith
  returned_ok s (err x) e = cc

  pub update_returning-eq-ok :
      {A : Type 0} (f : S → Result (A × S)) (w : Run S) {n : A}
      → (update_returning f w).0 ≡ ok n
      → f w.held ≡ ok (n, (update_returning f w).1.held)
  unfolding update_returning
  update_returning-eq-ok f w e =
      let (r, s) = call-eq-ok (λ s. returned_or s (f s)) w e in
      rw s (returned_ok w.held (f w.held) r)
