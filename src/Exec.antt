-- ===== src/Exec.antt =====
-- Methods that use the database or another service and may fail. `faults` is what the environment
-- will answer: each call of the driver or of a service takes one entry, and `true` makes it return
-- an error with nothing changed. Past the end of the list no call fails. A theorem for every
-- `faults` holds wherever calls fail.
pub mod Keeps
pub mod Success
use rmvpn.Base.{ℕ, Bool, true, false, Option, none, some, List, [], ◌∷◌, if◌then◌else◌}
use rmvpn.Base.Outcome.{Error, backend, Result, ok, err, problem}
use rmvpn.Node.{Node}
use rmvpn.Node.Tables.{Store}

-- What a process holds, which is a `Node` for the methods of the node agent, and what will fail.
pub record Run (S : Type 0) : Type 0 where
  pub held : S
  pub faults : List Bool

abbrev pub World : Type 0
World = Run Node

abbrev pub Method : Type 0 → Type 0 → Type 0
Method S A = Run S → Result A × Run S

abbrev pub M : Type 0 → Type 0
M A = Method Node A

abbrev pub failing : List Bool → Bool
failing [] = false
failing (b ∷ bs) = b

abbrev pub later : List Bool → List Bool
later [] = []
later (b ∷ bs) = bs

abbrev pub spent : {S : Type 0} → Run S → Run S
spent w = record w { faults = later w.faults }

abbrev pub pure : {S A : Type 0} → A → Method S A
pure a w = (ok a, w)

abbrev pub raise : {S A : Type 0} → Error → Method S A
raise e w = (err e, w)

abbrev pub lift : {S A : Type 0} → Result A → Method S A
lift r w = (r, w)

abbrev pub follow : {S A B : Type 0} → (A → Method S B) → Result A → Method S B
follow f (ok a) w = f a w
follow f (err e) w = (err e, w)

infixl 5 ◌>>=◌ ◌>>◌
abbrev pub ◌>>=◌ : {S A B : Type 0} → Method S A → (A → Method S B) → Method S B
◌>>=◌ m f w = follow f (m w).0 (m w).1

abbrev pub ◌>>◌ : {S A B : Type 0} → Method S A → Method S B → Method S B
m >> n = m >>= λ _. n

-- The error is dropped, as where Go binds it to `_`; what was changed stays.
abbrev pub dropped : {A : Type 0} → Result A → Option A
dropped (ok a) = some a
dropped (err e) = none

abbrev pub attempt : {S A : Type 0} → Method S A → Method S (Option A)
attempt m w = (ok (dropped (m w).0), (m w).1)

abbrev pub gets : {S A : Type 0} → (S → A) → Method S A
gets f w = (ok (f w.held), w)

abbrev pub modify : {S : Type 0} → (S → S) → Method S (Unit {0})
modify f w = (ok tt, record w { held = f w.held })

-- One call of a service, which answers and may change the state.
unfoldable pub call : {S A : Type 0} → (S → Result A × S) → Method S A
call f w =
    if failing w.faults
    then (err backend, spent w)
    else ((f w.held).0, record { held = (f w.held).1; faults = later w.faults })

abbrev pub on_store : (Store → Store) → Node → Node
on_store f n = record n { store = f n.store }

abbrev pub kept_or : Node → Result Store → Result (Unit {0}) × Node
kept_or n (ok s) = (ok tt, record n { store = s })
kept_or n (err e) = (err e, n)

-- One SQL statement: a SELECT, one that always applies, and one that a constraint may refuse.
unfoldable pub query : {A : Type 0} → (Store → A) → M A
unfolding call
query f = call (λ n. (ok (f n.store), n))

unfoldable pub exec : (Store → Store) → M (Unit {0})
unfolding call
exec f = call (λ n. (ok tt, on_store f n))

unfoldable pub exec_checked : (Store → Result Store) → M (Unit {0})
unfolding call
exec_checked f = call (λ n. kept_or n (f n.store))

-- Commit, or Rollback at an error, of which a failed Commit is one.
settle : {S A : Type 0} → S → Result A × Run S → Result A × Run S
settle n (err e, w) = (err e, record w { held = n })
settle n (ok a, w) =
    if failing w.faults then (err backend, record (spent w) { held = n }) else (ok a, spent w)

-- BeginTx, the body and its end.
unfoldable pub transaction : {S A : Type 0} → Method S A → Method S A
unfolding settle
transaction body w =
    if failing w.faults then (err backend, spent w) else settle w.held (body (spent w))

abbrev pub count_on : Node → ℕ × Store → Result ℕ × Node
count_on n (rows, s) = (ok rows, record n { store = s })

-- An UPDATE whose RowsAffected is read.
unfoldable pub exec_rows : (Store → ℕ × Store) → M ℕ
unfolding call
exec_rows f = call (λ n. count_on n (f n.store))

abbrev pub guard : {S : Type 0} → Bool → Error → Method S (Unit {0})
guard true e = pure tt
guard false e = raise e

abbrev pub or_raise : {S A : Type 0} → Error → Option A → Method S A
or_raise e none = raise e
or_raise e (some a) = pure a

-- The same statements where the state is the database's alone.
unfoldable pub select : {S A : Type 0} → (S → A) → Method S A
unfolding call
select f = call (λ s. (ok (f s), s))

unfoldable pub update : {S : Type 0} → (S → S) → Method S (Unit {0})
unfolding call
update f = call (λ s. (ok tt, f s))

abbrev pub replaced_or : {S : Type 0} → S → Result S → Result (Unit {0}) × S
replaced_or s (ok t) = (ok tt, t)
replaced_or s (err e) = (err e, s)

unfoldable pub update_checked : {S : Type 0} → (S → Result S) → Method S (Unit {0})
unfolding call
update_checked f = call (λ s. replaced_or s (f s))

abbrev pub returned_or : {S A : Type 0} → S → Result (A × S) → Result A × S
returned_or s (ok (a, t)) = (ok a, t)
returned_or s (err e) = (err e, s)

-- A statement that a constraint may refuse and that answers, by its RowsAffected or its RETURNING.
unfoldable pub update_returning : {S A : Type 0} → (S → Result (A × S)) → Method S A
unfolding call
update_returning f = call (λ s. returned_or s (f s))

-- An answer of the handlers of controlplane/app.go and admin.go: problems that the code itself
-- raises stand, any other error becomes `other`.
abbrev pub answered_as : Error → Error → Error
answered_as other (problem status kind) = problem status kind
answered_as other e = other

abbrev pub answered : {S A : Type 0} → Error → Result A × Run S → Result A × Run S
answered other (ok a, w) = (ok a, w)
answered other (err e, w) = (err (answered_as other e), w)

-- Begin, the body and its end, in a handler that answers a failed Begin with `begun` and another
-- failure with `other`.
unfoldable pub handled : {S A : Type 0} → Error → Error → Method S A → Method S A
unfolding transaction
handled begun other body w =
    if failing w.faults then (err begun, spent w) else answered other (transaction body w)
