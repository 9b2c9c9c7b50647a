-- ===== src/Store/Settings.antt =====
-- The table `state` as a map: what a write and a series of writes leave at each key.
use rmvpn.Base.{◌≡◌, refl, String, some, List, [], ◌∷◌, ◌==◌, eq_iff, arith, if◌then◌else◌, ◌∙◌, ap}
use rmvpn.Base.Outcome.{ok}
use rmvpn.Node.{Node}
use rmvpn.Exec.{World, exec}
use rmvpn.Exec.Success.{>>=-eq-ok}
use rmvpn.Store.State.{put_states, put, lookup, put_state}

pub lookup-put :
    (k j v : String) (m : List (String × String))
    → lookup j (put k v m) ≡ (if k == j then some v else lookup j m)
unfolding lookup put
lookup-put k j v [] = refl
lookup-put k j v ((i, u) ∷ m) =
    ground (arith, eq_iff k j, eq_iff i k, eq_iff i j, lookup-put k j v m)

abbrev pub put_all : List (String × String) → List (String × String) → List (String × String)
put_all [] m = m
put_all ((k, v) ∷ rest) m = put_all rest (put k v m)

abbrev pub with_state : List (String × String) → Node → Node
with_state values n = record n { store = record n.store { state = put_all values n.store.state } }

exec-eq-ok :
    (k v : String) (w : World)
    → (exec (put_state k v) w).0 ≡ ok tt
    → (exec (put_state k v) w).1.held ≡ with_state ((k, v) ∷ []) w.held
unfolding exec
exec-eq-ok k v w e = ground arith

-- A series of writes that returns has made them all, in order, and has changed nothing else.
pub put_states-eq-ok :
    (values : List (String × String)) (w : World)
    → (put_states values w).0 ≡ ok tt
    → (put_states values w).1.held ≡ with_state values w.held
unfolding put_states
put_states-eq-ok [] w e = refl
put_states-eq-ok ((k, v) ∷ rest) w e =
    let (u, first, second, same) = >>=-eq-ok (exec (put_state k v)) (λ _. put_states rest) w e in
    ap (λ (x : World). x.held) same
    ∙ put_states-eq-ok rest _ second
    ∙ ap (with_state rest) (exec-eq-ok k v w first)
