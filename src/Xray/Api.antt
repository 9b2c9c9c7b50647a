-- ===== src/Xray/Api.antt =====
-- internal/xray/manager.go: the calls of the Xray API. What Xray does with its users is not in this
-- repository: `Inbound` says what the manager relies on.
use rmvpn.Base.{String, ◌≡◌, Option, none, some, List, [], ◌∷◌, ◌==◌, if◌then◌else◌}
use rmvpn.Base.Outcome.{Result, ok, err, backend, api_address_missing}
use rmvpn.Node.{Node}
use rmvpn.Exec.{M, raise, call, ◌>>◌}

abbrev pub Users : Type 0
Users = List (String × String)

abbrev pub lookup : String → Users → Option String
lookup id [] = none
lookup id ((i, user) ∷ rest) = let later = lookup id rest in if i == id then some user else later

abbrev pub or_same : Users → Option Users → Users
or_same users none = users
or_same users (some next) = next

-- AddUserOperation and RemoveUserOperation of the inbound, by device: an email is the device's ID
-- and "@risevpn". `none` is a refusal: the email is in use, or is not found.
pub record Inbound : Type 0 where
  pub address : String
  pub adds : String → String → Users → Option Users
  pub removes : String → Users → Option Users
  pub adds_fresh :
      (id user : String) (users : Users)
      → lookup id users ≡ none
      → (next : Users) × (adds id user users ≡ some next)
  pub adds_used :
      (id user old : String) (users : Users)
      → lookup id users ≡ some old
      → adds id user users ≡ none
  pub lookup-adds :
      (id user j : String) (users next : Users)
      → adds id user users ≡ some next
      → lookup j next ≡ (if id == j then some user else lookup j users)
  pub lookup-removes :
      (id j : String) (users : Users)
      → lookup j (or_same users (removes id users)) ≡ (if id == j then none else lookup j users)

abbrev pub with_users : Node → Users → Node
with_users n users = record n { users = users }

abbrev pub taken_over : Node → Option Users → Result (Unit {0}) × Node
taken_over n none = (err backend, n)
taken_over n (some users) = (ok tt, with_users n users)

module _ (x : Inbound) where
  unfoldable pub dial : M (Unit {0})
  unfolding call
  dial = if x.address == "" then raise api_address_missing else call (λ n. (ok tt, n))

  -- A user with no account of VLESS or with another email is left out of the map by the source.
  unfoldable pub current : M Users
  unfolding call dial
  current = do dial; call (λ n. (ok n.users, n))

  unfoldable pub add_user : String → String → M (Unit {0})
  unfolding call dial
  add_user id user = do dial; call (λ n. taken_over n (x.adds id user n.users))

  -- "not found" counts as success.
  unfoldable pub remove : String → M (Unit {0})
  unfolding call dial
  remove id = do dial; call (λ n. (ok tt, with_users n (or_same n.users (x.removes id n.users))))
