-- ===== src/Store/State.antt =====
-- store.go: the tables `state` and `enrollment`.
use rmvpn.Base.{
  ℕ, String, Bool, ◌&&◌, Option, none, some, List, [], ◌∷◌, ◌==◌, eqb, leb, if◌then◌else◌,
}
use rmvpn.Base.Time.{Time, unix, of_unix}
use rmvpn.Base.Outcome.{claim_refused}
use rmvpn.Node.Tables.{Store, EnrollmentRow}
use rmvpn.Exec.{M, pure, guard, query, exec, exec_rows, transaction, ◌>>=◌, ◌>>◌}

unfoldable pub lookup : String → List (String × String) → Option String
lookup key [] = none
lookup key ((k, v) ∷ rest) = let later = lookup key rest in if k == key then some v else later

-- INSERT … ON CONFLICT(key) DO UPDATE SET value=excluded.value
unfoldable pub put : String → String → List (String × String) → List (String × String)
put key value [] = (key, value) ∷ []
put key value ((k, v) ∷ rest) =
    let later = put key value rest in if k == key then (k, value) ∷ rest else (k, v) ∷ later

abbrev pub put_state : String → String → Store → Store
put_state key value s = record s { state = put key value s.state }

unfoldable pub state_value : String → M (Option String)
unfolding query lookup
state_value key = query (λ s. lookup key s.state)

unfoldable pub set_state : String → String → M (Unit {0})
unfolding exec put
set_state key value = exec (put_state key value)

unfoldable pub put_states : List (String × String) → M (Unit {0})
unfolding exec put
put_states [] = pure tt
put_states ((key, value) ∷ rest) = exec (put_state key value) >> put_states rest

-- The list gives the entries in the order in which the range over the map meets them.
unfoldable pub set_states : List (String × String) → M (Unit {0})
unfolding transaction put_states
set_states values = transaction (put_states values)

pub record Enrollment : Type 0 where
  pub token : String
  pub token_hash : String
  pub expires_at : Time
  pub claimed_at : Option Time

unfoldable pub replace_enrollment : String → String → Time → M (Unit {0})
unfolding exec
replace_enrollment token token_hash expires = exec (λ s. record s { enrollment = some row })
  where
    row : EnrollmentRow
    row = record {
      token = token;
      token_hash = token_hash;
      expires_at = unix expires;
      claimed_at = none;
    }

abbrev pub claim_time : Option ℕ → Option Time
claim_time none = none
claim_time (some s) = some (of_unix s)

abbrev pub scan_enrollment : Option EnrollmentRow → Option Enrollment
scan_enrollment none = none
scan_enrollment (some row) = some (record {
  token = row.token;
  token_hash = row.token_hash;
  expires_at = of_unix row.expires_at;
  claimed_at = claim_time row.claimed_at;
})

unfoldable pub enrollment : M (Option Enrollment)
unfolding query
enrollment = query (λ s. scan_enrollment s.enrollment)

abbrev pub is_unclaimed : Option ℕ → Bool
is_unclaimed none = Bool.true
is_unclaimed (some t) = Bool.false

-- WHERE id=1 AND token_hash=? AND claimed_at IS NULL AND expires_at>=?
abbrev pub claimable : String → Time → EnrollmentRow → Bool
claimable token_hash now row =
    row.token_hash == token_hash && is_unclaimed row.claimed_at && leb (unix now) row.expires_at

abbrev pub claim_row : String → Time → Store → Option EnrollmentRow → ℕ × Store
claim_row token_hash now s none = (0, s)
claim_row token_hash now s (some row) =
    if claimable token_hash now row
    then (1, record s { enrollment = some (record row { claimed_at = some (unix now) }) })
    else (0, s)

abbrev pub claim_states : String → String → String → String → List (String × String)
claim_states url key cert ca =
    ("controller_url", url)
    ∷ ("controller_public_key", key)
    ∷ ("node_certificate", cert)
    ∷ ("controller_ca", ca)
    ∷ []

unfoldable pub claim_body : String → String → String → String → String → Time → M (Unit {0})
unfolding exec_rows put_states
claim_body token_hash url key cert ca now = do
  rows ← exec_rows (λ s. claim_row token_hash now s s.enrollment)
  guard (eqb rows 1) claim_refused
  put_states (claim_states url key cert ca)

unfoldable pub claim : String → String → String → String → String → Time → M (Unit {0})
unfolding transaction claim_body
claim token_hash url key cert ca now = transaction (claim_body token_hash url key cert ca now)
