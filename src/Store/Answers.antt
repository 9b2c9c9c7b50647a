-- ===== src/Store/Answers.antt =====
-- When the claim of store.go succeeds.
use rmvpn.Base.{◌≤◌, ◌≡◌, String, true, none, some, [], arith, eq_iff}
use rmvpn.Base.Time.{Time, unix}
use rmvpn.Base.Outcome.{ok}
use rmvpn.Node.Tables.{EnrollmentRow}
use rmvpn.Exec.{World, transaction, exec, exec_rows, call}
use rmvpn.Store.State.{claim, claim_body, claimable, put_states}

-- With a database that answers, a claim by the hash of a token that nobody has claimed and that has
-- not expired succeeds.
pub claim_complete :
    (token_hash url key cert ca : String) (now : Time) (w : World) (row : EnrollmentRow)
    → w.held.store.enrollment ≡ some row
    → row.token_hash ≡ token_hash
    → row.claimed_at ≡ none
    → unix now ≤ row.expires_at
    → w.faults ≡ []
    → (claim token_hash url key cert ca now w).0 ≡ ok tt
unfolding claim transaction claim_body exec_rows call put_states exec
claim_complete token_hash url key cert ca now w row e h c t f =
    let hit : claimable token_hash now row ≡ true =
      ground (arith, eq_iff row.token_hash token_hash) in
    ground (arith, hit)
