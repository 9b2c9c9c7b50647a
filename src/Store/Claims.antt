-- ===== src/Store/Claims.antt =====
-- The claim of the node: a token is good for one claim, and a claim that fails changes nothing.
use rmvpn.Base.{
  ℕ, ◌≤◌, ◌≡◌, ◌≢◌, refl, String, Option, none, some, eqb, eqb_iff, eq_iff, ap, ◌∙◌, sym, subst,
  arith,
}
use rmvpn.Base.Time.{Time, unix}
use rmvpn.Base.Outcome.{ok}
use rmvpn.Node.{Node}
use rmvpn.Node.Tables.{Store, EnrollmentRow}
use rmvpn.Exec.{World, spent, exec_rows}
use rmvpn.Exec.Success.{transaction-eq-ok, >>=-eq-ok, guarded}
use rmvpn.Store.Settings.{put_all, with_state, put_states-eq-ok}
use rmvpn.Store.State.{claim, claim_body, claim_row, claim_states}

-- The row that a successful claim finds, and what it leaves there.
pub record Claims (s t : Option EnrollmentRow) (token_hash : String) (now : Time) : Type 0 where
  pub row : EnrollmentRow
  pub before : s ≡ some row
  pub hash_matches : row.token_hash ≡ token_hash
  pub unclaimed : row.claimed_at ≡ none
  pub unexpired : unix now ≤ row.expires_at
  pub after : t ≡ some (record row { claimed_at = some (unix now) })

claim_row_one :
    (token_hash : String) (now : Time) (s : Store) (o : Option EnrollmentRow)
    → s.enrollment ≡ o
    → (claim_row token_hash now s o).0 ≡ 1
    → Claims s.enrollment (claim_row token_hash now s o).1.enrollment token_hash now
claim_row_one token_hash now s none e h = cc
claim_row_one token_hash now s (some row) e h = record {
  row = row;
  before = e;
  hash_matches = ground (arith, eq_iff row.token_hash token_hash);
  unclaimed = ground arith;
  unexpired = ground arith;
  after = ground arith;
}

claim_row_state :
    (token_hash : String) (now : Time) (s : Store) (o : Option EnrollmentRow)
    → (claim_row token_hash now s o).1.state ≡ s.state
claim_row_state token_hash now s none = refl
claim_row_state token_hash now s (some row) = ground arith

claim_rows-eq-ok :
    (token_hash : String) (now : Time) (w : World) {rows : ℕ}
    → (exec_rows (λ s. claim_row token_hash now s s.enrollment) w).0 ≡ ok rows
    → ((claim_row token_hash now w.held.store w.held.store.enrollment).0 ≡ rows)
      × ((exec_rows (λ s. claim_row token_hash now s s.enrollment) w).1.held ≡ record w.held {
        store = (claim_row token_hash now w.held.store w.held.store.enrollment).1;
      })
unfolding exec_rows
claim_rows-eq-ok token_hash now w e = ground arith

module _ (token_hash url key cert ca : String) (now : Time) where
  body_node :
      (w : World)
      → (claim_body token_hash url key cert ca now w).0 ≡ ok tt
      → let claimed = claim_row token_hash now w.held.store w.held.store.enrollment in
        (claimed.0 ≡ 1)
        × ((claim_body token_hash url key cert ca now w).1.held
            ≡ with_state (claim_states url key cert ca) (record w.held { store = claimed.1 }))
  unfolding claim_body
  body_node w e =
      let (rows, first, e', s') =
        >>=-eq-ok (exec_rows (λ s. claim_row token_hash now s s.enrollment)) _ w e in
      let v : World = (exec_rows (λ s. claim_row token_hash now s s.enrollment) w).1 in
      let (one, last, s'') = guarded (eqb rows 1) _ _ v e' in
      let (count, node) = claim_rows-eq-ok token_hash now w first in
      (
        count ∙ (eqb_iff rows 1).0 one,
        ap (λ (v : World). v.held) (s' ∙ s'')
            ∙ put_states-eq-ok (claim_states url key cert ca) v last
            ∙ ap (with_state (claim_states url key cert ca)) node,
      )

  -- A claim that returns had the hash of the node's token, which nobody had claimed and which had
  -- not expired; it leaves the token claimed now, and the controller's four settings in place.
  pub claim_sound :
      (w : World)
      → (claim token_hash url key cert ca now w).0 ≡ ok tt
      → let t = (claim token_hash url key cert ca now w).1.held.store in
        Claims w.held.store.enrollment t.enrollment token_hash now
        × (t.state ≡ put_all (claim_states url key cert ca) w.held.store.state)
  unfolding claim
  claim_sound w e =
      let (body, node) = transaction-eq-ok (claim_body token_hash url key cert ca now) w e in
      let (one, end) = body_node (spent w) body in
      let now_at = node ∙ end in
      (
        subst (λ (n : Node). Claims w.held.store.enrollment n.store.enrollment token_hash now)
            (sym now_at)
            (claim_row_one token_hash now w.held.store w.held.store.enrollment refl one),
        ap (λ (n : Node). n.store.state) now_at
            ∙ ap (put_all (claim_states url key cert ca))
                (claim_row_state token_hash now w.held.store w.held.store.enrollment),
      )

-- After a claim that returned, no other claim returns, with whatever token, settings and time, until
-- the enrollment row is replaced.
pub claim_once :
    (token_hash url key cert ca : String) (now : Time) (w : World)
    → (claim token_hash url key cert ca now w).0 ≡ ok tt
    → (token_hash' url' key' cert' ca' : String) (now' : Time) (v : World)
    → v.held.store.enrollment ≡ (claim token_hash url key cert ca now w).1.held.store.enrollment
    → (claim token_hash' url' key' cert' ca' now' v).0 ≢ ok tt
claim_once token_hash url key cert ca now w e token_hash' url' key' cert' ca' now' v same e' =
    let first = (claim_sound token_hash url key cert ca now w e).0 in
    let second = (claim_sound token_hash' url' key' cert' ca' now' v e').0 in
    twice first.row second.row (sym second.before ∙ same ∙ first.after) second.unclaimed
  where
    twice :
        (row row' : EnrollmentRow)
        → some row' ≡ some (record row { claimed_at = some (unix now) })
        → row'.claimed_at ≡ none
        → ⊥
    twice row row' p q = ground arith
