-- ===== src/Plane/History.antt =====
-- The requests that book on wallets, in any order: creditWallet, adjustWallet and changePlan.
use rmvpn.Base.{String, Bool, Option, List, [], ◌∷◌}
use rmvpn.Base.Time.{Time}
use rmvpn.Plane.Tables.{Plane}
use rmvpn.Plane.Provision.{Signer}
use rmvpn.Plane.Wallet.{WalletChange, credit_wallet, adjust_wallet}
use rmvpn.Plane.Wallet.Ledger.{IsSound}
use rmvpn.Plane.Wallet.Bookings.{credit_wallet-IsSound, adjust_wallet-IsSound}
use rmvpn.Plane.Plans.{change_plan}
use rmvpn.Plane.Plans.Payment.{change_plan-IsSound}
use rmvpn.Exec.{Run}

pub data Request : Type 0 where
  credit : (actor user fresh : String) → Option WalletChange → Request
  adjustment : (actor user fresh : String) → Option WalletChange → Request
  plan_change :
      (takes_several : Bool)
      → Signer
      → Time
      → (user : String) → Option String
      → (key : String) → Request

-- The state after a request, whatever it answers.
unfoldable pub serve : Request → Run Plane → Run Plane
unfolding credit_wallet adjust_wallet change_plan
serve (credit actor user fresh body) w = (credit_wallet actor user body fresh w).1
serve (adjustment actor user fresh body) w = (adjust_wallet actor user body fresh w).1
serve (plan_change takes_several a now user plan key) w =
    (change_plan takes_several a now user plan key w).1

unfoldable pub serve_all : List Request → Run Plane → Run Plane
unfolding serve
serve_all [] w = w
serve_all (r ∷ rs) w = serve_all rs (serve r w)

serve-IsSound : (r : Request) (w : Run Plane) → IsSound w.held → IsSound (serve r w).held
unfolding serve
serve-IsSound (credit actor user fresh body) w k =
    (credit_wallet-IsSound actor user fresh body).at w k
serve-IsSound (adjustment actor user fresh body) w k =
    (adjust_wallet-IsSound actor user fresh body).at w k
serve-IsSound (plan_change takes_several a now user plan key) w k =
    (change_plan-IsSound takes_several a now user plan key).at w k

-- After any sequence of credits, adjustments and changes of plan, whether they succeed, are refused
-- or fail anywhere, every user's balance is the sum of the user's ledger entries, not negative and
-- within 64 bits, if it was so before and no plan has a negative price.
pub serve_all-IsSound :
    (rs : List Request) (w : Run Plane) → IsSound w.held → IsSound (serve_all rs w).held
unfolding serve_all
serve_all-IsSound [] w k = k
serve_all-IsSound (r ∷ rs) w k = serve_all-IsSound rs (serve r w) (serve-IsSound r w k)
