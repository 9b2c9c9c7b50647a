-- ===== src/Node.antt =====
-- The state of the node agent that its components share: the SQLite database of
-- internal/store/store.go, the users of the Xray inbound (by device, as internal/xray/manager.go
-- reads them back), the manager's blocked devices, the kick requests that reached Hysteria, the
-- message IDs that the control client has seen, and the replies that it has written.
pub mod Tables
use rmvpn.Base.{String, Bool, List}
use Tables.{Store}

pub record Reply : Type 0 where
  pub kind : String
  pub reply_to : String
  pub accepted : Bool
  pub code : String

pub record Node : Type 0 where
  pub store : Store
  pub users : List (String × String)
  pub blocked : List String
  pub kicked : List String
  pub seen : List String
  pub sent : List Reply
