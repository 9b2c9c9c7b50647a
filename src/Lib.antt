-- ===== src/Lib.antt =====
-- The RISEVPN node agent and control plane (internal/ and protocol/v2/ of the repository).
--
-- A node keeps its devices, usage, rules and settings in a SQLite database (internal/store). The
-- control client (internal/control) takes commands from the controller and changes that database
-- and the users of a local Xray (internal/xray); Hysteria asks the policy service (internal/policy)
-- who may connect and where to, and the policy service asks the compliance filter
-- (internal/compliance); the usage collector (internal/usage) books traffic on the devices and
-- kicks those that used up their quota or lease; enrollment (internal/enrollment) binds the node to
-- its controller once.
--
-- The control plane (internal/controlplane) keeps users, wallets, subscriptions, devices and nodes
-- in PostgreSQL. Its hub takes the nodes' connections, counts the traffic that they report and
-- delivers queued commands; workers renew and end subscriptions and renew quota leases; handlers
-- book on wallets, change plans, bind devices and queue what the nodes have to know.
--
-- How the code is modelled:
--   Base       Boolean tests, lists, tables row by row (Base/Rows), Go's int64 with its wrap-around,
--              times in nanoseconds since Go's zero time (times before it and locations do not
--              occur), texts as code points
--   Model      internal/model/model.go: Plan.Policy is `policy_of`
--   Node       the state that the components share: the tables of store.go (Node/Tables), the users
--              of Xray, the blocked devices, the seen message IDs, the written replies
--   Exec       methods as functions from a `World` to a result and a `World`. Its list `faults` says
--              which of the coming calls of the database or of another service fail; a theorem
--              about every world holds for every pattern of failures. A transaction rolls back at an
--              error of its body or of the commit (Exec/Success, Exec/Keeps: inversion, invariants)
--   Store      internal/store/store.go: State, SetStates and Claim (Store/State), the devices
--              (Store/Devices), AddUsage, PendingUsage and MarkUsageSent (Store/Usage), alerts and the
--              compliance feed (Store/Notices)
--   Crypto     internal/security/security.go over a record of the packages' functions
--   Vless      internal/vless/identity.go
--   Protocol   protocol/v2/protocol.go: QuotaLease.Sign and Verify
--   Policy     internal/policy/service.go: Authenticate, Authorize, isP2P (Policy/Torrent)
--   Compliance internal/compliance/service.go: Apply, Sign, Check; validateRules and the loops of
--              Blocked (Compliance/Rules)
--   Xray       internal/xray/manager.go over a record of what the Xray API promises (Xray/Api)
--   Collector  internal/usage/collector.go
--   Control    internal/control/client.go: readLoop's round is `receive`, handle's cases are the
--              functions of Control/Handlers, the payloads stand in Control/Messages; the usage events of
--              connect's tick are `tick`, whose acknowledgement comes before the next tick or is
--              lost (Control/Ticks)
--   Enrollment internal/enrollment/service.go
--   Billing    ProrateUpgrade of internal/controlplane/billing.go and reservableBytes of
--              internal/controlplane/provisioning.go
--   Plane      internal/controlplane: the rows of migrations/001_initial.sql (Plane/Tables), the
--              queue of commands (Plane/Queue), nodehub.go (Plane/Hub: Intake, Delivery, Connection,
--              Messages), provisioning.go with renewQuotaLeases (Plane/Provision), creditWallet and
--              adjustWallet of admin.go (Plane/Wallet), changePlan of app.go (Plane/Plans),
--              subscriptionLifecycle and the notifications of workers.go (Plane/Lifecycle), roles,
--              statuses and commands of admin.go (Plane/Roles), createDevice and rebindDevice
--              (Plane/Slots) and subscriptionDocument (Plane/Binding) of app.go. Its methods use the
--              monad of Exec over the record `Plane`; a handler's answer is its error `problem`
--   Tests      the theorems at concrete data
--
-- Every loop of the code runs over a list or a map that is there before it starts, so that all of
-- them are structural recursion; no fuel occurs. A range over a Go map takes the entries of a list
-- in its order, and a theorem about every list holds for every order.
--
-- Cryptography, JSON, X.509, IP and CIDR parsing, UUIDs and the Xray API are parameters: records of
-- functions with the documented laws that the code relies on. The clock is an argument, read once
-- for a call. ToLower folds ASCII letters alone. Two things that the control plane's code leaves to its
-- database and driver are parameters too: whether one Exec with arguments takes several statements
-- (`takes_several`), and whether the parameters of jsonb_build_object need no cast (`infers_types`).
--
-- Not modelled: connections, TLS and the heartbeat of the control client, timer loops and locks (each
-- method runs alone: on a node the mutexes and the one database connection make it so, and in the
-- control plane concurrent transactions are left out), the node's HTTP handlers and configuration,
-- sign-in, sessions and TOTP codes, the listings of the control plane, its compliance feed and
-- certificates, the web front end and the packaging.
pub mod Base
pub mod Model
pub mod Node
pub mod Plane
pub mod Exec
pub mod Store
pub mod Crypto
pub mod Vless
pub mod Protocol
pub mod Address
pub mod Policy
pub mod Compliance
pub mod Xray
pub mod Collector
pub mod Control
pub mod Enrollment
pub mod Billing
pub mod Tests
