-- ===== src/Network/Host.antt =====
-- The host that sandbox/sandbox/network works on, behind `netlinkOps`, `firewallOps`, `runIP` and
-- `routeList` of types.go. The host's answers are a parameter: they may depend on all calls so far.
use bcs_zc241t_study_project.Prelude.{
  ℕ, Bool, true, false, Option, none, some, List, ◌∷◌, Result, ok, err,
}
use bcs_zc241t_study_project.Prelude.Int.{ℤ}
use bcs_zc241t_study_project.Text.{Text}
use bcs_zc241t_study_project.Network.Address.{Prefix}
use bcs_zc241t_study_project.Network.Types.{BridgeError}

-- The methods of `netlinkOps` and `firewallOps`, `runIP` and `routeList`, with their arguments.
pub data Call : Type 0 where
  bridge_add bridge_del veth_delete link_set_up : Text → Call
  veth_create link_set_master link_set_name addr_add : Text → Text → Call
  link_set_mtu : Text → ℤ → Call
  link_set_mac : Text → List ℕ → Call
  disable_ipv6 link_names route_list : Call
  run_ip firewall_add firewall_delete : List Text → Call

-- `routeInfo`.
pub record Route : Type 0 where
  pub prefix : Prefix
  pub device : Text

-- A call that was made, and whether it succeeded.
pub record Entry : Type 0 where
  pub call : Call
  pub done : Bool

-- The calls made so far, the last one first.
abbrev pub Log : Type 0
Log = List Entry

pub record Host : Type 0 where
  pub succeeds : Log → Call → Bool
  pub names : Log → Option (List Text)
  pub routes : Log → Option (List Route)
  pub random : Log → Option (List ℕ)

-- Errors that cleaning up joins to the first one.
pub data CleanError : Type 0 where
  rule_kept : List Text → CleanError
  link_kept link_unknown : Text → CleanError

pub data NetError : Type 0 where
  invalid_config : BridgeError → NetError
  routes_unknown no_random route_missing not_owned : NetError
  route_overlaps : Route → NetError
  failed : Call → NetError
  unexpected_interfaces : NetError
  already_installed : NetError
  joined : NetError → List CleanError → NetError

-- Actions on the host that may fail; the log keeps what was done before a failure.
abbrev pub Exec : Type 0 → Type 0
Exec A = Log → Result NetError A × Log

abbrev pub continue : {A B : Type 0} → Result NetError A → (A → Exec B) → Exec B
continue (ok a) f log = f a log
continue (err e) f log = (err e, log)

infixl 10 ◌>>=◌ ◌>>◌
unfoldable pub ◌>>=◌ : {A B : Type 0} → Exec A → (A → Exec B) → Exec B
◌>>=◌ m f log = let (r, log') = m log in continue r f log'

abbrev pub ◌>>◌ : {B : Type 0} → Exec (Unit {0}) → Exec B → Exec B
m >> k = m >>= λ _. k

unfoldable pub lift : {A : Type 0} → Result NetError A → Exec A
lift r log = (r, log)

-- A call without a result, and how it ends.
unfoldable pub attempt : Bool → Call → Exec (Unit {0})
attempt true c log = (ok tt, record { call = c; done = true } ∷ log)
attempt false c log = (err (failed c), record { call = c; done = false } ∷ log)

module _ (h : Host) where
  unfoldable pub perform : Call → Exec (Unit {0})
  perform c log = attempt (h.succeeds log c) c log

  abbrev pub answer : {A : Type 0} → Option A → NetError → Result NetError A
  answer none e = err e
  answer (some a) e = ok a

  abbrev pub is_some : {A : Type 0} → Option A → Bool
  is_some none = false
  is_some (some a) = true

  unfoldable pub list_links : Exec (List Text)
  list_links log = (
    answer (h.names log) (failed link_names),
    record { call = link_names; done = is_some (h.names log) } ∷ log,
  )

  unfoldable pub list_routes : Exec (List Route)
  list_routes log = (
    answer (h.routes log) routes_unknown,
    record { call = route_list; done = is_some (h.routes log) } ∷ log,
  )

  unfoldable pub read_random : Exec (List ℕ)
  read_random log = (answer (h.random log) no_random, log)
