-- ===== src/Network/Firewall/Tables.antt =====
-- What the kernel's tables hold after the calls of iptables.go: `-I CHAIN 1` puts a rule at the head of
-- its chain, `-D CHAIN` takes the first rule away that is the same. This is the documented meaning of
-- the arguments, and the yardstick for the installation and the removal of the rules.
use bcs_zc241t_study_project.Prelude.{
  ◌≡◌, refl, Bool, true, false, ◌&&◌, List, [], ◌∷◌, ◌++◌, map, ◌=?◌, =?_refl, if◌then◌else◌, codes,
  All, arith,
}
use bcs_zc241t_study_project.Text.{Text}
use bcs_zc241t_study_project.Network.Host.{
  Host, Log, Call, firewall_add, firewall_delete, CleanError, perform, attempt,
}
use bcs_zc241t_study_project.Network.State.{FirewallRule}
use bcs_zc241t_study_project.Network.Firewall.{
  firewall_rules, settle_deletion, drop_rule, remove_firewall_rules,
}

-- A rule in the kernel: its table, its chain, and its tests and target.
pub record Key : Type 0 where
  pub table : Text
  pub chain : Text
  pub spec : List Text

same_texts : List Text → List Text → Bool
unfolding ◌=?◌
same_texts [] [] = true
same_texts [] (t ∷ ts) = false
same_texts (s ∷ ss) [] = false
same_texts (s ∷ ss) (t ∷ ts) = s =? t && same_texts ss ts

pub same_key : Key → Key → Bool
same_key j k = j.table =? k.table && j.chain =? k.chain && same_texts j.spec k.spec

pub data Change : Type 0 where
  insert remove : Key → Change
  no_change : Change

in_chain : Text → Text → Text → List Text → Change
in_chain table op chain [] = no_change
in_chain table op chain (one ∷ spec) =
    if op =? codes "-I" && one =? codes "1"
    then insert (record { table = table; chain = chain; spec = spec })
    else if op =? codes "-D"
    then remove (record { table = table; chain = chain; spec = one ∷ spec })
    else no_change

in_table : Text → List Text → Change
in_table table (op ∷ chain ∷ args) = in_chain table op chain args
in_table table args = no_change

pub command : List Text → Change
command (first ∷ second ∷ args) =
    if first =? codes "-t"
    then in_table second args
    else in_table (codes "filter") (first ∷ second ∷ args)
command args = no_change

unfoldable pub remove_first : Key → List Key → List Key
remove_first k [] = []
remove_first k (j ∷ ks) = if same_key j k then ks else j ∷ remove_first k ks

unfoldable pub apply : Change → List Key → List Key
apply (insert k) ks = k ∷ ks
apply (remove k) ks = remove_first k ks
apply no_change ks = ks

unfoldable pub effect : Call → List Key → List Key
effect (firewall_add args) ks = apply (command args) ks
effect (firewall_delete args) ks = apply (command args) ks
effect c ks = ks

-- The rules in the kernel after the calls of a log, the newest of a chain first.
unfoldable pub table_after : List Key → Log → List Key
table_after before [] = before
table_after before (e ∷ log) =
    if e.done then effect e.call (table_after before log) else table_after before log

-- Keys put one by one at the head.
abbrev pub stack : List Key → List Key → List Key
stack [] rest = rest
stack (k ∷ ks) rest = stack ks (k ∷ rest)

key_in : Change → Key
key_in (insert k) = k
key_in (remove k) = k
key_in no_change = record { table = []; chain = []; spec = [] }

-- The key that adding a rule inserts.
pub key_of : FirewallRule → Key
key_of rule = key_in (command rule.add)

-- Adding inserts the key that deleting removes.
pub record IsPaired (rule : FirewallRule) : Type 0 where
  pub adds : command rule.add ≡ insert (key_of rule)
  pub deletes : command rule.del ≡ remove (key_of rule)

abbrev pub Differs : Key → Key → Type 0
Differs k j = same_key j k ≡ false

abbrev pub AreApart : List FirewallRule → Type 0
AreApart [] = Unit
AreApart (r ∷ rs) = All (λ s. Differs (key_of r) (key_of s)) rs × AreApart rs

pub firewall_rules-IsPaired :
    (subnet bridge label : Text) → All IsPaired (firewall_rules subnet bridge label)
unfolding firewall_rules command in_table in_chain key_of key_in ◌=?◌
firewall_rules-IsPaired subnet bridge label = (
  record { adds = refl; deletes = refl },
  (
    record { adds = refl; deletes = refl },
    (
      record { adds = refl; deletes = refl },
      (
        record { adds = refl; deletes = refl },
        (record { adds = refl; deletes = refl }, (record { adds = refl; deletes = refl }, tt)),
      ),
    ),
  ),
)

pub firewall_rules-AreApart :
    (subnet bridge label : Text) → AreApart (firewall_rules subnet bridge label)
unfolding firewall_rules key_of key_in command in_table in_chain same_key same_texts ◌=?◌
firewall_rules-AreApart subnet bridge label = ground (arith, =?_refl bridge)

same_texts_refl : (ts : List Text) → same_texts ts ts ≡ true
unfolding same_texts
same_texts_refl [] = refl
same_texts_refl (t ∷ ts) = ground (arith, =?_refl t, same_texts_refl ts)

same_key_refl : (k : Key) → same_key k k ≡ true
unfolding same_key
same_key_refl k = ground (arith, =?_refl k.table, =?_refl k.chain, same_texts_refl k.spec)

abbrev pub keys : List FirewallRule → List Key
keys = map key_of

remove_first-append :
    (k : Key) (mid rest : List Key)
    → All (Differs k) mid
    → remove_first k (mid ++ k ∷ rest) ≡ mid ++ rest
unfolding remove_first
remove_first-append k [] rest d = ground (arith, same_key_refl k)
remove_first-append k (j ∷ mid) rest (dj, d) = ground (arith, remove_first-append k mid rest d)

-- A key that none of the keys above it equals is the first one found.
remove_first-stack :
    (k : Key) (js mid rest : List Key)
    → All (Differs k) js
    → All (Differs k) mid
    → remove_first k (stack js (mid ++ k ∷ rest)) ≡ stack js (mid ++ rest)
remove_first-stack k [] mid rest d dm = remove_first-append k mid rest dm
remove_first-stack k (j ∷ js) mid rest (dj, d) dm =
    remove_first-stack k js (j ∷ mid) rest d (dj, dm)

module _ (h : Host) (before : List Key) where
  abbrev now : Log → List Key
  now = table_after before

  settle_deletion-table :
      (b : Bool) (rule : FirewallRule) (kept : List FirewallRule) (errs : List CleanError)
      (log : Log) (rest : List Key)
      → IsPaired rule
      → All (Differs (key_of rule)) (keys kept)
      → now log ≡ stack (keys kept) (key_of rule ∷ rest)
      → now (settle_deletion rule kept errs (attempt b (firewall_delete rule.del) log)).2
        ≡ stack
            (keys (settle_deletion rule kept errs (attempt b (firewall_delete rule.del) log)).0)
            rest
  unfolding settle_deletion attempt table_after effect apply
  settle_deletion-table true rule kept errs log rest p apart e =
      rw (p.deletes, e) (remove_first-stack (key_of rule) (keys kept) [] rest apart tt)
  settle_deletion-table false rule kept errs log rest p apart e = e

  settle_deletion-All :
      (Q : FirewallRule → Type 0) (b : Bool) (rule : FirewallRule) (kept : List FirewallRule)
      (errs : List CleanError) (log : Log)
      → Q rule
      → All Q kept
      → All Q (settle_deletion rule kept errs (attempt b (firewall_delete rule.del) log)).0
  unfolding settle_deletion attempt
  settle_deletion-All Q true rule kept errs log q all = all
  settle_deletion-All Q false rule kept errs log q all = (q, all)

  remove_firewall_rules-All :
      (Q : FirewallRule → Type 0) (rules : List FirewallRule) (log : Log)
      → All Q rules
      → All Q (remove_firewall_rules h rules log).0
  unfolding remove_firewall_rules drop_rule perform
  remove_firewall_rules-All Q [] log all = tt
  remove_firewall_rules-All Q (rule ∷ rules) log (q, all) =
      settle_deletion-All Q (h.succeeds _ _) rule _ _ _ q
        (remove_firewall_rules-All Q rules log all)

All-keys :
    (k : Key) (rules : List FirewallRule)
    → All (λ r. Differs k (key_of r)) rules
    → All (Differs k) (keys rules)
All-keys k [] h = tt
All-keys k (r ∷ rs) (d, h) = (d, All-keys k rs h)

module _ (h : Host) (before : List Key) where
  -- Whatever deletions fail, the rules left in the state are those left in the kernel.
  pub remove_firewall_rules-table :
      (rules : List FirewallRule) (log : Log) (rest : List Key)
      → All IsPaired rules
      → AreApart rules
      → table_after before log ≡ stack (keys rules) rest
      → table_after before (remove_firewall_rules h rules log).2
        ≡ stack (keys (remove_firewall_rules h rules log).0) rest
  unfolding remove_firewall_rules drop_rule perform
  remove_firewall_rules-table [] log rest p a e = e
  remove_firewall_rules-table (rule ∷ rules) log rest (pr, p) (ar, a) e =
      settle_deletion-table h before (h.succeeds _ _) rule _ _ _ rest pr
        (All-keys (key_of rule) _
          (remove_firewall_rules-All h before (λ s. Differs (key_of rule) (key_of s)) rules log ar))
        (remove_firewall_rules-table rules log (key_of rule ∷ rest) p a e)
