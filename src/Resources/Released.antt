-- ===== src/Resources/Released.antt =====
-- What `prepareResourceLimits` of cgroup.go leaves behind when it fails.
use bcs_zc241t_study_project.Prelude.{
  ℕ, ◌≡◌, refl, ap, ◌∙◌, Bool, true, false, not, ◌&&◌, ◌||◌, Option, none, some, [], ◌∷◌, Result,
  ok, err, ◌=?◌, if◌then◌else◌, arith, codes,
}
use bcs_zc241t_study_project.Prelude.Int.{ℤ}
use bcs_zc241t_study_project.Prelude.Run.{continue, ◌>>=◌, lift}
use bcs_zc241t_study_project.Text.{Text, is_empty}
use bcs_zc241t_study_project.Resources.Files.{
  Files, Log, made, written, removed, Exec, CgroupError, joined, cannot_remove, read, write, remove,
  settle,
}
use bcs_zc241t_study_project.Resources.Lifecycle.{
  ResourceLimits, configure_quota, configure_memory, configure_processes, configure, cleanup,
  join_error, conclude, provision, create, filesystem_type, find_delegation,
  prepare_resource_limits, after_removal,
}

-- Whether the directory `p` has been made and not been removed since.
unfoldable pub live : Text → Log → Bool
unfolding ◌=?◌
live p [] = false
live p (made q ∷ log) = q =? p || live p log
live p (written q data_written done ∷ log) = live p log
live p (removed q done ∷ log) = not (q =? p && done) && live p log

unfoldable pub is_joined : CgroupError → Bool
is_joined (joined e f) = true
is_joined e = false

-- `MkdirTemp` returns the path of a directory.
pub record IsSound (fs : Files) : Type 0 where
  pub names_directory :
      (log : Log) (dir pattern path : Text)
      → fs.mkdir_temp log dir pattern ≡ some path
      → is_empty path ≡ false

-- An action that makes and removes no directory.
record Quiet (p : Text) {A : Type 0} (m : Exec A) : Type 0 where
  pub at : (log : Log) → live p (m log).1 ≡ live p log

module _ (fs : Files) (p : Text) where
  Quiet-lift : {A : Type 0} (r : Result CgroupError A) → Quiet p (lift r)
  Quiet-lift r = record { at = λ log. refl }

  continue-Quiet :
      {A B : Type 0} (r : Result CgroupError A) (log : Log) (f : A → Exec B)
      → ((a : A) → Quiet p (f a))
      → live p (continue (r, log) f).1 ≡ live p log
  continue-Quiet (ok a) log f q = (q a).at log
  continue-Quiet (err e) log f q = refl

  Quiet-bind :
      {A B : Type 0} (m : Exec A) (f : A → Exec B)
      → Quiet p m
      → ((a : A) → Quiet p (f a))
      → Quiet p (m >>= f)
  Quiet-bind m f q r = record { at = λ log. continue-Quiet (m log).0 (m log).1 f r ∙ q.at log }

  settle-Quiet :
      (b : Bool) (e : CgroupError) (path text : Text) (log : Log)
      → live p (settle b e (written path text b) log).1 ≡ live p log
  unfolding live
  settle-Quiet true e path text log = refl
  settle-Quiet false e path text log = refl

  Quiet-write : (path text : Text) → Quiet p (write fs path text)
  unfolding write
  Quiet-write path text = record {
    at = λ log. settle-Quiet (fs.can_write log path text) _ path text log;
  }

  Quiet-read : (path : Text) → Quiet p (read fs path)
  unfolding read
  Quiet-read path = record { at = λ log. refl }

  Quiet-filesystem_type : (path : Text) → Quiet p (filesystem_type fs path)
  unfolding filesystem_type
  Quiet-filesystem_type path = record { at = λ log. refl }

  Quiet-if :
      {A : Type 0} (b : Bool) (m k : Exec A) → Quiet p m → Quiet p k → Quiet p (if b then m else k)
  Quiet-if true m k q r = q
  Quiet-if false m k q r = r

  ruleset quiet = (Quiet-bind, Quiet-lift, Quiet-write, Quiet-read, Quiet-filesystem_type, Quiet-if)

  configure-Quiet :
      (path : Text) (cpu memory processes : ℤ) → Quiet p (configure fs path cpu memory processes)
  unfolding configure configure_quota configure_memory configure_processes
  configure-Quiet path cpu memory processes = search quiet depth 16

  find_delegation-Quiet :
      (cpu memory processes : ℤ) (proc mount : Text)
      → Quiet p (find_delegation fs cpu memory processes proc mount)
  unfolding find_delegation
  find_delegation-Quiet cpu memory processes proc mount = search quiet depth 24

  told : Result CgroupError (Option ResourceLimits) → Bool
  told (ok limits) = true
  told (err e) = is_joined e

  -- The directory is gone, or the run succeeded, or the error tells that it is not.
  Released : Result CgroupError (Option ResourceLimits) × Log → Type 0
  Released q = (told q.0 || not (live p q.1)) ≡ true

  failed-Released :
      (b : Bool) (e : CgroupError) (c : ℕ) (path : Text) (log : Log)
      → (not (live p log) || (c ∷ path) =? p) ≡ true
      → let (_, r, log') =
          after_removal fs
            (record { path = c ∷ path })
            (settle b (cannot_remove (c ∷ path)) (removed (c ∷ path) b) log) in
        (told (err (join_error fs e r)) || not (live p log')) ≡ true
  unfolding live told is_joined
  failed-Released true e c path log k = ground arith
  failed-Released false e c path log k = refl

  conclude-Released :
      (path : Text) (q : Result CgroupError (Unit {0}) × Log)
      → is_empty path ≡ false
      → (not (live p q.1) || path =? p) ≡ true
      → Released (conclude fs path q)
  unfolding conclude cleanup Released told remove
  conclude-Released path (ok _, log) filled k = refl
  conclude-Released [] (err e, log) filled k = cc
  conclude-Released (c ∷ path) (err e, log) filled k =
      failed-Released (fs.can_remove log (c ∷ path)) e c path log k

  provision-Released :
      (cpu memory processes : ℤ) (path : Option Text) (log : Log)
      → ((q : Text) → path ≡ some q → is_empty q ≡ false)
      → live p log ≡ false
      → Released (provision fs cpu memory processes path log)
  unfolding provision Released told
  provision-Released cpu memory processes none log filled k = ground arith
  provision-Released cpu memory processes (some path) log filled k =
      let quiet = (configure-Quiet path cpu memory processes).at (made path ∷ log) in
      conclude-Released path (configure fs path cpu memory processes (made path ∷ log))
        (filled path refl) (unfold live in ground (arith, quiet, k))

  continue-Released :
      (sound : IsSound fs) (cpu memory processes : ℤ) (q : Result CgroupError Text × Log)
      → live p q.1 ≡ false
      → Released (continue q (create fs cpu memory processes))
  unfolding create Released told
  continue-Released sound cpu memory processes (ok delegated, log) k =
      provision-Released cpu memory processes (fs.mkdir_temp log delegated (codes "sandbox-")) log
        (λ path e. sound.names_directory log delegated _ path e) k
  continue-Released sound cpu memory processes (err e, log) k = ground arith

  quiet-Released :
      (r : Result CgroupError (Option ResourceLimits)) (log : Log)
      → live p log ≡ false
      → Released (r, log)
  unfolding Released
  quiet-Released r log k = ground arith

  -- An action that, run at `log`, releases what it makes.
  record Releases (log : Log) (m : Exec (Option ResourceLimits)) : Type 0 where
    pub at : Released (m log)

  Releases-if :
      (b : Bool) (m k : Exec (Option ResourceLimits)) (log : Log)
      → Releases log m
      → Releases log k
      → Releases log (if b then m else k)
  Releases-if true m k log q r = q
  Releases-if false m k log q r = r

  Releases-lift :
      (r : Result CgroupError (Option ResourceLimits)) (log : Log)
      → live p log ≡ false
      → Releases log (lift r)
  Releases-lift r log k = record { at = quiet-Released r log k }

  prepare-Releases :
      (sound : IsSound fs) (cpu memory processes : ℤ) (proc mount : Text) (log : Log)
      → live p log ≡ false
      → Releases log (prepare_resource_limits fs cpu memory processes proc mount)
  unfolding prepare_resource_limits
  prepare-Releases sound cpu memory processes proc mount log k =
      let quiet = (find_delegation-Quiet cpu memory processes proc mount).at log ∙ k in
      let searched : Releases log
          (find_delegation fs cpu memory processes proc mount >>= create fs cpu memory processes) =
        record {
          at =
              continue-Released sound cpu memory processes
                (find_delegation fs cpu memory processes proc mount log) quiet;
        } in
      search (Releases-if, Releases-lift)

-- A directory that is not a cgroup of this process at first is none when `prepareResourceLimits` has
-- failed, at whichever step: it was never made or has been removed; or the error joins the one of the
-- removal.
pub prepare_resource_limits-Released :
    (fs : Files) (sound : IsSound fs) (p : Text) (cpu memory processes : ℤ) (proc mount : Text)
    (log log' : Log) (e : CgroupError)
    → live p log ≡ false
    → prepare_resource_limits fs cpu memory processes proc mount log ≡ (err e, log')
    → is_joined e ≡ false
    → live p log' ≡ false
unfolding Released told
prepare_resource_limits-Released fs sound p cpu memory processes proc mount log log' e k run plain =
    let r = (prepare-Releases fs p sound cpu memory processes proc mount log k).at in
    ground (arith, r, plain, ap (λ q. told fs p q.0) run, ap (λ q. live p q.1) run)
