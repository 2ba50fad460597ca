-- ===== src/Archive/Within.antt =====
-- A whole extraction by extract.go, and the statistics that it returns.
use bcs_zc241t_study_project.Prelude.{
  ℕ, suc, ◌+◌, length, ◌∙◌, sym, ◌≤◌, ◌≡◌, refl, ap, Bool, true, false, Option, none, some, List,
  [], ◌∷◌, Result, ok, err, reject, ltb, arith, wrap,
}
use bcs_zc241t_study_project.Prelude.Run.{continue-eq-ok, ◌>>=◌}
use bcs_zc241t_study_project.Text.{Text}
use bcs_zc241t_study_project.Archive.Names.{Kind, check_entry_conflicts, normalize_archive_path}
use bcs_zc241t_study_project.Archive.Disk.{
  ArchiveEntry, Disk, ExtractError, World, Log, set_mode, conflict, bad_name, too_many_entries,
}
use bcs_zc241t_study_project.Archive.Extract.{
  RootfsLimits, ExtractionStats, archive_entry_kind, file_path,
}
use bcs_zc241t_study_project.Archive.Files.{
  count_entry, check_conflicts, record_entry, is_device, extract_named, extract_entry,
  extract_entries, Opened, no_file, no_format, only_compressed, entries_of, extract_archive,
  apply_modes, sort_modes, finish, statistics, empty_world,
}
use bcs_zc241t_study_project.Archive.Limits.{
  filled_bytes, greatest_fill, larger, Plain, Plain-lift, Plain-bind, Plain-if, Plain-act,
}
use bcs_zc241t_study_project.Archive.Bounds.{
  IsWithin, Keeps, Keeps-Plain, Keeps-bind, kind-Keeps, Plain-parents,
}

module _ (disk : Disk) (limits : RootfsLimits) (base : Log) where
  same_world : {A : Type 0} (r : World → Result ExtractError A) → Plain (λ w. (r w, w))
  same_world r = record {
    at = λ w w' _ h.
        rw (← ap (λ p. p.1) h) (record {
          filled = refl;
          greatest = refl;
          extracted = refl;
          largest = refl;
          count = refl;
        });
  }

  Plain-record_entry : (name : Text) (kind : Kind) → Plain (record_entry disk name kind)
  Plain-record_entry name kind = record {
    at = λ w w' _ h.
        rw (← ap (λ p. p.1) h) (record {
          filled = refl;
          greatest = refl;
          extracted = refl;
          largest = refl;
          count = refl;
        });
  }

  named-Keeps :
      (destination : Text) (e : ArchiveEntry) (name : Option Text)
      → Keeps disk limits base (extract_named disk limits destination e name)
  unfolding extract_named
  named-Keeps destination e none = Keeps-Plain disk limits base _ (Plain-lift _)
  named-Keeps destination e (some name) =
      Keeps-bind disk limits base _ _
        (Keeps-Plain disk limits base _ (Plain-lift (archive_entry_kind name e)))
        λ kind.
          Keeps-bind disk limits base _ _
            (Keeps-Plain disk limits base (check_conflicts disk name kind)
              (same_world λ w. wrap conflict (check_entry_conflicts name kind w.entries)))
            λ _.
              Keeps-bind disk limits base _ _
                (Keeps-Plain disk limits base _ (
                  Plain-if (is_device disk kind) _ _ (Plain-lift (ok tt))
                    (Plain-parents disk limits base destination name)))
                λ _.
                  Keeps-bind disk limits base _ _
                    (kind-Keeps disk limits base destination name e kind)
                    λ _. Keeps-Plain disk limits base _ (Plain-record_entry name kind)

  passed :
      (b : Bool) (n : ℕ) (w w' : World)
      → ltb limits.max_entries (suc w.count) ≡ b
      → ◌≡◌ {A = Result ExtractError (Unit {0}) × World}
          (reject b too_many_entries, record w { count = suc w.count })
          (ok tt, w')
      → IsWithin limits base n w
      → IsWithin limits base (suc n) w'
  passed true n w w' e h k = cc
  passed false n w w' e h k = rw (← ap (λ p. p.1) h) (record {
    extracted = k.extracted;
    largest = k.largest;
    count = ground arith;
    filled = k.filled;
    greatest = k.greatest;
    counted = ap suc k.counted;
  })

  -- An entry, which is counted.
  entry-Within :
      (destination : Text) (e : ArchiveEntry) (n : ℕ) (w w' : World)
      → extract_entry disk limits destination e w ≡ (ok tt, w')
      → IsWithin limits base n w
      → IsWithin limits base (suc n) w'
  unfolding extract_entry
  entry-Within destination e n w w' h k =
      let (_, v, first, rest) = continue-eq-ok (count_entry disk limits w) _ h in
      let (name, u, normal, last) =
        continue-eq-ok (wrap bad_name (normalize_archive_path e.name), v) _ rest in
      let same : v ≡ u = ap (λ p. p.1) normal in
      (named-Keeps destination e name).at (suc n) u w' tt last
        (rw (← same) (passed (ltb limits.max_entries (suc w.count)) n w v refl first k))

  entries-Within :
      (destination : Text) (es : List ArchiveEntry) (n : ℕ) (w w' : World)
      → extract_entries disk limits destination es w ≡ (ok tt, w')
      → IsWithin limits base n w
      → IsWithin limits base (n + length es) w'
  unfolding extract_entries
  entries-Within destination [] n w w' h k =
      let z : n + 0 ≡ n = omega arith in let same : w ≡ w' = ap (λ p. p.1) h in rw z (rw (← same) k)
  entries-Within destination (e ∷ es) n w w' h k =
      let (_, v, first, rest) = continue-eq-ok (extract_entry disk limits destination e w) _ h in
      let z : n + suc (length es) ≡ suc n + length es = omega arith in
      rw z
        (entries-Within destination es (suc n) v w' rest (entry-Within destination e n w v first k))

  modes-Plain :
      (destination : Text) (modes : List (Text × ℕ)) → Plain (apply_modes disk destination modes)
  unfolding apply_modes
  modes-Plain destination [] = Plain-lift (ok tt)
  modes-Plain destination ((name, perm) ∷ modes) =
      Plain-bind _ _ (Plain-act disk (set_mode (file_path destination name) perm) refl)
        λ _. modes-Plain destination modes

  finish-Plain : (destination : Text) (complete : Bool) → Plain (finish disk destination complete)
  finish-Plain destination true = record {
    at = λ w. (modes-Plain destination (sort_modes w.modes)).at w;
  }
  finish-Plain destination false = record { at = λ w w' a h. cc }

abbrev statistics_of : Result ExtractError ExtractionStats → ExtractionStats
statistics_of (ok stats) = stats
statistics_of (err e) = record { total_bytes = 0; largest_file_bytes = 0; entries = 0 }

abbrev pub entries_in : Opened → ℕ
entries_in (entries_of es complete) = length es
entries_in archive = 0

-- If `extractArchive` succeeds, whatever the archive holds and the system answers, the statistics that it
-- returns are within the three limits, and they are what the log shows: the bytes copied into files since
-- the start are their total, the greatest number of bytes copied into one file is their largest, unless a
-- copy before the start was greater, and they count the entries of the archive.
pub extract_archive-IsWithin :
    (disk : Disk) (limits : RootfsLimits) (destination : Text) (archive : Opened) (log : Log)
    (stats : ExtractionStats) (w : World)
    → extract_archive disk limits destination archive log ≡ (ok stats, w)
    → ((stats.total_bytes ≤ limits.max_total_bytes)
        × (filled_bytes w.log ≡ filled_bytes log + stats.total_bytes))
      × ((stats.largest_file_bytes ≤ limits.max_file_bytes)
          × (greatest_fill w.log ≡ larger stats.largest_file_bytes (greatest_fill log)))
      × ((stats.entries ≤ limits.max_entries) × (stats.entries ≡ entries_in archive))
unfolding extract_archive
extract_archive-IsWithin disk limits destination no_file log stats w h = cc
extract_archive-IsWithin disk limits destination no_format log stats w h = cc
extract_archive-IsWithin disk limits destination only_compressed log stats w h = cc
extract_archive-IsWithin disk limits destination (entries_of es complete) log stats w h =
    let start = empty_world disk log in
    let last = λ (_ : Unit {0}). finish disk destination complete >>= λ _. statistics disk in
    let (_, w₁, first, r₁) =
      continue-eq-ok (extract_entries disk limits destination es start) last h in
    let (_, w₂, finished, r₂) =
      continue-eq-ok (finish disk destination complete w₁) (λ _. statistics disk) r₁ in
    let k = entries-Within disk limits log destination es 0 start w₁ first (record {
      extracted = omega arith;
      largest = omega arith;
      count = omega arith;
      filled = omega arith;
      greatest = ground arith;
      counted = refl;
    }) in
    let s = (finish-Plain disk limits log destination complete).at w₁ w₂ tt finished in
    let e = ap (λ p. statistics_of p.0) r₂ in
    let l = ap (λ p. p.1) r₂ in
    (
      (
        omega (arith, k.extracted, s.extracted, ap (λ t. t.total_bytes) e),
        omega (
          arith,
          k.filled,
          s.filled,
          s.extracted,
          ap (λ t. t.total_bytes) e,
          ap (λ v. filled_bytes v.log) l,
        ),
      ),
      (
        omega (arith, k.largest, s.largest, ap (λ t. t.largest_file_bytes) e),
        sym (ap (λ v. greatest_fill v.log) l)
            ∙ s.greatest
            ∙ k.greatest
            ∙ ap (λ m. larger m (greatest_fill log))
                (sym s.largest ∙ ap (λ t. t.largest_file_bytes) e),
      ),
      (
        omega (arith, k.count, s.count, ap (λ t. t.entries) e),
        omega (arith, k.counted, s.count, ap (λ t. t.entries) e),
      ),
    )
