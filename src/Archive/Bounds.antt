-- ===== src/Archive/Bounds.antt =====
-- The counters of an extraction by extract.go, against its limits and its log.
use bcs_zc241t_study_project.Prelude.{
  ℕ, ◌+◌, ◌-◌, ◌≤◌, ◌≡◌, refl, sym, ap, ◌∙◌, Bool, true, false, ◌||◌, Option, none, some, List, [],
  ◌∷◌, Result, ok, err, ltb, if◌then◌else◌, arith,
}
use bcs_zc241t_study_project.Prelude.Int.{pos_part, is_negative}
use bcs_zc241t_study_project.Prelude.Run.{continue-eq-ok, ◌>>=◌, ◌>>◌}
use bcs_zc241t_study_project.Text.{Text, split}
use bcs_zc241t_study_project.Paths.{slash, dir, is_dot}
use bcs_zc241t_study_project.Archive.Names.{
  Kind, directory, regular, symlink, hardlink, device, is_directory,
}
use bcs_zc241t_study_project.Archive.Disk.{
  Log, Stream, Stat, missing, unknown, found, ArchiveEntry, remove, create, Disk, ExtractError,
  World, Extract, act, file_too_large, total_too_large,
}
use bcs_zc241t_study_project.Archive.Extract.{
  RootfsLimits, file_path, ensure_components, ensure_parent_directories, enter_parent,
  extract_directory, enter_directory, extract_symlink, place_symlink, extract_hardlink, place_link,
}
use bcs_zc241t_study_project.Archive.Files.{
  least, close_input, from_stream, or_remove, grow_largest, fill_file, extract_regular_file,
  extract_kind,
}
use bcs_zc241t_study_project.Archive.Limits.{
  filled_bytes, greatest_fill, larger, Plain, Plain-lift, Plain-bind, Plain-if, Plain-act,
  Plain-stat, Plain-add_mode, Added, fill_file-Added, on_error_done,
}

-- The counters are within the limits, and are those of what was copied since the log `base`, and of the
-- entries.
pub record IsWithin (limits : RootfsLimits) (base : Log) (entries : ℕ) (w : World) : Type 0 where
  pub extracted : w.extracted ≤ limits.max_total_bytes
  pub largest : w.largest ≤ limits.max_file_bytes
  pub count : w.count ≤ limits.max_entries
  pub filled : filled_bytes w.log ≡ filled_bytes base + w.extracted
  pub greatest : greatest_fill w.log ≡ larger w.largest (greatest_fill base)
  pub counted : w.count ≡ entries

larger_both : (n l g : ℕ) → larger n (larger l g) ≡ larger (larger l n) g
larger_both n l g = ground arith

module _ (disk : Disk) (limits : RootfsLimits) (base : Log) where
  -- A step that stays within the limits, when it succeeds.
  pub record Keeps {A : Type 0} (m : Extract A) : Type 0 where
    pub at :
        (n : ℕ) (w w' : World) (a : A)
        → m w ≡ (ok a, w')
        → IsWithin limits base n w
        → IsWithin limits base n w'

  pub Keeps-Plain : {A : Type 0} (m : Extract A) → Plain m → Keeps m
  Keeps-Plain m p = record {
    at = λ n w w' a h k.
        let s = p.at w w' a h in
        record {
          extracted = omega (arith, s.extracted, k.extracted);
          largest = omega (arith, s.largest, k.largest);
          count = omega (arith, s.count, k.count);
          filled = omega (arith, s.filled, s.extracted, k.filled);
          greatest = rw s.largest (s.greatest ∙ k.greatest);
          counted = s.count ∙ k.counted;
        };
  }

  pub Keeps-bind :
      {A B : Type 0} (m : Extract A) (f : A → Extract B)
      → Keeps m
      → ((a : A) → Keeps (f a))
      → Keeps (m >>= f)
  Keeps-bind m f p q = record {
    at = λ n w w' b h k.
        let (a, v, first, rest) = continue-eq-ok (m w) f h in
        (q a).at n v w' b rest (p.at n w v a first k);
  }

  closed_done :
      (b : Bool) (p : Result ExtractError (Unit {0}) × World) (w' : World)
      → close_input disk b p ≡ (ok tt, w')
      → p ≡ (ok tt, w')
  closed_done true p w' h = h
  closed_done false (ok _, w) w' h = cc
  closed_done false (err e, w) w' h = cc

  from_stream-Added :
      (path : Text) (perm read_limit declared : ℕ) (stream : Option Stream) (w w' : World)
      → from_stream disk limits path perm read_limit declared stream w ≡ (ok tt, w')
      → (declared ≤ read_limit) × Added declared w w' × (w'.extracted ≡ w.extracted + declared)
  from_stream-Added path perm read_limit declared none w w' h = cc
  from_stream-Added path perm read_limit declared (some s) w w' h =
      let fill = fill_file disk limits path perm read_limit declared s in
      let opened =
        closed_done s.closes ((act disk (create path perm) >> or_remove disk path fill) w) w' h in
      let (_, v, made, filled) =
        continue-eq-ok (act disk (create path perm) w) (λ _. or_remove disk path fill) opened in
      let same = (Plain-act disk (create path perm) refl).at w v tt made in
      let (few, added, more) =
        fill_file-Added disk limits path perm read_limit declared s v w'
          (on_error_done disk (remove path) (fill v) w' filled) in
      (
        few,
        record {
          filled = omega (arith, added.filled, same.filled);
          greatest = rw (← same.greatest) added.greatest;
          largest = added.largest ∙ same.largest;
          count = added.count ∙ same.count;
        },
        omega (arith, more, same.extracted),
      )

  refused_not :
      (b : Bool) (e : ExtractError) (w w' : World) (p : Result ExtractError (Unit {0}) × World)
      → (if b then (err e, w) else p) ≡ (ok tt, w')
      → (b ≡ false) × (p ≡ (ok tt, w'))
  refused_not true e w w' p h = cc
  refused_not false e w w' p h = (refl, h)

  regular_file-Added :
      (destination name : Text) (e : ArchiveEntry) (w w' : World)
      → extract_regular_file disk limits destination name e w ≡ (ok tt, w')
      → (pos_part e.size ≤ limits.max_file_bytes)
        × (w.extracted + pos_part e.size ≤ limits.max_total_bytes)
        × Added (pos_part e.size) w w'
        × (w'.extracted ≡ w.extracted + pos_part e.size)
  unfolding extract_regular_file
  regular_file-Added destination name e w w' h =
      let declared = pos_part e.size in
      let read_limit = least limits.max_file_bytes (limits.max_total_bytes - w.extracted) in
      let read =
        from_stream disk limits (file_path destination name) e.mode.perm read_limit declared
          e.stream w in
      let (fits, r₁) =
        refused_not (is_negative e.size || ltb limits.max_file_bytes declared) file_too_large w w' _
          h in
      let (room, r₂) =
        refused_not (ltb limits.max_total_bytes w.extracted) total_too_large w w' read r₁ in
      let (few, added, more) =
        from_stream-Added (file_path destination name) e.mode.perm read_limit declared e.stream w w'
          r₂ in
      (ground (arith, fits), ground (arith, room, few), added, more)

  -- A regular file and its size, which are counted together.
  regular-Keeps :
      (destination name : Text) (e : ArchiveEntry)
      → Keeps (
          extract_regular_file disk limits destination name e
          >> grow_largest disk (pos_part e.size))
  regular-Keeps destination name e = record {
    at = λ count w w' _ h k.
        let n = pos_part e.size in
        let (_, v, first, rest) =
          continue-eq-ok (extract_regular_file disk limits destination name e w)
            (λ _. grow_largest disk n) h in
        let (small, room, added, more) = regular_file-Added destination name e w v first in
        let grown : w' ≡ record v { largest = if ltb v.largest n then n else v.largest } =
          sym (ap (λ p. p.1) rest) in
        record {
          extracted = omega (arith, room, more, ap (λ u. u.extracted) grown);
          largest = ground (arith, small, k.largest, added.largest, ap (λ u. u.largest) grown);
          count = omega (arith, k.count, added.count, ap (λ u. u.count) grown);
          filled = omega (
            arith,
            k.filled,
            added.filled,
            more,
            ap (λ u. u.extracted) grown,
            ap (λ u. filled_bytes u.log) grown,
          );
          greatest =
              ap (λ u. greatest_fill u.log) grown
              ∙ added.greatest
              ∙ ap (larger n) k.greatest
              ∙ larger_both n w.largest (greatest_fill base)
              ∙ ap (λ l. larger (larger l n) (greatest_fill base)) (sym added.largest)
              ∙ ap (λ l. larger l (greatest_fill base)) (sym (ap (λ u. u.largest) grown));
          counted = ap (λ u. u.count) grown ∙ added.count ∙ k.counted;
        };
  }

  Plain-enter_parent : (path : Text) (s : Stat) → Plain (enter_parent disk path s)
  Plain-enter_parent path missing = Plain-act disk _ refl
  Plain-enter_parent path unknown = Plain-lift _
  Plain-enter_parent path (found kind) =
      Plain-if (is_directory kind) _ _ (Plain-lift _) (Plain-lift _)

  Plain-components : (current : Text) (cs : List Text) → Plain (ensure_components disk current cs)
  unfolding ensure_components
  Plain-components current [] = Plain-lift _
  Plain-components current (c ∷ cs) = Plain-bind _ _ (Plain-stat disk _) λ s.
      Plain-bind _ _ (Plain-enter_parent (file_path current c) s)
        λ _. Plain-components (file_path current c) cs

  pub Plain-parents :
      (destination name : Text) → Plain (ensure_parent_directories disk destination name)
  unfolding ensure_parent_directories
  Plain-parents destination name =
      Plain-if (is_dot (dir name)) _ _ (Plain-lift _)
        (Plain-components destination (split slash (dir name)))

  Plain-enter_directory :
      (path : Text) (perm : ℕ) (s : Stat) → Plain (enter_directory disk path perm s)
  Plain-enter_directory path perm missing = Plain-act disk _ refl
  Plain-enter_directory path perm unknown = Plain-lift _
  Plain-enter_directory path perm (found kind) =
      Plain-if (is_directory kind) _ _ (Plain-lift _) (Plain-lift _)

  Plain-directory :
      (destination name : Text) (perm : ℕ) → Plain (extract_directory disk destination name perm)
  unfolding extract_directory
  Plain-directory destination name perm = Plain-bind _ _ (Plain-stat disk _) λ s.
      Plain-bind _ _ (Plain-enter_directory (file_path destination name) perm s)
        λ _. Plain-add_mode disk name perm

  Plain-place_symlink : (path target : Text) (s : Stat) → Plain (place_symlink disk path target s)
  Plain-place_symlink path target missing = Plain-act disk _ refl
  Plain-place_symlink path target unknown = Plain-lift _
  Plain-place_symlink path target (found kind) = Plain-lift _

  Plain-symlink :
      (destination name target : Text) → Plain (extract_symlink disk destination name target)
  unfolding extract_symlink
  Plain-symlink destination name target = Plain-bind _ _ (Plain-lift _) λ _.
      Plain-bind _ _ (Plain-stat disk _)
        λ s. Plain-place_symlink (file_path destination name) target s

  Plain-place_link : (path target : Text) (s : Stat) → Plain (place_link disk path target s)
  Plain-place_link path target missing = Plain-lift _
  Plain-place_link path target unknown = Plain-lift _
  Plain-place_link path target (found regular) = Plain-act disk _ refl
  Plain-place_link path target (found directory) = Plain-lift _
  Plain-place_link path target (found symlink) = Plain-lift _
  Plain-place_link path target (found hardlink) = Plain-lift _
  Plain-place_link path target (found device) = Plain-lift _

  Plain-hardlink :
      (destination name target : Text) → Plain (extract_hardlink disk destination name target)
  unfolding extract_hardlink
  Plain-hardlink destination name target = Plain-bind _ _ (Plain-lift _) λ n.
      Plain-bind _ _ (Plain-stat disk _)
        λ s. Plain-place_link (file_path destination name) (file_path destination n) s

  pub kind-Keeps :
      (destination name : Text) (e : ArchiveEntry) (kind : Kind)
      → Keeps (extract_kind disk limits destination name e kind)
  unfolding extract_kind
  kind-Keeps destination name e directory =
      Keeps-Plain _ (Plain-directory destination name e.mode.perm)
  kind-Keeps destination name e regular = regular-Keeps destination name e
  kind-Keeps destination name e symlink =
      Keeps-Plain _ (Plain-symlink destination name e.link_target)
  kind-Keeps destination name e hardlink =
      Keeps-Plain _ (Plain-hardlink destination name e.link_target)
  kind-Keeps destination name e device = Keeps-Plain _ (Plain-lift _)
