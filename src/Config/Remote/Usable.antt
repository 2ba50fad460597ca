-- ===== src/Config/Remote/Usable.antt =====
-- What holds of a remote root filesystem that `validateRemoteRootFS` of config.go accepts.
use bcs_zc241t_study_project.Prelude.{
  ℕ, zero, suc, ◌≤◌, ◌≡◌, ◌≢◌, refl, true, false, not, ◌||◌, Option, none, some, [], ◌∷◌, any, All,
  Result, ok, ◌>>◌, reject, ◌==◌, ◌=?◌, =?_iff, length, arith, >>-eq-ok_iff, reject-eq-ok_iff,
  codes,
}
use bcs_zc241t_study_project.Prelude.Int.{ℤ, pos, negsuc, is_negative, ltb_ℤ}
use bcs_zc241t_study_project.Text.{Text, has_nul, is_empty, has_prefix}
use bcs_zc241t_study_project.Paths.{clean, slash}
use bcs_zc241t_study_project.Config.Types.{RemoteRootFs}
use bcs_zc241t_study_project.Config.Remote.{
  Url, RemoteError, url_has_nul, url_not_https, url_path_unsafe, architecture_empty,
  architecture_mismatch, digest_invalid, limit_negative, limit_overflow, file_over_total,
  contains_text, is_lower_hex, validate_remote_digest, max_remote_limit_mb, or_default,
  validate_remote_limits, check_url, validate_remote_rootfs,
}

-- An `https` address without a user, a query or a fragment, whose path is absolute, clean, and nowhere has
-- two dots.
pub record IsPlainUrl (u : Url) : Type 0 where
  pub scheme : u.scheme ≡ codes "https"
  pub host : u.host ≢ []
  pub no_user : u.has_user ≡ false
  pub no_query : u.raw_query ≡ []
  pub no_fragment : u.fragment ≡ []
  pub absolute : has_prefix u.path (slash ∷ []) ≡ true
  pub is_clean : u.path ≡ clean u.path
  pub no_dots : contains_text u.path (codes "..") ≡ false

-- The limits in MB, with the default for 0.
abbrev pub effective : ℕ → ℕ → ℕ
effective zero n = n
effective (suc m) n = suc m

pub record AreUsableLimits (r : RemoteRootFs) : Type 0 where
  pub total : ℕ
  pub file : ℕ
  pub entries : ℕ
  pub is_total : r.max_extracted_size_mb ≡ pos total
  pub is_file : r.max_file_size_mb ≡ pos file
  pub is_entries : r.max_entries ≡ pos entries
  pub total_fits : effective total 512 ≤ max_remote_limit_mb
  pub file_fits : effective file 128 ≤ effective total 512

-- What is accepted of a remote root filesystem.
pub record IsUsableRemote (parse_url : Text → Option Url) (goarch : Text) (r : RemoteRootFs)
    : Type 0 where
  pub no_nul : has_nul r.url ≡ false
  pub url : (u : Url) × (parse_url r.url ≡ some u) × IsPlainUrl u
  pub architecture : (r.architecture ≡ goarch) × (r.architecture ≢ [])
  pub digest : (length r.archive_sha256 ≡ 64) × All (λ c. is_lower_hex c ≡ true) r.archive_sha256
  pub limits : AreUsableLimits r

abbrev Checks : Type 0
Checks = Result RemoteError (Unit {0})

then_ok : (m : Checks) {k : Checks} → (m >> k) ≡ ok tt → (m ≡ ok tt) × (k ≡ ok tt)
then_ok m {k} h = (>>-eq-ok_iff m k tt).0 h

not_empty : (s : Text) → is_empty s ≡ false → s ≢ []
not_empty [] h = λ _. cc
not_empty (c ∷ s) h = λ e. cc

empty : (s : Text) → not (is_empty s) ≡ false → s ≡ []
empty [] h = refl
empty (c ∷ s) h = cc

all_hex :
    (s : Text) → any (λ c. not (is_lower_hex c)) s ≡ false → All (λ c. is_lower_hex c ≡ true) s
unfolding any
all_hex [] h = tt
all_hex (c ∷ s) h = (ground arith, all_hex s (ground arith))

check_url-IsPlainUrl :
    (url : Option Url) → check_url url ≡ ok tt → (u : Url) × (url ≡ some u) × IsPlainUrl u
unfolding check_url
check_url-IsPlainUrl none h = cc
check_url-IsPlainUrl (some u) h =
    let odd =
      not (u.scheme =? codes "https")
      || is_empty u.host
      || u.has_user
      || not (is_empty u.raw_query)
      || not (is_empty u.fragment) in
    let unsafe =
      is_empty u.path
      || not (has_prefix u.path (slash ∷ []))
      || not (u.path =? clean u.path)
      || contains_text u.path (codes "..") in
    let (a, b) = then_ok (reject odd url_not_https) h in
    let plain : odd ≡ false = (reject-eq-ok_iff odd url_not_https).0 a in
    let safe : unsafe ≡ false = (reject-eq-ok_iff unsafe url_path_unsafe).0 b in
    (
      u,
      refl,
      record {
        scheme = ground (arith, =?_iff u.scheme (codes "https"));
        host = not_empty u.host (ground arith);
        no_user = ground arith;
        no_query = empty u.raw_query (ground arith);
        no_fragment = empty u.fragment (ground arith);
        absolute = ground arith;
        is_clean = ground (arith, =?_iff u.path (clean u.path));
        no_dots = ground arith;
      },
    )

limits_at :
    (r : RemoteRootFs) (total file entries : ℤ)
    → r.max_extracted_size_mb ≡ total
    → r.max_file_size_mb ≡ file
    → r.max_entries ≡ entries
    → (is_negative total || is_negative file || is_negative entries) ≡ false
    → (ltb_ℤ (pos max_remote_limit_mb) (or_default total 512)
        || ltb_ℤ (pos max_remote_limit_mb) (or_default file 128))
      ≡ false
    → ltb_ℤ (or_default total 512) (or_default file 128) ≡ false
    → AreUsableLimits r
limits_at r (negsuc t) file entries a b c h fits apart = cc
limits_at r (pos t) (negsuc f) entries a b c h fits apart = cc
limits_at r (pos t) (pos f) (negsuc n) a b c h fits apart = cc
limits_at r (pos t) (pos f) (pos n) a b c h fits apart =
    let (most, order) = effective_fits t f fits apart in
    record {
      total = t;
      file = f;
      entries = n;
      is_total = a;
      is_file = b;
      is_entries = c;
      total_fits = most;
      file_fits = order;
    }
  where
    effective_fits :
        (t f : ℕ)
        → (ltb_ℤ (pos max_remote_limit_mb) (or_default (pos t) 512)
            || ltb_ℤ (pos max_remote_limit_mb) (or_default (pos f) 128))
          ≡ false
        → ltb_ℤ (or_default (pos t) 512) (or_default (pos f) 128) ≡ false
        → (effective t 512 ≤ max_remote_limit_mb) × (effective f 128 ≤ effective t 512)
    effective_fits zero zero h k = (ground arith, ground arith)
    effective_fits zero (suc f) h k = (ground arith, ground arith)
    effective_fits (suc t) zero h k = (ground arith, ground arith)
    effective_fits (suc t) (suc f) h k = (ground arith, ground arith)

validate_remote_limits-AreUsableLimits :
    (r : RemoteRootFs) → validate_remote_limits r ≡ ok tt → AreUsableLimits r
unfolding validate_remote_limits
validate_remote_limits-AreUsableLimits r h =
    let (a, rest) = then_ok (reject _ limit_negative) h in
    let (b, c) = then_ok (reject _ limit_overflow) rest in
    limits_at r r.max_extracted_size_mb r.max_file_size_mb r.max_entries refl refl refl
      ((reject-eq-ok_iff _ limit_negative).0 a) ((reject-eq-ok_iff _ limit_overflow).0 b)
      ((reject-eq-ok_iff _ file_over_total).0 c)

digest_facts :
    (value : Text)
    → validate_remote_digest value ≡ ok tt
    → (length value ≡ 64) × All (λ c. is_lower_hex c ≡ true) value
unfolding validate_remote_digest
digest_facts value h =
    let (a, b) = then_ok (reject (not (length value == 64)) digest_invalid) h in
    (
      ground (arith, (reject-eq-ok_iff (not (length value == 64)) digest_invalid).0 a),
      all_hex value ((reject-eq-ok_iff _ digest_invalid).0 b),
    )

pub validate_remote_rootfs-IsUsableRemote :
    (parse_url : Text → Option Url) (goarch : Text) (r : RemoteRootFs)
    → validate_remote_rootfs parse_url goarch r ≡ ok tt
    → IsUsableRemote parse_url goarch r
unfolding validate_remote_rootfs
validate_remote_rootfs-IsUsableRemote parse_url goarch r h =
    let (a, r₁) = then_ok (reject (has_nul r.url) url_has_nul) h in
    let (b, r₂) = then_ok (check_url (parse_url r.url)) r₁ in
    let (c, r₃) = then_ok (reject (is_empty r.architecture) architecture_empty) r₂ in
    let (d, r₄) = then_ok (reject (not (r.architecture =? goarch)) architecture_mismatch) r₃ in
    let (e, f) = then_ok (validate_remote_digest r.archive_sha256) r₄ in
    record {
      no_nul = (reject-eq-ok_iff _ url_has_nul).0 a;
      url = check_url-IsPlainUrl (parse_url r.url) b;
      architecture = (
        ground (
          arith,
          =?_iff r.architecture goarch,
          (reject-eq-ok_iff (not (r.architecture =? goarch)) architecture_mismatch).0 d,
        ),
        not_empty r.architecture ((reject-eq-ok_iff _ architecture_empty).0 c),
      );
      digest = digest_facts r.archive_sha256 e;
      limits = validate_remote_limits-AreUsableLimits r f;
    }
