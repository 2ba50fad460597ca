-- ===== src/Config/Remote.antt =====
-- sandbox/sandbox/config/config.go: `validateRemoteRootFS` and what it calls. `url.Parse` and
-- `runtime.GOARCH` are parameters.
pub mod Usable
use bcs_zc241t_study_project.Prelude.{
  ℕ, zero, suc, ◌-◌, ◌^◌, Bool, not, ◌&&◌, ◌||◌, Option, none, some, [], ◌∷◌, length, any, Result,
  err, ◌>>◌, reject, leb, ◌==◌, ◌=?◌, codes,
}
use bcs_zc241t_study_project.Prelude.Int.{ℤ, pos, negsuc, is_negative, ltb_ℤ}
use bcs_zc241t_study_project.Text.{Text, has_nul, is_empty, has_prefix}
use bcs_zc241t_study_project.Paths.{clean, slash}
use bcs_zc241t_study_project.Config.Types.{RemoteRootFs}

-- The fields of `url.URL` that are read.
pub record Url : Type 0 where
  pub scheme : Text
  pub host : Text
  pub has_user : Bool
  pub raw_query : Text
  pub fragment : Text
  pub path : Text

pub data RemoteError : Type 0 where
  url_has_nul url_not_https url_path_unsafe : RemoteError
  architecture_empty architecture_mismatch digest_invalid : RemoteError
  limit_negative limit_overflow file_over_total : RemoteError

-- `strings.Contains(s, sub)`.
unfoldable pub contains_text : Text → Text → Bool
unfolding has_prefix
contains_text [] sub = is_empty sub
contains_text (c ∷ s) sub = has_prefix (c ∷ s) sub || contains_text s sub

abbrev pub is_lower_hex : ℕ → Bool
is_lower_hex c = (leb b'0' c && leb c b'9') || (leb b'a' c && leb c b'f')

-- `validateRemoteDigest`: 64 bytes, equal to their own lower case and read by `hex.DecodeString`, which
-- are the digits and the letters a to f.
unfoldable pub validate_remote_digest : Text → Result RemoteError (Unit {0})
unfolding any
validate_remote_digest value = do
  reject (not (length value == 64)) digest_invalid
  reject (any (λ c. not (is_lower_hex c)) value) digest_invalid

abbrev pub max_remote_limit_mb : ℕ
max_remote_limit_mb = 2 ^ 43 - 1

abbrev pub or_default : ℤ → ℕ → ℤ
or_default (pos zero) n = pos n
or_default (pos (suc m)) n = pos (suc m)
or_default (negsuc m) n = negsuc m

-- `validateRemoteLimits`. The first loop runs over a map, in no fixed order; its error does not say
-- here which of the three limits is negative.
unfoldable pub validate_remote_limits : RemoteRootFs → Result RemoteError (Unit {0})
validate_remote_limits r = do
  reject
      (is_negative r.max_extracted_size_mb
        || is_negative r.max_file_size_mb
        || is_negative r.max_entries)
      limit_negative
  let total_mb = or_default r.max_extracted_size_mb 512
  let file_mb = or_default r.max_file_size_mb 128
  reject (ltb_ℤ (pos max_remote_limit_mb) total_mb || ltb_ℤ (pos max_remote_limit_mb) file_mb)
      limit_overflow
  reject (ltb_ℤ total_mb file_mb) file_over_total

-- The tests on the parsed URL.
unfoldable pub check_url : Option Url → Result RemoteError (Unit {0})
unfolding contains_text ◌=?◌ clean
check_url none = err url_not_https
check_url (some u) = do
  reject
      (not (u.scheme =? codes "https")
        || is_empty u.host
        || u.has_user
        || not (is_empty u.raw_query)
        || not (is_empty u.fragment))
      url_not_https
  reject
      (is_empty u.path
        || not (has_prefix u.path (slash ∷ []))
        || not (u.path =? clean u.path)
        || contains_text u.path (codes ".."))
      url_path_unsafe

-- `validateRemoteRootFS`.
unfoldable pub validate_remote_rootfs :
    (Text → Option Url) → Text → RemoteRootFs → Result RemoteError (Unit {0})
unfolding check_url validate_remote_digest validate_remote_limits ◌=?◌
validate_remote_rootfs parse_url goarch r = do
  reject (has_nul r.url) url_has_nul
  check_url (parse_url r.url)
  reject (is_empty r.architecture) architecture_empty
  reject (not (r.architecture =? goarch)) architecture_mismatch
  validate_remote_digest r.archive_sha256
  validate_remote_limits r
