-- ===== src/Registry/NpmUrl.antt =====
-- proxy/interceptors/npm_url_parser.go: the package that the path of an NPM registry URL names.
pub mod Tarball
pub mod Paths
pub mod Roundtrips
use pmg.Prelude.Result.{Result, ok, err, wrap_error, ◌>>=◌}
use pmg.Prelude.{
  ℕ, Bool, true, false, ◌&&◌, Text, codes, ◌=ₜ◌, ◌==◌, is_empty, List, [], ◌∷◌, ◌++◌, length,
  has_prefix, has_suffix, trim_prefix, trim_suffix, trim, split_on, if◌then◌else◌,
}

pub record NpmPackageInfo : Type 0 where
  pub name : Text
  pub version : Text
  pub is_tarball : Bool
  pub is_scoped : Bool

pub data TarballError : Type 0 where
  name_mismatch wrong_suffix no_version : TarballError

pub data UrlError : Type 0 where
  empty_path not_enough_segments no_segments : UrlError
  unexpected_segments : ℕ → UrlError
  bad_tarball : TarballError → UrlError

abbrev pub tgz : Text
tgz = codes ".tgz"

abbrev pub is_slash : ℕ → Bool
is_slash c = c == b'/'

-- What is left between the prefix and `.tgz`, which must not be empty.
unfoldable pub version_between : Text → Text → Result TarballError Text
version_between prefix tarball =
    let version = trim_suffix (trim_prefix tarball prefix) tgz in
    if is_empty version then err no_version else ok version

unfoldable pub extract_version : Text → Text → Result TarballError Text
extract_version pkg tarball =
    let prefix = pkg ++ codes "-" in
    if has_prefix tarball prefix
    then (if has_suffix tarball tgz then version_between prefix tarball else err wrong_suffix)
    else err name_mismatch

unfoldable pub extract_version_scoped : Text → Text → Text → Result TarballError Text
extract_version_scoped scope pkg tarball =
    let with_scope = trim_prefix scope (codes "@") ++ codes "-" ++ pkg ++ codes "-" in
    let without_scope = pkg ++ codes "-" in
    if has_suffix tarball tgz
    then (if has_prefix tarball with_scope
        then version_between with_scope tarball
        else if has_prefix tarball without_scope
        then version_between without_scope tarball
        else err name_mismatch)
    else err wrong_suffix

abbrev info : Text → Text → Bool → Bool → NpmPackageInfo
info n v tarball scoped = record { name = n; version = v; is_tarball = tarball; is_scoped = scoped }

abbrev full_name : Text → Text → Text
full_name scope pkg = scope ++ codes "/" ++ pkg

-- The arguments are the segments; the order of the tests on their number is the source's.
unfoldable pub parse_scoped : List Text → Result UrlError NpmPackageInfo
unfolding extract_version_scoped
parse_scoped [] = err not_enough_segments
parse_scoped (scope ∷ []) = err not_enough_segments
parse_scoped (scope ∷ pkg ∷ []) = ok (info (full_name scope pkg) [] false true)
parse_scoped (scope ∷ pkg ∷ version ∷ []) = ok (info (full_name scope pkg) version false true)
parse_scoped (scope ∷ pkg ∷ dash ∷ tarball ∷ []) =
    if dash =ₜ codes "-"
    then wrap_error bad_tarball (extract_version_scoped scope pkg tarball)
      >>= (λ version. ok (info (full_name scope pkg) version true true))
    else err (unexpected_segments 4)
parse_scoped (scope ∷ pkg ∷ dash ∷ tarball ∷ more ∷ rest) =
    err (unexpected_segments (length (scope ∷ pkg ∷ dash ∷ tarball ∷ more ∷ rest)))

unfoldable pub parse_unscoped : List Text → Result UrlError NpmPackageInfo
unfolding extract_version
parse_unscoped [] = err no_segments
parse_unscoped (pkg ∷ []) = ok (info pkg [] false false)
parse_unscoped (pkg ∷ version ∷ []) = ok (info pkg version false false)
parse_unscoped (pkg ∷ dash ∷ tarball ∷ []) =
    if dash =ₜ codes "-"
    then wrap_error bad_tarball (extract_version pkg tarball)
      >>= (λ version. ok (info pkg version true false))
    else err (unexpected_segments 3)
parse_unscoped (pkg ∷ dash ∷ tarball ∷ more ∷ rest) =
    err (unexpected_segments (length (pkg ∷ dash ∷ tarball ∷ more ∷ rest)))

abbrev is_scoped_path : List Text → Bool
is_scoped_path [] = false
is_scoped_path (s ∷ ss) = has_prefix s (codes "@")

-- `npmParser.ParseURL`
unfoldable pub parse_url : Text → Result UrlError NpmPackageInfo
parse_url path =
    let trimmed = trim is_slash path in
    let segments = split_on b'/' trimmed in
    if is_empty trimmed
    then err empty_path
    else if is_scoped_path segments
    then parse_scoped segments
    else parse_unscoped segments

-- `npmGithubParser.ParseURL` and `npmGithubBlobParser.ParseURL`: never a tarball.
unfoldable pub parse_github_url : Text → Result UrlError NpmPackageInfo
parse_github_url path = ok (info [] [] false false)
