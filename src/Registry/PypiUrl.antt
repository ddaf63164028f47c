-- ===== src/Registry/PypiUrl.antt =====
-- proxy/interceptors/pypi_url_parser.go: the package that a URL of files.pythonhosted.org or of
-- pypi.org names. `strings.ToLower` beyond ASCII is the parameter `lower_beyond`.
pub mod Versions
pub mod Filenames
use pmg.Prelude.Result.{Result, ok, err}
use pmg.Prelude.Regex.{
  Regex, epsilon, one_of, seq, alt, star, literal, maybe, some_of, any_of, full_match,
}
use pmg.Prelude.{
  ℕ, Bool, true, false, not, ◌&&◌, ◌||◌, leb, ◌==◌, Text, codes, ◌=ₜ◌, is_empty, List, [], ◌∷◌,
  ◌++◌, map, length, has_suffix, trim_suffix, trim, split_on, join_with, if◌then◌else◌,
}
use pmg.Registry.PypiUrl.Versions.{is_digit, extract_from_sdist, extract_from_parts}
use pmg.OrgPolicy.{to_lower}
use pmg.Registry.NpmUrl.{is_slash}

pub record PypiPackageInfo : Type 0 where
  pub name : Text
  pub version : Text
  pub is_download : Bool
  pub file_type : Text

pub data PypiError : Type 0 where
  empty_path not_enough_segments wrong_prefix missing_name too_many_segments bad_format : PypiError
  unsupported_type not_enough_components bad_filename : PypiError

abbrev all_digits : Text → Bool
all_digits [] = true
all_digits (c ∷ s) = is_digit c && all_digits s

abbrev pub is_build_tag : Text → Bool
is_build_tag s = not (is_empty s) && all_digits s

-- `parts[:len(parts)-3]`
abbrev but_last_three : List Text → List Text
but_last_three [] = []
but_last_three (a ∷ []) = []
but_last_three (a ∷ b ∷ []) = []
but_last_three (a ∷ b ∷ c ∷ []) = []
but_last_three (a ∷ b ∷ c ∷ d ∷ s) = a ∷ but_last_three (b ∷ c ∷ d ∷ s)

abbrev pub to_hyphen : ℕ → ℕ
to_hyphen c = if c == b'_' || c == b'.' then b'-' else c

abbrev last_of : Text → List Text → Text
last_of s [] = s
last_of s (t ∷ ts) = last_of t ts

module _ (lower_beyond : ℕ → ℕ) where
  unfoldable pub denormalize : Text → Text
  denormalize name = map to_hyphen (to_lower lower_beyond name)

  abbrev pub download_info : Text → Text → Text → PypiPackageInfo
  download_info name version type = record {
    name = denormalize name;
    version = version;
    is_download = true;
    file_type = type;
  }

  abbrev pub index_info : Text → Text → PypiPackageInfo
  index_info name version = record {
    name = denormalize name;
    version = version;
    is_download = false;
    file_type = [];
  }

  -- The checks on what was extracted.
  abbrev checked : Text → Text × Text → Result PypiError PypiPackageInfo
  checked type (name, version) =
      if is_empty name || is_empty version
      then err bad_filename
      else ok (download_info name version type)

  -- The parts of a wheel's name: fewer than five, five, six, or more.
  unfoldable pub parse_wheel_parts : List Text → Result PypiError PypiPackageInfo
  parse_wheel_parts [] = err not_enough_components
  parse_wheel_parts (a ∷ []) = err not_enough_components
  parse_wheel_parts (a ∷ b ∷ []) = err not_enough_components
  parse_wheel_parts (a ∷ b ∷ c ∷ []) = err not_enough_components
  parse_wheel_parts (a ∷ b ∷ c ∷ d ∷ []) = err not_enough_components
  parse_wheel_parts (name ∷ version ∷ c ∷ d ∷ e ∷ []) =
      ok (download_info name version (codes "wheel"))
  parse_wheel_parts (a ∷ b ∷ c ∷ d ∷ e ∷ f ∷ []) =
      if is_build_tag c
      then ok (download_info a b (codes "wheel"))
      else ok (download_info (a ++ codes "_" ++ b) c (codes "wheel"))
  parse_wheel_parts (a ∷ b ∷ c ∷ d ∷ e ∷ f ∷ g ∷ more) =
      checked (codes "wheel")
        (extract_from_parts (but_last_three (a ∷ b ∷ c ∷ d ∷ e ∷ f ∷ g ∷ more)))

  unfoldable pub parse_wheel_filename : Text → Result PypiError PypiPackageInfo
  unfolding parse_wheel_parts
  parse_wheel_filename filename =
      parse_wheel_parts (split_on b'-' (trim_suffix filename (codes ".whl")))

  -- The first extension that fits is removed.
  unfoldable pub without_extension : Text → Text
  without_extension filename =
      if has_suffix filename (codes ".tar.gz")
      then trim_suffix filename (codes ".tar.gz")
      else if has_suffix filename (codes ".tar.bz2")
      then trim_suffix filename (codes ".tar.bz2")
      else if has_suffix filename (codes ".tgz")
      then trim_suffix filename (codes ".tgz")
      else if has_suffix filename (codes ".zip")
      then trim_suffix filename (codes ".zip")
      else filename

  unfoldable pub parse_sdist_filename : Text → Result PypiError PypiPackageInfo
  unfolding without_extension
  parse_sdist_filename filename =
      checked (codes "sdist") (extract_from_sdist (without_extension filename))

  unfoldable pub parse_filename : Text → Result PypiError PypiPackageInfo
  parse_filename filename =
      if has_suffix filename (codes ".whl")
      then parse_wheel_filename filename
      else if has_suffix filename (codes ".tar.gz") || has_suffix filename (codes ".zip")
      then parse_sdist_filename filename
      else if has_suffix filename (codes ".tar.bz2") || has_suffix filename (codes ".tgz")
      then parse_sdist_filename filename
      else err unsupported_type

  unfoldable pub parse_simple_api : List Text → Result PypiError PypiPackageInfo
  parse_simple_api [] = err missing_name
  parse_simple_api (pkg ∷ []) = ok (index_info pkg [])
  parse_simple_api (pkg ∷ filename ∷ []) = elim (parse_filename filename) [
    | err e ↦ ok (index_info pkg [])
    | ok info ↦ ok info
  ]
  parse_simple_api (pkg ∷ filename ∷ more ∷ rest) = err too_many_segments

  unfoldable pub parse_json_api : List Text → Result PypiError PypiPackageInfo
  parse_json_api [] = err missing_name
  parse_json_api (pkg ∷ []) = err bad_format
  parse_json_api (pkg ∷ json ∷ []) =
      if json =ₜ codes "json" then ok (index_info pkg []) else err bad_format
  parse_json_api (pkg ∷ version ∷ json ∷ []) =
      if json =ₜ codes "json" then ok (index_info pkg version) else err bad_format
  parse_json_api (pkg ∷ version ∷ json ∷ more ∷ rest) = err bad_format

  abbrev files_segments : List Text → Result PypiError PypiPackageInfo
  files_segments [] = err not_enough_segments
  files_segments (first ∷ []) = err not_enough_segments
  files_segments (first ∷ second ∷ rest) =
      if first =ₜ codes "packages" then parse_filename (last_of second rest) else err wrong_prefix

  abbrev org_segments : List Text → Result PypiError PypiPackageInfo
  org_segments [] = err not_enough_segments
  org_segments (first ∷ []) = err not_enough_segments
  org_segments (first ∷ second ∷ rest) =
      if first =ₜ codes "simple"
      then parse_simple_api (second ∷ rest)
      else if first =ₜ codes "pypi"
      then parse_json_api (second ∷ rest)
      else err wrong_prefix

  -- `pypiFilesParser.ParseURL`
  unfoldable pub parse_files_url : Text → Result PypiError PypiPackageInfo
  parse_files_url path =
      let trimmed = trim is_slash path in
      if is_empty trimmed then err empty_path else files_segments (split_on b'/' trimmed)

  -- `pypiOrgParser.ParseURL`
  unfoldable pub parse_org_url : Text → Result PypiError PypiPackageInfo
  parse_org_url path =
      let trimmed = trim is_slash path in
      if is_empty trimmed then err empty_path else org_segments (split_on b'/' trimmed)
