-- ===== src/Tests/PypiTests.antt =====
-- Names of distributions from proxy/interceptors/pypi_url_parser_test.go.
use pmg.Prelude.Result.{ok, err}
use pmg.Prelude.Regex.{full_match}
use pmg.Prelude.{
  ℕ, ◌*◌, ◌≡◌, ◌⊎◌, refl, true, false, Option, none, some, Text, ◌=ₜ◌, codes, List, [], ◌∷◌, ◌++◌,
  join_with, if◌then◌else◌, arith,
}
use pmg.Registry.Cooldown.{day}
use pmg.Registry.Cache.{lookup}
use pmg.Registry.NpmCooldown.{present}
use pmg.Registry.PypiCooldown.{
  Layout, rfc3339_nano, rfc3339, FileEntry, file_entry, index, all_fields, ModifiedIndex,
  modify_index,
}
use pmg.Registry.PypiCooldown.Files.{without, is_fresh_file, with_files, modify_index-files}
use pmg.Registry.PypiUrl.{
  parse_filename, parse_files_url, parse_org_url, unsupported_type, denormalize,
}
use pmg.Registry.PypiUrl.Versions.{sdist_version}

abbrev same : ℕ → ℕ
same c = c

pre_release : full_match sdist_version (codes "1.0.0rc1") ≡ true
unfolding full_match sdist_version
pre_release = refl

local_version : full_match sdist_version (codes "2.1.0+cpu") ≡ true
unfolding full_match sdist_version
local_version = refl

no_version : full_match sdist_version (codes "RESTful") ≡ false
unfolding full_match sdist_version
no_version = refl

build_tag :
    parse_filename same (codes "package_name-1.0.0-1-py3-none-any.whl")
    ≡ ok (record {
      name = codes "package-name";
      version = codes "1.0.0";
      is_download = true;
      file_type = codes "wheel";
    })
unfolding parse_filename pmg.Prelude.strip_suffix pmg.Registry.PypiUrl.parse_wheel_filename
    pmg.Prelude.split_on denormalize
build_tag = refl

simple_index :
    parse_org_url same (codes "/simple/requests/")
    ≡ ok (record { name = codes "requests"; version = []; is_download = false; file_type = [] })
unfolding parse_org_url pmg.Prelude.trim pmg.Prelude.split_on pmg.Registry.PypiUrl.parse_simple_api
    denormalize
simple_index = refl

signature_file :
    parse_files_url same (codes "/packages/ab/cd/requests-2.28.0.tar.gz.asc") ≡ err unsupported_type
unfolding parse_files_url pmg.Prelude.trim pmg.Prelude.split_on parse_filename
    pmg.Prelude.strip_suffix
signature_file = refl

is_version : full_match sdist_version (codes "0.3.10") ≡ true
unfolding full_match sdist_version
is_version = refl

-- An index of three files. A time of the test is the number of days it is written with.
abbrev a_parser : Layout → Text → Option ℕ
a_parser rfc3339_nano s = none
a_parser rfc3339 s =
    if s =ₜ codes "100" then some (100 * day) else if s =ₜ codes "2" then some (2 * day) else none

abbrev a_file : Text → Text → FileEntry
a_file filename upload_time = file_entry (present filename) (present upload_time) (codes "sha256")

abbrev some_files : List FileEntry
some_files =
    a_file (codes "p-1.0.tar.gz") (codes "2")
    ∷ a_file (codes "p-2.0.tar.gz") (codes "100")
    ∷ a_file (codes "p-1.0.zip") (codes "100")
    ∷ a_file (codes "p-2.0.zip") []
    ∷ []

abbrev some_fields : List (Text × Text)
some_fields =
    (codes "p-1.0.tar.gz", codes "2")
    ∷ (codes "p-2.0.tar.gz", codes "100")
    ∷ (codes "p-1.0.zip", codes "100")
    ∷ (codes "p-2.0.zip", [])
    ∷ []

abbrev an_index : ModifiedIndex
an_index =
    modify_index same a_parser none (101 * day) (codes "p") 7 [] (with_files [] some_files none [])

-- Both files of the new version go, also the one without a date.
index_runs :
    an_index.body
    ≡ index (
        present (
          a_file (codes "p-1.0.tar.gz") (codes "2")
          ∷ a_file (codes "p-1.0.zip") (codes "100")
          ∷ []))
unfolding modify_index pmg.Registry.Cooldown.too_new parse_filename pmg.Prelude.strip_suffix
    pmg.Registry.PypiUrl.parse_sdist_filename pmg.Registry.PypiUrl.Versions.extract_from_sdist
    pmg.Prelude.split_on full_match join_with sdist_version pmg.Registry.Cooldown.is_within_window
    pmg.Registry.Cooldown.days_since pmg.Registry.Cooldown.is_member
index_runs = refl

modify_index-files_example :
    (an_index.body
      ≡ index
          (present (without (is_fresh_file same a_parser (101 * day) 7 some_fields) some_files)))
    × ((lookup (codes "Cache-Control") an_index.headers ≡ some (codes "no-store" ∷ []))
        ⊎ (an_index ≡ with_files [] some_files none []))
unfolding all_fields
modify_index-files_example =
    modify_index-files same a_parser (101 * day) 7 none (codes "p") [] [] none [] some_files
      some_fields refl
