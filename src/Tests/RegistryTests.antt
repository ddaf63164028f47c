-- ===== src/Tests/RegistryTests.antt =====
-- The parts of the registry interceptors on concrete URLs, dates and packages.
use pmg.Prelude.Result.{ok, err}
use pmg.Prelude.{
  ℕ, ◌+◌, ◌-◌, ◌≤◌, ◌<◌, ◌*◌, ◌≡◌, refl, ◌↔◌, ◌⊎◌, inl, inr, Bool, true, false, Option, none, some,
  Text, codes, ◌=ₜ◌, is_some, List, [], ◌∷◌, ◌++◌, Any, All, Lacks, split_on, trim, has_prefix,
  join_with, length, if◌then◌else◌, arith,
}
use pmg.Analysis.{npm, PackageVersion, allow, with_action}
use pmg.Registry.NpmUrl.{
  NpmPackageInfo, is_slash, parse_url, empty_path, unexpected_segments, extract_version,
  extract_version_scoped,
}
use pmg.Registry.NpmUrl.Paths.{NamesTarball, parse_url-NamesTarball}
use pmg.Registry.Cache.{Cache, cache_key, get, set, clear, size, has, delete}
use pmg.Registry.Cache.Laws.{IsMap}
use pmg.Registry.Stats.{Call, allowed, blocked, user_cancelled}
use pmg.Registry.Cooldown.{
  day, max_duration, Dates, is_within_window, within, is_member, latest_eligible_version,
  oldest_version,
}
use pmg.Registry.NpmCooldown.{
  absent, present, Packument, document, parse_metadata_time, strip_cooldown_versions,
}

plain_tarball :
    parse_url (codes "/lodash/-/lodash-4.17.21.tgz")
    ≡ ok (record {
      name = codes "lodash";
      version = codes "4.17.21";
      is_tarball = true;
      is_scoped = false;
    })
unfolding parse_url trim split_on pmg.Prelude.strip_prefix pmg.Registry.NpmUrl.parse_unscoped
    pmg.Prelude.strip_suffix pmg.Registry.NpmUrl.version_between
plain_tarball = refl

scoped_metadata :
    parse_url (codes "/@types/node/")
    ≡ ok (record { name = codes "@types/node"; version = []; is_tarball = false; is_scoped = true })
unfolding parse_url trim split_on pmg.Prelude.strip_prefix pmg.Registry.NpmUrl.parse_scoped
scoped_metadata = refl

root_path : parse_url (codes "///") ≡ err empty_path
unfolding parse_url trim
root_path = refl

service_path : parse_url (codes "/-/npm/v1/security") ≡ err (unexpected_segments 4)
unfolding parse_url trim split_on pmg.Prelude.strip_prefix pmg.Registry.NpmUrl.parse_unscoped
service_path = refl

abbrev node_info : NpmPackageInfo
node_info = record {
  name = codes "@types/node";
  version = codes "18.0.0";
  is_tarball = true;
  is_scoped = true;
}

node_path : parse_url (codes "/@types/node/-/node-18.0.0.tgz") ≡ ok node_info
unfolding parse_url trim split_on pmg.Prelude.strip_prefix pmg.Registry.NpmUrl.parse_scoped
    pmg.Prelude.strip_suffix pmg.Registry.NpmUrl.version_between
node_path = refl

parse_url-NamesTarball_example :
    NamesTarball node_info (split_on b'/' (trim is_slash (codes "/@types/node/-/node-18.0.0.tgz")))
parse_url-NamesTarball_example =
    parse_url-NamesTarball (codes "/@types/node/-/node-18.0.0.tgz") node_info node_path refl

-- A name with a colon shares its key with another package.
shared_key :
    cache_key (codes "npm") (codes "a:b") (codes "1")
    ≡ cache_key (codes "npm") (codes "a") (codes "b:1")
unfolding cache_key
shared_key = refl

abbrev e : Text
e = codes "npm"

abbrev n : Text
n = codes "a"

abbrev v : Text
v = codes "1"

abbrev small : Cache ℕ
small = (codes "npm:a:1", 7) ∷ (codes "npm:b:1", 8) ∷ []

small-IsMap : IsMap small
unfolding pmg.Registry.Cache.lookup
small-IsMap = (refl, (refl, tt))

abbrev left_pad : PackageVersion
left_pad = record { ecosystem = npm; name = codes "left-pad"; version = codes "1.3.0" }

abbrev calls : List Call
calls =
    allowed (some (with_action left_pad allow))
    ∷ user_cancelled (some (with_action left_pad allow))
    ∷ blocked none
    ∷ []

abbrev dates : Dates
dates = (codes "1.0", 1 * day) ∷ (codes "3.0", 9 * day) ∷ (codes "2.0", 4 * day) ∷ []

two_is_latest : latest_eligible_version dates (codes "3.0" ∷ []) ≡ codes "2.0"
unfolding latest_eligible_version
two_is_latest = refl

one_is_oldest : oldest_version dates ≡ (codes "1.0", 1 * day)
unfolding oldest_version
one_is_oldest = refl

one_is_eligible : Any (λ d. (is_member (d.0) (codes "3.0" ∷ []) ≡ false) × (0 < d.1)) dates
unfolding is_member
one_is_eligible = inl (refl, omega arith)

abbrev packument : Packument
packument = record {
  versions = present ((codes "1.0", []) ∷ (codes "2.0", []) ∷ (codes "3.0", []) ∷ []);
  time = absent;
  dist_tags = present ((codes "latest", codes "3.0") ∷ []);
}

newest_is_stripped :
    (strip_cooldown_versions (10 * day) 5 (document packument) dates).0
    ≡ document (record packument {
      versions = present ((codes "1.0", []) ∷ (codes "2.0", []) ∷ []);
      dist_tags = present ((codes "latest", codes "2.0") ∷ []);
    })
unfolding strip_cooldown_versions pmg.Registry.Cooldown.too_new is_within_window
    pmg.Registry.Cooldown.days_since pmg.Registry.NpmCooldown.delete_all
    pmg.Registry.NpmCooldown.move_tags is_member latest_eligible_version
newest_is_stripped = refl
