-- ===== src/SandboxAllow.antt =====
-- config/sandbox_allow.go: the overrides of `--sandbox-allow`, read from their text. The working
-- directory is an argument, `none` where it cannot be had; warnings are left out.
pub mod Addresses
pub mod Overrides
use pmg.Prelude.{
  ℕ, ◌==◌, Bool, true, false, ◌&&◌, ◌||◌, not, Option, none, some, Text, codes, ◌=ₜ◌, is_empty,
  contains_code, has_prefix, cut_first, cut_last, List, [], ◌∷◌, ◌++◌, if◌then◌else◌,
}
use pmg.Prelude.Result.{Result, ok, err, ◌>>=◌}
use pmg.Paths.{is_rooted, clean, join_path}
use pmg.SandboxUtil.{contains_glob}

pub data SandboxAllowType : Type 0 where
  sandbox_allow_read sandbox_allow_write sandbox_allow_exec sandbox_allow_net_connect
        sandbox_allow_net_bind :
      SandboxAllowType

pub record SandboxAllowOverride : Type 0 where
  pub allow_type : SandboxAllowType
  pub value : Text
  pub raw : Text

pub data OverrideError : Type 0 where
  missing_separator missing_type missing_value ambiguous_net unknown_type : OverrideError
  unexpanded_tilde glob_in_exec no_working_dir : OverrideError
  no_colon missing_host missing_port host_wildcard port_wildcard : OverrideError

-- `validSandboxAllowTypes`, with the type of each name.
abbrev pub type_of : Text → Option SandboxAllowType
type_of name =
    if name =ₜ codes "read"
    then some sandbox_allow_read
    else if name =ₜ codes "write"
    then some sandbox_allow_write
    else if name =ₜ codes "exec"
    then some sandbox_allow_exec
    else if name =ₜ codes "net-connect"
    then some sandbox_allow_net_connect
    else if name =ₜ codes "net-bind"
    then some sandbox_allow_net_bind
    else none

abbrev pub in_dir : Text → Option Text → Result OverrideError Text
in_dir value none = err no_working_dir
in_dir value (some cwd) = ok (clean (join_path cwd value))

unfoldable pub resolve_to_absolute : Option Text → Text → Result OverrideError Text
unfolding clean join_path
resolve_to_absolute cwd value = if is_rooted value then ok (clean value) else in_dir value cwd

abbrev pub check_tilde_path : Text → Result OverrideError (Unit {0})
check_tilde_path value = if has_prefix value (codes "~") then err unexpanded_tilde else ok tt

unfoldable pub resolve_filesystem_path : Option Text → Text → Result OverrideError Text
unfolding resolve_to_absolute
resolve_filesystem_path cwd value = check_tilde_path value >>= (λ u. resolve_to_absolute cwd value)

unfoldable pub resolve_exec_path : Option Text → Text → Result OverrideError Text
unfolding resolve_to_absolute contains_glob
resolve_exec_path cwd value =
    check_tilde_path value
    >>= (λ u. if contains_glob value then err glob_in_exec else resolve_to_absolute cwd value)

abbrev pub split_host_port : Option (Text × Text) → Result OverrideError (Text × Text)
split_host_port none = err no_colon
split_host_port (some (host, port)) =
    if is_empty host
    then err missing_host
    else if is_empty port
    then err missing_port
    else ok (host, port)

unfoldable pub parse_host_port : Text → Result OverrideError (Text × Text)
unfolding cut_last
parse_host_port value = split_host_port (cut_last 58 value)

abbrev pub has_wildcard : Text → Bool
has_wildcard host = host =ₜ codes "*" || (contains_code host 42 || contains_code host 63)

abbrev pub check_connect : Text → Text × Text → Result OverrideError Text
check_connect value (host, port) =
    if has_wildcard host
    then err host_wildcard
    else if port =ₜ codes "*"
    then err port_wildcard
    else ok value

unfoldable pub validate_net_connect : Text → Result OverrideError Text
unfolding parse_host_port contains_code
validate_net_connect value = parse_host_port value >>= check_connect value

abbrev pub check_bind : Text → Text × Text → Result OverrideError Text
check_bind value (host, port) = if has_wildcard host then err host_wildcard else ok value

unfoldable pub validate_net_bind : Text → Result OverrideError Text
unfolding parse_host_port contains_code
validate_net_bind value = parse_host_port value >>= check_bind value

unfoldable pub validate_and_resolve_value :
    Option Text → SandboxAllowType → Text → Result OverrideError Text
unfolding resolve_filesystem_path resolve_exec_path validate_net_connect validate_net_bind
validate_and_resolve_value cwd t value = elim t [
  | sandbox_allow_read ↦ resolve_filesystem_path cwd value
  | sandbox_allow_write ↦ resolve_filesystem_path cwd value
  | sandbox_allow_exec ↦ resolve_exec_path cwd value
  | sandbox_allow_net_connect ↦ validate_net_connect value
  | sandbox_allow_net_bind ↦ validate_net_bind value
]

abbrev pub override :
    Text → SandboxAllowType → Result OverrideError Text → Result OverrideError SandboxAllowOverride
override raw t (err e) = err e
override raw t (ok value) = ok (record { allow_type = t; value = value; raw = raw })

abbrev pub of_type :
    Option Text → Text → Text → Option SandboxAllowType → Result OverrideError SandboxAllowOverride
of_type cwd raw value none = err unknown_type
of_type cwd raw value (some t) = override raw t (validate_and_resolve_value cwd t value)

abbrev pub split_override :
    Option Text → Text → Option (Text × Text) → Result OverrideError SandboxAllowOverride
split_override cwd raw none = err missing_separator
split_override cwd raw (some (name, value)) =
    if is_empty name
    then err missing_type
    else if is_empty value
    then err missing_value
    else if name =ₜ codes "net"
    then err ambiguous_net
    else of_type cwd raw value (type_of name)

unfoldable pub parse_single_override :
    Option Text → Text → Result OverrideError SandboxAllowOverride
unfolding validate_and_resolve_value cut_first
parse_single_override cwd raw = split_override cwd raw (cut_first 61 raw)

abbrev pub add_override :
    Result OverrideError SandboxAllowOverride
    → Result OverrideError (List SandboxAllowOverride)
    → Result OverrideError (List SandboxAllowOverride)
add_override (err e) rest = err e
add_override (ok o) (err e) = err e
add_override (ok o) (ok os) = ok (o ∷ os)

-- The first value that is refused ends the loop.
unfoldable pub parse_sandbox_allow_overrides :
    Option Text → List Text → Result OverrideError (List SandboxAllowOverride)
unfolding parse_single_override
parse_sandbox_allow_overrides cwd [] = ok []
parse_sandbox_allow_overrides cwd (r ∷ rs) =
    add_override (parse_single_override cwd r) (parse_sandbox_allow_overrides cwd rs)
