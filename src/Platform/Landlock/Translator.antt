-- ===== src/Platform/Landlock/Translator.antt =====
-- sandbox/platform/landlock_translator_linux.go: a policy as Landlock rules and as the lists of the
-- supervisor. Warnings are left out.
use pmg.Prelude.{
  ℕ, ltb, Bool, true, false, not, ◌||◌, Option, none, some, or_else, Text, codes, ◌=ₜ◌, is_empty,
  contains_text, has_prefix, List, [], ◌∷◌, ◌++◌, map, length, if◌then◌else◌,
}
use pmg.Sandbox.{SandboxPolicy}
use pmg.SandboxUtil.{contains_glob}
use pmg.Platform.{Host, expand}
use pmg.Platform.Globs.{
  has_globstar, expand_globstar_pattern, before_wildcard, extract_glob_parent_dir,
}
use pmg.Platform.Bubblewrap.Translator.{mandatory}
use pmg.Platform.Landlock.{
  LandlockAbi, refer, truncate, ioctl_dev, Access, landlock_read_access, landlock_write_access_base,
  landlock_execute_access, landlock_usr_bin_alternate, landlock_is_proc_path, DenyMode, deny_read,
  deny_write, deny_both, DenyPathEntry, LandlockPathRule, LandlockExecPolicy,
}

abbrev pub landlock_glob_fallback_threshold : ℕ
landlock_glob_fallback_threshold = 100

abbrev pub landlock_globstar_max_depth : ℕ
landlock_globstar_max_depth = 5

abbrev pub landlock_globstar_max_paths : ℕ
landlock_globstar_max_paths = 1_000

unfoldable pub landlock_glob_matches : Host → Text → Option (List Text)
landlock_glob_matches h pattern =
    if has_globstar pattern
    then expand_globstar_pattern h pattern landlock_globstar_max_depth landlock_globstar_max_paths
    else h.glob pattern

-- The text before the first wildcard, or the whole text.
abbrev pub literal_part : Text → Text
literal_part s = or_else (before_wildcard s) s

unfoldable pub within_loop : Host → Text → List Text → Bool
within_loop h base [] = false
within_loop h base (pattern ∷ patterns) =
    let rest = within_loop h base patterns in
    elim (expand h pattern) [
      | none ↦ rest
      | some e ↦
          if has_prefix base (literal_part e) || has_prefix (literal_part e) base
          then true
          else rest
    ]

unfoldable pub landlock_is_within_writable_area : Host → Text → List Text → Bool
unfolding within_loop
landlock_is_within_writable_area h path patterns = within_loop h (literal_part path) patterns

-- The directory for too many matches, the pattern for none.
abbrev pub matches_or : Text → Option (List Text) → Option (List Text)
matches_or e none = none
matches_or e (some paths) =
    if ltb landlock_glob_fallback_threshold (length paths)
    then some (extract_glob_parent_dir e ∷ [])
    else if is_empty paths
    then some (e ∷ [])
    else some paths

abbrev pub expand_matches : Host → Option Text → Option (List Text)
expand_matches h none = none
expand_matches h (some e) =
    if contains_glob e then matches_or e (landlock_glob_matches h e) else some (e ∷ [])

unfoldable pub landlock_expand_pattern : Host → Text → Option (List Text)
unfolding landlock_glob_matches
landlock_expand_pattern h pattern = expand_matches h (expand h pattern)

abbrev pub rule : Access → Text → LandlockPathRule
rule access path = record { path = path; access = access }

-- The loops over the allow rules; a pattern that cannot be expanded is skipped.
unfoldable pub rules_for_paths : (Text → List LandlockPathRule) → List Text → List LandlockPathRule
rules_for_paths rules_for [] = []
rules_for_paths rules_for (p ∷ ps) = rules_for p ++ rules_for_paths rules_for ps

unfoldable pub allow_rules :
    Host → (Text → List LandlockPathRule) → List Text → List LandlockPathRule
unfolding rules_for_paths
allow_rules h rules_for [] = []
allow_rules h rules_for (pattern ∷ patterns) =
    rules_for_paths rules_for (or_else (landlock_expand_pattern h pattern) [])
    ++ allow_rules h rules_for patterns

-- A path that may be run, and its other name on a system where /bin is /usr/bin.
abbrev pub exec_rules : Text → List LandlockPathRule
exec_rules p =
    rule landlock_execute_access p
    ∷ (if is_empty (landlock_usr_bin_alternate p)
        then []
        else rule landlock_execute_access (landlock_usr_bin_alternate p) ∷ [])

-- What a deny pattern stands for: nothing where its wildcards cannot be expanded.
abbrev pub denied_paths : Host → Text → List Text
denied_paths h e = if contains_glob e then or_else (landlock_glob_matches h e) [] else e ∷ []

abbrev pub deny_entry : DenyMode → Text → DenyPathEntry
deny_entry mode path = record { path = path; mode = mode }

-- The loops over the deny rules of the user: `skips` are the entries that are dropped.
unfoldable pub deny_loop : Host → (Text → Bool) → List Text → List Text
unfolding landlock_glob_matches
deny_loop h skips [] = []
deny_loop h skips (pattern ∷ patterns) = elim (expand h pattern) [
  | none ↦ deny_loop h skips patterns
  | some e ↦ (if skips e then [] else denied_paths h e) ++ deny_loop h skips patterns
]

abbrev pub skips_write : Host → List Text → Text → Bool
skips_write h writable e =
    if landlock_is_proc_path e then true else not (landlock_is_within_writable_area h e writable)

-- `appendDeny`
abbrev pub append_deny : Host → DenyMode → Text → List DenyPathEntry
append_deny h mode pattern = map (deny_entry mode) (denied_paths h pattern)

-- The mandatory denies: one entry for both directions where both are denied.
unfoldable pub deny_read_entries : Host → List Text → List Text → List DenyPathEntry
unfolding landlock_glob_matches
deny_read_entries h writes [] = []
deny_read_entries h writes (p ∷ ps) =
    (if contains_text writes p then append_deny h deny_both p else append_deny h deny_read p)
    ++ deny_read_entries h writes ps

unfoldable pub deny_write_entries : Host → List Text → List Text → List DenyPathEntry
unfolding landlock_glob_matches
deny_write_entries h reads [] = []
deny_write_entries h reads (p ∷ ps) =
    (if contains_text reads p then [] else append_deny h deny_write p)
    ++ deny_write_entries h reads ps

abbrev pub sys_exec_dirs : List Text
sys_exec_dirs =
    codes "/usr/bin"
    ∷ codes "/usr/sbin"
    ∷ codes "/usr/lib"
    ∷ codes "/usr/lib64"
    ∷ codes "/bin"
    ∷ codes "/sbin"
    ∷ codes "/lib"
    ∷ codes "/lib64"
    ∷ []

abbrev pub landlock_devices : List Text
landlock_devices =
    codes "/dev/null" ∷ codes "/dev/zero" ∷ codes "/dev/random" ∷ codes "/dev/urandom" ∷ []

abbrev pub write_access : LandlockAbi → Access
write_access abi =
    landlock_write_access_base
    ++ ((if abi.has_refer then refer ∷ [] else [])
        ++ (if abi.has_truncate then truncate ∷ [] else []))

abbrev pub read_write_access : LandlockAbi → Access
read_write_access abi = landlock_read_access ++ write_access abi

abbrev pub pty_access : LandlockAbi → Access
pty_access abi = read_write_access abi ++ (if abi.has_ioctl_dev then ioctl_dev ∷ [] else [])

-- `landlockPolicyExplicitlyAllowsProc`
unfoldable pub allows_proc_loop : Host → List Text → Bool
allows_proc_loop h [] = false
allows_proc_loop h (p ∷ ps) =
    let rest = allows_proc_loop h ps in
    elim (expand h p) [
      | none ↦ rest
      | some e ↦
          if not (landlock_is_proc_path e)
          then rest
          else if e =ₜ codes "/proc/self" || has_prefix e (codes "/proc/self/")
          then rest
          else true
    ]

unfoldable pub landlock_policy_explicitly_allows_proc : Host → SandboxPolicy → Bool
unfolding allows_proc_loop
landlock_policy_explicitly_allows_proc h p =
    allows_proc_loop h (p.filesystem.allow_read ++ p.filesystem.allow_write)

-- The rules that every policy gets.
abbrev pub implicit_rules : Host → LandlockAbi → Bool → List LandlockPathRule
implicit_rules h abi pty =
    map (rule landlock_execute_access) sys_exec_dirs
    ++ (rule landlock_read_access (codes "/proc")
        ∷ (map (rule (read_write_access abi)) landlock_devices
            ++ (rule (write_access abi) h.env.temp_dir
                ∷ (if pty
                    then rule (pty_access abi) (codes "/dev/pts")
                      ∷ rule (pty_access abi) (codes "/dev/ptmx")
                      ∷ []
                    else []))))

unfoldable pub user_denials : Host → SandboxPolicy → List DenyPathEntry
unfolding deny_loop landlock_is_proc_path landlock_is_within_writable_area
user_denials h p =
    map (deny_entry deny_read) (deny_loop h landlock_is_proc_path p.filesystem.deny_read)
    ++ map (deny_entry deny_write)
        (deny_loop h (skips_write h p.filesystem.allow_write) p.filesystem.deny_write)

unfoldable pub mandatory_denials : Host → SandboxPolicy → List DenyPathEntry
unfolding mandatory deny_read_entries deny_write_entries
mandatory_denials h p =
    deny_read_entries h (mandatory h p).deny_write (mandatory h p).deny_read
    ++ deny_write_entries h (mandatory h p).deny_read (mandatory h p).deny_write

-- `landlockTranslatePolicy`: it returns no error.
unfoldable pub landlock_translate_policy : Host → SandboxPolicy → LandlockAbi → LandlockExecPolicy
unfolding allow_rules deny_loop user_denials mandatory_denials
    landlock_policy_explicitly_allows_proc
landlock_translate_policy h p abi = record {
  filesystem_rules =
      allow_rules h (λ path. rule landlock_read_access path ∷ []) p.filesystem.allow_read
      ++ (allow_rules h (λ path. rule (read_write_access abi) path ∷ []) p.filesystem.allow_write
          ++ (allow_rules h exec_rules p.process.allow_exec
              ++ implicit_rules h abi (or_else p.allow_pty false)));
  deny_paths = user_denials h p ++ mandatory_denials h p;
  deny_exec_paths = deny_loop h (λ e. false) p.process.deny_exec;
  allow_pty = or_else p.allow_pty false;
  skip_pid_namespace = landlock_policy_explicitly_allows_proc h p;
  skip_ipc_namespace = false;
}
