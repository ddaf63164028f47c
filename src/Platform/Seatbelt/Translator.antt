-- ===== src/Platform/Seatbelt/Translator.antt =====
-- sandbox/platform/seatbelt_translator_darwin.go: the translation of a policy.
use pmg.Prelude.{
  Bool, true, false, not, Option, none, some, or_else, Text, codes, ◌=ₜ◌, is_empty, has_suffix,
  trim_suffix, List, [], ◌∷◌, ◌++◌, if◌then◌else◌, map,
}
use pmg.Sandbox.{SandboxPolicy}
use pmg.SandboxUtil.{Env, contains_glob, expand_variables}
use pmg.SandboxUtil.GlobRegex.{glob_to_regex}
use pmg.SandboxUtil.Dangerous.{MandatoryDenyResult, mandatory_deny_patterns}
use pmg.Platform.Seatbelt.{
  Filter, literal_path, subpath, regex_of, local_ip, ProfileRule, allow_rule, deny_rule,
  get_tmpdir_parent, generate_move_blocking_rules,
}
use pmg.Platform.Seatbelt.Essential.{essential}

pub record SeatbeltPolicyTranslator : Type 0 where
  pub enable_move_blocking_mitigation : Bool
  pub enable_dangerous_file_blocking : Bool

abbrev pub new_seatbelt_policy_translator : SeatbeltPolicyTranslator
new_seatbelt_policy_translator = record {
  enable_move_blocking_mitigation = false;
  enable_dangerous_file_blocking = true;
}

-- `globDoubleStarAutoAllowParentDirIfNeeded`
unfoldable pub parent_dir_if_needed : Text → Text → List ProfileRule
parent_dir_if_needed expanded operation =
    if has_suffix expanded (codes "/**")
    then allow_rule operation (
        literal_path (
          if is_empty (trim_suffix expanded (codes "/**"))
          then codes "/"
          else trim_suffix expanded (codes "/**"))
        ∷ [])
      ∷ []
    else []

-- A pattern with wildcards is a regular expression, any other path takes what is below it along.
abbrev pub pattern_filter : Text → Filter
pattern_filter expanded =
    if contains_glob expanded then regex_of (glob_to_regex expanded) else subpath expanded

abbrev pub exec_filter : Text → Filter
exec_filter expanded =
    if contains_glob expanded then regex_of (glob_to_regex expanded) else literal_path expanded

abbrev pub allow_pattern : Text → Text → List ProfileRule
allow_pattern operation expanded =
    (if contains_glob expanded then parent_dir_if_needed expanded operation else [])
    ++ allow_rule operation (pattern_filter expanded ∷ []) ∷ []

abbrev pub deny_pattern : Text → Text → ProfileRule
deny_pattern operation expanded = deny_rule operation (pattern_filter expanded)

abbrev pub with_first : Option Text → Option (List Text) → Option (List Text)
with_first none rest = none
with_first (some e) none = none
with_first (some e) (some es) = some (e ∷ es)

-- `expandAll`, and the loops that expand every pattern: the first that cannot be fails.
unfoldable pub expand_each : Env → List Text → Option (List Text)
unfolding expand_variables
expand_each env [] = some []
expand_each env (p ∷ ps) = with_first (expand_variables env p) (expand_each env ps)

unfoldable pub allow_patterns : Text → List Text → List ProfileRule
unfolding contains_glob glob_to_regex parent_dir_if_needed
allow_patterns operation [] = []
allow_patterns operation (e ∷ es) = allow_pattern operation e ++ allow_patterns operation es

-- The mandatory denies of a policy; an allow list that cannot be expanded suppresses none.
unfoldable pub seatbelt_mandatory : Env → SandboxPolicy → MandatoryDenyResult
unfolding expand_each mandatory_deny_patterns
seatbelt_mandatory env p = mandatory_deny_patterns env (record {
  allow_git_config = or_else p.allow_git_config false;
  allow_read = or_else (expand_each env p.filesystem.allow_read) [];
  allow_write = or_else (expand_each env p.filesystem.allow_write) [];
})

-- The patterns after their variables are expanded.
pub record Expanded : Type 0 where
  pub allow_read : List Text
  pub allow_write : List Text
  pub deny_read : List Text
  pub deny_write : List Text
  pub must_deny_write : List Text
  pub must_deny_read : List Text
  pub allow_exec : List Text
  pub deny_exec : List Text

abbrev pub moves_blocked : SeatbeltPolicyTranslator → List Text → List ProfileRule
moves_blocked t ps =
    if t.enable_move_blocking_mitigation then generate_move_blocking_rules ps else []

abbrev pub temp_rules : Text → SandboxPolicy → List ProfileRule
temp_rules tmpdir p =
    if is_empty p.filesystem.allow_write
    then []
    else map (λ d. allow_rule (codes "file-write*") (subpath d ∷ [])) (get_tmpdir_parent tmpdir)

-- The rules of the file system that deny, in their order.
unfoldable pub seatbelt_denials : SeatbeltPolicyTranslator → Expanded → List ProfileRule
unfolding contains_glob glob_to_regex generate_move_blocking_rules
seatbelt_denials t x =
    map (deny_pattern (codes "file-read")) x.deny_read
    ++ (moves_blocked t x.deny_read
        ++ (map (deny_pattern (codes "file-write")) x.deny_write
            ++ (map (deny_pattern (codes "file-write")) x.must_deny_write
                ++ (map (deny_pattern (codes "file-read")) x.must_deny_read
                    ++ moves_blocked t (x.deny_write ++ x.must_deny_write)))))

unfoldable pub seatbelt_filesystem :
    SeatbeltPolicyTranslator → Text → SandboxPolicy → Expanded → List ProfileRule
unfolding allow_patterns seatbelt_denials get_tmpdir_parent
seatbelt_filesystem t tmpdir p x =
    allow_patterns (codes "file-read*") x.allow_read
    ++ (temp_rules tmpdir p
        ++ (allow_patterns (codes "file-write*") x.allow_write ++ seatbelt_denials t x))

-- The loop that looks for `*:*`.
unfoldable pub denies_all : List Text → Bool
denies_all [] = false
denies_all (p ∷ ps) = if p =ₜ codes "*:*" then true else denies_all ps

abbrev pub bind_rules : Text → List ProfileRule
bind_rules addr =
    allow_rule (codes "network-bind") (local_ip addr ∷ [])
    ∷ allow_rule (codes "network*") (local_ip addr ∷ [])
    ∷ []

unfoldable pub bind_all : List Text → List ProfileRule
bind_all [] = []
bind_all (a ∷ rest) = bind_rules a ++ bind_all rest

abbrev pub outbound_rules : SandboxPolicy → List ProfileRule
outbound_rules p =
    if not (is_empty p.network.allow_outbound)
    then allow_rule (codes "network-outbound") [] ∷ []
    else if denies_all p.network.deny_outbound
    then record { allows = false; operations = codes "network-outbound" ∷ []; filters = [] } ∷ []
    else []

unfoldable pub seatbelt_network : SandboxPolicy → List ProfileRule
unfolding denies_all bind_all
seatbelt_network p =
    outbound_rules p
    ++ ((if or_else p.allow_network_bind false then bind_rules (codes "localhost:*") else [])
        ++ bind_all p.network.allow_bind)

unfoldable pub seatbelt_process : Expanded → List ProfileRule
unfolding contains_glob glob_to_regex
seatbelt_process x =
    map (λ e. allow_rule (codes "process-exec*") (exec_filter e ∷ [])) x.allow_exec
    ++ map (λ e. deny_rule (codes "process-exec") (exec_filter e)) x.deny_exec

abbrev pub ptys : List Filter
ptys = literal_path (codes "/dev/ptmx") ∷ regex_of (codes "^/dev/ttys") ∷ []

abbrev pub pty_rules : List ProfileRule
pty_rules =
    allow_rule (codes "pseudo-tty") []
    ∷ allow_rule (codes "file-ioctl") ptys
    ∷ record {
      allows = true;
      operations = codes "file-read*" ∷ codes "file-write*" ∷ [];
      filters = ptys;
    }
    ∷ []

abbrev pub must_deny : SeatbeltPolicyTranslator → List Text → List Text
must_deny t ps = if t.enable_dangerous_file_blocking then ps else []

-- Two results that both_expanded are needed.
abbrev pub both_expanded : {A B : Type 0} → Option A → Option B → Option (A × B)
both_expanded none o = none
both_expanded (some a) none = none
both_expanded (some a) (some b) = some (a, b)

abbrev pub Lists : Type 0
Lists = List Text × List Text

abbrev pub assembled : Option ((Lists × Lists) × (Lists × Lists)) → Option Expanded
assembled none = none
assembled (some (((a, b), (c, d)), ((e, f), (g, h)))) = some (record {
  allow_read = a;
  allow_write = b;
  deny_read = c;
  deny_write = d;
  must_deny_write = e;
  must_deny_read = f;
  allow_exec = g;
  deny_exec = h;
})

-- All that the translation expands; one pattern that cannot be expanded is its error.
unfoldable pub expand_policy : SeatbeltPolicyTranslator → Env → SandboxPolicy → Option Expanded
unfolding expand_each seatbelt_mandatory
expand_policy t env p =
    let m = seatbelt_mandatory env p in
    assembled (
      both_expanded
        (both_expanded
          (both_expanded (expand_each env p.filesystem.allow_read)
            (expand_each env p.filesystem.allow_write))
          (both_expanded (expand_each env p.filesystem.deny_read)
            (expand_each env p.filesystem.deny_write)))
        (both_expanded
          (both_expanded (expand_each env (must_deny t m.deny_write))
            (expand_each env (must_deny t m.deny_read)))
          (both_expanded (expand_each env p.process.allow_exec)
            (expand_each env p.process.deny_exec))))

unfoldable pub profile :
    SeatbeltPolicyTranslator → Text → SandboxPolicy → Expanded → List ProfileRule
unfolding seatbelt_filesystem seatbelt_network seatbelt_process
profile t tmpdir p x =
    essential
    ++ (seatbelt_filesystem t tmpdir p x
        ++ (seatbelt_network p
            ++ (seatbelt_process x ++ (if or_else p.allow_pty false then pty_rules else []))))

abbrev pub profile_of :
    SeatbeltPolicyTranslator → Text → SandboxPolicy → Option Expanded → Option (List ProfileRule)
profile_of t tmpdir p none = none
profile_of t tmpdir p (some x) = some (profile t tmpdir p x)

unfoldable pub seatbelt_translate :
    SeatbeltPolicyTranslator → Env → Text → SandboxPolicy → Option (List ProfileRule)
unfolding expand_policy profile
seatbelt_translate t env tmpdir p = profile_of t tmpdir p (expand_policy t env p)
