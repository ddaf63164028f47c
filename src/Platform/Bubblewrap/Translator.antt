-- ===== src/Platform/Bubblewrap/Translator.antt =====
-- sandbox/platform/bubblewrap_translator_linux.go: the translation of a whole policy. Warnings are
-- left out, and with them the argument limit, which only warns.
use pmg.Prelude.{
  Bool, true, false, not, Option, none, some, or_else, Text, codes, ◌=ₜ◌, is_empty, contains_text,
  List, [], ◌∷◌, ◌++◌, map, if◌then◌else◌,
}
use pmg.Paths.{clean}
use pmg.Sandbox.{SandboxPolicy}
use pmg.SandboxUtil.{contains_glob}
use pmg.SandboxUtil.Dangerous.{MandatoryDenyResult, mandatory_deny_patterns}
use pmg.Platform.{Host, a_directory, a_file, expand, expand_all}
use pmg.Platform.Bubblewrap.{BubblewrapConfig, Flag, should_unshare_network, existing, render_all}
use pmg.Platform.Bubblewrap.Rules.{
  process_read_rule, process_write_rule, for_each, process_deny_read_rule, process_deny_write_rule,
  process_deny_rule,
}

unfoldable pub add_essential_system_permissions : Host → BubblewrapConfig → List Flag
unfolding existing
add_essential_system_permissions h cfg =
    map Flag.ro_bind_try (existing h cfg.essential_system_paths)
    ++ (map Flag.dev_bind_try (existing h cfg.essential_devices) ++ map Flag.proc cfg.proc_paths)

-- The loop that looks for `*:*`.
unfoldable pub has_deny_all : List Text → Bool
has_deny_all [] = false
has_deny_all (pattern ∷ patterns) = if pattern =ₜ codes "*:*" then true else has_deny_all patterns

abbrev pub when : Bool → Flag → List Flag
when b f = if b then f ∷ [] else []

unfoldable pub add_isolation_namespaces : BubblewrapConfig → SandboxPolicy → List Flag
unfolding should_unshare_network has_deny_all
add_isolation_namespaces cfg p =
    when
      (should_unshare_network cfg (not (is_empty p.network.allow_outbound))
        (has_deny_all p.network.deny_outbound))
      Flag.unshare_net
    ++ (when cfg.unshare_pid Flag.unshare_pid
        ++ (when cfg.unshare_ipc Flag.unshare_ipc
            ++ (when cfg.new_session Flag.new_session
                ++ when cfg.die_with_parent Flag.die_with_parent)))

-- The loops over the allow rules; a rule that cannot be expanded or processed is skipped.
unfoldable pub allow_loop :
    Host → (Text → List Text → Option (List Flag × List Text)) → List Text → List Text → List Flag
allow_loop h rule [] bound = []
allow_loop h rule (pattern ∷ patterns) bound = elim (expand h pattern) [
  | none ↦ allow_loop h rule patterns bound
  | some e ↦ elim (rule e bound) [
    | none ↦ allow_loop h rule patterns bound
    | some (flags, later) ↦ flags ++ allow_loop h rule patterns later
  ]
]

-- The loops over the deny rules.
unfoldable pub deny_rules : Host → (Text → List Flag) → List Text → List Flag
deny_rules h rule [] = []
deny_rules h rule (pattern ∷ patterns) = elim (expand h pattern) [
  | none ↦ deny_rules h rule patterns
  | some e ↦ rule e ++ deny_rules h rule patterns
]

-- The allow lists as the mandatory denies see them.
abbrev pub expanded_or_none : Host → List Text → List Text
expanded_or_none h patterns = or_else (expand_all h patterns) []

unfoldable pub mandatory : Host → SandboxPolicy → MandatoryDenyResult
mandatory h p = mandatory_deny_patterns h.env (record {
  allow_git_config = or_else p.allow_git_config false;
  allow_read = expanded_or_none h p.filesystem.allow_read;
  allow_write = expanded_or_none h p.filesystem.allow_write;
})

-- The mandatory denies of writing, less those that `allow_read` names.
unfoldable pub not_read : List Text → List Text → List Text
not_read allowed [] = []
not_read allowed (p ∷ ps) =
    let rest = not_read allowed ps in if contains_text allowed (clean p) then rest else p ∷ rest

-- `intersectStrings`
unfoldable pub intersect_strings : List Text → List Text → List Text
intersect_strings [] b = []
intersect_strings (x ∷ a) b =
    let rest = intersect_strings a b in if contains_text b x then x ∷ rest else rest

-- The paths of a pattern as `filepath.Glob` finds them; none where it fails.
abbrev pub glob_or_none : Host → Text → List Text
glob_or_none h e = if contains_glob e then or_else (h.glob e) [] else e ∷ []

-- Directories get an empty file system over them, each one once.
unfoldable pub hide_dirs : Host → List Text → List Text → List Flag × List Text
hide_dirs h [] hidden = ([], hidden)
hide_dirs h (d ∷ ds) hidden = elim (contains_text hidden d) [
  | true ↦ hide_dirs h ds hidden
  | false ↦ elim (h.stat d) [
    | a_directory ↦
        let (flags, later) = hide_dirs h ds (d ∷ hidden) in (Flag.tmpfs d ∷ flags, later)
    | _ ↦ hide_dirs h ds hidden
  ]
]

unfoldable pub hide_loop : Host → List Text → List Text → List Flag
unfolding hide_dirs
hide_loop h [] hidden = []
hide_loop h (pattern ∷ patterns) hidden = elim (expand h pattern) [
  | none ↦ hide_loop h patterns hidden
  | some e ↦
      let (flags, later) = hide_dirs h (glob_or_none h e) hidden in
      flags ++ hide_loop h patterns later
]

-- The executables that cannot be run: the device that is empty lies over them.
abbrev pub mask_file : Host → Text → List Flag
mask_file h p = elim (h.stat p) [ a_file ↦ Flag.ro_bind_null p ∷ [] | _ ↦ [] ]

unfoldable pub process_deny_exec_rule : Host → Text → List Flag
unfolding for_each
process_deny_exec_rule h e = for_each (mask_file h) (glob_or_none h e)

-- What follows the allow rules of the file system.
unfoldable pub deny_filesystem : Host → BubblewrapConfig → SandboxPolicy → List Flag
unfolding deny_rules mandatory not_read intersect_strings hide_loop process_deny_exec_rule
deny_filesystem h cfg p =
    deny_rules h (process_deny_read_rule h cfg) p.filesystem.deny_read
    ++ (deny_rules h (process_deny_write_rule h cfg) p.filesystem.deny_write
        ++ (deny_rules h (process_deny_rule h cfg) (
              not_read (map clean (expanded_or_none h p.filesystem.allow_read))
                (mandatory h p).deny_write)
            ++ (hide_loop h (intersect_strings (mandatory h p).deny_read (mandatory h p).deny_write)
                  []
                ++ deny_rules h (process_deny_exec_rule h) p.process.deny_exec)))

unfoldable pub translate_filesystem : Host → BubblewrapConfig → SandboxPolicy → List Flag
unfolding allow_loop deny_filesystem existing
translate_filesystem h cfg p =
    allow_loop h (process_read_rule h cfg) p.filesystem.allow_read
      (existing h cfg.essential_system_paths)
    ++ (allow_loop h (process_write_rule h cfg) p.filesystem.allow_write (h.env.temp_dir ∷ [])
        ++ deny_filesystem h cfg p)

abbrev pub add_pty_support : List Flag
add_pty_support = Flag.dev_bind_try (codes "/dev/pts") ∷ Flag.dev_bind_try (codes "/dev/ptmx") ∷ []

abbrev pub add_tmpdir_support : Host → List Flag
add_tmpdir_support h = Flag.bind h.env.temp_dir ∷ []

unfoldable pub translate_flags : Host → BubblewrapConfig → SandboxPolicy → List Flag
unfolding add_essential_system_permissions add_isolation_namespaces translate_filesystem
translate_flags h cfg p =
    add_essential_system_permissions h cfg
    ++ (add_isolation_namespaces cfg p
        ++ (translate_filesystem h cfg p
            ++ ((if or_else p.allow_pty false then add_pty_support else [])
                ++ add_tmpdir_support h)))

-- `translate`: it returns no error.
unfoldable pub translate : Host → BubblewrapConfig → SandboxPolicy → List Text
unfolding translate_flags render_all
translate h cfg p = render_all (translate_flags h cfg p)
