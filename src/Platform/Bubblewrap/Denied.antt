-- ===== src/Platform/Bubblewrap/Denied.antt =====
-- Paths that a policy denies, in the mounts that sandbox/platform/bubblewrap_translator_linux.go
-- makes for the whole policy.
use pmg.Prelude.{
  ◌≡◌, refl, ap, ◌∙◌, Bool, true, false, not, or_else, some, Text, codes, ◌&&◌, ◌||◌, contains_text,
  List, [], ◌∷◌, ◌++◌, map, if◌then◌else◌, all, arith,
}
use pmg.SandboxUtil.{contains_glob}
use pmg.Sandbox.{SandboxPolicy}
use pmg.Platform.{Host, exists, expand}
use pmg.Platform.Bubblewrap.{BubblewrapConfig, Flag, existing}
use pmg.Platform.Bubblewrap.Rules.{
  process_read_rule, process_write_rule, process_deny_read_rule, process_deny_write_rule,
  process_deny_rule,
}
use pmg.Platform.Bubblewrap.Translator.{
  deny_rules, hide_loop, process_deny_exec_rule, mandatory, not_read, allow_loop, add_pty_support,
  add_tmpdir_support, add_essential_system_permissions, add_isolation_namespaces, intersect_strings,
  deny_filesystem, translate_filesystem, translate_flags, expanded_or_none,
}
use pmg.Paths.{clean}
use pmg.Platform.Bubblewrap.Mounts.{
  covers, write_after, read_after, after, can_write, can_read, is_mask, after-append, after_keeps,
  write_after-mask, read_after-read_only, write_after-read_only, all-append,
}
use pmg.Platform.Bubblewrap.Denials.{
  all-deny_rules, masks-deny_read, masks-deny_write, masks-deny, masks-deny_exec, masks-hide_loop,
  after-deny_write,
}

-- What comes after the rules of the user against writing.
abbrev mandatory_denials : Host → BubblewrapConfig → SandboxPolicy → List Flag
mandatory_denials h cfg p =
    deny_rules h (process_deny_rule h cfg)
      (not_read (map clean (expanded_or_none h p.filesystem.allow_read)) (mandatory h p).deny_write)

abbrev hidden_dirs : Host → SandboxPolicy → List Flag
hidden_dirs h p =
    hide_loop h (intersect_strings (mandatory h p).deny_read (mandatory h p).deny_write) []

abbrev exec_denials : Host → SandboxPolicy → List Flag
exec_denials h p = deny_rules h (process_deny_exec_rule h) p.process.deny_exec

abbrev pub late_denials : Host → BubblewrapConfig → SandboxPolicy → List Flag
late_denials h cfg p = mandatory_denials h cfg p ++ (hidden_dirs h p ++ exec_denials h p)

masks-append :
    (fs gs : List Flag)
    → all is_mask fs ≡ true
    → all is_mask gs ≡ true
    → all is_mask (fs ++ gs) ≡ true
masks-append fs gs hf hg = ground (arith, all-append is_mask fs gs)

masks-late_denials :
    (h : Host) (cfg : BubblewrapConfig) (p : SandboxPolicy)
    → all is_mask (late_denials h cfg p) ≡ true
masks-late_denials h cfg p =
    masks-append (mandatory_denials h cfg p) (hidden_dirs h p ++ exec_denials h p)
      (all-deny_rules h is_mask (process_deny_rule h cfg) (masks-deny h cfg) (
        not_read (map clean (expanded_or_none h p.filesystem.allow_read))
          (mandatory h p).deny_write))
      (masks-append (hidden_dirs h p) (exec_denials h p)
        (masks-hide_loop h (intersect_strings (mandatory h p).deny_read (mandatory h p).deny_write)
          [])
        (all-deny_rules h is_mask (process_deny_exec_rule h) (masks-deny_exec h)
          p.process.deny_exec))

pub masks-deny_filesystem :
    (h : Host) (cfg : BubblewrapConfig) (p : SandboxPolicy)
    → all is_mask (deny_filesystem h cfg p) ≡ true
unfolding deny_filesystem
masks-deny_filesystem h cfg p =
    masks-append (deny_rules h (process_deny_read_rule h cfg) p.filesystem.deny_read)
      (deny_rules h (process_deny_write_rule h cfg) p.filesystem.deny_write ++ late_denials h cfg p)
      (all-deny_rules h is_mask (process_deny_read_rule h cfg) (masks-deny_read h cfg)
        p.filesystem.deny_read)
      (masks-append (deny_rules h (process_deny_write_rule h cfg) p.filesystem.deny_write)
        (late_denials h cfg p)
        (all-deny_rules h is_mask (process_deny_write_rule h cfg) (masks-deny_write h cfg)
          p.filesystem.deny_write)
        (masks-late_denials h cfg p))

-- A mount that does not hide the path.
abbrev pub leaves_readable : Text → Flag → Bool
leaves_readable q (Flag.tmpfs d) = not (covers d q)
leaves_readable q (Flag.ro_bind_null d) = not (covers d q)
leaves_readable q _ = true

read_after-leaves : (q : Text) (f : Flag) → leaves_readable q f ≡ true → read_after q true f ≡ true
read_after-leaves q (Flag.tmpfs d) h = ground arith
read_after-leaves q (Flag.ro_bind_null d) h = ground arith
read_after-leaves q (Flag.ro_bind_try d) h = ground arith
read_after-leaves q (Flag.bind_try d) h = ground arith
read_after-leaves q (Flag.bind d) h = ground arith
read_after-leaves q (Flag.dev_bind_try d) h = ground arith
read_after-leaves q (Flag.proc d) h = refl
read_after-leaves q Flag.unshare_net h = refl
read_after-leaves q Flag.unshare_pid h = refl
read_after-leaves q Flag.unshare_ipc h = refl
read_after-leaves q Flag.new_session h = refl
read_after-leaves q Flag.die_with_parent h = refl

module _ (h : Host) (cfg : BubblewrapConfig) (p : SandboxPolicy) (pattern e q : Text)
    (c : contains_text p.filesystem.deny_write pattern ≡ true) (x : expand h pattern ≡ some e)
    (g : contains_glob e ≡ false) (s : exists (h.stat e) ≡ true) (o : covers e q ≡ true) where
  write_after-denied : (b : Bool) → write_after q b (Flag.ro_bind_try e) ≡ false
  write_after-denied b = rw o refl

  after-deny_filesystem : (b : Bool) → after (write_after q) b (deny_filesystem h cfg p) ≡ false
  unfolding deny_filesystem
  after-deny_filesystem b =
      after-append (write_after q) b
        (deny_rules h (process_deny_read_rule h cfg) p.filesystem.deny_read) _
      ∙ after-append (write_after q) _
          (deny_rules h (process_deny_write_rule h cfg) p.filesystem.deny_write) _
      ∙ ap (λ v. after (write_after q) v (late_denials h cfg p))
          (after-deny_write h cfg (write_after q) false (write_after-read_only q) pattern e
            write_after-denied x g s p.filesystem.deny_write _ c)
      ∙ after_keeps (write_after q) is_mask false (write_after-mask q) (late_denials h cfg p)
          (masks-late_denials h cfg p)

  -- The terminals' devices, where the policy asks for them.
  abbrev pub is_terminal : Bool
  is_terminal =
      or_else p.allow_pty false && (covers (codes "/dev/pts") q || covers (codes "/dev/ptmx") q)

  after-tail :
      after
        (write_after q)
        false
        ((if or_else p.allow_pty false then add_pty_support else []) ++ add_tmpdir_support h)
      ≡ (is_terminal || covers h.env.temp_dir q)
  unfolding after
  after-tail = ground arith

  -- For every policy, a path at or below one that exists and that `deny_write` names (expanded,
  -- without a wildcard) can be written, once bubblewrap has made all mounts in their order,
  -- exactly if it is at or below the temporary directory, or at or below /dev/pts or /dev/ptmx
  -- where the policy asks for a terminal: these are bound last, and so in spite of the denial.
  -- Otherwise it cannot be written.
  pub can_write-denied :
      can_write (translate_flags h cfg p) q ≡ (is_terminal || covers h.env.temp_dir q)
  unfolding translate_flags translate_filesystem
  can_write-denied =
      after-append (write_after q) false (add_essential_system_permissions h cfg) _
      ∙ after-append (write_after q) _ (add_isolation_namespaces cfg p) _
      ∙ after-append (write_after q) _ (translate_filesystem h cfg p) _
      ∙ ap
          (λ v.
            after (write_after q) v
              ((if or_else p.allow_pty false then add_pty_support else []) ++ add_tmpdir_support h))
          (after-append (write_after q) _
              (allow_loop h (process_read_rule h cfg) p.filesystem.allow_read
                (existing h cfg.essential_system_paths))
              _
            ∙ after-append (write_after q) _
                (allow_loop h (process_write_rule h cfg) p.filesystem.allow_write
                  (h.env.temp_dir ∷ []))
                _
            ∙ after-deny_filesystem _)
      ∙ after-tail

  read_after-denied : (b : Bool) → read_after q b (Flag.ro_bind_try e) ≡ true
  read_after-denied b = rw o refl

  read_tail :
      after
        (read_after q)
        true
        ((if or_else p.allow_pty false then add_pty_support else []) ++ add_tmpdir_support h)
      ≡ true
  unfolding after
  read_tail = ground arith

  -- Once bubblewrap has made all mounts, a path at or below one that exists and that `deny_write`
  -- names (expanded, without a wildcard) can be read, whatever `deny_read` names, unless a
  -- mandatory denial or one of executing, which are mounted later, hides it: the read-only mount
  -- lies over the one that hides it.
  pub can_read-denied :
      all (leaves_readable q) (late_denials h cfg p) ≡ true
      → can_read (translate_flags h cfg p) q ≡ true
  unfolding translate_flags translate_filesystem deny_filesystem
  can_read-denied l =
      let rest =
        (if or_else p.allow_pty false then add_pty_support else []) ++ add_tmpdir_support h in
      after-append (read_after q) false (add_essential_system_permissions h cfg) _
      ∙ after-append (read_after q) _ (add_isolation_namespaces cfg p) _
      ∙ after-append (read_after q) _ (translate_filesystem h cfg p) rest
      ∙ ap (λ v. after (read_after q) v rest)
          (after-append (read_after q) _
              (allow_loop h (process_read_rule h cfg) p.filesystem.allow_read
                (existing h cfg.essential_system_paths))
              _
            ∙ after-append (read_after q) _
                (allow_loop h (process_write_rule h cfg) p.filesystem.allow_write
                  (h.env.temp_dir ∷ []))
                _
            ∙ after-append (read_after q) _
                (deny_rules h (process_deny_read_rule h cfg) p.filesystem.deny_read) _
            ∙ after-append (read_after q) _
                (deny_rules h (process_deny_write_rule h cfg) p.filesystem.deny_write) _
            ∙ ap (λ v. after (read_after q) v (late_denials h cfg p))
                (after-deny_write h cfg (read_after q) true (read_after-read_only q) pattern e
                  read_after-denied x g s p.filesystem.deny_write _ c)
            ∙ after_keeps (read_after q) (leaves_readable q) true (read_after-leaves q)
                (late_denials h cfg p) l)
      ∙ read_tail
