-- ===== src/Platform/Bubblewrap/Ends.antt =====
-- sandbox/platform/bubblewrap_translator_linux.go: the self-call of `processDenyReadRule` ends.
use pmg.Prelude.{ℕ, ◌+◌, ◌≡◌, false, some, Text, arith}
use pmg.SandboxUtil.{contains_glob}
use pmg.Platform.{Host}
use pmg.Platform.Globs.{extract_glob_parent_dir}
use pmg.Platform.Globs.Parents.{extract_glob_parent_dir-plain}
use pmg.Platform.Bubblewrap.{BubblewrapConfig}
use pmg.Platform.Bubblewrap.Rules.{hide, process_deny_read, process_deny_read_rule}

module _ (h : Host) (cfg : BubblewrapConfig) where
  process_deny_read-plain :
      (n : ℕ) (path : Text)
      → contains_glob path ≡ false
      → process_deny_read h cfg (n + 1) path ≡ some (hide h path)
  unfolding process_deny_read
  process_deny_read-plain n path g = ground arith

  -- Two calls are enough: with more fuel than that the rule returns the same flags.
  pub process_deny_read_ends :
      (n : ℕ) (path : Text)
      → process_deny_read h cfg (n + 2) path ≡ some (process_deny_read_rule h cfg path)
  unfolding process_deny_read process_deny_read_rule
  process_deny_read_ends n path = ground (
    arith,
    process_deny_read-plain n (extract_glob_parent_dir path) (extract_glob_parent_dir-plain path),
    process_deny_read-plain 0 (extract_glob_parent_dir path) (extract_glob_parent_dir-plain path),
  )
