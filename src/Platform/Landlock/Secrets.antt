-- ===== src/Platform/Landlock/Secrets.antt =====
-- sandbox/util/dangerous.go and the Landlock driver together: the files that hold credentials cannot
-- be opened unless the policy names them.
use pmg.Prelude.{ℕ, ◌≡◌, true, false, Text, contains_text, ◌⊎◌, or_else, inl, inr}
use pmg.Sandbox.{SandboxPolicy}
use pmg.SandboxUtil.{contains_glob}
use pmg.Paths.{clean, join_path}
use pmg.SandboxUtil.Dangerous.{MandatoryDenyOptions}
use pmg.SandboxUtil.Dangerous.Secrets.{
  secret_files, IsProtected, NamesNone, secret-deny_read, secret-deny_write,
}
use pmg.Platform.{Host}
use pmg.Platform.Bubblewrap.Translator.{mandatory, expanded_or_none}
use pmg.Platform.Landlock.{LandlockAbi}
use pmg.Platform.Landlock.Translator.{landlock_translate_policy}
use pmg.Platform.Landlock.Supervisor.{is_path_denied}
use pmg.Platform.Landlock.Denied.{
  IsAtOrBelow, Reads, Writes, entry_matches-below, denies-Reads, denies-Writes, is_path_denied-read,
  is_path_denied-write,
}

abbrev pub options_of : Host → SandboxPolicy → MandatoryDenyOptions
options_of h p = record {
  allow_git_config = or_else p.allow_git_config false;
  allow_read = expanded_or_none h p.filesystem.allow_read;
  allow_write = expanded_or_none h p.filesystem.allow_write;
}

-- Each of the fourteen files and directories with credentials, in the working directory or in a
-- home directory that is set, is denied by the supervisor under the translated policy, with all
-- below it (no wildcard in its path): for reading, or for both, where no entry of `allow_read` is
-- the path of such a file or directory, and for writing, or for both, where no entry of
-- `allow_write` is.
pub is_path_denied-secret :
    (h : Host) (p : SandboxPolicy) (abi : LandlockAbi) (q : Text) (flags : ℕ) (w f : Text)
    → IsProtected h.env w
    → contains_text secret_files f ≡ true
    → contains_glob (clean (join_path w f)) ≡ false
    → IsAtOrBelow (clean (join_path w f)) q
    → (Reads flags × NamesNone h.env w (expanded_or_none h p.filesystem.allow_read))
      ⊎ (Writes flags × NamesNone h.env w (expanded_or_none h p.filesystem.allow_write))
    → is_path_denied q flags (landlock_translate_policy h p abi).deny_paths ≡ true
unfolding mandatory
is_path_denied-secret h p abi q flags w f d s g b (inl (m, n)) =
    is_path_denied-read h p abi q flags (clean (join_path w f)) g
      (entry_matches-below (clean (join_path w f)) q b) (denies-Reads flags m)
      (inr (secret-deny_read h.env w (options_of h p) f d s n))
is_path_denied-secret h p abi q flags w f d s g b (inr (m, n)) =
    is_path_denied-write h p abi q flags (clean (join_path w f)) g
      (entry_matches-below (clean (join_path w f)) q b) (denies-Writes flags m)
      (inr (secret-deny_write h.env w (options_of h p) f d s n))
