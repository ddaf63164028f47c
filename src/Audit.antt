-- ===== src/Audit.antt =====
-- internal/audit: the events that the proxy reports. The functions of that package write to sinks;
-- here a call is an event in a log, in the order of the calls.
use pmg.Prelude.{ℕ, Option, Text, List, [], ◌∷◌, ◌++◌, Bool}
use pmg.Analysis.{PackageVersion}

pub data AuditEvent : Type 0 where
  install_started : (package_manager : Text) → (args : List Text) → AuditEvent
  install_insecure_bypass install_trusted_allowed : PackageVersion → AuditEvent
  install_allowed : Option PackageVersion → (packages : ℕ) → AuditEvent
  malware_blocked :
      Option PackageVersion
      → (reason id reference : Text) → (malicious verified : Bool) → AuditEvent
  malware_confirmed : Option PackageVersion → (id : Text) → (malicious verified : Bool) → AuditEvent
  dependency_cooldown : PackageVersion → (published window ago left : ℕ) → AuditEvent

abbrev pub Log : Type 0
Log = List AuditEvent

abbrev pub report : AuditEvent → Log → Log
report e l = l ++ e ∷ []
