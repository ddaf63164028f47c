-- ===== src/Sandbox/Merging.antt =====
-- What a policy of sandbox/policy.go is after `MergeWithParent`.
use pmg.Prelude.{
  ◌≡◌, refl, ◌⊎◌, ◌↔◌, Bool, true, false, ◌||◌, none, some, or_else, Text, is_empty, not, any, [],
  ◌∷◌, if◌then◌else◌, arith,
}
use pmg.Sandbox.{
  SandboxPolicy, name_required, no_package_manager, no_rules, has_rules, validate_resolved, is_seen,
  merge_with_parent,
}
use pmg.Sandbox.Unions.{is_seen-union, is_empty-union}

has_rules-merge_with_parent :
    (c p : SandboxPolicy) → has_rules (merge_with_parent c p) ≡ (has_rules c || has_rules p)
unfolding merge_with_parent
has_rules-merge_with_parent c p = ground (
  arith,
  is_empty-union p.filesystem.allow_read c.filesystem.allow_read,
  is_empty-union p.filesystem.allow_write c.filesystem.allow_write,
  is_empty-union p.filesystem.deny_read c.filesystem.deny_read,
  is_empty-union p.filesystem.deny_write c.filesystem.deny_write,
  is_empty-union p.network.allow_outbound c.network.allow_outbound,
  is_empty-union p.network.deny_outbound c.network.deny_outbound,
  is_empty-union p.process.allow_exec c.process.allow_exec,
  is_empty-union p.process.deny_exec c.process.deny_exec,
)

validate_resolved_lem :
    (p : SandboxPolicy)
    → validate_resolved p ≡ (
        if is_empty p.name
        then some name_required
        else if is_empty p.package_managers
        then some no_package_manager
        else if has_rules p
        then none
        else some no_rules)
unfolding validate_resolved
validate_resolved_lem p = ground arith

merge_with_parent-names :
    (c p : SandboxPolicy)
    → ((merge_with_parent c p).name ≡ c.name)
      × ((merge_with_parent c p).package_managers ≡ c.package_managers)
unfolding merge_with_parent
merge_with_parent-names c p = (refl, refl)

-- A rule of any kind but `allow_bind`.
abbrev pub holds_rule : SandboxPolicy → Bool
holds_rule p =
    any (λ l. not (is_empty l))
      (p.filesystem.allow_read ∷ p.filesystem.allow_write ∷ p.filesystem.deny_read
        ∷ p.filesystem.deny_write ∷ p.network.allow_outbound ∷ p.network.deny_outbound
        ∷ p.process.allow_exec ∷ p.process.deny_exec ∷ [])

holds-has_rules : (p : SandboxPolicy) → has_rules p ≡ holds_rule p
holds-has_rules p = ground arith

-- A merged policy is valid exactly if the child has a name and a package manager, and the child or
-- the parent has an entry in one of the eight lists of paths, of outbound hosts and of programs,
-- allowed or denied (`allow_bind` does not count).
pub validate_resolved-merge_with_parent :
    (c p : SandboxPolicy)
    → (validate_resolved (merge_with_parent c p) ≡ none) ↔ (
        (is_empty c.name ≡ false)
        × (is_empty c.package_managers ≡ false)
        × ((holds_rule c ≡ true) ⊎ (holds_rule p ≡ true)))
validate_resolved-merge_with_parent c p = ground (
  arith,
  validate_resolved_lem (merge_with_parent c p),
  merge_with_parent-names c p,
  has_rules-merge_with_parent c p,
  holds-has_rules c,
  holds-has_rules p,
)

-- A rule, allowed or denied, is in the merged policy exactly if the child or the parent has it; and
-- each of the three switches is the child's where it is set, else the parent's, else off.
pub merge_with_parent_lem :
    (c p : SandboxPolicy) (x : Text)
    → let m = merge_with_parent c p in
      (is_seen m.filesystem.deny_read x
        ≡ (is_seen p.filesystem.deny_read x || is_seen c.filesystem.deny_read x))
      × (is_seen m.filesystem.deny_write x
          ≡ (is_seen p.filesystem.deny_write x || is_seen c.filesystem.deny_write x))
      × (is_seen m.filesystem.allow_read x
          ≡ (is_seen p.filesystem.allow_read x || is_seen c.filesystem.allow_read x))
      × (is_seen m.filesystem.allow_write x
          ≡ (is_seen p.filesystem.allow_write x || is_seen c.filesystem.allow_write x))
      × (is_seen m.network.allow_outbound x
          ≡ (is_seen p.network.allow_outbound x || is_seen c.network.allow_outbound x))
      × (is_seen m.network.deny_outbound x
          ≡ (is_seen p.network.deny_outbound x || is_seen c.network.deny_outbound x))
      × (is_seen m.network.allow_bind x
          ≡ (is_seen p.network.allow_bind x || is_seen c.network.allow_bind x))
      × (is_seen m.process.allow_exec x
          ≡ (is_seen p.process.allow_exec x || is_seen c.process.allow_exec x))
      × (is_seen m.process.deny_exec x
          ≡ (is_seen p.process.deny_exec x || is_seen c.process.deny_exec x))
      × (or_else m.allow_pty false ≡ or_else c.allow_pty (or_else p.allow_pty false))
      × (or_else m.allow_git_config false
          ≡ or_else c.allow_git_config (or_else p.allow_git_config false))
      × (or_else m.allow_network_bind false
          ≡ or_else c.allow_network_bind (or_else p.allow_network_bind false))
unfolding merge_with_parent
merge_with_parent_lem c p x = (
  is_seen-union p.filesystem.deny_read c.filesystem.deny_read x,
  is_seen-union p.filesystem.deny_write c.filesystem.deny_write x,
  is_seen-union p.filesystem.allow_read c.filesystem.allow_read x,
  is_seen-union p.filesystem.allow_write c.filesystem.allow_write x,
  is_seen-union p.network.allow_outbound c.network.allow_outbound x,
  is_seen-union p.network.deny_outbound c.network.deny_outbound x,
  is_seen-union p.network.allow_bind c.network.allow_bind x,
  is_seen-union p.process.allow_exec c.process.allow_exec x,
  is_seen-union p.process.deny_exec c.process.deny_exec x,
  ground arith,
  ground arith,
  ground arith,
)
