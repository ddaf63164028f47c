-- ===== src/Tests/SandboxTests.antt =====
-- Sandbox policies that inherit from one another.
use pmg.Prelude.{◌≡◌, refl, ◌⊎◌, ◌↔◌, true, false, none, some, Text, codes, is_empty, List, [], ◌∷◌}
use pmg.Sandbox.{
  SandboxPolicy, has_rules, validate, validate_resolved, no_rules, is_seen, union,
  merge_with_parent, applies_to_package_manager,
}
use pmg.Sandbox.Merging.{holds_rule, validate_resolved-merge_with_parent}

abbrev child : SandboxPolicy
child = record {
  name = codes "npm-ci";
  description = [];
  inherits = codes "npm";
  package_managers = codes "NPM" ∷ [];
  filesystem = record {
    allow_read = [];
    allow_write = [];
    deny_read = codes "/a" ∷ [];
    deny_write = [];
  };
  network = record { allow_outbound = []; deny_outbound = []; allow_bind = [] };
  process = record { allow_exec = []; deny_exec = [] };
  allow_git_config = none;
  allow_pty = some false;
  allow_network_bind = none;
}

abbrev parent : SandboxPolicy
parent = record child {
  name = codes "npm";
  inherits = [];
  filesystem = record {
    allow_read = codes "/x" ∷ [];
    allow_write = [];
    deny_read = codes "/b" ∷ codes "/a" ∷ [];
    deny_write = [];
  };
  allow_pty = some true;
  allow_git_config = some true;
}

parent_first : (merge_with_parent child parent).filesystem.deny_read ≡ codes "/b" ∷ codes "/a" ∷ []
unfolding merge_with_parent union pmg.Sandbox.union_loop is_seen
parent_first = refl

child_wins : (merge_with_parent child parent).allow_pty ≡ some false
unfolding merge_with_parent
child_wins = refl

case_is_ignored : applies_to_package_manager (λ c. c) child (codes "npm") ≡ true
unfolding applies_to_package_manager
case_is_ignored = refl

-- A policy whose only rule allows a bind has no rule.
bind_is_no_rule :
    validate_resolved (record child {
      filesystem = record { allow_read = []; allow_write = []; deny_read = []; deny_write = [] };
      network = record { allow_outbound = []; deny_outbound = []; allow_bind = codes "*:*" ∷ [] };
    })
    ≡ some no_rules
unfolding validate_resolved
bind_is_no_rule = refl

abbrev p : List Text
p = codes "/b" ∷ codes "/a" ∷ []

abbrev c : List Text
c = codes "/a" ∷ codes "/c" ∷ []

validate_resolved-merge_with_parent_example :
    (validate_resolved (merge_with_parent child parent) ≡ none) ↔ (
      (is_empty child.name ≡ false)
      × (is_empty child.package_managers ≡ false)
      × ((holds_rule child ≡ true) ⊎ (holds_rule parent ≡ true)))
validate_resolved-merge_with_parent_example = validate_resolved-merge_with_parent child parent
