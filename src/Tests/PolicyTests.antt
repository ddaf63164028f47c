-- ===== src/Tests/PolicyTests.antt =====
-- The organization's policy and the trusted packages on concrete rules.
use pmg.Prelude.{ℕ, ◌≡◌, refl, ◌↔◌, true, false, Option, none, some, Text, [], ◌∷◌, Any, codes}
use pmg.Analysis.{npm, other, PackageVersion}
use pmg.OrgPolicy.{
  Rule, Policy, decision_none, decision_allow, decision_block, decide_policy, Stored, stored,
  policy_analyze, ecosystem_string,
}
use pmg.OrgPolicy.Matching.{Applies, decide_policy_iff}
use pmg.Trusted.{TrustedPackage, preprocess, is_trusted}

abbrev same : ℕ → ℕ
same c = c

abbrev block_evil : Rule
block_evil = record {
  ecosystem = codes "NPM";
  name = codes "Evil";
  version = codes "*";
  reason = codes "no";
}

abbrev allow_one : Rule
allow_one = record { ecosystem = []; name = codes "evil"; version = codes "2.0.0"; reason = [] }

abbrev both : Policy
both = record { blocklist = block_evil ∷ []; allowlist = allow_one ∷ [] }

blocked_version :
    decide_policy same both (codes "npm") (codes "evil") (codes "1.0.0") ≡ decision_block
unfolding decide_policy pmg.OrgPolicy.matches pmg.OrgPolicy.rule_matches
blocked_version = refl

allowed_version :
    decide_policy same both (codes "npm") (codes "evil") (codes "2.0.0") ≡ decision_allow
unfolding decide_policy pmg.OrgPolicy.matches pmg.OrgPolicy.rule_matches
allowed_version = refl

other_ecosystem :
    decide_policy same both (codes "pypi") (codes "evil") (codes "1.0.0") ≡ decision_none
unfolding decide_policy pmg.OrgPolicy.matches pmg.OrgPolicy.rule_matches
other_ecosystem = refl

go_name : ecosystem_string same (other (codes "ECOSYSTEM_GO")) ≡ codes "go"
unfolding ecosystem_string pmg.Prelude.strip_prefix
go_name = refl

decide_policy_iff_example :
    ((decide_policy same both (codes "npm") (codes "evil") (codes "1") ≡ decision_allow)
      ↔ Any (Applies same (codes "npm") (codes "evil") (codes "1")) (allow_one ∷ []))
    × ((decide_policy same both (codes "npm") (codes "evil") (codes "1") ≡ decision_block) ↔ (
        Any (Applies same (codes "npm") (codes "evil") (codes "1")) (block_evil ∷ [])
        × ¬ Any (Applies same (codes "npm") (codes "evil") (codes "1")) (allow_one ∷ [])))
    × ((decide_policy same both (codes "npm") (codes "evil") (codes "1") ≡ decision_none) ↔ (
        (¬ Any (Applies same (codes "npm") (codes "evil") (codes "1")) (block_evil ∷ []))
        × ¬ Any (Applies same (codes "npm") (codes "evil") (codes "1")) (allow_one ∷ [])))
decide_policy_iff_example = decide_policy_iff same both (codes "npm") (codes "evil") (codes "1")

abbrev evil : PackageVersion
evil = record { ecosystem = npm; name = codes "evil"; version = codes "1.0.0" }

abbrev entry : Text → TrustedPackage
entry p = record { purl = p; parsed = false; ecosystem = npm; name = []; version = [] }

-- A parser that knows one package URL.
abbrev parse_one : Text → Option PackageVersion
parse_one [] = none
parse_one (c ∷ p) = some (record evil { version = [] })

trusted_without_version :
    is_trusted (preprocess parse_one (entry [] ∷ entry (codes "pkg:npm/evil") ∷ [])) (some evil)
    ≡ true
unfolding is_trusted preprocess
trusted_without_version = refl
