-- ===== src/OrgPolicy.antt =====
-- internal/policy/policy.go and analyzer/policy_analyzer.go: the organization's policy and the
-- analyzer that enforces it.
--
-- `strings.EqualFold` compares texts code point by code point under simple case folding. The fold
-- of ASCII is written out; that of the other code points is the parameter `fold_beyond`, the
-- representative of a code point's case orbit. JSON and the file system are parameters of `load`.
pub mod Matching
use pmg.Prelude.{
  ℕ, ◌+◌, Bool, true, false, not, ◌&&◌, ◌||◌, Option, none, some, Text, codes, ◌=ₜ◌, is_empty, List,
  [], ◌∷◌, ◌++◌, map, ltb, leb, if◌then◌else◌, trim_prefix,
}
use pmg.Analysis.{
  Ecosystem, npm, pypi, other, PackageVersion, allow, block, with_action, Outcome, returned,
}

pub data Decision : Type 0 where
  decision_none decision_allow decision_block : Decision

pub record Rule : Type 0 where
  pub ecosystem : Text
  pub name : Text
  pub version : Text
  pub reason : Text

pub record Policy : Type 0 where
  pub blocklist : List Rule
  pub allowlist : List Rule

abbrev pub is_upper : ℕ → Bool
is_upper c = leb b'A' c && leb c b'Z'

-- What `policy.Load` finds at the path: no file, an error of reading or parsing, or a policy.
pub data Stored : Type 0 where
  missing corrupt : Stored
  stored : Policy → Stored

unfoldable pub load : Stored → Option Policy
load missing = some (record { blocklist = []; allowlist = [] })
load corrupt = none
load (stored p) = some p

module _ (fold_beyond : ℕ → ℕ) where
  abbrev pub fold : ℕ → ℕ
  fold c = if ltb c 128 then (if is_upper c then c + 32 else c) else fold_beyond c

  unfoldable pub equal_fold : Text → Text → Bool
  equal_fold s t = map fold s =ₜ map fold t

  -- The three tests of one round of `matches`.
  unfoldable pub rule_matches : Rule → Text → Text → Text → Bool
  unfolding equal_fold
  rule_matches r eco nm ver =
      if not (equal_fold r.name nm)
      then false
      else if not (is_empty r.ecosystem) && not (equal_fold r.ecosystem eco)
      then false
      else r.version =ₜ codes "*" || (is_empty r.version || r.version =ₜ ver)

  unfoldable pub matches : List Rule → Text → Text → Text → Bool
  matches [] eco nm ver = false
  matches (r ∷ rs) eco nm ver = if rule_matches r eco nm ver then true else matches rs eco nm ver

  -- `(*Policy).Decision`
  unfoldable pub decide_policy : Policy → Text → Text → Text → Decision
  decide_policy p eco nm ver =
      if matches p.allowlist eco nm ver
      then decision_allow
      else if matches p.blocklist eco nm ver
      then decision_block
      else decision_none

-- `strings.ToLower`, under a parameter for the code points beyond ASCII.
abbrev pub to_lower : (ℕ → ℕ) → Text → Text
to_lower lower_beyond =
    map (λ c. if ltb c 128 then (if is_upper c then c + 32 else c) else lower_beyond c)

unfoldable pub ecosystem_string : (ℕ → ℕ) → Ecosystem → Text
ecosystem_string lower_beyond npm = codes "npm"
ecosystem_string lower_beyond pypi = codes "pypi"
ecosystem_string lower_beyond (other e) = to_lower lower_beyond (trim_prefix e (codes "ECOSYSTEM_"))

-- `policyAnalyzer.Analyze`
unfoldable pub policy_analyze :
    (fold_beyond lower_beyond : ℕ → ℕ) → Stored → PackageVersion → Outcome
unfolding load
policy_analyze fold_beyond lower_beyond s pv = elim (load s) [
  | none ↦ returned (some (with_action pv allow))
  | some p ↦
      elim (decide_policy fold_beyond p (ecosystem_string lower_beyond pv.ecosystem) pv.name
        pv.version) [
          | decision_block ↦ returned (
              some (record (with_action pv block) {
                summary = codes "blocked by organization policy: " ++ pv.name;
              }))
          | _ ↦ returned (some (with_action pv allow))
        ]
]
