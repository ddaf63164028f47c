-- ===== src/OrgPolicy/Matching.antt =====
-- When a rule of internal/policy/policy.go applies, said without its loop, and what `Decision`
-- makes of the two lists.
use pmg.Prelude.{
  ℕ, ◌≡◌, ◌↔◌, ◌⊎◌, true, ◌∷◌, List, [], Text, codes, text_eq_iff, map, Any, if_true_iff, arith,
  is_empty_iff,
}
use pmg.Analysis.{PackageVersion}
use pmg.Analysis.Composite.Verdict.{is_blocking}
use pmg.OrgPolicy.{
  decision_none, decision_allow, decision_block, Rule, Policy, fold, rule_matches, matches,
  decide_policy, Stored, missing, corrupt, stored, policy_analyze, ecosystem_string,
}

module _ (fold_beyond : ℕ → ℕ) where
  -- Two texts are equal up to case.
  abbrev pub SameFold : Text → Text → Type 0
  SameFold s t = map (fold fold_beyond) s ≡ map (fold fold_beyond) t

  -- A rule applies to a package version: its name is the package's up to case, its ecosystem is
  -- unset or the package's up to case, and its version is unset, `*` or the very version.
  abbrev pub Applies : Text → Text → Text → Rule → Type 0
  Applies eco nm ver r =
      SameFold r.name nm
      × ((r.ecosystem ≡ []) ⊎ SameFold r.ecosystem eco)
      × ((r.version ≡ codes "*") ⊎ ((r.version ≡ []) ⊎ (r.version ≡ ver)))

  rule_matches_iff :
      (r : Rule) (eco nm ver : Text)
      → (rule_matches fold_beyond r eco nm ver ≡ true) ↔ Applies eco nm ver r
  unfolding rule_matches
  rule_matches_iff r eco nm ver = (
    λ h. ground (
      arith,
      text_eq_iff (map (fold fold_beyond) r.name) (map (fold fold_beyond) nm),
      text_eq_iff (map (fold fold_beyond) r.ecosystem) (map (fold fold_beyond) eco),
      is_empty_iff r.ecosystem,
      is_empty_iff r.version,
      text_eq_iff r.version (codes "*"),
      text_eq_iff r.version ver,
    ),
    λ h. ground (
      arith,
      text_eq_iff (map (fold fold_beyond) r.name) (map (fold fold_beyond) nm),
      text_eq_iff (map (fold fold_beyond) r.ecosystem) (map (fold fold_beyond) eco),
      is_empty_iff r.ecosystem,
      is_empty_iff r.version,
      text_eq_iff r.version (codes "*"),
      text_eq_iff r.version ver,
    ),
  )

  matches_iff :
      (rs : List Rule) (eco nm ver : Text)
      → (matches fold_beyond rs eco nm ver ≡ true) ↔ Any (Applies eco nm ver) rs
  unfolding matches
  matches_iff [] eco nm ver = (λ h. ground arith, λ h. absurd h)
  matches_iff (r ∷ rs) eco nm ver =
      if_true_iff (rule_matches fold_beyond r eco nm ver) (matches fold_beyond rs eco nm ver)
        (rule_matches_iff r eco nm ver) (matches_iff rs eco nm ver)

  -- `Decision` allows exactly the versions to which a rule of the allowlist applies, blocks exactly
  -- those to which one of the blocklist applies and none of the allowlist, and has no opinion on
  -- exactly the rest.
  pub decide_policy_iff :
      (p : Policy) (eco nm ver : Text)
      → ((decide_policy fold_beyond p eco nm ver ≡ decision_allow)
          ↔ Any (Applies eco nm ver) p.allowlist)
        × ((decide_policy fold_beyond p eco nm ver ≡ decision_block)
            ↔ (Any (Applies eco nm ver) p.blocklist × ¬ Any (Applies eco nm ver) p.allowlist))
        × ((decide_policy fold_beyond p eco nm ver ≡ decision_none)
            ↔ ((¬ Any (Applies eco nm ver) p.blocklist) × ¬ Any (Applies eco nm ver) p.allowlist))
  unfolding decide_policy
  decide_policy_iff p eco nm ver =
      ground (arith, matches_iff p.allowlist eco nm ver, matches_iff p.blocklist eco nm ver)

  -- A stored policy that blocks the version; a missing or unreadable one blocks nothing.
  abbrev pub Blocks : Stored → Text → Text → Text → Type 0
  Blocks missing eco nm ver = ⊥
  Blocks corrupt eco nm ver = ⊥
  Blocks (stored p) eco nm ver =
      Any (Applies eco nm ver) p.blocklist × ¬ Any (Applies eco nm ver) p.allowlist

  -- The policy analyzer asks to block exactly the versions that a stored policy blocks; a missing
  -- or unreadable policy blocks nothing.
  pub policy_analyze_iff :
      (lower_beyond : ℕ → ℕ) (s : Stored) (pv : PackageVersion)
      → (is_blocking (policy_analyze fold_beyond lower_beyond s pv) ≡ true)
        ↔ Blocks s (ecosystem_string lower_beyond pv.ecosystem) pv.name pv.version
  unfolding policy_analyze
  policy_analyze_iff lower_beyond missing pv = ground (
    arith,
    decide_policy_iff (record { blocklist = []; allowlist = [] })
        (ecosystem_string lower_beyond pv.ecosystem) pv.name pv.version,
  )
  policy_analyze_iff lower_beyond corrupt pv = (λ h. cc, λ h. absurd h)
  policy_analyze_iff lower_beyond (stored p) pv =
      ground
        (arith, decide_policy_iff p (ecosystem_string lower_beyond pv.ecosystem) pv.name pv.version)
