-- ===== src/Trusted/Listed.antt =====
-- What config/trusted.go trusts, said of the configured PURLs themselves.
use pmg.Prelude.{
  ◌≡◌, refl, ◌↔◌, ◌⊎◌, inl, inr, true, false, Option, none, some, Text, text_eq_iff, is_empty_iff,
  List, [], ◌∷◌, Any, if_true_iff, Option-cases, arith,
}
use pmg.Analysis.{Ecosystem, npm, pypi, other, PackageVersion}
use pmg.Trusted.{
  same_ecosystem, TrustedPackage, preprocess, preprocess_one, trusts, trusted_loop, is_trusted,
}

same_ecosystem_iff : (a b : Ecosystem) → (same_ecosystem a b ≡ true) ↔ (a ≡ b)
same_ecosystem_iff npm npm = (λ _. refl, λ _. refl)
same_ecosystem_iff npm pypi = ground arith
same_ecosystem_iff npm (other b) = ground arith
same_ecosystem_iff pypi npm = ground arith
same_ecosystem_iff pypi pypi = (λ _. refl, λ _. refl)
same_ecosystem_iff pypi (other b) = ground arith
same_ecosystem_iff (other a) npm = ground arith
same_ecosystem_iff (other a) pypi = ground arith
same_ecosystem_iff (other a) (other b) = ground (arith, text_eq_iff a b)

module _ (parse_purl : Text → Option PackageVersion) where
  -- The entry's PURL parses, names the package, and has its version or none.
  abbrev pub Names : PackageVersion → TrustedPackage → Type 0
  Names pv tp =
      (q : PackageVersion) × (parse_purl tp.purl ≡ some q)
      × (q.ecosystem ≡ pv.ecosystem)
      × (q.name ≡ pv.name)
      × ((q.version ≡ []) ⊎ (q.version ≡ pv.version))

  trusts_iff :
      (tp : TrustedPackage) (pv : PackageVersion)
      → (trusts (preprocess_one parse_purl tp) pv ≡ true) ↔ Names pv tp
  unfolding trusts preprocess_one
  trusts_iff tp pv = elim (Option-cases (parse_purl tp.purl)) [
    | inl e ↦ (λ h. ground arith, λ (q, m, _, _, _). ground arith)
    | inr (q, e) ↦ (
      λ h. (
        q,
        e,
        ground (arith, same_ecosystem_iff q.ecosystem pv.ecosystem),
        ground (arith, text_eq_iff q.name pv.name),
        ground (arith, is_empty_iff q.version, text_eq_iff q.version pv.version),
      ),
      λ (q', m, he, hn, hv). ground (
        arith,
        same_ecosystem_iff q.ecosystem pv.ecosystem,
        text_eq_iff q.name pv.name,
        is_empty_iff q.version,
        text_eq_iff q.version pv.version,
      ),
    )
  ]

  trusted_loop_iff :
      (tps : List TrustedPackage) (pv : PackageVersion)
      → (trusted_loop (preprocess parse_purl tps) pv ≡ true) ↔ Any (Names pv) tps
  unfolding trusted_loop preprocess
  trusted_loop_iff [] pv = (λ h. ground arith, λ h. absurd h)
  trusted_loop_iff (tp ∷ tps) pv =
      if_true_iff (trusts (preprocess_one parse_purl tp) pv)
        (trusted_loop (preprocess parse_purl tps) pv) (trusts_iff tp pv) (trusted_loop_iff tps pv)

  -- After loading, a package version is trusted exactly when some configured PURL parses, names its
  -- ecosystem and package, and has no version or its version. A nil version is never trusted.
  pub is_trusted_iff :
      (tps : List TrustedPackage) (pv : PackageVersion)
      → ((is_trusted (preprocess parse_purl tps) (some pv) ≡ true) ↔ Any (Names pv) tps)
        × (is_trusted (preprocess parse_purl tps) none ≡ false)
  unfolding is_trusted preprocess
  is_trusted_iff [] pv = ((λ h. ground arith, λ h. absurd h), refl)
  is_trusted_iff (tp ∷ tps) pv = (trusted_loop_iff (tp ∷ tps) pv, refl)
