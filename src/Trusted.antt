-- ===== src/Trusted.antt =====
-- config/trusted.go: the packages that the configuration trusts. The parser of package URLs (PURL)
-- belongs to a library and is a parameter.
pub mod Listed
use pmg.Prelude.{
  Bool, true, false, not, ◌&&◌, Option, none, some, Text, ◌=ₜ◌, is_empty, List, [], ◌∷◌, map,
  if◌then◌else◌,
}
use pmg.Analysis.{Ecosystem, npm, pypi, other, PackageVersion}

abbrev pub same_ecosystem : Ecosystem → Ecosystem → Bool
same_ecosystem npm npm = true
same_ecosystem npm _ = false
same_ecosystem pypi pypi = true
same_ecosystem pypi _ = false
same_ecosystem (other a) (other b) = a =ₜ b
same_ecosystem (other a) _ = false

pub record TrustedPackage : Type 0 where
  pub purl : Text
  pub parsed : Bool
  pub ecosystem : Ecosystem
  pub name : Text
  pub version : Text

-- `preprocessTrustedPackages`: one entry, and all of them.
unfoldable pub preprocess_one : (Text → Option PackageVersion) → TrustedPackage → TrustedPackage
preprocess_one parse_purl tp = elim (parse_purl tp.purl) [
  | none ↦ record tp { parsed = false }
  | some pv ↦ record tp {
    parsed = true;
    ecosystem = pv.ecosystem;
    name = pv.name;
    version = pv.version;
  }
]

unfoldable pub preprocess :
    (Text → Option PackageVersion) → List TrustedPackage → List TrustedPackage
unfolding preprocess_one
preprocess parse_purl [] = []
preprocess parse_purl (tp ∷ tps) = preprocess_one parse_purl tp ∷ preprocess parse_purl tps

-- The tests of one round of the loop.
unfoldable pub trusts : TrustedPackage → PackageVersion → Bool
trusts v pv =
    if not v.parsed
    then false
    else if not (same_ecosystem v.ecosystem pv.ecosystem)
    then false
    else if not (v.name =ₜ pv.name)
    then false
    else if not (is_empty v.version) && not (v.version =ₜ pv.version)
    then false
    else true

unfoldable pub trusted_loop : List TrustedPackage → PackageVersion → Bool
trusted_loop [] pv = false
trusted_loop (v ∷ vs) pv = if trusts v pv then true else trusted_loop vs pv

-- `isTrustedPackageVersion`, with nil for the package version as `none`.
unfoldable pub is_trusted : List TrustedPackage → Option PackageVersion → Bool
unfolding trusted_loop trusts
is_trusted tps none = false
is_trusted [] (some pv) = false
is_trusted (v ∷ vs) (some pv) = trusted_loop (v ∷ vs) pv
