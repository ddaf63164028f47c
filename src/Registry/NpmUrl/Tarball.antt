-- ===== src/Registry/NpmUrl/Tarball.antt =====
-- What the names of tarballs in proxy/interceptors/npm_url_parser.go stand for.
use pmg.Prelude.Result.{ok, err}
use pmg.Prelude.{
  ◌≡◌, refl, ◌↔◌, ◌⊎◌, inl, inr, ◌≢◌, true, false, Text, codes, is_empty, is_empty_iff, [], ◌++◌,
  Lacks, has_prefix, has_suffix, trim_prefix, trim_suffix, between_sound, has_prefix-append,
  has_suffix-append, trim_prefix-append, trim_suffix-append, append_assoc, subst, sym, ap, ◌∙◌,
  Bool-cases, if◌then◌else◌, arith,
}
use pmg.Registry.NpmUrl.{no_version, tgz, extract_version, extract_version_scoped, version_between}

-- A tarball's name that begins with `{p}-` and goes on with a version that is not empty.
abbrev pub Holds : Text → Text → Text → Type 0
Holds p tarball v = (tarball ≡ (p ++ codes "-") ++ (v ++ tgz)) × (v ≢ [])

tgz-Lacks : Lacks b'-' tgz
tgz-Lacks = omega arith

Holds-has_prefix :
    (p tarball v : Text) → Holds p tarball v → has_prefix tarball (p ++ codes "-") ≡ true
Holds-has_prefix p tarball v (e, ne) = rw e (has_prefix-append (p ++ codes "-") (v ++ tgz))

Holds-has_suffix : (p tarball v : Text) → Holds p tarball v → has_suffix tarball tgz ≡ true
Holds-has_suffix p tarball v (e, ne) =
    subst (λ s. has_suffix s tgz ≡ true) (append_assoc (p ++ codes "-") v tgz ∙ sym e)
      (has_suffix-append ((p ++ codes "-") ++ v) tgz)

trimmed : Text → Text → Text
trimmed p tarball = trim_suffix (trim_prefix tarball (p ++ codes "-")) tgz

trimmed_lem : (p v : Text) → trimmed p ((p ++ codes "-") ++ (v ++ tgz)) ≡ v
unfolding trimmed
trimmed_lem p v =
    ap (λ u. trim_suffix u tgz) (trim_prefix-append (p ++ codes "-") (v ++ tgz))
    ∙ trim_suffix-append v tgz

between_lem :
    (p tarball : Text)
    → version_between (p ++ codes "-") tarball
      ≡ (if is_empty (trimmed p tarball) then err no_version else ok (trimmed p tarball))
unfolding version_between trimmed
between_lem p tarball = refl

trimmed_sound :
    (p tarball : Text)
    → has_prefix tarball (p ++ codes "-") ≡ true
    → has_suffix tarball tgz ≡ true
    → tarball ≡ (p ++ codes "-") ++ (trimmed p tarball ++ tgz)
unfolding trimmed
trimmed_sound p tarball hp hs = between_sound b'-' p tgz tarball tgz-Lacks hp hs

between_iff :
    (p tarball v : Text)
    → has_prefix tarball (p ++ codes "-") ≡ true
    → has_suffix tarball tgz ≡ true
    → (version_between (p ++ codes "-") tarball ≡ ok v) ↔ Holds p tarball v
between_iff p tarball v hp hs = (
  λ h.
      let e = rw (between_lem p tarball) at h in
      ground (arith, is_empty_iff (trimmed p tarball), trimmed_sound p tarball hp hs),
  λ (e, ne). rw e (
      between_lem p ((p ++ codes "-") ++ (v ++ tgz))
      ∙ rw (trimmed_lem p v) (ground (arith, is_empty_iff v))),
)

-- `extract_version` accepts exactly the names `{package}-{version}.tgz` with a version that is not
-- empty, and returns that version.
pub extract_version_iff :
    (pkg tarball v : Text) → (extract_version pkg tarball ≡ ok v) ↔ Holds pkg tarball v
unfolding extract_version
extract_version_iff pkg tarball v = (
  λ h. elim (Bool-cases (has_prefix tarball (pkg ++ codes "-"))) [
    | inr n ↦ ground arith
    | inl p ↦ elim (Bool-cases (has_suffix tarball tgz)) [
      | inr n ↦ ground arith
      | inl s ↦ (between_iff pkg tarball v p s).0 (ground arith)
    ]
  ],
  λ h.
      let p = Holds-has_prefix pkg tarball v h in
      let s = Holds-has_suffix pkg tarball v h in rw (p, s) ((between_iff pkg tarball v p s).1 h),
)

-- The prefix with the scope, without its `@`.
abbrev pub scoped_prefix : Text → Text → Text
scoped_prefix scope pkg = trim_prefix scope (codes "@") ++ codes "-" ++ pkg

-- For a scoped package both `{scope}-{package}-{version}.tgz` and `{package}-{version}.tgz` are
-- accepted, with a version that is not empty; the second only if the name does not begin like the
-- first. The version is the one of the form that fits.
pub extract_version_scoped_iff :
    (scope pkg tarball v : Text)
    → (extract_version_scoped scope pkg tarball ≡ ok v) ↔ (
        Holds (scoped_prefix scope pkg) tarball v
        ⊎ ((has_prefix tarball (scoped_prefix scope pkg ++ codes "-") ≡ false)
            × Holds pkg tarball v))
unfolding extract_version_scoped
extract_version_scoped_iff scope pkg tarball v = (
  λ h. elim (Bool-cases (has_suffix tarball tgz)) [
    | inr n ↦ ground arith
    | inl s ↦ elim (Bool-cases (has_prefix tarball (scoped_prefix scope pkg ++ codes "-"))) [
      | inl p ↦ inl ((between_iff (scoped_prefix scope pkg) tarball v p s).0 (ground arith))
      | inr n ↦ elim (Bool-cases (has_prefix tarball (pkg ++ codes "-"))) [
        | inl p ↦ inr (n, (between_iff pkg tarball v p s).0 (ground arith))
        | inr m ↦ ground arith
      ]
    ]
  ],
  elim [
    | inl h ↦
        let q = scoped_prefix scope pkg in
        let p = Holds-has_prefix q tarball v h in
        let s = Holds-has_suffix q tarball v h in rw (p, s) ((between_iff q tarball v p s).1 h)
    | inr (n, h) ↦
        let p = Holds-has_prefix pkg tarball v h in
        let s = Holds-has_suffix pkg tarball v h in
        rw (p, s, n) ((between_iff pkg tarball v p s).1 h)
  ],
)
