-- ===== src/Registry/NpmUrl/Paths.antt =====
-- Which package the path of an NPM registry URL names, by `ParseURL` of
-- proxy/interceptors/npm_url_parser.go.
use pmg.Prelude.Result.{Result, ok, err, wrap_error, ◌>>=◌}
use pmg.Prelude.{
  ℕ, ◌≡◌, refl, ◌∙◌, ap, sym, ◌≢◌, ◌⊎◌, inl, inr, true, false, Text, codes, ◌=ₜ◌, text_eq_iff,
  is_empty, List, [], ◌∷◌, ◌++◌, Lacks, All, trim, trim_right, trim_right-keep, split_on, join_with,
  split_on-join_with, Bool-cases, if◌then◌else◌, arith, subst,
}
use pmg.Registry.NpmUrl.{
  NpmPackageInfo, UrlError, bad_tarball, TarballError, is_slash, full_name, info, is_scoped_path,
  parse_scoped, parse_unscoped, parse_url, extract_version, extract_version_scoped,
}
use pmg.Registry.NpmUrl.Tarball.{
  Holds, scoped_prefix, extract_version_iff, extract_version_scoped_iff,
}

trim_slashes :
    (c d : ℕ) (w u : Text)
    → c ≢ b'/'
    → d ≢ b'/'
    → c ∷ w ≡ u ++ d ∷ []
    → trim is_slash (b'/' ∷ c ∷ w) ≡ c ∷ w
unfolding trim
trim_slashes c d w u hc hd e =
    (ground arith)
    ∙ ap (trim_right is_slash) e
    ∙ trim_right-keep is_slash u d (ground arith)
    ∙ sym e

join_with-head :
    (c : ℕ) (p : Text) (ps : List Text) → (w : Text) × (join_with b'/' ((c ∷ p) ∷ ps) ≡ c ∷ w)
unfolding join_with
join_with-head c p [] = (p, refl)
join_with-head c p (q ∷ qs) = (p ++ b'/' ∷ join_with b'/' (q ∷ qs), refl)

parse_url-trimmed :
    (path s : Text) (segments : List Text)
    → trim is_slash path ≡ s
    → is_empty s ≡ false
    → split_on b'/' s ≡ segments
    → parse_url path
      ≡ (if is_scoped_path segments then parse_scoped segments else parse_unscoped segments)
unfolding parse_url
parse_url-trimmed path s segments t n e = rw (t, n, e)

-- The path `/` and the segments, which hold no slash; neither end of it is a slash.
pub parse_url-segments :
    (c d : ℕ) (p u : Text) (ps : List Text)
    → Lacks b'/' (c ∷ p)
    → All (Lacks b'/') ps
    → join_with b'/' ((c ∷ p) ∷ ps) ≡ u ++ d ∷ []
    → d ≢ b'/'
    → parse_url (b'/' ∷ join_with b'/' ((c ∷ p) ∷ ps)) ≡ (
        if is_scoped_path ((c ∷ p) ∷ ps)
        then parse_scoped ((c ∷ p) ∷ ps)
        else parse_unscoped ((c ∷ p) ∷ ps))
parse_url-segments c d p u ps hp hps e hd =
    let s = join_with b'/' ((c ∷ p) ∷ ps) in
    let (w, m) = join_with-head c p ps in
    let t : trim is_slash (b'/' ∷ s) ≡ s = rw m (trim_slashes c d w u hp.0 hd (sym m ∙ e)) in
    let n : is_empty s ≡ false = rw m refl in
    parse_url-trimmed (b'/' ∷ s) s ((c ∷ p) ∷ ps) t n (split_on-join_with b'/' (c ∷ p) ps hp hps)

-- The segments of a tarball's URL, for an unscoped and for a scoped package.
abbrev pub NamesTarball : NpmPackageInfo → List Text → Type 0
NamesTarball i segments =
    ((tarball : Text) × (segments ≡ i.name ∷ codes "-" ∷ tarball ∷ [])
      × Holds i.name tarball i.version
      × (i.is_scoped ≡ false))
    ⊎ ((scope : Text) × (pkg : Text) × (tarball : Text) × (segments
          ≡ scope ∷ pkg ∷ codes "-" ∷ tarball ∷ [])
        × (i.name ≡ full_name scope pkg)
        × (Holds (scoped_prefix scope pkg) tarball i.version ⊎ Holds pkg tarball i.version)
        × (i.is_scoped ≡ true))

finish_unscoped :
    (pkg tarball : Text) (i : NpmPackageInfo) (r : Result TarballError Text)
    → extract_version pkg tarball ≡ r
    → ◌≡◌ {A = Result UrlError NpmPackageInfo}
        (wrap_error bad_tarball r >>= (λ v. ok (info pkg v true false)))
        (ok i)
    → NamesTarball i (pkg ∷ codes "-" ∷ tarball ∷ [])
finish_unscoped pkg tarball i (err x) e h = cc
finish_unscoped pkg tarball i (ok v) e h =
    let same : info pkg v true false ≡ i = ground arith in
    subst (λ j. NamesTarball j (pkg ∷ codes "-" ∷ tarball ∷ [])) same
      (inl (tarball, refl, (extract_version_iff pkg tarball v).0 e, refl))

finish_scoped :
    (scope pkg tarball : Text) (i : NpmPackageInfo) (r : Result TarballError Text)
    → extract_version_scoped scope pkg tarball ≡ r
    → ◌≡◌ {A = Result UrlError NpmPackageInfo}
        (wrap_error bad_tarball r >>= (λ v. ok (info (full_name scope pkg) v true true)))
        (ok i)
    → NamesTarball i (scope ∷ pkg ∷ codes "-" ∷ tarball ∷ [])
finish_scoped scope pkg tarball i (err x) e h = cc
finish_scoped scope pkg tarball i (ok v) e h =
    let same : info (full_name scope pkg) v true true ≡ i = ground arith in
    let fits = (extract_version_scoped_iff scope pkg tarball v).0 e in
    subst (λ j. NamesTarball j (scope ∷ pkg ∷ codes "-" ∷ tarball ∷ [])) same
      (inr
        (scope, pkg, tarball, refl, refl, elim fits [ inl a ↦ inl a | inr (_, b) ↦ inr b ], refl))

parse_unscoped-NamesTarball :
    (segments : List Text) (i : NpmPackageInfo)
    → parse_unscoped segments ≡ ok i
    → i.is_tarball ≡ true
    → NamesTarball i segments
unfolding parse_unscoped
parse_unscoped-NamesTarball [] i h t = cc
parse_unscoped-NamesTarball (pkg ∷ []) i h t = absurd (ground arith)
parse_unscoped-NamesTarball (pkg ∷ v ∷ []) i h t = absurd (ground arith)
parse_unscoped-NamesTarball (pkg ∷ dash ∷ tarball ∷ []) i h t =
    elim (Bool-cases (dash =ₜ codes "-")) [
      | inr n ↦ absurd (ground arith)
      | inl e ↦
          rw ((text_eq_iff dash (codes "-")).0 e)
            (finish_unscoped pkg tarball i (extract_version pkg tarball) refl (rw e at h))
    ]
parse_unscoped-NamesTarball (pkg ∷ dash ∷ tarball ∷ more ∷ rest) i h t = cc

parse_scoped-NamesTarball :
    (segments : List Text) (i : NpmPackageInfo)
    → parse_scoped segments ≡ ok i
    → i.is_tarball ≡ true
    → NamesTarball i segments
unfolding parse_scoped
parse_scoped-NamesTarball [] i h t = cc
parse_scoped-NamesTarball (scope ∷ []) i h t = cc
parse_scoped-NamesTarball (scope ∷ pkg ∷ []) i h t = absurd (ground arith)
parse_scoped-NamesTarball (scope ∷ pkg ∷ v ∷ []) i h t = absurd (ground arith)
parse_scoped-NamesTarball (scope ∷ pkg ∷ dash ∷ tarball ∷ []) i h t =
    elim (Bool-cases (dash =ₜ codes "-")) [
      | inr n ↦ absurd (ground arith)
      | inl e ↦ rw ((text_eq_iff dash (codes "-")).0 e) (
          finish_scoped scope pkg tarball i (extract_version_scoped scope pkg tarball) refl
            (rw e at h))
    ]
parse_scoped-NamesTarball (scope ∷ pkg ∷ dash ∷ tarball ∷ more ∷ rest) i h t = cc

-- What `ParseURL` takes for a tarball is one: the segments between the slashes are the package, `-`
-- and a file name made of the package (or, for a scoped one, of scope and package) and of the
-- version that is returned, which is not empty.
pub parse_url-NamesTarball :
    (path : Text) (i : NpmPackageInfo)
    → parse_url path ≡ ok i
    → i.is_tarball ≡ true
    → NamesTarball i (split_on b'/' (trim is_slash path))
unfolding parse_url
parse_url-NamesTarball path i h t =
    let segments = split_on b'/' (trim is_slash path) in
    elim (Bool-cases (is_empty (trim is_slash path))) [
      | inl e ↦ absurd (ground arith)
      | inr e ↦ elim (Bool-cases (is_scoped_path segments)) [
        | inl s ↦ parse_scoped-NamesTarball segments i (rw (e, s) at h) t
        | inr u ↦ parse_unscoped-NamesTarball segments i (rw (e, u) at h) t
      ]
    ]
