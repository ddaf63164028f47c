-- ===== src/Registry/NpmUrl/Roundtrips.antt =====
-- The paths of tarballs, read back by `ParseURL` of proxy/interceptors/npm_url_parser.go.
use pmg.Prelude.Result.{ok}
use pmg.Prelude.{
  ℕ, ◌≡◌, refl, ◌∙◌, ap, ◌≢◌, inl, true, false, Text, codes, [], ◌∷◌, ◌++◌, Lacks, All-append,
  strip_prefix, has_prefix-append, trim_prefix-append, join_with, has_prefix, arith, append_assoc,
}
use pmg.Registry.NpmUrl.{tgz, full_name, info, parse_scoped, parse_unscoped, parse_url}
use pmg.Registry.NpmUrl.Tarball.{scoped_prefix, extract_version_iff, extract_version_scoped_iff}
use pmg.Registry.NpmUrl.Paths.{parse_url-segments}

-- The file name of a package's tarball.
abbrev pub tarball_name : Text → Text → Text
tarball_name p v = (p ++ codes "-") ++ (v ++ tgz)

tarball_name-Lacks : (p v : Text) → Lacks b'/' p → Lacks b'/' v → Lacks b'/' (tarball_name p v)
tarball_name-Lacks p v hp hv =
    All-append _ (p ++ codes "-") (v ++ tgz) (All-append _ p (codes "-") hp (omega arith))
      (All-append _ v tgz hv (omega arith))

-- A path that ends in a tarball's name ends in `z`.
ends_in_z :
    (a p v : Text)
    → a ++ tarball_name p v ≡ (a ++ ((p ++ codes "-") ++ (v ++ codes ".tg"))) ++ b'z' ∷ []
ends_in_z a p v = simp append_assoc

join_with-three :
    (a b c : Text) → join_with b'/' (a ∷ b ∷ c ∷ []) ≡ (a ++ b'/' ∷ (b ++ b'/' ∷ [])) ++ c
unfolding join_with
join_with-three a b c = simp append_assoc

join_with-four :
    (a b c d : Text)
    → join_with b'/' (a ∷ b ∷ c ∷ d ∷ []) ≡ (a ++ b'/' ∷ (b ++ b'/' ∷ (c ++ b'/' ∷ []))) ++ d
unfolding join_with
join_with-four a b c d = simp append_assoc

parse_unscoped-tarball :
    (p v : Text)
    → v ≢ []
    → parse_unscoped (p ∷ codes "-" ∷ tarball_name p v ∷ []) ≡ ok (info p v true false)
unfolding parse_unscoped
parse_unscoped-tarball p v ne = rw ((extract_version_iff p (tarball_name p v) v).1 (refl, ne))

not_scoped : (c : ℕ) (n : Text) → c ≢ b'@' → has_prefix (c ∷ n) (codes "@") ≡ false
unfolding strip_prefix
not_scoped c n h = ground arith

-- The path of the tarball of an unscoped package with a name that is not empty, holds no slash and
-- does not begin with `@`, at a version that is not empty and holds no slash, is read back as that
-- package and version.
pub parse_url-unscoped_tarball :
    (c : ℕ) (n v : Text)
    → Lacks b'/' (c ∷ n)
    → c ≢ b'@'
    → Lacks b'/' v
    → v ≢ []
    → parse_url (b'/' ∷ join_with b'/' ((c ∷ n) ∷ codes "-" ∷ tarball_name (c ∷ n) v ∷ []))
      ≡ ok (record { name = c ∷ n; version = v; is_tarball = true; is_scoped = false })
parse_url-unscoped_tarball c n v hn hc hv ne =
    let t = tarball_name (c ∷ n) v in
    let e =
      join_with-three (c ∷ n) (codes "-") t
      ∙ ends_in_z ((c ∷ n) ++ b'/' ∷ (codes "-" ++ b'/' ∷ [])) (c ∷ n) v in
    let u =
      ((c ∷ n) ++ b'/' ∷ (codes "-" ++ b'/' ∷ []))
      ++ (((c ∷ n) ++ codes "-") ++ (v ++ codes ".tg")) in
    parse_url-segments c b'z' n u (codes "-" ∷ t ∷ []) hn
      (omega arith, (tarball_name-Lacks (c ∷ n) v hn hv, tt)) e (omega arith)
    ∙ rw (not_scoped c n hc) (parse_unscoped-tarball (c ∷ n) v ne)

parse_scoped-tarball :
    (scope p v : Text)
    → v ≢ []
    → parse_scoped (scope ∷ p ∷ codes "-" ∷ tarball_name (scoped_prefix scope p) v ∷ [])
      ≡ ok (info (full_name scope p) v true true)
unfolding parse_scoped
parse_scoped-tarball scope p v ne = rw (
    (extract_version_scoped_iff scope p (tarball_name (scoped_prefix scope p) v) v).1
      (inl (refl, ne)))

scoped_prefix-at : (s p : Text) → scoped_prefix (b'@' ∷ s) p ≡ s ++ codes "-" ++ p
scoped_prefix-at s p = ap (λ u. u ++ codes "-" ++ p) (trim_prefix-append (codes "@") s)

scoped_prefix-Lacks :
    (s p : Text) → Lacks b'/' s → Lacks b'/' p → Lacks b'/' (scoped_prefix (b'@' ∷ s) p)
scoped_prefix-Lacks s p hs hp =
    rw (scoped_prefix-at s p)
      (All-append _ (s ++ codes "-") p (All-append _ s (codes "-") hs (omega arith)) hp)

-- The path of the tarball of a scoped package `@{scope}/{package}`, whose file is named after both,
-- at a version that is not empty, where none of the three holds a slash, is read back as that
-- package and version.
pub parse_url-scoped_tarball :
    (s p v : Text)
    → Lacks b'/' s
    → Lacks b'/' p
    → Lacks b'/' v
    → v ≢ []
    → parse_url (
        b'/'
        ∷ join_with b'/'
            ((b'@' ∷ s) ∷ p ∷ codes "-" ∷ tarball_name (scoped_prefix (b'@' ∷ s) p) v ∷ []))
      ≡ ok (record {
        name = (b'@' ∷ s) ++ codes "/" ++ p;
        version = v;
        is_tarball = true;
        is_scoped = true;
      })
parse_url-scoped_tarball s p v hs hp hv ne =
    let q = scoped_prefix (b'@' ∷ s) p in
    let t = tarball_name q v in
    let a = (b'@' ∷ s) ++ b'/' ∷ (p ++ b'/' ∷ (codes "-" ++ b'/' ∷ [])) in
    let e = join_with-four (b'@' ∷ s) p (codes "-") t ∙ ends_in_z a q v in
    let u = a ++ ((q ++ codes "-") ++ (v ++ codes ".tg")) in
    parse_url-segments b'@' b'z' s u (p ∷ codes "-" ∷ t ∷ []) (omega arith, hs)
      (hp, (omega arith, (tarball_name-Lacks q v (scoped_prefix-Lacks s p hs hp) hv, tt))) e
      (omega arith)
    ∙ rw (has_prefix-append (codes "@") s) (parse_scoped-tarball (b'@' ∷ s) p v ne)
