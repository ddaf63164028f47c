-- ===== src/Registry/PypiUrl/Filenames.antt =====
-- Which package the name of a distribution stands for, by proxy/interceptors/pypi_url_parser.go.
use pmg.Prelude.Result.{ok}
use pmg.Prelude.Regex.{full_match}
use pmg.Prelude.{
  ℕ, ◌≡◌, refl, sym, ap, subst, inl, inr, ◌∙◌, ◌≢◌, true, false, Text, codes, is_empty, List, [],
  ◌∷◌, ◌++◌, append_assoc, append-nil, Lacks, All, has_suffix, has_suffix_sound, has_suffix-append,
  trim_suffix, trim_suffix-append, ◌==◌, ==_iff, ==_refl, cons_head, split_on, split_on-Lacks,
  split_on-join_with, join_with, Bool-cases, arith,
}
use pmg.Registry.PypiUrl.{
  denormalize, checked, parse_wheel_parts, parse_wheel_filename, without_extension,
  parse_sdist_filename, parse_filename,
}
use pmg.Registry.PypiUrl.Versions.{sdist_version, rev_onto, sdist_loop, extract_from_sdist}

rev_onto-append : (xs ys acc : List Text) → rev_onto (xs ++ ys) acc ≡ rev_onto ys (rev_onto xs acc)
unfolding rev_onto
rev_onto-append [] ys acc = refl
rev_onto-append (x ∷ xs) ys acc = rev_onto-append xs ys (x ∷ acc)

rev_onto_acc : (xs acc : List Text) → rev_onto xs acc ≡ rev_onto xs [] ++ acc
unfolding rev_onto
rev_onto_acc [] acc = refl
rev_onto_acc (x ∷ xs) acc =
    rev_onto_acc xs (x ∷ acc)
    ∙ sym (append_assoc (rev_onto xs []) (x ∷ []) acc)
    ∙ ap (λ r. r ++ acc) (sym (rev_onto_acc xs (x ∷ [])))

rev_onto-rev_onto : (xs acc : List Text) → rev_onto (rev_onto xs acc) [] ≡ rev_onto acc [] ++ xs
unfolding rev_onto
rev_onto-rev_onto [] acc = sym (append-nil (rev_onto acc []))
rev_onto-rev_onto (x ∷ xs) acc =
    rev_onto-rev_onto xs (x ∷ acc)
    ∙ ap (λ r. r ++ xs) (rev_onto_acc acc (x ∷ []))
    ∙ append_assoc (rev_onto acc []) (x ∷ []) xs

split_on-cons : (c : ℕ) (s : Text) → (p : Text) × (ps : List Text) × (split_on c s ≡ p ∷ ps)
unfolding split_on
split_on-cons c [] = ([], [], refl)
split_on-cons c (d ∷ s) = elim (Bool-cases (d == c)) [
  | inl e ↦ ([], split_on c s, rw e refl)
  | inr e ↦ let (p, ps, h) = split_on-cons c s in (d ∷ p, ps, rw (e, h) refl)
]

join_with-cons_head :
    (c d : ℕ) (p : Text) (ps : List Text)
    → join_with c (cons_head d (p ∷ ps)) ≡ d ∷ join_with c (p ∷ ps)
unfolding join_with
join_with-cons_head c d p [] = refl
join_with-cons_head c d p (q ∷ ps) = refl

join_with-nil :
    (c : ℕ) (p : Text) (ps : List Text) → join_with c ([] ∷ p ∷ ps) ≡ c ∷ join_with c (p ∷ ps)
unfolding join_with
join_with-nil c p ps = refl

-- The parts of a text, joined again.
join_with-split_on : (c : ℕ) (s : Text) → join_with c (split_on c s) ≡ s
unfolding split_on join_with
join_with-split_on c [] = refl
join_with-split_on c (d ∷ s) =
    let (p, ps, h) = split_on-cons c s in
    let again : join_with c (p ∷ ps) ≡ s = ap (join_with c) (sym h) ∙ join_with-split_on c s in
    elim (Bool-cases (d == c)) [
      | inl e ↦ rw (e, h) (ap (λ r. c ∷ r) again ∙ ap (λ k. k ∷ s) (sym ((==_iff d c).0 e)))
      | inr e ↦ rw (e, h) (join_with-cons_head c d p ps ∙ ap (λ r. d ∷ r) again)
    ]

-- A text whose last part lacks the separator.
split_on-last : (c : ℕ) (a b : Text) → Lacks c b → split_on c (a ++ c ∷ b) ≡ split_on c a ++ b ∷ []
unfolding split_on
split_on-last c [] b h = rw (==_refl c, split_on-Lacks c b h) refl
split_on-last c (d ∷ a) b h =
    let (p, ps, k) = split_on-cons c a in
    elim (Bool-cases (d == c)) [
      | inl e ↦ rw e (ap (λ r. [] ∷ r) (split_on-last c a b h))
      | inr e ↦ rw (e, split_on-last c a b h, k) refl
    ]

is_empty-rev_onto : (xs acc : List Text) (y : Text) → is_empty (rev_onto xs (y ∷ acc)) ≡ false
unfolding rev_onto
is_empty-rev_onto [] acc y = refl
is_empty-rev_onto (x ∷ xs) acc y = is_empty-rev_onto xs (y ∷ acc) x

split_on-is_empty : (c : ℕ) (s : Text) → is_empty (rev_onto (split_on c s) []) ≡ false
unfolding rev_onto
split_on-is_empty c s = let (p, ps, h) = split_on-cons c s in rw h (is_empty-rev_onto ps [] p)

-- The loop stops at once where the last part is a version.
sdist_loop-first :
    (version : Text) (before : List Text)
    → is_empty before ≡ false
    → full_match sdist_version version ≡ true
    → sdist_loop (version ∷ before) [] ≡ (join_with b'-' (rev_onto before []), version)
unfolding sdist_loop join_with
sdist_loop-first version [] n m = cc
sdist_loop-first version (p ∷ ps) n m = rw m refl

extract-name_version :
    (name version : Text)
    → Lacks b'-' version
    → full_match sdist_version version ≡ true
    → extract_from_sdist (name ++ b'-' ∷ version) ≡ (name, version)
unfolding extract_from_sdist
extract-name_version name version h m =
    ap (λ parts. sdist_loop (rev_onto parts []) []) (split_on-last b'-' name version h)
    ∙ ap (λ parts. sdist_loop parts []) (rev_onto-append (split_on b'-' name) (version ∷ []) [])
    ∙ sdist_loop-first version (rev_onto (split_on b'-' name) []) (split_on-is_empty b'-' name) m
    ∙ ap (λ n. (join_with b'-' n, version)) (rev_onto-rev_onto (split_on b'-' name) [])
    ∙ ap (λ n. (n, version)) (join_with-split_on b'-' name)

last_code : Text → ℕ
last_code [] = 0
last_code (c ∷ []) = c
last_code (c ∷ d ∷ s) = last_code (d ∷ s)

last_code_lem : (u : Text) (c : ℕ) → last_code (u ++ c ∷ []) ≡ c
unfolding last_code
last_code_lem [] c = refl
last_code_lem (d ∷ []) c = refl
last_code_lem (d ∷ e ∷ u) c = last_code_lem (e ∷ u) c

-- Texts that end in different code points.
has_suffix_other : (u v : Text) (c d : ℕ) → c ≢ d → has_suffix (u ++ c ∷ []) (v ++ d ∷ []) ≡ false
has_suffix_other u v c d n = elim (Bool-cases (has_suffix (u ++ c ∷ []) (v ++ d ∷ []))) [
  | inr e ↦ e
  | inl e ↦
      let w = trim_suffix (u ++ c ∷ []) (v ++ d ∷ []) in
      absurd (
        n (
          sym (last_code_lem u c)
          ∙ ap last_code (has_suffix_sound (u ++ c ∷ []) (v ++ d ∷ []) e)
          ∙ ap last_code (sym (append_assoc w v (d ∷ [])))
          ∙ last_code_lem (w ++ v) d))
]

module _ (lower_beyond : ℕ → ℕ) where
  parse_sdist-tar_gz :
      (s : Text)
      → parse_filename lower_beyond (s ++ codes ".tar.gz")
        ≡ checked lower_beyond (codes "sdist") (extract_from_sdist s)
  unfolding parse_filename parse_sdist_filename without_extension
  parse_sdist-tar_gz s =
      let e : has_suffix (s ++ codes ".tar.gz") (codes ".whl") ≡ false =
        subst (λ t. has_suffix t (codes ".whl") ≡ false)
          (append_assoc s (codes ".tar.g") (codes "z"))
          (has_suffix_other (s ++ codes ".tar.g") (codes ".wh") b'z' b'l' (omega arith)) in
      rw (e, has_suffix-append s (codes ".tar.gz"), trim_suffix-append s (codes ".tar.gz")) refl

  -- The name `{name}-{version}.tar.gz` of a source distribution is read back as the package, under
  -- its normalized name, and the version, where neither is empty and the version is one by the
  -- pattern and holds no hyphen; the name may hold hyphens.
  pub parse_filename-sdist :
      (name version : Text)
      → is_empty name ≡ false
      → is_empty version ≡ false
      → Lacks b'-' version
      → full_match sdist_version version ≡ true
      → parse_filename lower_beyond ((name ++ b'-' ∷ version) ++ codes ".tar.gz")
        ≡ ok (record {
          name = denormalize lower_beyond name;
          version = version;
          is_download = true;
          file_type = codes "sdist";
        })
  parse_filename-sdist name version n v h m =
      parse_sdist-tar_gz (name ++ b'-' ∷ version)
      ∙ ap (checked lower_beyond (codes "sdist")) (extract-name_version name version h m)
      ∙ rw (n, v) refl

  -- The name `{name}-{version}-{python}-{abi}-{platform}.whl` of a wheel is read back as the package,
  -- under its normalized name, and the version, where none of the five parts holds a hyphen.
  pub parse_filename-wheel :
      (name version python abi platform : Text)
      → All (Lacks b'-') (name ∷ version ∷ python ∷ abi ∷ platform ∷ [])
      → parse_filename lower_beyond
          (join_with b'-' (name ∷ version ∷ python ∷ abi ∷ platform ∷ []) ++ codes ".whl")
        ≡ ok (record {
          name = denormalize lower_beyond name;
          version = version;
          is_download = true;
          file_type = codes "wheel";
        })
  unfolding parse_filename parse_wheel_filename parse_wheel_parts
  parse_filename-wheel name version python abi platform (h, hs) =
      let parts = version ∷ python ∷ abi ∷ platform ∷ [] in
      let s = join_with b'-' (name ∷ parts) in
      rw
        (
          has_suffix-append s (codes ".whl"),
          trim_suffix-append s (codes ".whl"),
          split_on-join_with b'-' name parts h hs,
        )
        refl
