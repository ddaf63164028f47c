-- ===== src/Platform/Seatbelt/Granted.antt =====
-- What the profile of sandbox/platform/seatbelt_translator_darwin.go lets a program write.
use pmg.Prelude.{
  ◌≡◌, refl, sym, ap, ◌⊎◌, has_prefix, arith, trim_prefix, has_prefix_sound, not, ◌==◌, ◌∙◌, subst,
  Bool, true, false, ◌&&◌, ◌||◌, some, or_else, Text, codes, ◌=ₜ◌, strip_prefix, strip_suffix,
  is_empty, has_suffix, trim_suffix, any, any-append, map, List, [], ◌∷◌, ◌++◌, if◌then◌else◌,
  Bool-cases, inl, inr,
}
use pmg.Prelude.Regex.{Regex, one_of, seq, full_match, literal, maybe, some_of}
use pmg.Sandbox.{SandboxPolicy}
use pmg.SandboxUtil.{Env, contains_glob}
use pmg.SandboxUtil.GlobRegex.{glob_to_regex}
use pmg.Platform.Bubblewrap.Mounts.{covers}
use pmg.Platform.Seatbelt.{
  Filter, subpath, ProfileRule, allow_rule, both_versions, get_tmpdir_parent,
}
use pmg.Platform.Seatbelt.Essential.{essential}
use pmg.Platform.Seatbelt.Verdicts.{Kernel, filter_matches, permits, grants, verdict-grants}
use pmg.Platform.Seatbelt.Translator.{
  SeatbeltPolicyTranslator, Expanded, pattern_filter, parent_dir_if_needed, allow_pattern,
  allow_patterns, expand_each, expand_policy, temp_rules, seatbelt_denials, seatbelt_filesystem,
  seatbelt_network, seatbelt_process, pty_rules, profile, seatbelt_translate,
}
use pmg.Platform.Seatbelt.Denials.{OnlyDenies-grants, OnlyDenies-denials}
use pmg.Platform.Seatbelt.Denied.{is_pty, network-grants, process-grants, translated_profile}
use pmg.Platform.Seatbelt.Expansion.{expand_policy-some}

-- The directory itself, of a pattern for all that is in it.
abbrev pub is_parent : Text → Text → Bool
is_parent q e =
    has_suffix e (codes "/**")
    && q
      =ₜ (if is_empty (trim_suffix e (codes "/**")) then codes "/" else trim_suffix e (codes "/**"))

abbrev temp_dirs : Text → List Text → List Text
temp_dirs tmpdir ps = if is_empty ps then [] else get_tmpdir_parent tmpdir

-- The temporary directories of macOS: `/var/folders`, two characters, and a name, with `/T` last.
abbrev no_slash : Regex
no_slash = one_of (λ c. not (c == 47))

abbrev pub user_temp : Regex
user_temp = seq (literal (codes "/")) (
    seq (maybe (literal (codes "private/"))) (
      seq (literal (codes "var/folders/")) (
        seq (seq no_slash no_slash) (
          seq (literal (codes "/"))
            (seq (some_of no_slash) (seq (literal (codes "/T")) (maybe (literal (codes "/")))))))))

-- The directory itself, or the other one of the two that macOS links, with and without `/private`.
abbrev pub IsVersion : Text → Text → Type 0
IsVersion d base = (d ≡ base) ⊎ ((d ≡ codes "/private" ++ base) ⊎ (base ≡ codes "/private" ++ d))

-- A path below the parent of a temporary directory of macOS.
abbrev pub InTemp : Text → Text → Type 0
InTemp tmpdir q =
    (d : Text) × (full_match user_temp tmpdir ≡ true)
    × IsVersion d (trim_suffix (trim_suffix tmpdir (codes "/")) (codes "/T"))
    × (covers d q ≡ true)

both_versions-IsVersion :
    (base q : Text)
    → any (λ d. covers d q) (both_versions base) ≡ true
    → (d : Text) × IsVersion d base × (covers d q ≡ true)
unfolding strip_prefix
both_versions-IsVersion base q h = elim (Bool-cases (covers base q)) [
  | inl e ↦ (base, inl refl, e)
  | inr e ↦ elim (Bool-cases (has_prefix base (codes "/private/var/"))) [
    | inl f ↦ (
      trim_prefix base (codes "/private"),
      inr (
          inr (
            has_prefix_sound base (codes "/private") (
              subst (λ z. has_prefix z (codes "/private") ≡ true)
                (sym (has_prefix_sound base (codes "/private/var/") f)) refl))),
      ground (arith, h, e, f),
    )
    | inr f ↦ elim (Bool-cases (has_prefix base (codes "/var/"))) [
      | inl g ↦ (codes "/private" ++ base, inr (inl refl), ground (arith, h, e, f, g))
      | inr g ↦ ground (arith, h, e, f, g)
    ]
  ]
]

temp_dirs-InTemp :
    (tmpdir : Text) (ps : List Text) (q : Text)
    → any (λ d. covers d q) (temp_dirs tmpdir ps) ≡ true
    → (is_empty ps ≡ false) × InTemp tmpdir q
unfolding get_tmpdir_parent
temp_dirs-InTemp tmpdir ps q h = elim (Bool-cases (is_empty ps)) [
  | inl e ↦ ground (arith, h, e)
  | inr e ↦ elim (Bool-cases (is_empty tmpdir || not (full_match user_temp tmpdir))) [
    | inl f ↦ ground (arith, h, e, f)
    | inr f ↦
        let base = trim_suffix (trim_suffix tmpdir (codes "/")) (codes "/T") in
        let same : temp_dirs tmpdir ps ≡ both_versions base = rw (e, f) refl in
        let (d, v, c) =
          both_versions-IsVersion base q (subst (λ l. any (λ d. covers d q) l ≡ true) same h) in
        (e, (d, ground (arith, f), v, c))
  ]
]

-- `more` is what follows `file-write` in the operation.
module _ (k : Kernel) (q more : Text) where
  abbrev pub is_null : Bool
  is_null = codes "-data" =ₜ more && (q =ₜ codes "/dev/null" && k.is_char_device q)

  abbrev pub is_allowed : Text → Bool
  is_allowed e =
      (contains_glob e && is_parent q e)
      || (if contains_glob e then k.matches_regex (glob_to_regex e) q else covers e q)

  pattern_filter-matches :
      (e : Text)
      → filter_matches k q (pattern_filter e)
        ≡ (if contains_glob e then k.matches_regex (glob_to_regex e) q else covers e q)
  pattern_filter-matches e = elim (Bool-cases (contains_glob e)) [
    | inl g ↦ rw g refl
    | inr g ↦ rw g refl
  ]

  -- The terminals, if they are asked for.
  abbrev pub is_terminal : Bool → Bool
  is_terminal asked =
      asked && (q =ₜ codes "/dev/ptmx" || (k.matches_regex (codes "^/dev/ttys") q || false))

  -- What the rules for these expanded patterns allow.
  abbrev may_write : Text → SandboxPolicy → List Text → Bool
  may_write tmpdir p es =
      is_null
      || (any (λ d. covers d q) (temp_dirs tmpdir p.filesystem.allow_write)
          || (any is_allowed es || is_pty k q (or_else p.allow_pty false)))

  abbrev write_op : Text
  write_op = codes "file-write" ++ more

  joined :
      (xs ys : List ProfileRule) (a b : Bool)
      → any (grants k write_op q) xs ≡ a
      → any (grants k write_op q) ys ≡ b
      → any (grants k write_op q) (xs ++ ys) ≡ (a || b)
  joined xs ys a b f g = any-append (grants k write_op q) xs ys ∙ rw (f, g) refl

  or_false : (a : Bool) → (a || false) ≡ a
  or_false true = refl
  or_false false = refl

  or_assoc : (a b c : Bool) → ((a || b) || c) ≡ (a || (b || c))
  or_assoc true b c = refl
  or_assoc false b c = refl

  once : (a : Bool) → (((a || false) && true)) ≡ a
  once true = refl
  once false = refl

  once_more : (a : Bool) → ((a && true) || false) ≡ a
  once_more true = refl
  once_more false = refl

  null_shape : (a b : Bool) → ((((a || false) && (b || false)) && true) || false) ≡ (a && b)
  null_shape true true = refl
  null_shape true false = refl
  null_shape false b = refl

  -- The rules of one pattern.
  abbrev shape : Text → Bool → Bool → Filter → Filter → List ProfileRule
  shape op g s f1 f2 =
      (if g then (if s then allow_rule op (f1 ∷ []) ∷ [] else []) else [])
      ++ allow_rule op (f2 ∷ []) ∷ []

  reads_shape :
      (g s : Bool) (f1 f2 : Filter)
      → any (grants k write_op q) (shape (codes "file-read*") g s f1 f2) ≡ false
  unfolding strip_prefix strip_suffix
  reads_shape true true f1 f2 = refl
  reads_shape true false f1 f2 = refl
  reads_shape false s f1 f2 = refl

  two : (a b : Bool) → (((a || false) && true) || (((b || false) && true) || false)) ≡ (a || b)
  two true b = refl
  two false true = refl
  two false false = refl

  writes_shape :
      (g s : Bool) (f1 f2 : Filter)
      → any (grants k write_op q) (shape (codes "file-write*") g s f1 f2)
        ≡ ((g && (s && filter_matches k q f1)) || filter_matches k q f2)
  unfolding strip_prefix strip_suffix
  writes_shape true true f1 f2 = two _ _
  writes_shape true false f1 f2 = two false _
  writes_shape false s f1 f2 = two false _

  essential-grants : any (grants k write_op q) essential ≡ is_null
  unfolding strip_prefix strip_suffix
  essential-grants =
      null_shape (codes "-data" =ₜ more) (q =ₜ codes "/dev/null" && k.is_char_device q)

  reads-grants :
      (es : List Text) → any (grants k write_op q) (allow_patterns (codes "file-read*") es) ≡ false
  unfolding allow_patterns parent_dir_if_needed strip_prefix strip_suffix
  reads-grants [] = refl
  reads-grants (e ∷ es) =
      any-append (grants k write_op q) (allow_pattern (codes "file-read*") e) _
      ∙ rw
          (
            reads_shape (contains_glob e) (has_suffix e (codes "/**")) _ (pattern_filter e),
            reads-grants es,
          )
          refl

  temp-grants :
      (ds : List Text)
      → any (grants k write_op q) (map (λ d. allow_rule (codes "file-write*") (subpath d ∷ [])) ds)
        ≡ any (λ d. covers d q) ds
  unfolding strip_prefix strip_suffix
  temp-grants [] = refl
  temp-grants (d ∷ ds) =
      rw (temp-grants ds) (ap (λ b. b || any (λ d. covers d q) ds) (once (covers d q)))

  pattern-grants :
      (e : Text) → any (grants k write_op q) (allow_pattern (codes "file-write*") e) ≡ is_allowed e
  unfolding parent_dir_if_needed strip_prefix strip_suffix
  pattern-grants e =
      writes_shape (contains_glob e) (has_suffix e (codes "/**")) _ (pattern_filter e)
      ∙ ap (λ b. (contains_glob e && is_parent q e) || b) (pattern_filter-matches e)

  writes-grants :
      (es : List Text)
      → any (grants k write_op q) (allow_patterns (codes "file-write*") es) ≡ any is_allowed es
  unfolding allow_patterns
  writes-grants [] = refl
  writes-grants (e ∷ es) =
      any-append (grants k write_op q) (allow_pattern (codes "file-write*") e) _
      ∙ rw (pattern-grants e, writes-grants es) refl

  terminals-grants :
      (b : Bool) → any (grants k write_op q) (if b then pty_rules else []) ≡ is_pty k q b
  unfolding strip_prefix strip_suffix
  terminals-grants false = refl
  terminals-grants true = once_more (is_pty k q true)

  temps-grants :
      (tmpdir : Text) (p : SandboxPolicy)
      → any (grants k write_op q) (temp_rules tmpdir p)
        ≡ any (λ d. covers d q) (temp_dirs tmpdir p.filesystem.allow_write)
  temps-grants tmpdir p = elim (Bool-cases (is_empty p.filesystem.allow_write)) [
    | inl e ↦ rw e refl
    | inr e ↦ rw e (temp-grants (get_tmpdir_parent tmpdir))
  ]

  filesystem-grants :
      (t : SeatbeltPolicyTranslator) (tmpdir : Text) (p : SandboxPolicy) (x : Expanded)
      → any (grants k write_op q) (seatbelt_filesystem t tmpdir p x) ≡ (
          any (λ d. covers d q) (temp_dirs tmpdir p.filesystem.allow_write)
          || any is_allowed x.allow_write)
  unfolding seatbelt_filesystem
  filesystem-grants t tmpdir p x =
      joined (allow_patterns (codes "file-read*") x.allow_read) _ false _
        (reads-grants x.allow_read)
        (joined (temp_rules tmpdir p) _ _ _ (temps-grants tmpdir p) (
          joined (allow_patterns (codes "file-write*") x.allow_write) (seatbelt_denials t x) _ false
            (writes-grants x.allow_write) (OnlyDenies-grants k q write_op (OnlyDenies-denials t x))
          ∙ or_false _))

  profile-grants :
      (t : SeatbeltPolicyTranslator) (tmpdir : Text) (p : SandboxPolicy) (x : Expanded)
      → any (grants k write_op q) (profile t tmpdir p x) ≡ may_write tmpdir p x.allow_write
  unfolding profile
  profile-grants t tmpdir p x =
      let ptty = if or_else p.allow_pty false then pty_rules else [] in
      let proc = seatbelt_process x ++ ptty in
      let net = seatbelt_network p ++ proc in
      let temps = any (λ d. covers d q) (temp_dirs tmpdir p.filesystem.allow_write) in
      let rest =
        joined (seatbelt_network p) proc false _ (network-grants k q (codes "write" ++ more) p) (
          joined (seatbelt_process x) ptty false _ (process-grants k q (codes "write" ++ more) x)
            (terminals-grants (or_else p.allow_pty false))) in
      joined essential (seatbelt_filesystem t tmpdir p x ++ net) _ _ essential-grants (
        joined (seatbelt_filesystem t tmpdir p x) net _ _ (filesystem-grants t tmpdir p x) rest
        ∙ or_assoc temps (any is_allowed x.allow_write) (is_pty k q (or_else p.allow_pty false)))

  may_write-cases :
      (tmpdir : Text) (p : SandboxPolicy) (es : List Text)
      → may_write tmpdir p es ≡ true
      → (is_null ≡ true)
        ⊎ (((is_empty p.filesystem.allow_write ≡ false) × InTemp tmpdir q)
            ⊎ ((any is_allowed es ≡ true) ⊎ (is_terminal (or_else p.allow_pty false) ≡ true)))
  may_write-cases tmpdir p es h = elim (Bool-cases is_null) [
    | inl a ↦ inl a
    | inr a ↦
        elim (Bool-cases (any (λ d. covers d q) (temp_dirs tmpdir p.filesystem.allow_write))) [
          | inl b ↦ inr (inl (temp_dirs-InTemp tmpdir p.filesystem.allow_write q b))
          | inr b ↦ elim (Bool-cases (any is_allowed es)) [
            | inl c ↦ inr (inr (inl c))
            | inr c ↦ inr (inr (inr (ground (arith, h, a, b, c))))
          ]
        ]
  ]

  -- What a returned profile permits to be written is the null device's data; or, where allow_write
  -- has an entry, lies at or below the parent of a TMPDIR of the form /var/folders/XX/YYY/T (or
  -- /private/var/...), with or without /private in front; or is matched by an expanded entry of
  -- allow_write (as a path with all below it or, with a wildcard, as a regular expression), or is
  -- the directory of one that ends with `/**`; or is a terminal that the policy asks for.
  pub seatbelt_translate-permitted_write :
      (t : SeatbeltPolicyTranslator) (env : Env) (tmpdir : Text) (p : SandboxPolicy)
      (rs : List ProfileRule)
      → seatbelt_translate t env tmpdir p ≡ some rs
      → permits k (codes "file-write" ++ more) q rs ≡ true
      → (es : List Text) × (expand_each env p.filesystem.allow_write ≡ some es)
        × ((is_null ≡ true)
            ⊎ (((is_empty p.filesystem.allow_write ≡ false) × InTemp tmpdir q)
                ⊎ ((any is_allowed es ≡ true) ⊎ (is_terminal (or_else p.allow_pty false) ≡ true))))
  unfolding seatbelt_translate
  seatbelt_translate-permitted_write t env tmpdir p rs h g =
      let (x, hx, same) = translated_profile k q t tmpdir p (expand_policy t env p) rs h in
      (
        x.allow_write,
        (expand_policy-some t env p x hx).0,
        may_write-cases tmpdir p x.allow_write (
            sym (profile-grants t tmpdir p x)
            ∙ verdict-grants k write_op q false (profile t tmpdir p x)
                (subst (λ l. permits k write_op q l ≡ true) same g)),
      )
