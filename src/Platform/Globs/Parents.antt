-- ===== src/Platform/Globs/Parents.antt =====
-- sandbox/platform/glob_linux.go: the directory that stands for a pattern has no wildcard.
use pmg.Prelude.{
  ℕ, ◌≡◌, refl, false, ◌||◌, Option, none, some, Text, codes, ◌=ₜ◌, [], ◌∷◌, is_empty,
  contains_code, strip_suffix, trim_suffix, strip_suffix_sound, Lacks, subst, arith, Bool-cases,
  Option-cases, inl, inr,
}
use pmg.Paths.Contents.{Lacks-before, Lacks-dir}
use pmg.SandboxUtil.{contains_glob}
use pmg.Platform.Globs.{before_wildcard, dir_or, cut_wildcards, or_dot, extract_glob_parent_dir}

-- No byte of the text is a wildcard.
abbrev IsPlain : Text → Type 0
IsPlain s = Lacks 42 s × Lacks 63 s × Lacks 91 s

contains_code-Lacks : (c : ℕ) (s : Text) → Lacks c s → contains_code s c ≡ false
unfolding contains_code
contains_code-Lacks c [] l = refl
contains_code-Lacks c (d ∷ s) l = ground (arith, l.0, contains_code-Lacks c s l.1)

contains_glob-IsPlain : (s : Text) → IsPlain s → contains_glob s ≡ false
unfolding contains_glob
contains_glob-IsPlain s (a, b, c) =
    ground
      (arith, contains_code-Lacks 42 s a, contains_code-Lacks 63 s b, contains_code-Lacks 91 s c)

before_wildcard-none : (s : Text) → before_wildcard s ≡ none → IsPlain s
unfolding before_wildcard
before_wildcard-none [] h = (tt, tt, tt)
before_wildcard-none (c ∷ s) h = elim (Option-cases (before_wildcard s)) [
  | inl n ↦ ground (arith, before_wildcard-none s n)
  | inr (p, n) ↦ ground (arith, n)
]

before_wildcard-some : (s p : Text) → before_wildcard s ≡ some p → IsPlain p
unfolding before_wildcard
before_wildcard-some [] p h = cc
before_wildcard-some (c ∷ s) [] h = (tt, tt, tt)
before_wildcard-some (c ∷ s) (d ∷ p) h = elim (Option-cases (before_wildcard s)) [
  | inl n ↦ ground (arith, n)
  | inr (r, n) ↦ ground (arith, n, before_wildcard-some s r n)
]

trim_suffix-IsPlain : (s t : Text) → IsPlain s → IsPlain (trim_suffix s t)
trim_suffix-IsPlain s t l = elim (Option-cases (strip_suffix t s)) [
  | inl n ↦ rw n l
  | inr (v, m) ↦ rw m (
    Lacks-before 42 v t (subst (Lacks 42) (strip_suffix_sound t s v m) l.0),
    Lacks-before 63 v t (subst (Lacks 63) (strip_suffix_sound t s v m) l.1),
    Lacks-before 91 v t (subst (Lacks 91) (strip_suffix_sound t s v m) l.2),
  )
]

dir_or-IsPlain : (s : Text) (o : Option Text) → before_wildcard s ≡ o → IsPlain (dir_or s o)
dir_or-IsPlain s none m = before_wildcard-none s m
dir_or-IsPlain s (some p) m =
    let (a, b, c) = before_wildcard-some s p m in
    (
      Lacks-dir 42 (omega arith) (omega arith) p a,
      Lacks-dir 63 (omega arith) (omega arith) p b,
      Lacks-dir 91 (omega arith) (omega arith) p c,
    )

cut_wildcards-IsPlain : (s : Text) → IsPlain (cut_wildcards s)
cut_wildcards-IsPlain s = dir_or-IsPlain s (before_wildcard s) refl

or_dot-IsPlain : (s : Text) → IsPlain s → IsPlain (or_dot s)
or_dot-IsPlain s l = elim (Bool-cases (is_empty s || s =ₜ codes "/")) [
  | inl e ↦ rw e (omega arith)
  | inr e ↦ rw e l
]

pub extract_glob_parent_dir-plain :
    (pattern : Text) → contains_glob (extract_glob_parent_dir pattern) ≡ false
unfolding extract_glob_parent_dir
extract_glob_parent_dir-plain pattern = contains_glob-IsPlain _ (
    or_dot-IsPlain _ (
      trim_suffix-IsPlain _ (codes "/")
        (cut_wildcards-IsPlain (trim_suffix (trim_suffix pattern (codes "/**")) (codes "/*")))))
