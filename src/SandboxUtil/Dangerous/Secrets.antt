-- ===== src/SandboxUtil/Dangerous/Secrets.antt =====
-- sandbox/util/dangerous.go: which files of the working directory and of the home directory every
-- sandbox denies.
use pmg.Prelude.{
  ◌≡◌, refl, sym, ap, ◌∙◌, subst, inl, inr, Bool, true, false, ◌||◌, some, or_else, Text, codes,
  ◌=ₜ◌, text_eq_iff, text_eq_refl, is_empty, contains_text, any, All, none, List, [], ◌∷◌, ◌++◌,
  map, if◌then◌else◌, arith, Bool-cases,
}
use pmg.Paths.{clean, join_path}
use pmg.SandboxUtil.{Env}
use pmg.SandboxUtil.Dangerous.{
  MandatoryDenyOptions, dangerous_files, abs_loop, suppressible, files_loop, with_home, any_glob,
  git_hooks, working_dir, home_dir, named_in, globs_named, to_set, mandatory_deny_patterns,
}
use pmg.Registry.Cache.{Cache, lookup, insert}
use pmg.Registry.Cache.Laws.{lookup-insert}
use pmg.SandboxUtil.Dangerous.Opting.{mandatory_deny_patterns_lem}

-- The files and directories with credentials.
abbrev pub secret_files : List Text
secret_files =
    codes ".env"
    ∷ codes ".env.*"
    ∷ codes ".aws"
    ∷ codes ".azure"
    ∷ codes ".gcloud"
    ∷ codes ".config/gcloud"
    ∷ codes ".kube"
    ∷ codes ".ssh"
    ∷ codes ".gnupg"
    ∷ codes ".docker/config.json"
    ∷ codes ".netrc"
    ∷ codes ".git-credentials"
    ∷ codes ".pgpass"
    ∷ codes ".config/gh"
    ∷ []

-- The working directory, or the home directory.
pub data IsProtected (env : Env) : Text → Type 0 where
  of_work : {w : Text} → env.cwd ≡ some w → IsProtected env w
  of_home : {w : Text} → env.home ≡ some w → is_empty w ≡ false → IsProtected env w

contains-here : (x : Text) (xs : List Text) → contains_text (x ∷ xs) x ≡ true
unfolding contains_text
contains-here x xs = rw (text_eq_refl x) refl

contains-there :
    (x y : Text) (xs : List Text) → contains_text xs y ≡ true → contains_text (x ∷ xs) y ≡ true
unfolding contains_text
contains-there x y xs h = rw h (ground arith)

contains-left :
    (xs ys : List Text) (y : Text) → contains_text xs y ≡ true → contains_text (xs ++ ys) y ≡ true
unfolding contains_text
contains-left [] ys y h = cc h
contains-left (x ∷ xs) ys y h = ground (arith, h, contains-left xs ys y)

contains-right :
    (xs ys : List Text) (y : Text) → contains_text ys y ≡ true → contains_text (xs ++ ys) y ≡ true
contains-right [] ys y h = h
contains-right (x ∷ xs) ys y h = contains-there x y (xs ++ ys) (contains-right xs ys y h)

contains-map :
    (f : Text → Text) (xs : List Text) (y : Text)
    → contains_text xs y ≡ true
    → contains_text (map f xs) (f y) ≡ true
unfolding contains_text
contains-map f [] y h = cc h
contains-map f (x ∷ xs) y h = elim (Bool-cases (x =ₜ y)) [
  | inl e ↦
      subst (λ z. contains_text (f z ∷ map f xs) (f y) ≡ true) (sym ((text_eq_iff x y).0 e))
        (contains-here (f y) (map f xs))
  | inr e ↦ contains-there (f x) (f y) (map f xs) (contains-map f xs y (ground (arith, h, e)))
]

nothing_there : (y : Text) → contains_text [] y ≡ true → ⊥
unfolding contains_text
nothing_there y h = cc h

in_rest :
    (x : Text) (xs : List Text) (y : Text)
    → contains_text (x ∷ xs) y ≡ true
    → x =ₜ y ≡ false
    → contains_text xs y ≡ true
unfolding contains_text
in_rest x xs y h e = ground (arith, h, e)

-- The loop over the files makes a path of each, in both directories.
files_loop-work :
    (cwd home : Text) (fs : List Text) (f : Text)
    → contains_text fs f ≡ true
    → contains_text (files_loop cwd home fs) (join_path cwd f) ≡ true
unfolding files_loop
files_loop-work cwd home [] f h = absurd (nothing_there f h)
files_loop-work cwd home (g ∷ fs) f h = elim (Bool-cases (g =ₜ f)) [
  | inl e ↦
      subst (λ z. contains_text (files_loop cwd home (z ∷ fs)) (join_path cwd f) ≡ true)
        (sym ((text_eq_iff g f).0 e))
        (contains-here (join_path cwd f)
          (any_glob f ∷ (with_home home (join_path home f ∷ []) ++ files_loop cwd home fs)))
  | inr e ↦
      contains-there (join_path cwd g) (join_path cwd f)
        (any_glob g ∷ (with_home home (join_path home g ∷ []) ++ files_loop cwd home fs))
        (contains-there (any_glob g) (join_path cwd f)
          (with_home home (join_path home g ∷ []) ++ files_loop cwd home fs)
          (contains-right (with_home home (join_path home g ∷ [])) (files_loop cwd home fs)
            (join_path cwd f) (files_loop-work cwd home fs f (in_rest g fs f h e))))
]

files_loop-home :
    (cwd home : Text) (fs : List Text) (f : Text)
    → is_empty home ≡ false
    → contains_text fs f ≡ true
    → contains_text (files_loop cwd home fs) (join_path home f) ≡ true
unfolding files_loop
files_loop-home cwd home [] f n h = absurd (nothing_there f h)
files_loop-home cwd home (g ∷ fs) f n h =
    contains-there (join_path cwd g) (join_path home f)
      (any_glob g ∷ (with_home home (join_path home g ∷ []) ++ files_loop cwd home fs))
      (contains-there (any_glob g) (join_path home f)
        (with_home home (join_path home g ∷ []) ++ files_loop cwd home fs)
        (elim (Bool-cases (g =ₜ f)) [
          | inl e ↦
              contains-left (with_home home (join_path home g ∷ [])) (files_loop cwd home fs)
                (join_path home f)
                (rw n (
                  subst (λ z. contains_text (join_path home z ∷ []) (join_path home f) ≡ true)
                    (sym ((text_eq_iff g f).0 e)) (contains-here (join_path home f) [])))
          | inr e ↦
              contains-right (with_home home (join_path home g ∷ [])) (files_loop cwd home fs)
                (join_path home f) (files_loop-home cwd home fs f n (in_rest g fs f h e))
        ]))

module _ (env : Env) (w : Text) where
  candidate :
      (git : Bool) (f : Text)
      → IsProtected env w
      → contains_text secret_files f ≡ true
      → contains_text (map clean (suppressible env git)) (clean (join_path w f)) ≡ true
  unfolding suppressible
  candidate git f (of_work c) h = contains-map clean (suppressible env git) (join_path w f) (
      contains-left (files_loop (working_dir env) (home_dir env) dangerous_files) _ (join_path w f)
        (subst
          (λ d.
            contains_text (files_loop (or_else d (codes ".")) (home_dir env) dangerous_files)
              (join_path w f)
            ≡ true)
          (sym c) (files_loop-work w (home_dir env) secret_files f h)))
  candidate git f (of_home c n) h = contains-map clean (suppressible env git) (join_path w f) (
      contains-left (files_loop (working_dir env) (home_dir env) dangerous_files) _ (join_path w f)
        (subst
          (λ d.
            contains_text (files_loop (working_dir env) (or_else d []) dangerous_files)
              (join_path w f)
            ≡ true)
          (sym c) (files_loop-home (working_dir env) w secret_files f n h)))

  pub hooks-denied :
      IsProtected env w
      → contains_text (map clean (git_hooks env)) (clean (join_path w (codes ".git/hooks"))) ≡ true
  unfolding git_hooks
  hooks-denied (of_work c) =
      subst
        (λ d.
          contains_text (map clean (git_hooks (record env { cwd = d })))
            (clean (join_path w (codes ".git/hooks")))
          ≡ true)
        (sym c) (contains-here (clean (join_path w (codes ".git/hooks"))) _)
  hooks-denied (of_home c n) =
      contains-right
        (map clean (
          join_path (working_dir env) (codes ".git/hooks")
          ∷ join_path (working_dir env) (codes ".git/hooks/**")
          ∷ []))
        (map clean (
          with_home (home_dir env) (
            join_path (home_dir env) (codes ".git/hooks")
            ∷ join_path (home_dir env) (codes ".git/hooks/**")
            ∷ [])))
        (clean (join_path w (codes ".git/hooks")))
        (subst
          (λ d.
            contains_text
              (map clean (
                with_home (or_else d []) (
                  join_path (or_else d []) (codes ".git/hooks")
                  ∷ join_path (or_else d []) (codes ".git/hooks/**")
                  ∷ [])))
              (clean (join_path w (codes ".git/hooks")))
            ≡ true)
          (sym c) (rw n (contains-here (clean (join_path w (codes ".git/hooks"))) _)))

  -- One of the files, in one of the two directories.
  abbrev pub is_secret_in : List Text → Text → Bool
  is_secret_in fs p =
      any
        (λ f. clean (join_path (working_dir env) f) =ₜ p || clean (join_path (home_dir env) f) =ₜ p)
        fs

  abbrev pub is_secret : Text → Bool
  is_secret p = is_secret_in secret_files p

  or_right : (b : Bool) → (b || true) ≡ true
  or_right true = refl
  or_right false = refl

  true-false : true ≡ false → ⊥
  true-false h = cc h

  its_dir :
      (f : Text)
      → IsProtected env w
      → (clean (join_path (working_dir env) f) =ₜ clean (join_path w f)
          || clean (join_path (home_dir env) f) =ₜ clean (join_path w f))
        ≡ true
  its_dir f (of_work c) = rw (c, text_eq_refl (clean (join_path w f))) refl
  its_dir f (of_home c n) = rw (c, text_eq_refl (clean (join_path w f))) (or_right _)

  rest_false : (a b c : Bool) → ((a || b) || c) ≡ false → c ≡ false
  rest_false a b c h = ground (arith, h)

  first_false : (a b c : Bool) → ((a || b) || c) ≡ false → a ≡ false
  first_false a b c h = ground (arith, h)

  second_false : (a b c : Bool) → ((a || b) || c) ≡ false → b ≡ false
  second_false a b c h = ground (arith, h)

  two_inserts :
      (p k k' f : Text) (m : Cache Text) (b : Bool)
      → k =ₜ p ≡ false
      → k' =ₜ p ≡ false
      → lookup p (if b then insert k f m else insert k' f (insert k f m)) ≡ lookup p m
  two_inserts p k k' f m true h h' = lookup-insert p k f m ∙ rw h refl
  two_inserts p k k' f m false h h' =
      lookup-insert p k' f (insert k f m) ∙ rw h' (lookup-insert p k f m ∙ rw h refl)

  lookup-abs_loop :
      (p : Text) (fs : List Text) (m : Cache Text)
      → is_secret_in fs p ≡ false
      → lookup p (abs_loop (working_dir env) (home_dir env) fs m) ≡ lookup p m
  unfolding abs_loop
  lookup-abs_loop p [] m h = refl
  lookup-abs_loop p (f ∷ fs) m h =
      let k = clean (join_path (working_dir env) f) in
      let k' = clean (join_path (home_dir env) f) in
      lookup-abs_loop p fs
        (if is_empty (home_dir env) then insert k f m else insert k' f (insert k f m))
        (rest_false (k =ₜ p) (k' =ₜ p) _ h)
      ∙ two_inserts p k k' f m (is_empty (home_dir env)) (first_false (k =ₜ p) (k' =ₜ p) _ h)
          (second_false (k =ₜ p) (k' =ₜ p) _ h)

  globs_named-none :
      (m : Cache Text) (es : List Text) → All (λ e. lookup e m ≡ none) es → globs_named m es ≡ []
  unfolding globs_named
  globs_named-none m [] a = refl
  globs_named-none m (e ∷ es) (h, a) = ground (arith, h, globs_named-none m es a)

  -- The policy names none of the files in this direction.
  abbrev pub NamesNone : List Text → Type 0
  NamesNone allowed = All (λ a. is_secret (clean a) ≡ false) allowed

  secret_here :
      (fs : List Text) (f : Text)
      → IsProtected env w
      → contains_text fs f ≡ true
      → is_secret_in fs (clean (join_path w f)) ≡ true
  secret_here [] f d h = absurd (nothing_there f h)
  secret_here (g ∷ fs) f d h = elim (Bool-cases (g =ₜ f)) [
    | inr e ↦ rw (secret_here fs f d (in_rest g fs f h e)) (or_right _)
    | inl e ↦
        subst (λ z. is_secret_in (z ∷ fs) (clean (join_path w f)) ≡ true)
          (sym ((text_eq_iff g f).0 e)) (rw (its_dir f d) refl)
  ]

  no_lookups :
      (allowed : List Text)
      → NamesNone allowed
      → All
          (λ e. lookup e (abs_loop (working_dir env) (home_dir env) dangerous_files []) ≡ none)
          (map clean allowed)
  unfolding lookup
  no_lookups [] a = tt
  no_lookups (e ∷ es) (h, a) = (lookup-abs_loop (clean e) secret_files [] h, no_lookups es a)

  not_among :
      (allowed : List Text) (f : Text)
      → NamesNone allowed
      → IsProtected env w
      → contains_text secret_files f ≡ true
      → contains_text (map clean allowed) (clean (join_path w f)) ≡ false
  unfolding contains_text
  not_among [] f a d h = refl
  not_among (e ∷ es) f (n, a) d h = elim (Bool-cases (clean e =ₜ clean (join_path w f))) [
    | inl q ↦ absurd (
        true-false (
          sym (secret_here secret_files f d h)
          ∙ ap is_secret (sym ((text_eq_iff (clean e) (clean (join_path w f))).0 q))
          ∙ n))
    | inr q ↦ rw q (not_among es f a d h)
  ]

  named_in_none :
      (allowed : List Text) (f : Text)
      → NamesNone allowed
      → IsProtected env w
      → contains_text secret_files f ≡ true
      → named_in env allowed (clean (join_path w f)) ≡ false
  unfolding to_set contains_text
  named_in_none allowed f a d h =
      rw
        (
          not_among allowed f a d h,
          globs_named-none (abs_loop (working_dir env) (home_dir env) dangerous_files [])
              (map clean allowed) (no_lookups allowed a),
        )
        refl

  module _ (opts : MandatoryDenyOptions) (f : Text) (d : IsProtected env w)
      (h : contains_text secret_files f ≡ true) where
    abbrev secret : Text
    secret = clean (join_path w f)

    pub secret-deny_read :
        NamesNone opts.allow_read
        → contains_text (mandatory_deny_patterns env opts).deny_read secret ≡ true
    secret-deny_read a =
        (mandatory_deny_patterns_lem env opts secret).0
        ∙ rw (candidate opts.allow_git_config f d h, named_in_none opts.allow_read f a d h) refl

    pub secret-deny_write :
        NamesNone opts.allow_write
        → contains_text (mandatory_deny_patterns env opts).deny_write secret ≡ true
    secret-deny_write a =
        (mandatory_deny_patterns_lem env opts secret).2
        ∙ rw (candidate opts.allow_git_config f d h, named_in_none opts.allow_write f a d h) refl

  -- The hooks cannot be opted out of.
  pub hooks-deny_write :
      (opts : MandatoryDenyOptions)
      → IsProtected env w
      → contains_text
          (mandatory_deny_patterns env opts).deny_write
          (clean (join_path w (codes ".git/hooks")))
        ≡ true
  hooks-deny_write opts d =
      (mandatory_deny_patterns_lem env opts (clean (join_path w (codes ".git/hooks")))).2
      ∙ rw (hooks-denied d) (or_right _)
