-- ===== src/SandboxUtil/Dangerous/Opting.antt =====
-- sandbox/util/dangerous.go: what a policy's allow lists change about the mandatory denies.
use pmg.Prelude.{
  ◌≡◌, refl, ap, ◌∙◌, Bool, true, not, ◌||◌, ◌&&◌, Text, ◌=ₜ◌, text_eq_iff, contains_text, List, [],
  ◌∷◌, ◌++◌, map, arith, Bool-cases, inl, inr,
}
use pmg.Paths.{clean}
use pmg.SandboxUtil.{Env}
use pmg.SandboxUtil.Dangerous.{
  MandatoryDenyOptions, suppressible, deny_loop, git_hooks, named_in, mandatory_deny_patterns,
}

contains_text-append :
    (xs ys : List Text) (p : Text)
    → contains_text (xs ++ ys) p ≡ (contains_text xs p || contains_text ys p)
unfolding contains_text
contains_text-append [] ys p = refl
contains_text-append (x ∷ xs) ys p = ground (arith, contains_text-append xs ys p)

module _ (named : Text → Bool) (p : Text) where
  abbrev denied : List Text → Bool
  denied ps = contains_text (map clean ps) p && not (named p)

  abbrev suppressed : List Text → Bool
  suppressed ps = contains_text (map clean ps) p && named p

  -- One pattern that is, or is not, `p`.
  named_here : (x : Text) → x =ₜ p ≡ true → named x ≡ named p
  named_here x m = ap named ((text_eq_iff x p).0 m)

  contains-deny_loop :
      (ps ds ss : List Text)
      → (contains_text (deny_loop named ps (ds, ss)).0 p ≡ (contains_text ds p || denied ps))
        × (contains_text (deny_loop named ps (ds, ss)).1 p ≡ (contains_text ss p || suppressed ps))
  unfolding deny_loop contains_text
  contains-deny_loop [] ds ss = ground arith
  contains-deny_loop (x ∷ ps) ds ss = elim (Bool-cases (named (clean x))) [
    | inl n ↦ ground (
      arith,
      contains-deny_loop ps (ds ++ clean x ∷ []) ss,
      contains-deny_loop ps ds (ss ++ clean x ∷ []),
      contains_text-append ds (clean x ∷ []) p,
      contains_text-append ss (clean x ∷ []) p,
      named_here (clean x),
    )
    | inr n ↦ ground (
      arith,
      contains-deny_loop ps (ds ++ clean x ∷ []) ss,
      contains-deny_loop ps ds (ss ++ clean x ∷ []),
      contains_text-append ds (clean x ∷ []) p,
      contains_text-append ss (clean x ∷ []) p,
      named_here (clean x),
    )
  ]

module _ (env : Env) (opts : MandatoryDenyOptions) (p : Text) where
  -- A candidate of the mandatory denies, and a path of the hooks.
  abbrev pub is_candidate : Bool
  is_candidate = contains_text (map clean (suppressible env opts.allow_git_config)) p

  abbrev pub is_hook : Bool
  is_hook = contains_text (map clean (git_hooks env)) p

  -- In each direction a candidate is suppressed if the allow list names it, and denied if not; the
  -- hooks are always denied.
  pub mandatory_deny_patterns_lem :
      (contains_text (mandatory_deny_patterns env opts).deny_read p
        ≡ ((is_candidate && not (named_in env opts.allow_read p)) || is_hook))
      × (contains_text (mandatory_deny_patterns env opts).suppressed_read p
          ≡ (is_candidate && named_in env opts.allow_read p))
      × (contains_text (mandatory_deny_patterns env opts).deny_write p
          ≡ ((is_candidate && not (named_in env opts.allow_write p)) || is_hook))
      × (contains_text (mandatory_deny_patterns env opts).suppressed_write p
          ≡ (is_candidate && named_in env opts.allow_write p))
  unfolding mandatory_deny_patterns contains_text
  mandatory_deny_patterns_lem = (
    contains_text-append (lists opts.allow_read).0 (map clean (git_hooks env)) p
        ∙ ap (λ b. b || is_hook) (split opts.allow_read).0,
    (split opts.allow_read).1,
    contains_text-append (lists opts.allow_write).0 (map clean (git_hooks env)) p
        ∙ ap (λ b. b || is_hook) (split opts.allow_write).0,
    (split opts.allow_write).1,
  )
    where
      lists : List Text → List Text × List Text
      lists allowed =
          deny_loop (named_in env allowed) (suppressible env opts.allow_git_config) ([], [])

      split :
          (allowed : List Text)
          → (contains_text (lists allowed).0 p ≡ (is_candidate && not (named_in env allowed p)))
            × (contains_text (lists allowed).1 p ≡ (is_candidate && named_in env allowed p))
      split allowed =
          contains-deny_loop (named_in env allowed) p (suppressible env opts.allow_git_config) [] []
