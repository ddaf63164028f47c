-- ===== src/Platform/Bubblewrap/Denials.antt =====
-- What the deny rules of sandbox/platform/bubblewrap_translator_linux.go come to once all mounts are
-- made.
use pmg.Prelude.{
  ℕ, zero, suc, ◌≡◌, refl, sym, ap, ◌∙◌, Bool, true, false, or_else, some, Text, ◌=ₜ◌, text_eq_iff,
  contains_text, subst, List, [], ◌∷◌, all, arith, Bool-cases, Option-cases, inl, inr,
}
use pmg.SandboxUtil.{contains_glob}
use pmg.Platform.Globs.{extract_glob_parent_dir}
use pmg.Platform.{Host, exists, expand}
use pmg.Platform.Bubblewrap.{BubblewrapConfig, Flag}
use pmg.Platform.Bubblewrap.Rules.{
  expand_glob_pattern, paths_of, for_each, hide, make_read_only, deny_access, deny_matches,
  process_deny_read, process_deny_read_rule, process_deny_write_rule, process_deny_rule,
}
use pmg.Platform.Bubblewrap.Translator.{
  deny_rules, hide_dirs, hide_loop, glob_or_none, mask_file, process_deny_exec_rule,
}
use pmg.Platform.Bubblewrap.Mounts.{
  after, is_mask, is_read_only, after-append, after_keeps, all-append,
}

-- What every flag of a rule satisfies, every flag of the rules satisfies.
module _ (h : Host) (test : Flag → Bool) (rule : Text → List Flag)
    (each : (p : Text) → all test (rule p) ≡ true) where
  all-for_each : (ps : List Text) → all test (for_each rule ps) ≡ true
  unfolding for_each
  all-for_each [] = refl
  all-for_each (p ∷ ps) =
      ground (arith, all-append test (rule p) (for_each rule ps), each p, all-for_each ps)

  pub all-deny_rules : (ps : List Text) → all test (deny_rules h rule ps) ≡ true
  unfolding deny_rules expand
  all-deny_rules [] = refl
  all-deny_rules (p ∷ ps) = elim (Option-cases (expand h p)) [
    | inl n ↦ rw n (all-deny_rules ps)
    | inr (e, s) ↦
        rw s (
          ground
            (arith, all-append test (rule e) (deny_rules h rule ps), each e, all-deny_rules ps))
  ]

  all-deny_matches :
      (cfg : BubblewrapConfig) (path : Text) → all test (deny_matches h cfg rule path) ≡ true
  unfolding deny_matches
  all-deny_matches cfg path =
      all-for_each
        (paths_of (expand_glob_pattern h cfg path cfg.mandatory_deny_scan_depth cfg.max_glob_paths))

-- Every deny rule only makes masks.
module _ (h : Host) where
  masks-hide : (p : Text) → all is_mask (hide h p) ≡ true
  masks-hide p = ground arith

  masks-make_read_only : (p : Text) → all is_mask (make_read_only h p) ≡ true
  masks-make_read_only p = ground arith

  read_only-make_read_only : (p : Text) → all is_read_only (make_read_only h p) ≡ true
  read_only-make_read_only p = ground arith

  masks-deny_access : (p : Text) → all is_mask (deny_access h p) ≡ true
  masks-deny_access p = ground arith

  masks-mask_file : (p : Text) → all is_mask (mask_file h p) ≡ true
  masks-mask_file p = ground arith

  pub masks-deny_exec : (e : Text) → all is_mask (process_deny_exec_rule h e) ≡ true
  unfolding process_deny_exec_rule
  masks-deny_exec e = all-for_each h is_mask (mask_file h) masks-mask_file (glob_or_none h e)

  masks-hide_dirs : (ds hidden : List Text) → all is_mask (hide_dirs h ds hidden).0 ≡ true
  unfolding hide_dirs
  masks-hide_dirs [] hidden = refl
  masks-hide_dirs (d ∷ ds) hidden =
      ground (arith, masks-hide_dirs ds hidden, masks-hide_dirs ds (d ∷ hidden))

  pub masks-hide_loop : (ps hidden : List Text) → all is_mask (hide_loop h ps hidden) ≡ true
  unfolding hide_loop expand
  masks-hide_loop [] hidden = refl
  masks-hide_loop (p ∷ ps) hidden = elim (Option-cases (expand h p)) [
    | inl n ↦ rw n (masks-hide_loop ps hidden)
    | inr (e, s) ↦ rw s (
        ground (
          arith,
          masks-hide_dirs (glob_or_none h e) hidden,
          all-append is_mask (hide_dirs h (glob_or_none h e) hidden).0
              (hide_loop h ps (hide_dirs h (glob_or_none h e) hidden).1),
          masks-hide_loop ps (hide_dirs h (glob_or_none h e) hidden).1,
        ))
  ]

module _ (h : Host) (cfg : BubblewrapConfig) where
  masks-deny_read_fuel :
      (n : ℕ) (e : Text) → all is_mask (or_else (process_deny_read h cfg n e) []) ≡ true
  unfolding process_deny_read
  masks-deny_read_fuel zero e = refl
  masks-deny_read_fuel (suc n) e = ground (
    arith,
    masks-hide h e,
    all-deny_matches h is_mask (hide h) (masks-hide h) cfg e,
    masks-deny_read_fuel n (extract_glob_parent_dir e),
  )

  pub masks-deny_read : (e : Text) → all is_mask (process_deny_read_rule h cfg e) ≡ true
  unfolding process_deny_read_rule
  masks-deny_read e = masks-deny_read_fuel 2 e

  pub masks-deny_write : (e : Text) → all is_mask (process_deny_write_rule h cfg e) ≡ true
  unfolding process_deny_write_rule
  masks-deny_write e = ground (
    arith,
    all-deny_matches h is_mask (make_read_only h) (masks-make_read_only h) cfg e,
    masks-make_read_only h e,
  )

  pub masks-deny : (e : Text) → all is_mask (process_deny_rule h cfg e) ≡ true
  unfolding process_deny_rule
  masks-deny e = ground (
    arith,
    all-deny_matches h is_mask (deny_access h) (masks-deny_access h) cfg e,
    masks-deny_access h e,
  )

  -- The rule for a path that is there and holds no wildcard.
  deny_write_literal :
      (e : Text)
      → contains_glob e ≡ false
      → exists (h.stat e) ≡ true
      → process_deny_write_rule h cfg e ≡ Flag.ro_bind_try e ∷ []
  unfolding process_deny_write_rule
  deny_write_literal e g x = ground arith

  deny_rules_found :
      (p : Text) (ps : List Text) (e : Text)
      → expand h p ≡ some e
      → contains_glob e ≡ false
      → exists (h.stat e) ≡ true
      → deny_rules h (process_deny_write_rule h cfg) (p ∷ ps)
        ≡ Flag.ro_bind_try e ∷ deny_rules h (process_deny_write_rule h cfg) ps
  unfolding deny_rules expand
  deny_rules_found p ps e x g s = rw (x, deny_write_literal e g s) refl

  read_only-deny_write : (e : Text) → all is_read_only (process_deny_write_rule h cfg e) ≡ true
  unfolding process_deny_write_rule
  read_only-deny_write e = ground (
    arith,
    read_only-make_read_only h e,
    all-deny_matches h is_read_only (make_read_only h) (read_only-make_read_only h) cfg e,
  )

-- The rules against writing decide a path that one of them names as it is.
module _ (h : Host) (cfg : BubblewrapConfig) (step : Bool → Flag → Bool) (v : Bool)
    (keep : (f : Flag) → is_read_only f ≡ true → step v f ≡ v) (pattern e : Text)
    (set : (b : Bool) → step b (Flag.ro_bind_try e) ≡ v) (x : expand h pattern ≡ some e)
    (g : contains_glob e ≡ false) (s : exists (h.stat e) ≡ true) where
  after-found :
      (p : Text) (ps : List Text) (b : Bool)
      → p =ₜ pattern ≡ true
      → after step b (deny_rules h (process_deny_write_rule h cfg) (p ∷ ps)) ≡ v
  unfolding after
  after-found p ps b m =
      ap (after step b) (
        deny_rules_found h cfg p ps e
          (subst (λ t. expand h t ≡ some e) (sym ((text_eq_iff p pattern).0 m)) x) g s)
      ∙ ap (λ c. after step c (deny_rules h (process_deny_write_rule h cfg) ps)) (set b)
      ∙ after_keeps step is_read_only v keep (deny_rules h (process_deny_write_rule h cfg) ps) (
          all-deny_rules h is_read_only (process_deny_write_rule h cfg) (read_only-deny_write h cfg)
            ps)

  pub after-deny_write :
      (ps : List Text) (b : Bool)
      → contains_text ps pattern ≡ true
      → after step b (deny_rules h (process_deny_write_rule h cfg) ps) ≡ v
  unfolding deny_rules expand contains_text
  after-deny_write [] b c = cc
  after-deny_write (p ∷ ps) b c = elim (Bool-cases (p =ₜ pattern)) [
    | inl m ↦ after-found p ps b m
    | inr m ↦ elim (Option-cases (expand h p)) [
      | inl n ↦ rw n (after-deny_write ps b (ground arith))
      | inr (f, t) ↦ rw t (
          after-append step b (process_deny_write_rule h cfg f)
            (deny_rules h (process_deny_write_rule h cfg) ps)
          ∙ after-deny_write ps _ (ground arith))
    ]
  ]
