-- ===== src/Platform/Bubblewrap/Writable.antt =====
-- What can be written in the sandbox that sandbox/platform/bubblewrap_translator_linux.go sets up.
use pmg.Prelude.{
  ◌≡◌, refl, sym, ◌∙◌, subst, Bool, true, false, not, ◌⊎◌, inl, inr, Option, none, some, Text,
  contains_text, List, [], ◌∷◌, ◌++◌, map, all, Any, arith, Bool-cases, Option-cases,
}
use pmg.Paths.{dir}
use pmg.SandboxUtil.{contains_glob}
use pmg.Platform.{Host, missing, expand}
use pmg.Platform.Globs.{extract_glob_parent_dir}
use pmg.Platform.Bubblewrap.{BubblewrapConfig, Flag}
use pmg.Platform.Bubblewrap.Rules.{
  expand_glob_pattern, paths_of, bind_new, bind_each, bind_expansion, path_to_bind,
  process_write_rule,
}
use pmg.Platform.Bubblewrap.Translator.{allow_loop}
use pmg.Platform.Bubblewrap.Mounts.{covers, write_after, after, after-append}

abbrev pub is_bind : Flag → Bool
is_bind (Flag.bind_try d) = true
is_bind (Flag.bind d) = true
is_bind (Flag.dev_bind_try d) = true
is_bind _ = false

-- What an entry of `allow_write`, expanded to `e`, allows to be bound: itself, or the paths that its
-- wildcards stand for, or the directory of one of them that is missing.
abbrev pub Written : Host → BubblewrapConfig → Text → Text → Type 0
Written h cfg e d =
    (contains_glob e ≡ false) × (d ≡ e)
    ⊎ Any (λ q. (d ≡ q) ⊎ ((h.stat q ≡ missing) × (d ≡ dir q)))
        (paths_of (expand_glob_pattern h cfg e cfg.max_glob_depth cfg.max_glob_paths))

bind_new_bound :
    (p : Text) (ps bound : List Text)
    → contains_text bound p ≡ true
    → bind_new Flag.bind_try (p ∷ ps) bound ≡ bind_new Flag.bind_try ps bound
unfolding bind_new
bind_new_bound p ps bound c = ground arith

bind_new_unbound :
    (p : Text) (ps bound : List Text)
    → contains_text bound p ≡ false
    → bind_new Flag.bind_try (p ∷ ps) bound ≡ (
      Flag.bind_try p ∷ (bind_new Flag.bind_try ps (p ∷ bound)).0,
      (bind_new Flag.bind_try ps (p ∷ bound)).1,
    )
unfolding bind_new
bind_new_unbound p ps bound c = ground arith

pub some-injective : (r s : List Flag × List Text) → some r ≡ some s → r ≡ s
some-injective r s e = cc

-- A list of mounts after which `q` can be written only if it could before, or for the reason `T`.
module _ (q : Text) (T : Type 0) where
  abbrev pub Sound : List Flag → Type 0
  Sound fs = (b : Bool) → after (write_after q) b fs ≡ true → (b ≡ true) ⊎ T

  pub Sound-nil : Sound []
  unfolding after
  Sound-nil b h = inl h

  pub Sound-append : (fs gs : List Flag) → Sound fs → Sound gs → Sound (fs ++ gs)
  Sound-append fs gs sf sg b h =
      elim (sg (after (write_after q) b fs) (sym (after-append (write_after q) b fs gs) ∙ h)) [
        | inl e ↦ sf b e
        | inr t ↦ inr t
      ]

  write_after-harmless :
      (b : Bool) (f : Flag) → is_bind f ≡ false → write_after q b f ≡ true → b ≡ true
  write_after-harmless b (Flag.bind_try d) i h = cc
  write_after-harmless b (Flag.bind d) i h = cc
  write_after-harmless b (Flag.ro_bind_try d) i h = ground arith
  write_after-harmless b (Flag.ro_bind_null d) i h = ground arith
  write_after-harmless b (Flag.tmpfs d) i h = ground arith
  write_after-harmless b (Flag.dev_bind_try d) i h = cc
  write_after-harmless b (Flag.proc d) i h = h
  write_after-harmless b Flag.unshare_net i h = h
  write_after-harmless b Flag.unshare_pid i h = h
  write_after-harmless b Flag.unshare_ipc i h = h
  write_after-harmless b Flag.new_session i h = h
  write_after-harmless b Flag.die_with_parent i h = h

  pub Sound-harmless : (fs : List Flag) → all (λ f. not (is_bind f)) fs ≡ true → Sound fs
  unfolding after
  Sound-harmless [] a b h = inl h
  Sound-harmless (f ∷ fs) a b h = elim (Sound-harmless fs (ground arith) (write_after q b f) h) [
    | inl e ↦ inl (write_after-harmless b f (ground arith) e)
    | inr t ↦ inr t
  ]

  pub Sound-bind_try :
      (d : Text) (fs : List Flag)
      → (covers d q ≡ true → T)
      → Sound fs
      → Sound (Flag.bind_try d ∷ fs)
  unfolding after
  Sound-bind_try d fs why s b h = elim (s (write_after q b (Flag.bind_try d)) h) [
    | inr t ↦ inr t
    | inl e ↦ elim (Bool-cases (covers d q)) [ inl c ↦ inr (why c) | inr c ↦ inl (ground arith) ]
  ]

  pub Sound-devices :
      (ds : List Text)
      → ((d : Text) → Any (λ p. d ≡ p) ds → covers d q ≡ true → T)
      → Sound (map Flag.dev_bind_try ds)
  unfolding after
  Sound-devices [] why b h = inl h
  Sound-devices (d ∷ ds) why b h =
      elim (Sound-devices ds (λ e m. why e (inr m)) (write_after q b (Flag.dev_bind_try d)) h) [
        | inr t ↦ inr t
        | inl e ↦ elim (Bool-cases (covers d q)) [
          | inl c ↦ inr (why d (inl refl) c)
          | inr c ↦ inl (ground arith)
        ]
      ]

  Sound-bind_new :
      (ps bound : List Text)
      → ((d : Text) → Any (λ p. d ≡ p) ps → covers d q ≡ true → T)
      → Sound (bind_new Flag.bind_try ps bound).0
  unfolding bind_new
  Sound-bind_new [] bound why = Sound-nil
  Sound-bind_new (p ∷ ps) bound why = elim (Bool-cases (contains_text bound p)) [
    | inl c ↦
        subst (λ r. Sound r.0) (sym (bind_new_bound p ps bound c))
          (Sound-bind_new ps bound (λ d m. why d (inr m)))
    | inr c ↦
        subst (λ r. Sound r.0) (sym (bind_new_unbound p ps bound c))
          (Sound-bind_try p (bind_new Flag.bind_try ps (p ∷ bound)).0 (why p (inl refl))
            (Sound-bind_new ps (p ∷ bound) (λ d m. why d (inr m))))
  ]

  module _ (h : Host) where
    abbrev Source : Text → Text → Type 0
    Source d p = (d ≡ p) ⊎ ((h.stat p ≡ missing) × (d ≡ dir p))

    path_to_bind-Source : (p : Text) → Source (path_to_bind h p) p
    unfolding path_to_bind
    path_to_bind-Source p = ground arith

    Sound-bind_each :
        (ps bound : List Text)
        → ((d : Text) → Any (Source d) ps → covers d q ≡ true → T)
        → Sound (bind_each h ps bound).0
    unfolding bind_each
    Sound-bind_each [] bound why = Sound-nil
    Sound-bind_each (p ∷ ps) bound why =
        Sound-bind_try (path_to_bind h p) (bind_each h ps (path_to_bind h p ∷ bound)).0
          (why (path_to_bind h p) (inl (path_to_bind-Source p)))
          (Sound-bind_each ps (path_to_bind h p ∷ bound) (λ d m. why d (inr m)))

    Source-of-eq : (d : Text) (ps : List Text) → Any (λ p. d ≡ p) ps → Any (Source d) ps
    Source-of-eq d [] m = absurd m
    Source-of-eq d (p ∷ ps) (inl e) = inl (inl e)
    Source-of-eq d (p ∷ ps) (inr m) = inr (Source-of-eq d ps m)

    Sound-bind_expansion :
        (bound : List Text) (o : Option (List Text × Bool)) (r : List Flag × List Text)
        → ((d : Text) → Any (Source d) (paths_of o) → covers d q ≡ true → T)
        → bind_expansion h bound o ≡ some r
        → Sound r.0
    unfolding bind_expansion
    Sound-bind_expansion bound none r why m = cc
    Sound-bind_expansion bound (some (ps, true)) r why m =
        subst (λ s. Sound s.0) (some-injective (bind_new Flag.bind_try ps bound) r m)
          (Sound-bind_new ps bound (λ d k. why d (Source-of-eq d ps k)))
    Sound-bind_expansion bound (some (ps, false)) r why m =
        subst (λ s. Sound s.0) (some-injective (bind_each h ps bound) r m)
          (Sound-bind_each ps bound why)

    pub Sound-process_write_rule :
        (cfg : BubblewrapConfig) (e : Text) (bound : List Text) (r : List Flag × List Text)
        → ((d : Text) → Written h cfg e d → covers d q ≡ true → T)
        → process_write_rule h cfg e bound ≡ some r
        → Sound r.0
    unfolding process_write_rule
    Sound-process_write_rule cfg e bound r why m = elim (Bool-cases (contains_glob e)) [
      | inr g ↦
          subst (λ s. Sound s.0)
            (some-injective (bind_new Flag.bind_try (e ∷ []) bound) r (ground arith))
            (Sound-bind_new (e ∷ []) bound
              (λ d k. why d (inl (g, elim k [ inl i ↦ i | inr i ↦ absurd i ]))))
      | inl g ↦ elim (Bool-cases (contains_text bound (extract_glob_parent_dir e))) [
        | inl k ↦ subst (λ s. Sound s.0) (some-injective ([], bound) r (ground arith)) Sound-nil
        | inr k ↦
            Sound-bind_expansion bound
              (expand_glob_pattern h cfg e cfg.max_glob_depth cfg.max_glob_paths) r
              (λ d i. why d (inr i)) (ground arith)
      ]
    ]

    pub Sound-allow_loop :
        (rule : Text → List Text → Option (List Flag × List Text)) (ps bound : List Text)
        → ((e : Text) (bound : List Text) (r : List Flag × List Text)
            → Any (λ pattern. expand h pattern ≡ some e) ps
            → rule e bound ≡ some r
            → Sound r.0)
        → Sound (allow_loop h rule ps bound)
    unfolding allow_loop expand
    Sound-allow_loop rule [] bound each = Sound-nil
    Sound-allow_loop rule (p ∷ ps) bound each = elim (Option-cases (expand h p)) [
      | inl n ↦ rw n (Sound-allow_loop rule ps bound (λ e b r m. each e b r (inr m)))
      | inr (e, s) ↦ elim (Option-cases (rule e bound)) [
        | inl n ↦ rw (s, n) (Sound-allow_loop rule ps bound (λ f b r m. each f b r (inr m)))
        | inr (r, t) ↦
            rw (s, t)
              (Sound-append r.0 (allow_loop h rule ps r.1) (each e bound r (inl s) t)
                (Sound-allow_loop rule ps r.1 (λ f b u m. each f b u (inr m))))
      ]
    ]
