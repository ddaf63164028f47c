-- ===== src/Platform/Bubblewrap/Granted.antt =====
-- What the sandbox of sandbox/platform/bubblewrap_translator_linux.go lets be written is what the
-- policy allows to be written; and when the network is cut off.
use pmg.Prelude.{
  ◌≡◌, refl, ◌∙◌, subst, Bool, true, false, not, ◌⊎◌, inl, inr, Option, none, some, or_else, Text,
  codes, contains_text, List, [], ◌∷◌, ◌++◌, map, if◌then◌else◌, all, Any, arith, Bool-cases,
}
use pmg.SandboxUtil.{contains_glob}
use pmg.Sandbox.{SandboxPolicy}
use pmg.Platform.{Host, expand}
use pmg.Platform.Globs.{extract_glob_parent_dir}
use pmg.Platform.Bubblewrap.{BubblewrapConfig, Flag, existing}
use pmg.Platform.Bubblewrap.Rules.{
  expand_glob_pattern, bind_new, bind_read_only, process_read_rule, process_write_rule,
}
use pmg.Platform.Bubblewrap.Translator.{
  allow_loop, add_pty_support, add_tmpdir_support, add_essential_system_permissions,
  add_isolation_namespaces, deny_filesystem, translate_filesystem, translate_flags,
}
use pmg.Platform.Bubblewrap.Mounts.{
  covers, after, write_after, can_write, is_mask, after-append, all-append,
}
use pmg.Platform.Bubblewrap.Denied.{masks-deny_filesystem}
use pmg.Platform.Bubblewrap.Writable.{
  is_bind, Written, Sound, Sound-devices, Sound-append, Sound-harmless, Sound-process_write_rule,
  Sound-allow_loop, some-injective,
}

abbrev is_harmless : Flag → Bool
is_harmless f = not (is_bind f)

harmless-append :
    (fs gs : List Flag)
    → all is_harmless fs ≡ true
    → all is_harmless gs ≡ true
    → all is_harmless (fs ++ gs) ≡ true
harmless-append fs gs hf hg = ground (arith, all-append is_harmless fs gs)

harmless-masks : (fs : List Flag) → all is_mask fs ≡ true → all is_harmless fs ≡ true
harmless-masks [] h = refl
harmless-masks (f ∷ fs) h = ground (arith, harmless-masks fs)

harmless-map :
    (flag : Text → Flag)
    → ((p : Text) → is_harmless (flag p) ≡ true)
    → (ps : List Text) → all is_harmless (map flag ps) ≡ true
harmless-map flag each [] = refl
harmless-map flag each (p ∷ ps) = ground (arith, each p, harmless-map flag each ps)

harmless-isolation :
    (cfg : BubblewrapConfig) (p : SandboxPolicy)
    → all is_harmless (add_isolation_namespaces cfg p) ≡ true
unfolding add_isolation_namespaces
harmless-isolation cfg p = ground arith

harmless-bind_new :
    (ps bound : List Text) → all is_harmless (bind_new Flag.ro_bind_try ps bound).0 ≡ true
unfolding bind_new
harmless-bind_new [] bound = refl
harmless-bind_new (p ∷ ps) bound =
    ground (arith, harmless-bind_new ps bound, harmless-bind_new ps (p ∷ bound))

harmless-bind_read_only :
    (bound : List Text) (o : Option (List Text × Bool)) (r : List Flag × List Text)
    → bind_read_only bound o ≡ some r
    → all is_harmless r.0 ≡ true
unfolding bind_read_only
harmless-bind_read_only bound none r m = cc
harmless-bind_read_only bound (some (ps, coarse)) r m =
    subst (λ s. all is_harmless s.0 ≡ true)
      (some-injective (bind_new Flag.ro_bind_try ps bound) r m) (harmless-bind_new ps bound)

harmless-read :
    (h : Host) (cfg : BubblewrapConfig) (e : Text) (bound : List Text) (r : List Flag × List Text)
    → process_read_rule h cfg e bound ≡ some r
    → all is_harmless r.0 ≡ true
unfolding process_read_rule
harmless-read h cfg e bound r m = elim (Bool-cases (contains_glob e)) [
  | inr g ↦
      subst (λ s. all is_harmless s.0 ≡ true)
        (some-injective (bind_new Flag.ro_bind_try (e ∷ []) bound) r (ground arith))
        (harmless-bind_new (e ∷ []) bound)
  | inl g ↦ elim (Bool-cases (contains_text bound (extract_glob_parent_dir e))) [
    | inl k ↦
        subst (λ s. all is_harmless s.0 ≡ true) (some-injective ([], bound) r (ground arith)) refl
    | inr k ↦
        harmless-bind_read_only bound
          (expand_glob_pattern h cfg e cfg.max_glob_depth cfg.max_glob_paths) r (ground arith)
  ]
]

pty_devices :
    (b : Bool)
    → map Flag.dev_bind_try (if b then codes "/dev/pts" ∷ codes "/dev/ptmx" ∷ [] else [])
      ≡ (if b then add_pty_support else [])
pty_devices true = refl
pty_devices false = refl

module _ (h : Host) (cfg : BubblewrapConfig) (p : SandboxPolicy) (q : Text) where
  -- An entry of `allow_write` stands for a path that decides `q`.
  abbrev pub IsGranted : Type 0
  IsGranted =
      (e : Text) × (d : Text) × Any (λ pattern. expand h pattern ≡ some e) p.filesystem.allow_write
      × Written h cfg e d
      × (covers d q ≡ true)

  -- The terminals, where the policy asks for them.
  abbrev pub terminals : List Text
  terminals = if or_else p.allow_pty false then codes "/dev/pts" ∷ codes "/dev/ptmx" ∷ [] else []

  -- A device that every sandbox gets, or a terminal.
  abbrev pub IsDevice : Type 0
  IsDevice =
      (d : Text) × Any (λ e. d ≡ e) (existing h cfg.essential_devices ++ terminals)
      × (covers d q ≡ true)

  abbrev Reason : Type 0
  Reason = (covers h.env.temp_dir q ≡ true) ⊎ (IsDevice ⊎ IsGranted)

  abbrev pty : List Flag
  pty = if or_else p.allow_pty false then add_pty_support else []

  abbrev reads : List Flag
  reads =
      allow_loop h (process_read_rule h cfg) p.filesystem.allow_read
        (existing h cfg.essential_system_paths)

  abbrev writes : List Flag
  writes = allow_loop h (process_write_rule h cfg) p.filesystem.allow_write (h.env.temp_dir ∷ [])

  abbrev tail : List Flag
  tail = pty ++ add_tmpdir_support h

  Any-left : (d : Text) (xs ys : List Text) → Any (λ e. d ≡ e) xs → Any (λ e. d ≡ e) (xs ++ ys)
  Any-left d [] ys m = absurd m
  Any-left d (x ∷ xs) ys (inl e) = inl e
  Any-left d (x ∷ xs) ys (inr m) = inr (Any-left d xs ys m)

  Any-right : (d : Text) (xs ys : List Text) → Any (λ e. d ≡ e) ys → Any (λ e. d ≡ e) (xs ++ ys)
  Any-right d [] ys m = m
  Any-right d (x ∷ xs) ys m = inr (Any-right d xs ys m)

  Sound-pty : Sound q Reason pty
  Sound-pty = subst (Sound q Reason) (pty_devices (or_else p.allow_pty false)) (
      Sound-devices q Reason terminals
        (λ d m c. inr (inl (d, Any-right d (existing h cfg.essential_devices) terminals m, c))))

  Sound-essential : Sound q Reason (add_essential_system_permissions h cfg)
  unfolding add_essential_system_permissions
  Sound-essential =
      Sound-append q Reason (map Flag.ro_bind_try (existing h cfg.essential_system_paths))
        (map Flag.dev_bind_try (existing h cfg.essential_devices) ++ map Flag.proc cfg.proc_paths)
        (Sound-harmless q Reason (map Flag.ro_bind_try (existing h cfg.essential_system_paths))
          (harmless-map Flag.ro_bind_try (λ p. refl) (existing h cfg.essential_system_paths)))
        (Sound-append q Reason (map Flag.dev_bind_try (existing h cfg.essential_devices))
          (map Flag.proc cfg.proc_paths)
          (Sound-devices q Reason (existing h cfg.essential_devices)
            (λ d m c. inr (inl (d, Any-left d (existing h cfg.essential_devices) terminals m, c))))
          (Sound-harmless q Reason (map Flag.proc cfg.proc_paths)
            (harmless-map Flag.proc (λ p. refl) cfg.proc_paths)))

  Sound-tmpdir : Sound q Reason (add_tmpdir_support h)
  unfolding after
  Sound-tmpdir b t = elim (Bool-cases (covers h.env.temp_dir q)) [
    | inl c ↦ inr (inl c)
    | inr c ↦ inl (ground arith)
  ]

  Sound-filesystem : Sound q Reason (translate_filesystem h cfg p)
  unfolding translate_filesystem
  Sound-filesystem =
      Sound-append q Reason reads (writes ++ deny_filesystem h cfg p)
        (Sound-allow_loop q Reason h (process_read_rule h cfg) p.filesystem.allow_read
          (existing h cfg.essential_system_paths)
          (λ e b r m k. Sound-harmless q Reason r.0 (harmless-read h cfg e b r k)))
        (Sound-append q Reason writes (deny_filesystem h cfg p)
          (Sound-allow_loop q Reason h (process_write_rule h cfg) p.filesystem.allow_write
            (h.env.temp_dir ∷ [])
            (λ e b r m k.
              Sound-process_write_rule q Reason h cfg e b r (λ d w c. inr (inr (e, d, m, w, c))) k))
          (Sound-harmless q Reason (deny_filesystem h cfg p)
            (harmless-masks (deny_filesystem h cfg p) (masks-deny_filesystem h cfg p))))

  Sound-translate_flags : Sound q Reason (translate_flags h cfg p)
  unfolding translate_flags
  Sound-translate_flags =
      Sound-append q Reason (add_essential_system_permissions h cfg)
        (add_isolation_namespaces cfg p ++ (translate_filesystem h cfg p ++ tail)) Sound-essential
        (Sound-append q Reason (add_isolation_namespaces cfg p)
          (translate_filesystem h cfg p ++ tail)
          (Sound-harmless q Reason (add_isolation_namespaces cfg p) (harmless-isolation cfg p))
          (Sound-append q Reason (translate_filesystem h cfg p) tail Sound-filesystem
            (Sound-append q Reason pty (add_tmpdir_support h) Sound-pty Sound-tmpdir)))

  -- A path that can be written once bubblewrap has made all mounts is at or below the temporary
  -- directory; or at or below a device that the configuration lists and that exists, or /dev/pts
  -- or /dev/ptmx where the policy asks for a terminal; or at or below a path that an entry of
  -- `allow_write` stands for: the entry itself, one of the paths that its wildcards expand to (the
  -- parent directory, where they are too many), or the directory of such a path that is missing.
  pub can_write-granted :
      can_write (translate_flags h cfg p) q ≡ true
      → (covers h.env.temp_dir q ≡ true) ⊎ (IsDevice ⊎ IsGranted)
  can_write-granted w = elim (Sound-translate_flags false w) [ inl e ↦ cc | inr r ↦ r ]

  after-tmpdir :
      (fs : List Flag) (b : Bool)
      → covers h.env.temp_dir q ≡ true
      → after (write_after q) b (fs ++ add_tmpdir_support h) ≡ true
  unfolding after
  after-tmpdir [] b c = rw c refl
  after-tmpdir (f ∷ fs) b c = after-tmpdir fs (write_after q b f) c

  -- The temporary directory can always be written.
  pub can_write-tmpdir :
      covers h.env.temp_dir q ≡ true → can_write (translate_flags h cfg p) q ≡ true
  unfolding translate_flags
  can_write-tmpdir c =
      after-append (write_after q) false (add_essential_system_permissions h cfg) _
      ∙ after-append (write_after q) _ (add_isolation_namespaces cfg p) _
      ∙ after-append (write_after q) _ (translate_filesystem h cfg p) _
      ∙ after-tmpdir pty _ c
