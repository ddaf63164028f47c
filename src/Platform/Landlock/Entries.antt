-- ===== src/Platform/Landlock/Entries.antt =====
-- sandbox/platform/landlock_translator_linux.go and landlock_seccomp_linux.go: which entries a deny list
-- holds, and what it denies for that.
use pmg.Prelude.{
  ℕ, ◌≡◌, refl, sym, subst, Bool, true, false, ◌&&◌, some, Text, text_eq_iff, text_eq_refl, ◌=ₜ◌,
  contains_text, List, [], ◌∷◌, ◌++◌, map, any, if◌then◌else◌, arith, Bool-cases, Option-cases, inl,
  inr,
}
use pmg.Sandbox.{SandboxPolicy}
use pmg.SandboxUtil.{contains_glob}
use pmg.Platform.{Host, expand}
use pmg.Platform.Bubblewrap.Translator.{mandatory}
use pmg.Platform.Landlock.{DenyMode, deny_read, deny_write, deny_both, DenyPathEntry}
use pmg.Platform.Landlock.Translator.{
  denied_paths, deny_entry, deny_loop, append_deny, deny_read_entries, deny_write_entries,
  mandatory_denials,
}
use pmg.Platform.Landlock.Supervisor.{entry_matches, mode_denies, o_accmode, is_path_denied}

-- One entry denies the access.
abbrev pub denies : Text → ℕ → DenyPathEntry → Bool
denies q flags entry = entry_matches entry.path q && mode_denies entry.mode (o_accmode flags)

pub is_path_denied-any :
    (q : Text) (flags : ℕ) (es : List DenyPathEntry)
    → is_path_denied q flags es ≡ any (denies q flags) es
unfolding is_path_denied
is_path_denied-any q flags [] = refl
is_path_denied-any q flags (e ∷ es) = ground (arith, is_path_denied-any q flags es)

module _ (test : DenyPathEntry → Bool) where
  pub any-append_left :
      (es fs : List DenyPathEntry) → any test es ≡ true → any test (es ++ fs) ≡ true
  any-append_left [] fs h = cc
  any-append_left (e ∷ es) fs h = ground (arith, any-append_left es fs)

  pub any-append_right :
      (es fs : List DenyPathEntry) → any test fs ≡ true → any test (es ++ fs) ≡ true
  any-append_right [] fs h = h
  any-append_right (e ∷ es) fs h = ground (arith, any-append_right es fs h)

  pub any-map :
      (mode : DenyMode) (ps : List Text) (e : Text)
      → contains_text ps e ≡ true
      → test (deny_entry mode e) ≡ true
      → any test (map (deny_entry mode) ps) ≡ true
  unfolding contains_text
  any-map mode [] e c t = cc
  any-map mode (p ∷ ps) e c t = elim (Bool-cases (p =ₜ e)) [
    | inl m ↦
        subst (λ r. any test (deny_entry mode r ∷ map (deny_entry mode) ps) ≡ true)
          (sym ((text_eq_iff p e).0 m)) (ground arith)
    | inr m ↦ ground (arith, any-map mode ps e)
  ]

contains_text-append_left :
    (ps qs : List Text) (e : Text) → contains_text ps e ≡ true → contains_text (ps ++ qs) e ≡ true
unfolding contains_text
contains_text-append_left [] qs e h = cc
contains_text-append_left (p ∷ ps) qs e h = ground (arith, contains_text-append_left ps qs e)

contains_text-append_right :
    (ps qs : List Text) (e : Text) → contains_text qs e ≡ true → contains_text (ps ++ qs) e ≡ true
unfolding contains_text
contains_text-append_right [] qs e h = h
contains_text-append_right (p ∷ ps) qs e h = ground (arith, contains_text-append_right ps qs e h)

module _ (h : Host) (skips : Text → Bool) (pattern e : Text) (x : expand h pattern ≡ some e)
    (g : contains_glob e ≡ false) (k : skips e ≡ false) where
  contains-head : (ps : List Text) → contains_text (deny_loop h skips (pattern ∷ ps)) e ≡ true
  unfolding deny_loop expand contains_text
  contains-head ps = rw (x, k, g) (rw (text_eq_refl e) refl)

  pub deny_loop-contains :
      (ps : List Text)
      → contains_text ps pattern ≡ true
      → contains_text (deny_loop h skips ps) e ≡ true
  unfolding deny_loop expand contains_text
  deny_loop-contains [] c = cc
  deny_loop-contains (p ∷ ps) c = elim (Bool-cases (p =ₜ pattern)) [
    | inl m ↦
        subst (λ r. contains_text (deny_loop h skips (r ∷ ps)) e ≡ true)
          (sym ((text_eq_iff p pattern).0 m)) (contains-head ps)
    | inr m ↦ elim (Option-cases (expand h p)) [
      | inl n ↦ rw n (deny_loop-contains ps (ground arith))
      | inr (f, s) ↦ rw s (
          contains_text-append_right (if skips f then [] else denied_paths h f)
            (deny_loop h skips ps) e (deny_loop-contains ps (ground arith)))
    ]
  ]

-- The mode of the entry that the list of the paths denied for reading gives.
abbrev entry_mode : List Text → Text → DenyMode
entry_mode writes e = if contains_text writes e then deny_both else deny_read

entry_mode-read :
    (writes : List Text) (e : Text) (access : ℕ)
    → mode_denies deny_read access ≡ true
    → mode_denies (entry_mode writes e) access ≡ true
entry_mode-read writes e access m = elim (Bool-cases (contains_text writes e)) [
  | inl w ↦ rw w refl
  | inr w ↦ rw w m
]

module _ (h : Host) (q : Text) (flags : ℕ) (e : Text) (g : contains_glob e ≡ false)
    (o : entry_matches e q ≡ true) where
  any-append_deny :
      (mode : DenyMode)
      → mode_denies mode (o_accmode flags) ≡ true
      → any (denies q flags) (append_deny h mode e) ≡ true
  any-append_deny mode m = rw g (ground arith)

  -- The entry of one path on either list, and of a list that holds it.
  any-read_entry :
      (writes : List Text)
      → mode_denies (entry_mode writes e) (o_accmode flags) ≡ true
      → any
          (denies q flags)
          (if contains_text writes e then append_deny h deny_both e else append_deny h deny_read e)
        ≡ true
  any-read_entry writes m = elim (Bool-cases (contains_text writes e)) [
    | inl w ↦ rw w (any-append_deny deny_both refl)
    | inr w ↦ rw w (any-append_deny deny_read (ground arith))
  ]

  any-deny_read_entries :
      (writes ps : List Text)
      → mode_denies (entry_mode writes e) (o_accmode flags) ≡ true
      → contains_text ps e ≡ true
      → any (denies q flags) (deny_read_entries h writes ps) ≡ true
  unfolding deny_read_entries contains_text
  any-deny_read_entries writes [] m c = cc
  any-deny_read_entries writes (p ∷ ps) m c = elim (Bool-cases (p =ₜ e)) [
    | inl i ↦
        any-append_left (denies q flags)
          (if contains_text writes p then append_deny h deny_both p else append_deny h deny_read p)
          (deny_read_entries h writes ps)
          (subst
            (λ r.
              any (denies q flags) (
                if contains_text writes r
                then append_deny h deny_both r
                else append_deny h deny_read r)
              ≡ true)
            (sym ((text_eq_iff p e).0 i)) (any-read_entry writes m))
    | inr i ↦
        any-append_right (denies q flags)
          (if contains_text writes p then append_deny h deny_both p else append_deny h deny_read p)
          (deny_read_entries h writes ps) (any-deny_read_entries writes ps m (ground arith))
  ]

  any-deny_write_entries :
      (reads ps : List Text)
      → mode_denies deny_write (o_accmode flags) ≡ true
      → contains_text reads e ≡ false
      → contains_text ps e ≡ true
      → any (denies q flags) (deny_write_entries h reads ps) ≡ true
  unfolding deny_write_entries contains_text
  any-deny_write_entries reads [] m r c = cc
  any-deny_write_entries reads (p ∷ ps) m r c = elim (Bool-cases (p =ₜ e)) [
    | inl i ↦
        any-append_left (denies q flags)
          (if contains_text reads p then [] else append_deny h deny_write p)
          (deny_write_entries h reads ps)
          (subst
            (λ t.
              any (denies q flags)
                (if contains_text reads t then [] else append_deny h deny_write t)
              ≡ true)
            (sym ((text_eq_iff p e).0 i)) (rw r (any-append_deny deny_write m)))
    | inr i ↦
        any-append_right (denies q flags)
          (if contains_text reads p then [] else append_deny h deny_write p)
          (deny_write_entries h reads ps) (any-deny_write_entries reads ps m r (ground arith))
  ]

  module _ (p : SandboxPolicy) where
    pub mandatory_read :
        mode_denies deny_read (o_accmode flags) ≡ true
        → contains_text (mandatory h p).deny_read e ≡ true
        → any (denies q flags) (mandatory_denials h p) ≡ true
    unfolding mandatory_denials
    mandatory_read m c =
        any-append_left (denies q flags)
          (deny_read_entries h (mandatory h p).deny_write (mandatory h p).deny_read)
          (deny_write_entries h (mandatory h p).deny_read (mandatory h p).deny_write)
          (any-deny_read_entries (mandatory h p).deny_write (mandatory h p).deny_read
            (entry_mode-read (mandatory h p).deny_write e (o_accmode flags) m) c)

    pub mandatory_write :
        mode_denies deny_write (o_accmode flags) ≡ true
        → contains_text (mandatory h p).deny_write e ≡ true
        → any (denies q flags) (mandatory_denials h p) ≡ true
    unfolding mandatory_denials
    mandatory_write m c = elim (Bool-cases (contains_text (mandatory h p).deny_read e)) [
      | inl r ↦
          any-append_left (denies q flags)
            (deny_read_entries h (mandatory h p).deny_write (mandatory h p).deny_read)
            (deny_write_entries h (mandatory h p).deny_read (mandatory h p).deny_write)
            (any-deny_read_entries (mandatory h p).deny_write (mandatory h p).deny_read
              (ground arith) r)
      | inr r ↦
          any-append_right (denies q flags)
            (deny_read_entries h (mandatory h p).deny_write (mandatory h p).deny_read)
            (deny_write_entries h (mandatory h p).deny_read (mandatory h p).deny_write)
            (any-deny_write_entries (mandatory h p).deny_read (mandatory h p).deny_write m r c)
    ]
