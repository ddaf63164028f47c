-- ===== src/Platform/Landlock/Denied.antt =====
-- sandbox/platform/landlock_translator_linux.go and landlock_seccomp_linux.go together: what a policy
-- denies, the supervisor denies.
use pmg.Prelude.{
  ℕ, ◌%◌, ◌==◌, ◌≡◌, refl, sym, ◌∙◌, subst, Bool, true, false, ◌||◌, none, some, Option-cases,
  Bool-cases, Text, codes, ◌=ₜ◌, text_eq_refl, text_eq_iff, has_prefix, has_suffix,
  has_prefix-append, append-nil, append_assoc, contains_code, contains_text, List, [], ◌∷◌, ◌++◌,
  map, any, arith, ◌⊎◌, inl, inr, if◌then◌else◌,
}
use pmg.Sandbox.{SandboxPolicy}
use pmg.SandboxUtil.{contains_glob}
use pmg.Platform.{Host, expand}
use pmg.Platform.Globs.{before_wildcard}
use pmg.Platform.Bubblewrap.Translator.{mandatory}
use pmg.Platform.Landlock.{LandlockAbi, landlock_is_proc_path, deny_read, deny_write, DenyPathEntry}
use pmg.Platform.Landlock.Translator.{
  literal_part, within_loop, landlock_is_within_writable_area, deny_entry, deny_loop, skips_write,
  user_denials, mandatory_denials, landlock_translate_policy,
}
use pmg.Platform.Landlock.Supervisor.{entry_matches, mode_denies, o_accmode, is_path_denied}
use pmg.Platform.Landlock.Entries.{
  denies, is_path_denied-any, any-append_left, any-append_right, any-map, deny_loop-contains,
  mandatory_read, mandatory_write,
}

or_right : (b : Bool) → (b || true) ≡ true
or_right true = refl
or_right false = refl

-- The path, or one below it.
abbrev pub IsAtOrBelow : Text → Text → Type 0
IsAtOrBelow e q = (q ≡ e) ⊎ ((rest : Text) × (q ≡ e ++ codes "/" ++ rest))

-- The lowest two bits of the flags ask for reading, or for writing, or for both.
abbrev pub Reads : ℕ → Type 0
Reads flags = (flags % 4 ≡ 0) ⊎ (flags % 4 ≡ 2)

abbrev pub Writes : ℕ → Type 0
Writes flags = (flags % 4 ≡ 1) ⊎ (flags % 4 ≡ 2)

prefix_below : (e q : Text) → IsAtOrBelow e q → has_prefix q e ≡ true
prefix_below e q (inl s) =
    subst (λ u. has_prefix u e ≡ true) (append-nil e ∙ sym s) (has_prefix-append e [])
prefix_below e q (inr (rest, s)) =
    subst (λ u. has_prefix u e ≡ true) (sym (s ∙ append_assoc e (codes "/") rest))
      (has_prefix-append e (codes "/" ++ rest))

pub entry_matches-below : (e q : Text) → IsAtOrBelow e q → entry_matches e q ≡ true
entry_matches-below e q b = elim (Bool-cases (has_suffix e (codes "/"))) [
  | inl c ↦ rw c (prefix_below e q b)
  | inr c ↦ rw c (at_or_below e q b)
]
  where
    at_or_below : (e q : Text) → IsAtOrBelow e q → (q =ₜ e || has_prefix q (e ++ codes "/")) ≡ true
    at_or_below e q (inl s) =
        subst (λ u. (u =ₜ e || has_prefix u (e ++ codes "/")) ≡ true) (sym s)
          (rw (text_eq_refl e) refl)
    at_or_below e q (inr (rest, s)) =
        subst (λ u. (u =ₜ e || has_prefix u (e ++ codes "/")) ≡ true) (sym s)
          (rw (has_prefix-append (e ++ codes "/") rest) (or_right _))

pub denies-Reads : (flags : ℕ) → Reads flags → mode_denies deny_read (o_accmode flags) ≡ true
denies-Reads flags (inl r) = rw r refl
denies-Reads flags (inr r) = rw r refl

pub denies-Writes : (flags : ℕ) → Writes flags → mode_denies deny_write (o_accmode flags) ≡ true
denies-Writes flags (inl r) = rw r refl
denies-Writes flags (inr r) = rw r refl

-- What a policy denies in one direction, as it is written: an entry of the user's list, or a
-- mandatory one. Landlock drops the entries under /proc, and those against writing where nothing
-- may be written.
abbrev pub IsDeniedRead : Host → SandboxPolicy → Text → Type 0
IsDeniedRead h p e =
    ((pattern : Text) × (contains_text p.filesystem.deny_read pattern ≡ true)
      × (expand h pattern ≡ some e)
      × (landlock_is_proc_path e ≡ false))
    ⊎ (contains_text (mandatory h p).deny_read e ≡ true)

abbrev pub IsDeniedWrite : Host → SandboxPolicy → Text → Type 0
IsDeniedWrite h p e =
    ((pattern : Text) × (contains_text p.filesystem.deny_write pattern ≡ true)
      × (expand h pattern ≡ some e)
      × (skips_write h p.filesystem.allow_write e ≡ false))
    ⊎ (contains_text (mandatory h p).deny_write e ≡ true)

module _ (h : Host) (p : SandboxPolicy) (abi : LandlockAbi) (q : Text) (flags : ℕ) (e : Text)
    (g : contains_glob e ≡ false) (o : entry_matches e q ≡ true) where
  from_user :
      any (denies q flags) (user_denials h p) ≡ true
      → is_path_denied q flags (landlock_translate_policy h p abi).deny_paths ≡ true
  unfolding landlock_translate_policy
  from_user a =
      is_path_denied-any q flags (user_denials h p ++ mandatory_denials h p)
      ∙ any-append_left (denies q flags) (user_denials h p) (mandatory_denials h p) a

  from_mandatory :
      any (denies q flags) (mandatory_denials h p) ≡ true
      → is_path_denied q flags (landlock_translate_policy h p abi).deny_paths ≡ true
  unfolding landlock_translate_policy
  from_mandatory a =
      is_path_denied-any q flags (user_denials h p ++ mandatory_denials h p)
      ∙ any-append_right (denies q flags) (user_denials h p) (mandatory_denials h p) a

  abbrev reads : List DenyPathEntry
  reads = map (deny_entry deny_read) (deny_loop h landlock_is_proc_path p.filesystem.deny_read)

  abbrev writes : List DenyPathEntry
  writes =
      map (deny_entry deny_write)
        (deny_loop h (skips_write h p.filesystem.allow_write) p.filesystem.deny_write)

  -- A path that the policy denies for reading cannot be opened for reading, nor what is below it.
  pub is_path_denied-read :
      mode_denies deny_read (o_accmode flags) ≡ true
      → IsDeniedRead h p e
      → is_path_denied q flags (landlock_translate_policy h p abi).deny_paths ≡ true
  unfolding user_denials
  is_path_denied-read m (inr c) = from_mandatory (mandatory_read h q flags e g o p m c)
  is_path_denied-read m (inl (pattern, c, x, k)) = from_user (
      any-append_left (denies q flags) reads writes (
        any-map (denies q flags) deny_read
          (deny_loop h landlock_is_proc_path p.filesystem.deny_read) e
          (deny_loop-contains h landlock_is_proc_path pattern e x g k p.filesystem.deny_read c)
          (ground arith)))

  pub is_path_denied-write :
      mode_denies deny_write (o_accmode flags) ≡ true
      → IsDeniedWrite h p e
      → is_path_denied q flags (landlock_translate_policy h p abi).deny_paths ≡ true
  unfolding user_denials
  is_path_denied-write m (inr c) = from_mandatory (mandatory_write h q flags e g o p m c)
  is_path_denied-write m (inl (pattern, c, x, k)) = from_user (
      any-append_right (denies q flags) reads writes (
        any-map (denies q flags) deny_write
          (deny_loop h (skips_write h p.filesystem.allow_write) p.filesystem.deny_write) e
          (deny_loop-contains h (skips_write h p.filesystem.allow_write) pattern e x g k
            p.filesystem.deny_write c)
          (ground arith)))

not_proc :
    (e : Text)
    → e =ₜ codes "/proc" ≡ false
    → has_prefix e (codes "/proc/") ≡ false
    → landlock_is_proc_path e ≡ false
unfolding landlock_is_proc_path
not_proc e a b = rw (a, b) refl

-- An entry that the user's list names, outside /proc.
abbrev pub IsEntry : Host → List Text → Text → Type 0
IsEntry h patterns e =
    (pattern : Text) × (contains_text patterns pattern ≡ true)
    × (expand h pattern ≡ some e)
    × (e =ₜ codes "/proc" ≡ false)
    × (has_prefix e (codes "/proc/") ≡ false)

-- It lies at or below a path that the policy allows to be written.
abbrev pub IsWritable : Host → SandboxPolicy → Text → Type 0
IsWritable h p e =
    (pattern v : Text) × (contains_text p.filesystem.allow_write pattern ≡ true)
    × (expand h pattern ≡ some v)
    × (contains_glob v ≡ false)
    × IsAtOrBelow v e

six_false :
    (a b c x y z : Bool)
    → ((a || x) || ((b || y) || (c || z))) ≡ false
    → ((a || (b || c)) ≡ false) × ((x || (y || z)) ≡ false)
six_false a b c x y z h = ground (arith, h)

no_wildcard : (s : Text) → contains_glob s ≡ false → before_wildcard s ≡ none
unfolding contains_glob contains_code before_wildcard
no_wildcard [] g = refl
no_wildcard (c ∷ s) g =
    let (here, rest) =
      six_false (c == 42) (c == 63) (c == 91) (contains_code s 42) (contains_code s 63)
        (contains_code s 91) g in
    rw (here, no_wildcard s rest) refl

literal_itself : (s : Text) → contains_glob s ≡ false → literal_part s ≡ s
literal_itself s g = rw (no_wildcard s g) refl

module _ (h : Host) (e v pattern : Text) (x : expand h pattern ≡ some v)
    (g : contains_glob v ≡ false) (b : has_prefix e v ≡ true) where
  within_loop-head : (qs : List Text) → within_loop h e (pattern ∷ qs) ≡ true
  unfolding within_loop expand
  within_loop-head qs = rw (x, literal_itself v g) (rw b refl)

  within_loop-tail :
      (q : Text) (qs : List Text) → within_loop h e qs ≡ true → within_loop h e (q ∷ qs) ≡ true
  unfolding within_loop expand
  within_loop-tail q qs t = elim (Option-cases (expand h q)) [
    | inl n ↦ rw n t
    | inr (w, n) ↦
        rw (n, t) (either (has_prefix e (literal_part w) || has_prefix (literal_part w) e))
  ]
    where
      either : (a : Bool) → (if a then true else true) ≡ true
      either true = refl
      either false = refl

  within_loop-writable :
      (ps : List Text) → contains_text ps pattern ≡ true → within_loop h e ps ≡ true
  unfolding contains_text
  within_loop-writable [] c = cc c
  within_loop-writable (q ∷ qs) c = elim (Bool-cases (q =ₜ pattern)) [
    | inl s ↦
        subst (λ r. within_loop h e (r ∷ qs) ≡ true) (sym ((text_eq_iff q pattern).0 s))
          (within_loop-head qs)
    | inr s ↦ within_loop-tail q qs (within_loop-writable qs (ground (arith, c, s)))
  ]

module _ (h : Host) (p : SandboxPolicy) (abi : LandlockAbi) (q : Text) (flags : ℕ) (e : Text)
    (g : contains_glob e ≡ false) where
  kept_write :
      IsWritable h p e
      → landlock_is_proc_path e ≡ false
      → skips_write h p.filesystem.allow_write e ≡ false
  unfolding landlock_is_within_writable_area
  kept_write (pattern, v, c, x, w, b) n =
      rw
        (
          n,
          literal_itself e g,
          within_loop-writable h e v pattern x w (prefix_below v e b) p.filesystem.allow_write c,
        )
        refl

  -- Under the translated policy the supervisor denies the opening of a path that is an entry or
  -- lies below one (its text, a slash, anything): for reading, or for both, where `deny_read`
  -- names the entry; for writing, or for both, where `deny_write` names it and it is or lies below
  -- an entry of `allow_write` without wildcards. The entry is expanded, without wildcards, and not
  -- in /proc; the lowest two bits of the flags say what the opening is for.
  pub is_path_denied-denied :
      IsAtOrBelow e q
      → (Reads flags × IsEntry h p.filesystem.deny_read e)
        ⊎ (Writes flags × (IsEntry h p.filesystem.deny_write e × IsWritable h p e))
      → is_path_denied q flags (landlock_translate_policy h p abi).deny_paths ≡ true
  is_path_denied-denied b (inl (m, (pattern, c, x, n, n'))) =
      is_path_denied-read h p abi q flags e g (entry_matches-below e q b) (denies-Reads flags m)
        (inl (pattern, c, x, not_proc e n n'))
  is_path_denied-denied b (inr (m, ((pattern, c, x, n, n'), w))) =
      is_path_denied-write h p abi q flags e g (entry_matches-below e q b) (denies-Writes flags m)
        (inl (pattern, c, x, kept_write w (not_proc e n n')))
