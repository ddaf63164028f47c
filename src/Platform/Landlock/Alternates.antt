-- ===== src/Platform/Landlock/Alternates.antt =====
-- sandbox/platform/landlock_translator_linux.go and landlock_seccomp_linux.go: laws of their small
-- functions on paths and numbers.
use pmg.Prelude.{
  ◌≡◌, ◌≢◌, refl, sym, subst, true, Text, codes, strip_prefix, has_prefix, trim_prefix,
  has_prefix_sound, [], ◌++◌, arith, Bool-cases, inl, inr,
}
use pmg.Platform.Landlock.{alternate_loop, landlock_usr_bin_alternate}

-- A path that begins with one of the eight prefixes goes to another one, and from there back.
abbrev GoesBack : Text → Type 0
GoesBack path = landlock_usr_bin_alternate (landlock_usr_bin_alternate path) ≡ path

GoesBack-prefix :
    (p path : Text) → ((s : Text) → GoesBack (p ++ s)) → has_prefix path p ≡ true → GoesBack path
GoesBack-prefix p path each h =
    subst GoesBack (sym (has_prefix_sound path p h)) (each (trim_prefix path p))

module _ (s : Text) where
  GoesBack-bin : GoesBack (codes "/bin/" ++ s)
  unfolding landlock_usr_bin_alternate alternate_loop strip_prefix
  GoesBack-bin = refl

  GoesBack-usr_bin : GoesBack (codes "/usr/bin/" ++ s)
  unfolding landlock_usr_bin_alternate alternate_loop strip_prefix
  GoesBack-usr_bin = refl

  GoesBack-sbin : GoesBack (codes "/sbin/" ++ s)
  unfolding landlock_usr_bin_alternate alternate_loop strip_prefix
  GoesBack-sbin = refl

  GoesBack-usr_sbin : GoesBack (codes "/usr/sbin/" ++ s)
  unfolding landlock_usr_bin_alternate alternate_loop strip_prefix
  GoesBack-usr_sbin = refl

  GoesBack-lib : GoesBack (codes "/lib/" ++ s)
  unfolding landlock_usr_bin_alternate alternate_loop strip_prefix
  GoesBack-lib = refl

  GoesBack-usr_lib : GoesBack (codes "/usr/lib/" ++ s)
  unfolding landlock_usr_bin_alternate alternate_loop strip_prefix
  GoesBack-usr_lib = refl

  GoesBack-lib64 : GoesBack (codes "/lib64/" ++ s)
  unfolding landlock_usr_bin_alternate alternate_loop strip_prefix
  GoesBack-lib64 = refl

  GoesBack-usr_lib64 : GoesBack (codes "/usr/lib64/" ++ s)
  unfolding landlock_usr_bin_alternate alternate_loop strip_prefix
  GoesBack-usr_lib64 = refl

-- A path in one of the directories goes to the other one, and from there back.
pub landlock_usr_bin_alternate_involutive :
    (path : Text)
    → landlock_usr_bin_alternate path ≢ []
    → landlock_usr_bin_alternate (landlock_usr_bin_alternate path) ≡ path
unfolding landlock_usr_bin_alternate alternate_loop
landlock_usr_bin_alternate_involutive path n = elim (Bool-cases (has_prefix path (codes "/bin/"))) [
  | inl h ↦ GoesBack-prefix (codes "/bin/") path GoesBack-bin h
  | inr h0 ↦ elim (Bool-cases (has_prefix path (codes "/usr/bin/"))) [
    | inl h ↦ GoesBack-prefix (codes "/usr/bin/") path GoesBack-usr_bin h
    | inr h1 ↦ elim (Bool-cases (has_prefix path (codes "/sbin/"))) [
      | inl h ↦ GoesBack-prefix (codes "/sbin/") path GoesBack-sbin h
      | inr h2 ↦ elim (Bool-cases (has_prefix path (codes "/usr/sbin/"))) [
        | inl h ↦ GoesBack-prefix (codes "/usr/sbin/") path GoesBack-usr_sbin h
        | inr h3 ↦ elim (Bool-cases (has_prefix path (codes "/lib/"))) [
          | inl h ↦ GoesBack-prefix (codes "/lib/") path GoesBack-lib h
          | inr h4 ↦ elim (Bool-cases (has_prefix path (codes "/usr/lib/"))) [
            | inl h ↦ GoesBack-prefix (codes "/usr/lib/") path GoesBack-usr_lib h
            | inr h5 ↦ elim (Bool-cases (has_prefix path (codes "/lib64/"))) [
              | inl h ↦ GoesBack-prefix (codes "/lib64/") path GoesBack-lib64 h
              | inr h6 ↦ elim (Bool-cases (has_prefix path (codes "/usr/lib64/"))) [
                | inl h ↦ GoesBack-prefix (codes "/usr/lib64/") path GoesBack-usr_lib64 h
                | inr h7 ↦ absurd (n (ground (arith, h0, h1, h2, h3, h4, h5, h6, h7)))
              ]
            ]
          ]
        ]
      ]
    ]
  ]
]
