-- ===== src/Platform/Seatbelt/Denials.antt =====
-- The rules that deny in the profile of sandbox/platform/seatbelt_translator_darwin.go.
use pmg.Prelude.{
  ◌≡◌, ◌⊎◌, refl, sym, subst, Bool, true, false, ◌&&◌, ◌||◌, Text, codes, ◌=ₜ◌, text_eq_iff,
  has_prefix-append, has_suffix-append, trim_suffix-append, contains_text, any, map, List, [], ◌∷◌,
  ◌++◌, Bool-cases, inl, inr,
}
use pmg.SandboxUtil.{contains_glob}
use pmg.Platform.Seatbelt.{
  ProfileRule, generate_move_blocking_rules, block_move, no_unlink, literal_path,
  get_ancestor_directories, extract_base_dir,
}
use pmg.Platform.Seatbelt.Verdicts.{Kernel, is_about, filter_matches, applies, grants, refuses}
use pmg.Platform.Seatbelt.Translator.{
  SeatbeltPolicyTranslator, Expanded, pattern_filter, deny_pattern, moves_blocked, seatbelt_denials,
}

-- No rule of the list allows.
pub data OnlyDenies : List ProfileRule → Type 0 where
  nothing : OnlyDenies []
  one_more :
      {r : ProfileRule} {rs : List ProfileRule}
      → r.allows ≡ false
      → OnlyDenies rs
      → OnlyDenies (r ∷ rs)

OnlyDenies-append :
    {rs ss : List ProfileRule} → OnlyDenies rs → OnlyDenies ss → OnlyDenies (rs ++ ss)
OnlyDenies-append nothing s = s
OnlyDenies-append (one_more e r) s = one_more e (OnlyDenies-append r s)

pub OnlyDenies-map :
    {A : Type 0} (f : A → ProfileRule)
    → ((a : A) → (f a).allows ≡ false)
    → (es : List A) → OnlyDenies (map f es)
OnlyDenies-map f h [] = nothing
OnlyDenies-map f h (e ∷ es) = one_more (h e) (OnlyDenies-map f h es)

OnlyDenies-block_move : (p : Text) → OnlyDenies (block_move p)
OnlyDenies-block_move p =
    let rest = one_more refl (
      OnlyDenies-map (λ d. no_unlink (literal_path d)) (λ d. refl)
        (get_ancestor_directories (extract_base_dir p))) in
    elim (Bool-cases (contains_glob p)) [ inl e ↦ rw e (one_more refl rest) | inr e ↦ rw e rest ]

OnlyDenies-moves : (ps : List Text) → OnlyDenies (generate_move_blocking_rules ps)
unfolding generate_move_blocking_rules
OnlyDenies-moves [] = nothing
OnlyDenies-moves (p ∷ ps) = OnlyDenies-append (OnlyDenies-block_move p) (OnlyDenies-moves ps)

OnlyDenies-blocked :
    (t : SeatbeltPolicyTranslator) (ps : List Text) → OnlyDenies (moves_blocked t ps)
OnlyDenies-blocked t ps = elim (Bool-cases t.enable_move_blocking_mitigation) [
  | inl e ↦ rw e (OnlyDenies-moves ps)
  | inr e ↦ rw e nothing
]

OnlyDenies-patterns : (op : Text) (es : List Text) → OnlyDenies (map (deny_pattern op) es)
OnlyDenies-patterns op es = OnlyDenies-map (deny_pattern op) (λ e. refl) es

pub OnlyDenies-denials :
    (t : SeatbeltPolicyTranslator) (x : Expanded) → OnlyDenies (seatbelt_denials t x)
unfolding seatbelt_denials
OnlyDenies-denials t x = OnlyDenies-append (OnlyDenies-patterns (codes "file-read") x.deny_read) (
    OnlyDenies-append (OnlyDenies-blocked t x.deny_read) (
      OnlyDenies-append (OnlyDenies-patterns (codes "file-write") x.deny_write) (
        OnlyDenies-append (OnlyDenies-patterns (codes "file-write") x.must_deny_write) (
          OnlyDenies-append (OnlyDenies-patterns (codes "file-read") x.must_deny_read)
            (OnlyDenies-blocked t (x.deny_write ++ x.must_deny_write))))))

pub either_false : (a b : Bool) → a ≡ false → b ≡ false → (a || b) ≡ false
either_false a b p q = rw (p, q) refl

and_false : (a b : Bool) → b ≡ false → (a && b) ≡ false
and_false true b h = h
and_false false b h = refl

either_true : (a b : Bool) → (a ≡ true) ⊎ (b ≡ true) → (a || b) ≡ true
either_true true b h = refl
either_true false b (inl h) = cc h
either_true false b (inr h) = h

module _ (k : Kernel) (q : Text) where
  -- Such rules grant nothing.
  pub OnlyDenies-grants :
      (access : Text) {rs : List ProfileRule} → OnlyDenies rs → any (grants k access q) rs ≡ false
  OnlyDenies-grants access nothing = refl
  OnlyDenies-grants access (one_more {r} {rs} e d) =
      rw (and_false (applies k access q r) r.allows e) (OnlyDenies-grants access d)

  module _ (access : Text) where
    -- A rule of the list refuses the access.
    pub data Refused : List ProfileRule → Type 0 where
      here :
          {r : ProfileRule} {rs : List ProfileRule} → refuses k access q r ≡ true → Refused (r ∷ rs)
      there : {r : ProfileRule} {rs : List ProfileRule} → Refused rs → Refused (r ∷ rs)

    Refused-left : {rs : List ProfileRule} (ss : List ProfileRule) → Refused rs → Refused (rs ++ ss)
    Refused-left ss (here e) = here e
    Refused-left ss (there f) = there (Refused-left ss f)

    Refused-right :
        (rs : List ProfileRule) {ss : List ProfileRule} → Refused ss → Refused (rs ++ ss)
    Refused-right [] f = f
    Refused-right (r ∷ rs) f = there (Refused-right rs f)

    pub Refused-any : {rs : List ProfileRule} → Refused rs → any (refuses k access q) rs ≡ true
    Refused-any (here {r} {rs} e) = either_true _ _ (inl e)
    Refused-any (there {r} {rs} f) = either_true (refuses k access q r) _ (inr (Refused-any f))

  about_operation : (op more : Text) → is_about (op ++ more) (op ++ codes "*") ≡ true
  about_operation op more =
      rw
        (
          has_suffix-append op (codes "*"),
          trim_suffix-append op (codes "*"),
          has_prefix-append op more,
        )
        (either_true _ _ (inr refl))

  other : (a b : Bool) → a ≡ false → (a || b) ≡ true → b ≡ true
  other a b e h = subst (λ u. (u || b) ≡ true) e h

  Refused-patterns :
      (op more : Text) (es : List Text) (e : Text)
      → contains_text es e ≡ true
      → filter_matches k q (pattern_filter e) ≡ true
      → Refused (op ++ more) (map (deny_pattern op) es)
  unfolding contains_text
  Refused-patterns op more [] e c m = cc c
  Refused-patterns op more (f ∷ es) e c m = elim (Bool-cases (f =ₜ e)) [
    | inl s ↦ here (
        rw
          (
            about_operation op more,
            subst (λ u. filter_matches k q (pattern_filter u) ≡ true) (sym ((text_eq_iff f e).0 s))
                m,
          )
          refl)
    | inr s ↦ there (Refused-patterns op more es e (other (f =ₜ e) (contains_text es e) s c) m)
  ]

  -- The first rules that deny are the user's, for reading and for writing.
  pub Refused-read :
      (t : SeatbeltPolicyTranslator) (x : Expanded) (more e : Text)
      → contains_text x.deny_read e ≡ true
      → filter_matches k q (pattern_filter e) ≡ true
      → Refused (codes "file-read" ++ more) (seatbelt_denials t x)
  unfolding seatbelt_denials
  Refused-read t x more e c m =
      Refused-left (codes "file-read" ++ more) _
        (Refused-patterns (codes "file-read") more x.deny_read e c m)

  pub Refused-write :
      (t : SeatbeltPolicyTranslator) (x : Expanded) (more e : Text)
      → contains_text x.deny_write e ≡ true
      → filter_matches k q (pattern_filter e) ≡ true
      → Refused (codes "file-write" ++ more) (seatbelt_denials t x)
  unfolding seatbelt_denials
  Refused-write t x more e c m =
      let w = codes "file-write" ++ more in
      Refused-right w (map (deny_pattern (codes "file-read")) x.deny_read) (
        Refused-right w (moves_blocked t x.deny_read)
          (Refused-left w _ (Refused-patterns (codes "file-write") more x.deny_write e c m)))

  -- The mandatory rules follow them.
  pub Refused-mandatory :
      (t : SeatbeltPolicyTranslator) (x : Expanded) (more e : Text)
      → contains_text x.must_deny_write e ≡ true
      → filter_matches k q (pattern_filter e) ≡ true
      → Refused (codes "file-write" ++ more) (seatbelt_denials t x)
  unfolding seatbelt_denials
  Refused-mandatory t x more e c m =
      let w = codes "file-write" ++ more in
      Refused-right w (map (deny_pattern (codes "file-read")) x.deny_read) (
        Refused-right w (moves_blocked t x.deny_read) (
          Refused-right w (map (deny_pattern (codes "file-write")) x.deny_write) (
            Refused-left w _ (Refused-patterns (codes "file-write") more x.must_deny_write e c m))))
