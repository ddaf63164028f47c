-- ===== src/Shellwords/Modes/Agree.antt =====
-- The loop of `Split` in internal/shellwords/shellwords.go and the automaton agree on every text.
use pmg.Prelude.{
  ℕ, ◌≡◌, refl, ◌∙◌, inl, inr, Bool, true, false, List, [], ◌∷◌, ◌++◌, Text, ◌==◌, Option, none,
  some, is_some, or_else, Bool-cases, ==_iff, arith,
}
use pmg.Shellwords.{
  State, loop, split, finish, step_escaped, step_single, step_bare, escapes_in_double,
}
use pmg.Shellwords.Steps.{
  loop-nil, loop-escaped, loop-single, loop-bare, loop-double_close, loop-double_escape,
  loop-double_keep, loop-double_dangling, loop-double_plain,
}
use pmg.Shellwords.Modes.{
  Mode, bare, escape, single, double, double_escape, Config, run, initial, put, begin, read,
}

-- The flags that stand for a mode.
abbrev flag_single : Mode → Bool
flag_single single = true
flag_single _ = false

abbrev flag_double : Mode → Bool
flag_double double = true
flag_double _ = false

abbrev flag_escaped : Mode → Bool
flag_escaped escape = true
flag_escaped _ = false

abbrev encode : Mode → Option Text → List Text → State
encode m t ts = record {
  out = ts;
  buf = or_else t [];
  in_single = flag_single m;
  in_double = flag_double m;
  escaped = flag_escaped m;
  has_token = is_some t;
}

abbrev config : Mode → Option Text → List Text → Config
config m t ts = record { mode = m; token = t; done = ts }

escapes_not_quote : (c : ℕ) → escapes_in_double c ≡ false → (c == b'"') ≡ false
unfolding escapes_in_double
escapes_not_quote c h = ground arith

escapes_not_backslash : (c : ℕ) → escapes_in_double c ≡ false → (c == b'\\') ≡ false
unfolding escapes_in_double
escapes_not_backslash c h = ground arith

-- The modes that have flags: `double_escape` only stands for a look ahead.
abbrev HasFlags : Mode → Type 0
HasFlags double_escape = ⊥
HasFlags _ = Unit

-- The agreement after the first byte, at every mode: the induction hypothesis.
abbrev Agrees : Text → Type 0
Agrees s =
    (m : Mode) (t : Option Text) (ts : List Text)
    → HasFlags m
    → loop s (encode m t ts) ≡ run (config m t ts) s

bare-Agrees :
    (c : ℕ) (s : Text) (t : Option Text) (ts : List Text)
    → Agrees s
    → loop s (step_bare c (encode bare t ts)) ≡ run (read bare t ts c) s
unfolding step_bare
bare-Agrees c s none ts ih = ground (
  arith,
  ih single (some []) ts tt,
  ih double (some []) ts tt,
  ih escape none ts tt,
  ih bare none ts tt,
  ih bare (some (c ∷ [])) ts tt,
)
bare-Agrees c s (some t) ts ih = ground (
  arith,
  ih single (some t) ts tt,
  ih double (some t) ts tt,
  ih escape (some t) ts tt,
  ih bare none (ts ++ t ∷ []) tt,
  ih bare (some (t ++ c ∷ [])) ts tt,
)

single-Agrees :
    (c : ℕ) (s : Text) (t : Option Text) (ts : List Text)
    → Agrees s
    → loop s (step_single c (encode single t ts)) ≡ run (read single t ts c) s
unfolding step_single
single-Agrees c s none ts ih =
    ground (arith, ih bare (some []) ts tt, ih single (some (c ∷ [])) ts tt)
single-Agrees c s (some t) ts ih =
    ground (arith, ih bare (some t) ts tt, ih single (some (t ++ c ∷ [])) ts tt)

escaped-Agrees :
    (c : ℕ) (s : Text) (t : Option Text) (ts : List Text)
    → Agrees s
    → loop s (step_escaped c (encode escape t ts)) ≡ run (read escape t ts c) s
unfolding step_escaped
escaped-Agrees c s none ts ih = ih bare (some (c ∷ [])) ts tt
escaped-Agrees c s (some t) ts ih = ih bare (some (t ++ c ∷ [])) ts tt

finish-Agrees :
    (m : Mode) (t : Option Text) (ts : List Text)
    → HasFlags m
    → finish (encode m t ts) ≡ run (config m t ts) []
unfolding finish
finish-Agrees bare none ts h = refl
finish-Agrees bare (some t) ts h = refl
finish-Agrees escape t ts h = refl
finish-Agrees single t ts h = refl
finish-Agrees double t ts h = refl
finish-Agrees double_escape t ts h = absurd h

-- A byte in double quotes that is neither the quote nor a backslash joins the token.
plain-Agrees :
    (c : ℕ) (s : Text) (t : Option Text) (ts : List Text)
    → (c == b'"') ≡ false
    → (c == b'\\') ≡ false
    → Agrees s
    → loop (c ∷ s) (encode double t ts) ≡ run (config double (put c t) ts) s
plain-Agrees c s none ts p q ih =
    loop-double_plain _ refl refl refl c s p q ∙ ih double (some (c ∷ [])) ts tt
plain-Agrees c s (some t) ts p q ih =
    loop-double_plain _ refl refl refl c s p q ∙ ih double (some (t ++ c ∷ [])) ts tt

quote-Agrees :
    (s : Text) (t : Option Text) (ts : List Text)
    → Agrees s
    → loop (b'"' ∷ s) (encode double t ts) ≡ run (config bare (begin t) ts) s
quote-Agrees s none ts ih = loop-double_close _ refl refl refl s ∙ ih bare (some []) ts tt
quote-Agrees s (some t) ts ih = loop-double_close _ refl refl refl s ∙ ih bare (some t) ts tt

kept-Agrees :
    (n : ℕ) (s : Text) (t : Option Text) (ts : List Text)
    → escapes_in_double n ≡ false
    → Agrees s
    → loop (b'\\' ∷ n ∷ s) (encode double t ts) ≡ run (config double (put n (put b'\\' t)) ts) s
kept-Agrees n s none ts h ih =
    loop-double_keep _ refl refl refl n s h
    ∙ plain-Agrees n s (some (b'\\' ∷ [])) ts (escapes_not_quote n h) (escapes_not_backslash n h) ih
kept-Agrees n s (some t) ts h ih =
    loop-double_keep _ refl refl refl n s h
    ∙ plain-Agrees n s (some (t ++ b'\\' ∷ [])) ts (escapes_not_quote n h)
        (escapes_not_backslash n h) ih

skipped-Agrees :
    (n : ℕ) (s : Text) (t : Option Text) (ts : List Text)
    → escapes_in_double n ≡ true
    → Agrees s
    → loop (b'\\' ∷ n ∷ s) (encode double t ts) ≡ run (config double (put n t) ts) s
skipped-Agrees n s none ts h ih =
    loop-double_escape _ refl refl refl n s h ∙ ih double (some (n ∷ [])) ts tt
skipped-Agrees n s (some t) ts h ih =
    loop-double_escape _ refl refl refl n s h ∙ ih double (some (t ++ n ∷ [])) ts tt

backslash-Agrees :
    (n : ℕ) (s : Text) (t : Option Text) (ts : List Text)
    → Agrees s
    → loop (b'\\' ∷ n ∷ s) (encode double t ts) ≡ run (config double_escape t ts) (n ∷ s)
backslash-Agrees n s t ts ih = elim (Bool-cases (escapes_in_double n)) [
  | inl e ↦ rw e (skipped-Agrees n s t ts e ih)
  | inr e ↦ rw e (kept-Agrees n s t ts e ih)
]

-- The agreement after the second byte, if there is one.
abbrev AgreesBeyond : Text → Type 0
AgreesBeyond [] = Unit
AgreesBeyond (n ∷ r) = Agrees r

after_backslash-Agrees :
    (s : Text) (t : Option Text) (ts : List Text)
    → AgreesBeyond s
    → loop (b'\\' ∷ s) (encode double t ts) ≡ run (config double_escape t ts) s
after_backslash-Agrees [] t ts h = loop-double_dangling _ refl refl refl
after_backslash-Agrees (n ∷ r) t ts h = backslash-Agrees n r t ts h

double-Agrees :
    (c : ℕ) (s : Text) (t : Option Text) (ts : List Text)
    → Agrees s
    → AgreesBeyond s
    → loop (c ∷ s) (encode double t ts) ≡ run (config double t ts) (c ∷ s)
double-Agrees c s t ts ih ih2 = elim (Bool-cases (c == b'"')) [
  | inl q ↦ rw ((==_iff c b'"').0 q) (quote-Agrees s t ts ih)
  | inr q ↦ elim (Bool-cases (c == b'\\')) [
    | inl b ↦ rw ((==_iff c b'\\').0 b) (after_backslash-Agrees s t ts ih2)
    | inr b ↦ rw (q, b) (plain-Agrees c s t ts q b ih)
  ]
]

loop-run : (s : Text) → Agrees s
loop-run [] m t ts h = loop-nil _ ∙ finish-Agrees m t ts h
loop-run (c ∷ s) bare t ts h = loop-bare c s _ refl refl refl ∙ bare-Agrees c s t ts (loop-run s)
loop-run (c ∷ s) escape t ts h = loop-escaped c s _ refl ∙ escaped-Agrees c s t ts (loop-run s)
loop-run (c ∷ s) single t ts h = loop-single c s _ refl refl ∙ single-Agrees c s t ts (loop-run s)
loop-run (c ∷ []) double t ts h = double-Agrees c [] t ts (loop-run []) tt
loop-run (c ∷ n ∷ r) double t ts h = double-Agrees c (n ∷ r) t ts (loop-run (n ∷ r)) (loop-run r)
loop-run (c ∷ s) double_escape t ts h = absurd h

-- `Split` computes what the automaton computes from the bare mode with no token.
pub split-run : (s : Text) → split s ≡ run initial s
unfolding split
split-run s = loop-run s bare none [] tt
