-- ===== src/Platform/Seatbelt/Expansion.antt =====
-- What the translation of sandbox/platform/seatbelt_translator_darwin.go has expanded where it returns
-- a profile.
use pmg.Prelude.{
  ◌≡◌, refl, sym, ap, ◌∙◌, subst, Bool, true, false, ◌||◌, Option, none, some, Text, ◌=ₜ◌,
  contains_text, text_eq_iff, text_eq_refl, Bool-cases, inl, inr, List, [], ◌∷◌,
}
use pmg.Sandbox.{SandboxPolicy}
use pmg.SandboxUtil.{Env, expand_variables}
use pmg.Platform.Seatbelt.Translator.{
  SeatbeltPolicyTranslator, Expanded, Lists, both_expanded, assembled, with_first, expand_each,
  expand_policy, must_deny, seatbelt_mandatory,
}

left : {A B : Type 0} → Option (A × B) → Option A
left none = none
left (some (x, y)) = some x

right : {A B : Type 0} → Option (A × B) → Option B
right none = none
right (some (x, y)) = some y

both_expanded-some :
    {A B : Type 0} (o : Option A) (o' : Option B) (a : A) (b : B)
    → both_expanded o o' ≡ some (a, b)
    → (o ≡ some a) × (o' ≡ some b)
unfolding left right
both_expanded-some none o' a b h = cc h
both_expanded-some (some a') none a b h = cc h
both_expanded-some (some a') (some b') a b h = (ap left h, ap right h)

unpacked : Option Expanded → Option ((Lists × Lists) × (Lists × Lists))
unpacked none = none
unpacked (some x) = some (
  ((x.allow_read, x.allow_write), (x.deny_read, x.deny_write)),
  ((x.must_deny_write, x.must_deny_read), (x.allow_exec, x.deny_exec)),
)

assembled-some :
    (o : Option ((Lists × Lists) × (Lists × Lists))) (x : Expanded)
    → assembled o ≡ some x
    → o ≡ unpacked (some x)
unfolding unpacked
assembled-some none x h = cc h
assembled-some (some (((a, b), (c, d)), ((e, f), (g, i)))) x h = ap unpacked h

-- What was expanded, where all could be.
pub expand_policy-some :
    (t : SeatbeltPolicyTranslator) (env : Env) (p : SandboxPolicy) (x : Expanded)
    → expand_policy t env p ≡ some x
    → (expand_each env p.filesystem.allow_write ≡ some x.allow_write)
      × (expand_each env p.filesystem.deny_read ≡ some x.deny_read)
      × (expand_each env p.filesystem.deny_write ≡ some x.deny_write)
      × (expand_each env (must_deny t (seatbelt_mandatory env p).deny_write)
          ≡ some x.must_deny_write)
unfolding expand_policy unpacked
expand_policy-some t env p x h =
    let h1 = both_expanded-some _ _ _ _ (assembled-some _ x h) in
    let h2 = both_expanded-some _ _ _ _ h1.0 in
    let h3 = both_expanded-some _ _ _ _ h2.1 in
    (
      (both_expanded-some _ _ _ _ h2.0).1,
      h3.0,
      h3.1,
      (both_expanded-some _ _ _ _ (both_expanded-some _ _ _ _ h1.1).0).0,
    )

pub expand_policy-deny_exec :
    (t : SeatbeltPolicyTranslator) (env : Env) (p : SandboxPolicy) (x : Expanded)
    → expand_policy t env p ≡ some x
    → expand_each env p.process.deny_exec ≡ some x.deny_exec
unfolding expand_policy unpacked
expand_policy-deny_exec t env p x h =
    (both_expanded-some _ _ _ _
      (both_expanded-some _ _ _ _ (both_expanded-some _ _ _ _ (assembled-some _ x h)).1).1).1

or_none : Option (List Text) → List Text
or_none none = []
or_none (some es) = es

-- The first pattern, and the rest.
with_first-some :
    (o : Option Text) (o' : Option (List Text)) (es : List Text)
    → with_first o o' ≡ some es
    → (e : Text) × (es' : List Text) × (o ≡ some e) × (o' ≡ some es') × (es ≡ e ∷ es')
unfolding or_none
with_first-some none o' es h = cc h
with_first-some (some e) none es h = cc h
with_first-some (some e) (some es') es h = (e, es', refl, refl, sym (ap or_none h))

one_of_two : (a b : Bool) → a ≡ false → (a || b) ≡ true → b ≡ true
one_of_two a b e h = subst (λ u. (u || b) ≡ true) e h

or_true : (a : Bool) → (a || true) ≡ true
or_true true = refl
or_true false = refl

text_of : Option Text → Text
text_of none = []
text_of (some e) = e

-- What a pattern is expanded to is among what all are.
pub expand_each-contains :
    (env : Env) (ps es : List Text) (d e : Text)
    → expand_each env ps ≡ some es
    → contains_text ps d ≡ true
    → expand_variables env d ≡ some e
    → contains_text es e ≡ true
unfolding expand_each contains_text text_of
expand_each-contains env [] es d e h c x = cc c
expand_each-contains env (p ∷ ps) es d e h c x =
    let (f, fs, hf, hs, q) = with_first-some (expand_variables env p) (expand_each env ps) es h in
    subst (λ l. contains_text l e ≡ true) (sym q)
      (elim (Bool-cases (p =ₜ d)) [
        | inl s ↦
            let same : f ≡ e =
              ap text_of (sym hf ∙ ap (expand_variables env) ((text_eq_iff p d).0 s) ∙ x) in
            subst (λ u. (u =ₜ e || contains_text fs e) ≡ true) (sym same) (rw (text_eq_refl e) refl)
        | inr s ↦
            rw
              (expand_each-contains env ps fs d e hs (one_of_two (p =ₜ d) (contains_text ps d) s c)
                x)
              (or_true (f =ₜ e))
      ])
