-- ===== src/SandboxAllow/Overrides.antt =====
-- sandbox/executor/apply.go: the overrides applied to a policy.
use pmg.Prelude.{
  ◌≡◌, refl, sym, ap, ◌∙◌, subst, Bool, true, false, ◌&&◌, ◌||◌, not, some, Text, ◌=ₜ◌,
  contains_text, text_eq_iff, any, List, [], ◌∷◌, ◌++◌, if◌then◌else◌, Bool-cases, inl, inr, arith,
}
use pmg.Sandbox.{SandboxPolicy}
use pmg.SandboxAllow.{
  SandboxAllowType, sandbox_allow_read, sandbox_allow_write, sandbox_allow_exec,
  sandbox_allow_net_connect, sandbox_allow_net_bind, SandboxAllowOverride,
}

unfoldable pub remove_exact_match : List Text → Text → List Text
remove_exact_match [] value = []
remove_exact_match (entry ∷ entries) value =
    let rest = remove_exact_match entries value in if entry =ₜ value then rest else entry ∷ rest

-- The body of the loop: allow lists grow, and exact matches leave the deny list of the same kind.
unfoldable pub apply_override : SandboxAllowOverride → SandboxPolicy → SandboxPolicy
unfolding remove_exact_match
apply_override o p = elim o.allow_type [
  | sandbox_allow_read ↦ record p {
    filesystem = record p.filesystem {
      allow_read = p.filesystem.allow_read ++ o.value ∷ [];
      deny_read = remove_exact_match p.filesystem.deny_read o.value;
    };
  }
  | sandbox_allow_write ↦ record p {
    filesystem = record p.filesystem {
      allow_write = p.filesystem.allow_write ++ o.value ∷ [];
      deny_write = remove_exact_match p.filesystem.deny_write o.value;
    };
  }
  | sandbox_allow_exec ↦ record p {
    process = record p.process {
      allow_exec = p.process.allow_exec ++ o.value ∷ [];
      deny_exec = remove_exact_match p.process.deny_exec o.value;
    };
  }
  | sandbox_allow_net_connect ↦ record p {
    network = record p.network { allow_outbound = p.network.allow_outbound ++ o.value ∷ [] };
  }
  | sandbox_allow_net_bind ↦ record p {
    network = record p.network { allow_bind = p.network.allow_bind ++ o.value ∷ [] };
    allow_network_bind = some true;
  }
]

unfoldable pub apply_runtime_overrides : List SandboxAllowOverride → SandboxPolicy → SandboxPolicy
unfolding apply_override
apply_runtime_overrides [] p = p
apply_runtime_overrides (o ∷ os) p = apply_runtime_overrides os (apply_override o p)

text_eq_comm : (s t : Text) → s =ₜ t ≡ false → t =ₜ s ≡ false
text_eq_comm s t h = elim (Bool-cases (t =ₜ s)) [
  | inl e ↦
      subst (λ u. u =ₜ s ≡ false) (sym ((text_eq_iff t s).0 e))
        (subst (λ u. s =ₜ u ≡ false) ((text_eq_iff t s).0 e) h)
  | inr e ↦ e
]

removed_same : (b c : Bool) → (c && not b) ≡ ((b || c) && not b)
removed_same true true = refl
removed_same true false = refl
removed_same false c = refl

removed_other : (c b : Bool) → b ≡ false → (true || (c && not b)) ≡ ((true || c) && not b)
removed_other c true h = ground (arith, h)
removed_other c false h = refl

contains-remove_exact_match :
    (es : List Text) (v x : Text)
    → contains_text (remove_exact_match es v) x ≡ (contains_text es x && not (v =ₜ x))
unfolding remove_exact_match contains_text
contains-remove_exact_match [] v x = refl
contains-remove_exact_match (e ∷ es) v x = elim (Bool-cases (e =ₜ v)) [
  | inl q ↦ rw q (
      contains-remove_exact_match es v x
      ∙ subst
          (λ u.
            (contains_text es x && not (v =ₜ x)) ≡ ((u =ₜ x || contains_text es x) && not (v =ₜ x)))
          (sym ((text_eq_iff e v).0 q)) (removed_same (v =ₜ x) (contains_text es x)))
  | inr q ↦
      rw (q, contains-remove_exact_match es v x)
        (elim (Bool-cases (e =ₜ x)) [
          | inl r ↦ rw r (
              removed_other (contains_text es x) (v =ₜ x)
                (subst (λ u. v =ₜ u ≡ false) ((text_eq_iff e x).0 r) (text_eq_comm e v q)))
          | inr r ↦ rw r refl
        ])
]

abbrev is_write : SandboxAllowType → Bool
is_write sandbox_allow_write = true
is_write sandbox_allow_read = false
is_write sandbox_allow_exec = false
is_write sandbox_allow_net_connect = false
is_write sandbox_allow_net_bind = false

abbrev pub names_write : Text → SandboxAllowOverride → Bool
names_write x o = is_write o.allow_type && o.value =ₜ x

and_true : (b : Bool) → b ≡ (b && true)
and_true true = refl
and_true false = refl

or_false : (b : Bool) → b ≡ (b || false)
or_false true = refl
or_false false = refl

apply_override-denies :
    (t : SandboxAllowType) (v r : Text) (p : SandboxPolicy) (x : Text)
    → contains_text
        (apply_override (record { allow_type = t; value = v; raw = r }) p).filesystem.deny_write
        x
      ≡ (contains_text p.filesystem.deny_write x && not (is_write t && v =ₜ x))
unfolding apply_override
apply_override-denies sandbox_allow_read v r p x =
    and_true (contains_text p.filesystem.deny_write x)
apply_override-denies sandbox_allow_write v r p x =
    contains-remove_exact_match p.filesystem.deny_write v x
apply_override-denies sandbox_allow_exec v r p x =
    and_true (contains_text p.filesystem.deny_write x)
apply_override-denies sandbox_allow_net_connect v r p x =
    and_true (contains_text p.filesystem.deny_write x)
apply_override-denies sandbox_allow_net_bind v r p x =
    and_true (contains_text p.filesystem.deny_write x)

contains-append :
    (es : List Text) (v x : Text) → contains_text (es ++ v ∷ []) x ≡ (contains_text es x || v =ₜ x)
unfolding contains_text
contains-append [] v x = sym (or_false (v =ₜ x))
contains-append (e ∷ es) v x = rw (contains-append es v x) (ground arith)

apply_override-allows :
    (t : SandboxAllowType) (v r : Text) (p : SandboxPolicy) (x : Text)
    → contains_text
        (apply_override (record { allow_type = t; value = v; raw = r }) p).filesystem.allow_write
        x
      ≡ (contains_text p.filesystem.allow_write x || (is_write t && v =ₜ x))
unfolding apply_override
apply_override-allows sandbox_allow_read v r p x =
    or_false (contains_text p.filesystem.allow_write x)
apply_override-allows sandbox_allow_write v r p x = contains-append p.filesystem.allow_write v x
apply_override-allows sandbox_allow_exec v r p x =
    or_false (contains_text p.filesystem.allow_write x)
apply_override-allows sandbox_allow_net_connect v r p x =
    or_false (contains_text p.filesystem.allow_write x)
apply_override-allows sandbox_allow_net_bind v r p x =
    or_false (contains_text p.filesystem.allow_write x)

both_denied : (c a b : Bool) → ((c && not a) && not b) ≡ (c && not (a || b))
both_denied true true b = refl
both_denied true false b = refl
both_denied false a b = refl

or_assoc : (c a b : Bool) → ((c || a) || b) ≡ (c || (a || b))
or_assoc true a b = refl
or_assoc false a b = refl

-- Overrides of writing end the denials that they name and no others, and allow what they name.
pub apply_runtime_overrides_lem :
    (os : List SandboxAllowOverride) (p : SandboxPolicy) (x : Text)
    → (contains_text (apply_runtime_overrides os p).filesystem.deny_write x
        ≡ (contains_text p.filesystem.deny_write x && not (any (names_write x) os)))
      × (contains_text (apply_runtime_overrides os p).filesystem.allow_write x
          ≡ (contains_text p.filesystem.allow_write x || any (names_write x) os))
unfolding apply_runtime_overrides
apply_runtime_overrides_lem [] p x = (
  and_true (contains_text p.filesystem.deny_write x),
  or_false (contains_text p.filesystem.allow_write x),
)
apply_runtime_overrides_lem (o ∷ os) p x =
    let rest = apply_runtime_overrides_lem os (apply_override o p) x in
    (
      rest.0
          ∙ ap (λ b. b && not (any (names_write x) os))
              (apply_override-denies o.allow_type o.value o.raw p x)
          ∙ both_denied (contains_text p.filesystem.deny_write x) (names_write x o)
              (any (names_write x) os),
      rest.1
          ∙ ap (λ b. b || any (names_write x) os)
              (apply_override-allows o.allow_type o.value o.raw p x)
          ∙ or_assoc (contains_text p.filesystem.allow_write x) (names_write x o)
              (any (names_write x) os),
    )
