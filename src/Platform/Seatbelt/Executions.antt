-- ===== src/Platform/Seatbelt/Executions.antt =====
-- What the profile of sandbox/platform/seatbelt_translator_darwin.go lets a program execute.
use pmg.Prelude.{
  ◌≡◌, refl, ap, ◌∙◌, Bool, true, false, not, ◌&&◌, ◌||◌, some, or_else, Text, codes, strip_prefix,
  strip_suffix, any, map, List, [], ◌∷◌, ◌++◌, if◌then◌else◌,
}
use pmg.Sandbox.{SandboxPolicy}
use pmg.SandboxUtil.{Env}
use pmg.Platform.Seatbelt.{ProfileRule, allow_rule, deny_rule}
use pmg.Platform.Seatbelt.Essential.{essential}
use pmg.Platform.Seatbelt.Verdicts.{
  Kernel, filter_matches, applies, verdict, permits, verdict-append,
}
use pmg.Platform.Seatbelt.Translator.{
  SeatbeltPolicyTranslator, Expanded, exec_filter, expand_each, expand_policy, seatbelt_filesystem,
  seatbelt_network, seatbelt_process, pty_rules, profile, seatbelt_translate,
}
use pmg.Platform.Seatbelt.Denied.{translated_profile}
use pmg.Platform.Seatbelt.Expansion.{expand_policy-deny_exec}
use pmg.Platform.Seatbelt.Unrelated.{
  exec_op, Unrelated, unrelated, another, Unrelated-filesystem, Unrelated-network,
  Unrelated-terminals,
}

module _ (k : Kernel) (q : Text) where
  not_about : (a f g b : Bool) → a ≡ false → (if a && f then g else b) ≡ b
  not_about a f g b h = rw h refl

  verdict-Unrelated :
      (b : Bool) {rs : List ProfileRule} → Unrelated rs → verdict k exec_op q b rs ≡ b
  unfolding verdict
  verdict-Unrelated b unrelated = refl
  verdict-Unrelated b (another {r} {rs} e u) =
      ap (λ c. verdict k exec_op q c rs) (not_about _ _ r.allows b e) ∙ verdict-Unrelated b u

  either_way : (c : Bool) → (if c then true else true) ≡ true
  either_way true = refl
  either_way false = refl

  verdict-allowed :
      (es : List Text)
      → verdict k exec_op q true
          (map (λ e. allow_rule (codes "process-exec*") (exec_filter e ∷ [])) es)
        ≡ true
  unfolding verdict
  verdict-allowed [] = refl
  verdict-allowed (e ∷ es) =
      ap
        (λ c.
          verdict k exec_op q c
            (map (λ e. allow_rule (codes "process-exec*") (exec_filter e ∷ [])) es))
        (either_way (applies k exec_op q (allow_rule (codes "process-exec*") (exec_filter e ∷ []))))
      ∙ verdict-allowed es

  step : (b c d : Bool) → ((if c || false then false else b) && not d) ≡ (b && not (c || d))
  step true true d = refl
  step true false d = refl
  step false true d = refl
  step false false d = refl

  verdict-denied :
      (b : Bool) (es : List Text)
      → verdict k exec_op q b (map (λ e. deny_rule (codes "process-exec") (exec_filter e)) es)
        ≡ (b && not (any (λ e. filter_matches k q (exec_filter e)) es))
  unfolding verdict strip_prefix strip_suffix
  verdict-denied true [] = refl
  verdict-denied false [] = refl
  verdict-denied b (e ∷ es) =
      verdict-denied (if filter_matches k q (exec_filter e) || false then false else b) es
      ∙ step b (filter_matches k q (exec_filter e))
          (any (λ e. filter_matches k q (exec_filter e)) es)

  verdict-essential : verdict k exec_op q false essential ≡ true
  unfolding verdict strip_prefix strip_suffix
  verdict-essential = refl

  -- Whether the policy denies the program.
  abbrev pub denied_exec : List Text → Bool
  denied_exec es = any (λ e. filter_matches k q (exec_filter e)) es

  verdict-process :
      (x : Expanded) → verdict k exec_op q true (seatbelt_process x) ≡ not (denied_exec x.deny_exec)
  unfolding seatbelt_process
  verdict-process x =
      verdict-append k exec_op q true
        (map (λ e. allow_rule (codes "process-exec*") (exec_filter e ∷ [])) x.allow_exec) _
      ∙ ap
          (λ b.
            verdict k exec_op q b
              (map (λ e. deny_rule (codes "process-exec") (exec_filter e)) x.deny_exec))
          (verdict-allowed x.allow_exec)
      ∙ verdict-denied true x.deny_exec

  -- Rules that are not about it make no difference in front of others.
  verdict-skip :
      (b : Bool) (rs ss : List ProfileRule)
      → Unrelated rs
      → verdict k exec_op q b (rs ++ ss) ≡ verdict k exec_op q b ss
  verdict-skip b rs ss u =
      verdict-append k exec_op q b rs ss
      ∙ ap (λ c. verdict k exec_op q c ss) (verdict-Unrelated b u)

  verdict-profile :
      (t : SeatbeltPolicyTranslator) (tmpdir : Text) (p : SandboxPolicy) (x : Expanded)
      → permits k exec_op q (profile t tmpdir p x) ≡ not (denied_exec x.deny_exec)
  unfolding profile
  verdict-profile t tmpdir p x =
      let ptty = if or_else p.allow_pty false then pty_rules else [] in
      let net = seatbelt_network p ++ (seatbelt_process x ++ ptty) in
      verdict-append k exec_op q false essential (seatbelt_filesystem t tmpdir p x ++ net)
      ∙ ap (λ b. verdict k exec_op q b (seatbelt_filesystem t tmpdir p x ++ net)) verdict-essential
      ∙ verdict-skip true (seatbelt_filesystem t tmpdir p x) net (Unrelated-filesystem t tmpdir p x)
      ∙ verdict-skip true (seatbelt_network p) (seatbelt_process x ++ ptty) (Unrelated-network p)
      ∙ verdict-append k exec_op q true (seatbelt_process x) ptty
      ∙ verdict-Unrelated (verdict k exec_op q true (seatbelt_process x))
          (Unrelated-terminals (or_else p.allow_pty false))
      ∙ verdict-process x

  -- Under a returned profile the operation process-exec is permitted on a program exactly if no
  -- entry of deny_exec, with its variables expanded, matches it; the entries of allow_exec make no
  -- difference.
  pub seatbelt_translate-exec :
      (t : SeatbeltPolicyTranslator) (env : Env) (tmpdir : Text) (p : SandboxPolicy)
      (rs : List ProfileRule)
      → seatbelt_translate t env tmpdir p ≡ some rs
      → (es : List Text) × (expand_each env p.process.deny_exec ≡ some es)
        × (permits k (codes "process-exec") q rs ≡ not (denied_exec es))
  unfolding seatbelt_translate
  seatbelt_translate-exec t env tmpdir p rs h =
      let (x, hx, same) = translated_profile k q t tmpdir p (expand_policy t env p) rs h in
      (
        x.deny_exec,
        expand_policy-deny_exec t env p x hx,
        ap (permits k exec_op q) same ∙ verdict-profile t tmpdir p x,
      )
