-- ===== src/Platform/Seatbelt/Denied.antt =====
-- What a policy denies under the profile of sandbox/platform/seatbelt_translator_darwin.go.
use pmg.Prelude.{
  ◌⊎◌, inl, inr, ◌≡◌, refl, sym, ap, ◌∙◌, subst, Bool, true, false, ◌&&◌, ◌||◌, Option, none, some,
  or_else, Text, codes, strip_prefix, strip_suffix, is_empty, contains_text, any, any-append, map,
  List, [], ◌∷◌, ◌++◌, if◌then◌else◌, Bool-cases, inl, inr,
}
use pmg.Sandbox.{SandboxPolicy}
use pmg.SandboxUtil.{Env, contains_glob, expand_variables}
use pmg.SandboxUtil.Dangerous.{MandatoryDenyOptions}
use pmg.SandboxUtil.Dangerous.Secrets.{
  secret_files, IsProtected, NamesNone, secret-deny_write, hooks-deny_write,
}
use pmg.Paths.{clean, join_path}
use pmg.Platform.Bubblewrap.Mounts.{covers}
use pmg.Platform.Seatbelt.{ProfileRule, allow_rule, deny_rule}
use pmg.Platform.Seatbelt.Essential.{essential}
use pmg.Platform.Seatbelt.Verdicts.{
  Kernel, filter_matches, verdict, permits, grants, verdict-append, verdict-no_grants,
  verdict-refuses,
}
use pmg.Platform.Seatbelt.Denials.{
  OnlyDenies-grants, OnlyDenies-denials, OnlyDenies-map, Refused, Refused-any, Refused-read,
  Refused-mandatory, Refused-write, either_false,
}
use pmg.Platform.Seatbelt.Expansion.{expand_policy-some, expand_each-contains}
use pmg.Platform.Seatbelt.Translator.{
  SeatbeltPolicyTranslator, Expanded, pattern_filter, exec_filter, expand_each, expand_policy,
  must_deny, seatbelt_mandatory, allow_patterns, temp_rules, seatbelt_denials, seatbelt_filesystem,
  bind_rules, bind_all, outbound_rules, denies_all, seatbelt_network, seatbelt_process, ptys,
  pty_rules, profile, profile_of, seatbelt_translate,
}

neither : (a b : Bool) → (((a && false) && true) || (((b && false) && true) || false)) ≡ false
neither true true = refl
neither true false = refl
neither false true = refl
neither false false = refl

rules_of : Option (List ProfileRule) → List ProfileRule
rules_of none = []
rules_of (some rs) = rs

abbrev options_of : Env → SandboxPolicy → MandatoryDenyOptions
options_of env p = record {
  allow_git_config = or_else p.allow_git_config false;
  allow_read = or_else (expand_each env p.filesystem.allow_read) [];
  allow_write = or_else (expand_each env p.filesystem.allow_write) [];
}

module _ (k : Kernel) (q : Text) where
  -- The terminals, if they are asked for.
  abbrev pub is_pty : Bool → Bool
  is_pty b = b && any (filter_matches k q) ptys

  -- The rules for the network, for processes and for terminals that are not asked for.
  module _ (more : Text) where
    abbrev of_files : Text
    of_files = codes "file-" ++ more

    bind_all-grants : (as' : List Text) → any (grants k of_files q) (bind_all as') ≡ false
    unfolding bind_all strip_prefix strip_suffix
    bind_all-grants [] = refl
    bind_all-grants (a ∷ rest) = bind_all-grants rest

    outbound-grants : (p : SandboxPolicy) → any (grants k of_files q) (outbound_rules p) ≡ false
    unfolding strip_prefix strip_suffix
    outbound-grants p = elim (Bool-cases (is_empty p.network.allow_outbound)) [
      | inr e ↦ rw e refl
      | inl e ↦ elim (Bool-cases (denies_all p.network.deny_outbound)) [
        | inl d ↦ rw (e, d) refl
        | inr d ↦ rw (e, d) refl
      ]
    ]

    local-grants :
        (b : Bool)
        → any (grants k of_files q) (if b then bind_rules (codes "localhost:*") else []) ≡ false
    unfolding strip_prefix strip_suffix
    local-grants true = refl
    local-grants false = refl

    pub network-grants :
        (p : SandboxPolicy) → any (grants k of_files q) (seatbelt_network p) ≡ false
    unfolding seatbelt_network
    network-grants p =
        any-append (grants k of_files q) (outbound_rules p) _
        ∙ either_false _ _ (outbound-grants p) (
            any-append (grants k of_files q)
              (if or_else p.allow_network_bind false then bind_rules (codes "localhost:*") else [])
              _
            ∙ either_false _ _ (local-grants (or_else p.allow_network_bind false))
                (bind_all-grants p.network.allow_bind))

    exec-grants :
        (es : List Text)
        → any
            (grants k of_files q)
            (map (λ e. allow_rule (codes "process-exec*") (exec_filter e ∷ [])) es)
          ≡ false
    unfolding strip_prefix strip_suffix
    exec-grants [] = refl
    exec-grants (e ∷ es) = exec-grants es

    pub process-grants : (x : Expanded) → any (grants k of_files q) (seatbelt_process x) ≡ false
    unfolding seatbelt_process
    process-grants x =
        any-append (grants k of_files q)
          (map (λ e. allow_rule (codes "process-exec*") (exec_filter e ∷ [])) x.allow_exec) _
        ∙ either_false _ _ (exec-grants x.allow_exec) (
            OnlyDenies-grants k q of_files (
              OnlyDenies-map (λ e. deny_rule (codes "process-exec") (exec_filter e)) (λ e. refl)
                x.deny_exec))

    pub pty-grants :
        (b : Bool)
        → is_pty b ≡ false
        → any (grants k of_files q) (if b then pty_rules else []) ≡ false
    unfolding strip_prefix strip_suffix
    pty-grants false h = refl
    pty-grants true h = rw h (neither _ _)

  verdict-prefix :
      (access : Text) (ys : List ProfileRule)
      → ((b : Bool) → verdict k access q b ys ≡ false)
      → (b : Bool) (xs : List ProfileRule) → verdict k access q b (xs ++ ys) ≡ false
  verdict-prefix access ys h b xs = verdict-append k access q b xs ys ∙ h (verdict k access q b xs)

  -- A refusal among the rules that deny is not undone by what follows them.
  profile-refuses :
      (t : SeatbeltPolicyTranslator) (tmpdir : Text) (p : SandboxPolicy) (x : Expanded)
      (more : Text)
      → Refused k q (codes "file-" ++ more) (seatbelt_denials t x)
      → is_pty (or_else p.allow_pty false) ≡ false
      → permits k (codes "file-" ++ more) q (profile t tmpdir p x) ≡ false
  unfolding profile seatbelt_filesystem
  profile-refuses t tmpdir p x more r y =
      let w = codes "file-" ++ more in
      let d : (b : Bool) → verdict k w q b (seatbelt_denials t x) ≡ false = λ b.
        verdict-refuses k w q b (seatbelt_denials t x)
          (OnlyDenies-grants k q w (OnlyDenies-denials t x)) (Refused-any k q w r) in
      let rest =
        seatbelt_network p
        ++ (seatbelt_process x ++ (if or_else p.allow_pty false then pty_rules else [])) in
      let quiet =
        any-append (grants k w q) (seatbelt_network p) _
        ∙ either_false _ _ (network-grants more p) (
            any-append (grants k w q) (seatbelt_process x) _
            ∙ either_false _ _ (process-grants more x)
                (pty-grants more (or_else p.allow_pty false) y)) in
      verdict-append k w q false essential (seatbelt_filesystem t tmpdir p x ++ rest)
      ∙ verdict-append k w q (verdict k w q false essential) (seatbelt_filesystem t tmpdir p x) rest
      ∙ ap (λ b. verdict k w q b rest)
          (verdict-append k w q (verdict k w q false essential)
              (allow_patterns (codes "file-read*") x.allow_read) _
            ∙ verdict-prefix w
                (allow_patterns (codes "file-write*") x.allow_write ++ seatbelt_denials t x)
                (λ b.
                  verdict-prefix w (seatbelt_denials t x) d b
                    (allow_patterns (codes "file-write*") x.allow_write))
                _ (temp_rules tmpdir p))
      ∙ verdict-no_grants k w q rest quiet

  -- The profile that the translation returns.
  pub translated_profile :
      (t : SeatbeltPolicyTranslator) (tmpdir : Text) (p : SandboxPolicy) (o : Option Expanded)
      (rs : List ProfileRule)
      → profile_of t tmpdir p o ≡ some rs
      → (x : Expanded) × (o ≡ some x) × (rs ≡ profile t tmpdir p x)
  unfolding rules_of
  translated_profile t tmpdir p none rs h = cc h
  translated_profile t tmpdir p (some x) rs h = (x, refl, sym (ap rules_of h))

  -- A refusal among the rules that deny stands in what the translation returns.
  seatbelt_translate-refuses :
      (t : SeatbeltPolicyTranslator) (env : Env) (tmpdir : Text) (p : SandboxPolicy)
      (rs : List ProfileRule) (more : Text)
      → seatbelt_translate t env tmpdir p ≡ some rs
      → ((x : Expanded)
          → expand_policy t env p ≡ some x
          → Refused k q (codes "file-" ++ more) (seatbelt_denials t x))
      → is_pty (or_else p.allow_pty false) ≡ false
      → permits k (codes "file-" ++ more) q rs ≡ false
  unfolding seatbelt_translate
  seatbelt_translate-refuses t env tmpdir p rs more h f y =
      let (x, hx, same) = translated_profile t tmpdir p (expand_policy t env p) rs h in
      subst (λ l. permits k (codes "file-" ++ more) q l ≡ false) (sym same)
        (profile-refuses t tmpdir p x more (f x hx) y)

  -- A profile that the translation returns permits no kind of writing to what an entry of
  -- deny_write, with its variables expanded, matches (as a path with all below it, or as a regular
  -- expression), whatever else the policy allows. The rules are read as seatbelt reads them (the
  -- last that applies decides); a terminal that the policy asks for is excepted.
  pub seatbelt_translate-denied_write :
      (t : SeatbeltPolicyTranslator) (env : Env) (tmpdir : Text) (p : SandboxPolicy)
      (rs : List ProfileRule) (d e more : Text)
      → seatbelt_translate t env tmpdir p ≡ some rs
      → contains_text p.filesystem.deny_write d ≡ true
      → expand_variables env d ≡ some e
      → filter_matches k q (pattern_filter e) ≡ true
      → is_pty (or_else p.allow_pty false) ≡ false
      → permits k (codes "file-write" ++ more) q rs ≡ false
  seatbelt_translate-denied_write t env tmpdir p rs d e more h c v m y =
      seatbelt_translate-refuses t env tmpdir p rs (codes "write" ++ more) h
        (λ x hx.
          Refused-write k q t x more e
            (expand_each-contains env p.filesystem.deny_write x.deny_write d e
              (expand_policy-some t env p x hx).2 c v)
            m)
        y

  -- A profile that the translation returns permits no kind of reading of what an entry of
  -- deny_read, with its variables expanded, matches, though the system's directories are allowed
  -- before it, whatever else the policy allows. The rules are read as seatbelt reads them (the last
  -- that applies decides); a terminal that the policy asks for is excepted.
  pub seatbelt_translate-denied_read :
      (t : SeatbeltPolicyTranslator) (env : Env) (tmpdir : Text) (p : SandboxPolicy)
      (rs : List ProfileRule) (d e more : Text)
      → seatbelt_translate t env tmpdir p ≡ some rs
      → contains_text p.filesystem.deny_read d ≡ true
      → expand_variables env d ≡ some e
      → filter_matches k q (pattern_filter e) ≡ true
      → is_pty (or_else p.allow_pty false) ≡ false
      → permits k (codes "file-read" ++ more) q rs ≡ false
  seatbelt_translate-denied_read t env tmpdir p rs d e more h c v m y =
      seatbelt_translate-refuses t env tmpdir p rs (codes "read" ++ more) h
        (λ x hx.
          Refused-read k q t x more e
            (expand_each-contains env p.filesystem.deny_read x.deny_read d e
              (expand_policy-some t env p x hx).1 c v)
            m)
        y

  -- A path that no policy may write: the hooks, and a file with credentials that the allow list does
  -- not name, together with the other ones.
  abbrev pub IsMandatory : Env → SandboxPolicy → Text → Text → Type 0
  IsMandatory env p w d =
      (d ≡ clean (join_path w (codes ".git/hooks")))
      ⊎ ((f : Text) × (contains_text secret_files f ≡ true)
          × NamesNone env w (or_else (expand_each env p.filesystem.allow_write) [])
          × (d ≡ clean (join_path w f)))

  mandatory-contains :
      (env : Env) (p : SandboxPolicy) (w d : Text)
      → IsProtected env w
      → IsMandatory env p w d
      → contains_text (seatbelt_mandatory env p).deny_write d ≡ true
  unfolding seatbelt_mandatory
  mandatory-contains env p w d r (inl e) =
      subst (λ u. contains_text (seatbelt_mandatory env p).deny_write u ≡ true) (sym e)
        (hooks-deny_write env w (options_of env p) r)
  mandatory-contains env p w d r (inr (f, s, n, e)) =
      subst (λ u. contains_text (seatbelt_mandatory env p).deny_write u ≡ true) (sym e)
        (secret-deny_write env w (options_of env p) f r s n)

  -- With the blocking of dangerous files on, a profile that the translation returns permits no
  -- kind of writing at or below the git hooks of a protected directory (the working directory, or
  -- a home directory that is set), nor at or below one of the fourteen files and directories with
  -- credentials in it, if no entry of allow_write, expanded, is the path of such a file. The path
  -- is expanded, without a wildcard. The rules are read as seatbelt reads them (the last that
  -- applies decides); a terminal that the policy asks for is excepted.
  pub seatbelt_translate-mandatory_write :
      (t : SeatbeltPolicyTranslator) (env : Env) (tmpdir : Text) (p : SandboxPolicy)
      (rs : List ProfileRule) (w d e more : Text)
      → seatbelt_translate t env tmpdir p ≡ some rs
      → t.enable_dangerous_file_blocking ≡ true
      → IsProtected env w
      → IsMandatory env p w d
      → expand_variables env d ≡ some e
      → contains_glob e ≡ false
      → covers e q ≡ true
      → is_pty (or_else p.allow_pty false) ≡ false
      → permits k (codes "file-write" ++ more) q rs ≡ false
  seatbelt_translate-mandatory_write t env tmpdir p rs w d e more h b r m v g o y =
      seatbelt_translate-refuses t env tmpdir p rs (codes "write" ++ more) h
        (λ x hx.
          Refused-mandatory k q t x more e
            (expand_each-contains env (must_deny t (seatbelt_mandatory env p).deny_write)
              x.must_deny_write d e (expand_policy-some t env p x hx).3
              (rw b (mandatory-contains env p w d r m)) v)
            (rw g o))
        y
