-- ===== src/Platform/Seatbelt/Unrelated.antt =====
-- Rules of sandbox/platform/seatbelt_translator_darwin.go that are about files and the network, not
-- about executing a program.
use pmg.Prelude.{
  ◌≡◌, refl, Bool, true, false, or_else, Text, codes, strip_prefix, strip_suffix, is_empty,
  has_suffix, any, map, List, [], ◌∷◌, ◌++◌, if◌then◌else◌, Bool-cases, inl, inr,
}
use pmg.Sandbox.{SandboxPolicy}
use pmg.SandboxUtil.{contains_glob}
use pmg.Platform.Seatbelt.{
  Filter, literal_path, subpath, ProfileRule, allow_rule, get_tmpdir_parent, no_unlink, block_move,
  get_ancestor_directories, extract_base_dir, generate_move_blocking_rules,
}
use pmg.Platform.Seatbelt.Verdicts.{is_about}
use pmg.Platform.Seatbelt.Translator.{
  SeatbeltPolicyTranslator, Expanded, deny_pattern, allow_patterns, parent_dir_if_needed,
  moves_blocked, temp_rules, seatbelt_denials, seatbelt_filesystem, bind_rules, bind_all,
  denies_all, outbound_rules, seatbelt_network, pty_rules,
}

abbrev pub exec_op : Text
exec_op = codes "process-exec"

-- No rule of the list is about executing a program.
pub data Unrelated : List ProfileRule → Type 0 where
  unrelated : Unrelated []
  another :
      {r : ProfileRule} {rs : List ProfileRule}
      → any (is_about exec_op) r.operations ≡ false
      → Unrelated rs
      → Unrelated (r ∷ rs)

Unrelated-append : {rs ss : List ProfileRule} → Unrelated rs → Unrelated ss → Unrelated (rs ++ ss)
Unrelated-append unrelated s = s
Unrelated-append (another e r) s = another e (Unrelated-append r s)

Unrelated-map :
    {A : Type 0} (f : A → ProfileRule)
    → ((a : A) → any (is_about exec_op) (f a).operations ≡ false)
    → (es : List A) → Unrelated (map f es)
Unrelated-map f h [] = unrelated
Unrelated-map f h (e ∷ es) = another (h e) (Unrelated-map f h es)

Unrelated-unlink :
    (d : Text) → Unrelated (map (λ d. no_unlink (literal_path d)) (get_ancestor_directories d))
unfolding strip_prefix strip_suffix
Unrelated-unlink d =
    Unrelated-map (λ d. no_unlink (literal_path d)) (λ d. refl) (get_ancestor_directories d)

Unrelated-block_move : (p : Text) → Unrelated (block_move p)
unfolding strip_prefix strip_suffix
Unrelated-block_move p =
    let rest = another refl (Unrelated-unlink (extract_base_dir p)) in
    elim (Bool-cases (contains_glob p)) [ inl e ↦ rw e (another refl rest) | inr e ↦ rw e rest ]

Unrelated-moves : (ps : List Text) → Unrelated (generate_move_blocking_rules ps)
unfolding generate_move_blocking_rules
Unrelated-moves [] = unrelated
Unrelated-moves (p ∷ ps) = Unrelated-append (Unrelated-block_move p) (Unrelated-moves ps)

Unrelated-blocked : (t : SeatbeltPolicyTranslator) (ps : List Text) → Unrelated (moves_blocked t ps)
Unrelated-blocked t ps = elim (Bool-cases t.enable_move_blocking_mitigation) [
  | inl e ↦ rw e (Unrelated-moves ps)
  | inr e ↦ rw e unrelated
]

Unrelated-reads : (es : List Text) → Unrelated (map (deny_pattern (codes "file-read")) es)
unfolding strip_prefix strip_suffix
Unrelated-reads es = Unrelated-map (deny_pattern (codes "file-read")) (λ e. refl) es

Unrelated-writes : (es : List Text) → Unrelated (map (deny_pattern (codes "file-write")) es)
unfolding strip_prefix strip_suffix
Unrelated-writes es = Unrelated-map (deny_pattern (codes "file-write")) (λ e. refl) es

Unrelated-denials : (t : SeatbeltPolicyTranslator) (x : Expanded) → Unrelated (seatbelt_denials t x)
unfolding seatbelt_denials
Unrelated-denials t x = Unrelated-append (Unrelated-reads x.deny_read) (
    Unrelated-append (Unrelated-blocked t x.deny_read) (
      Unrelated-append (Unrelated-writes x.deny_write) (
        Unrelated-append (Unrelated-writes x.must_deny_write) (
          Unrelated-append (Unrelated-reads x.must_deny_read)
            (Unrelated-blocked t (x.deny_write ++ x.must_deny_write))))))

-- The rules of one allowed pattern.
Unrelated-pattern :
    (op : Text) (g s : Bool) (f1 f2 : Filter)
    → is_about exec_op op ≡ false
    → Unrelated (
        (if g then (if s then allow_rule op (f1 ∷ []) ∷ [] else []) else [])
        ++ allow_rule op (f2 ∷ []) ∷ [])
Unrelated-pattern op true true f1 f2 h = another (rw h refl) (another (rw h refl) unrelated)
Unrelated-pattern op true false f1 f2 h = another (rw h refl) unrelated
Unrelated-pattern op false s f1 f2 h = another (rw h refl) unrelated

Unrelated-allowed :
    (op : Text) (es : List Text) → is_about exec_op op ≡ false → Unrelated (allow_patterns op es)
unfolding allow_patterns parent_dir_if_needed
Unrelated-allowed op [] h = unrelated
Unrelated-allowed op (e ∷ es) h =
    Unrelated-append (Unrelated-pattern op (contains_glob e) (has_suffix e (codes "/**")) _ _ h)
      (Unrelated-allowed op es h)

Unrelated-temp : (tmpdir : Text) (p : SandboxPolicy) → Unrelated (temp_rules tmpdir p)
unfolding strip_prefix strip_suffix
Unrelated-temp tmpdir p = elim (Bool-cases (is_empty p.filesystem.allow_write)) [
  | inl e ↦ rw e unrelated
  | inr e ↦ rw e (
      Unrelated-map (λ d. allow_rule (codes "file-write*") (subpath d ∷ [])) (λ d. refl)
        (get_tmpdir_parent tmpdir))
]

pub Unrelated-filesystem :
    (t : SeatbeltPolicyTranslator) (tmpdir : Text) (p : SandboxPolicy) (x : Expanded)
    → Unrelated (seatbelt_filesystem t tmpdir p x)
unfolding seatbelt_filesystem strip_prefix strip_suffix
Unrelated-filesystem t tmpdir p x =
    Unrelated-append (Unrelated-allowed (codes "file-read*") x.allow_read refl) (
      Unrelated-append (Unrelated-temp tmpdir p) (
        Unrelated-append (Unrelated-allowed (codes "file-write*") x.allow_write refl)
          (Unrelated-denials t x)))

Unrelated-binds : (as' : List Text) → Unrelated (bind_all as')
unfolding bind_all strip_prefix strip_suffix
Unrelated-binds [] = unrelated
Unrelated-binds (a ∷ rest) = another refl (another refl (Unrelated-binds rest))

Unrelated-outbound : (p : SandboxPolicy) → Unrelated (outbound_rules p)
unfolding strip_prefix strip_suffix
Unrelated-outbound p = elim (Bool-cases (is_empty p.network.allow_outbound)) [
  | inr e ↦ rw e (another refl unrelated)
  | inl e ↦ elim (Bool-cases (denies_all p.network.deny_outbound)) [
    | inl d ↦ rw (e, d) (another refl unrelated)
    | inr d ↦ rw (e, d) unrelated
  ]
]

Unrelated-local : (b : Bool) → Unrelated (if b then bind_rules (codes "localhost:*") else [])
unfolding strip_prefix strip_suffix
Unrelated-local true = another refl (another refl unrelated)
Unrelated-local false = unrelated

pub Unrelated-network : (p : SandboxPolicy) → Unrelated (seatbelt_network p)
unfolding seatbelt_network
Unrelated-network p = Unrelated-append (Unrelated-outbound p) (
    Unrelated-append (Unrelated-local (or_else p.allow_network_bind false))
      (Unrelated-binds p.network.allow_bind))

pub Unrelated-terminals : (b : Bool) → Unrelated (if b then pty_rules else [])
unfolding strip_prefix strip_suffix
Unrelated-terminals true = another refl (another refl (another refl unrelated))
Unrelated-terminals false = unrelated
