-- ===== src/Platform/Seatbelt/Verdicts.antt =====
-- What a seatbelt profile means: of the rules that apply to an access, the last one decides. The
-- matching of a regular expression and the kind of a file are the kernel's.
use pmg.Prelude.{
  ◌≡◌, refl, Bool, true, false, not, ◌&&◌, ◌||◌, Text, codes, ◌=ₜ◌, is_empty, has_prefix,
  has_suffix, trim_suffix, any, List, [], ◌∷◌, ◌++◌, if◌then◌else◌, Bool-cases, inl, inr, arith,
}
use pmg.Platform.Bubblewrap.Mounts.{covers}
use pmg.Platform.Seatbelt.{
  Filter, literal_path, subpath, regex_of, char_device, local_ip, of_kind, ProfileRule,
}

pub record Kernel : Type 0 where
  pub matches_regex : Text → Text → Bool
  pub is_char_device : Text → Bool

abbrev pub filter_matches : Kernel → Text → Filter → Bool
filter_matches k q (literal_path d) = q =ₜ d
filter_matches k q (subpath d) = covers d q
filter_matches k q (regex_of r) = k.matches_regex r q
filter_matches k q (char_device d) = q =ₜ d && k.is_char_device q
filter_matches k q (local_ip a) = false
filter_matches k q (of_kind kind value) = false

-- A star stands for every operation that starts alike, and `default` for all.
abbrev pub is_about : Text → Text → Bool
is_about access operation =
    operation =ₜ codes "default"
    || (if has_suffix operation (codes "*")
        then has_prefix access (trim_suffix operation (codes "*"))
        else operation =ₜ access)

module _ (k : Kernel) (access q : Text) where
  abbrev pub applies : ProfileRule → Bool
  applies r =
      any (is_about access) r.operations
      && (is_empty r.filters || any (filter_matches k q) r.filters)

  unfoldable pub verdict : Bool → List ProfileRule → Bool
  verdict b [] = b
  verdict b (r ∷ rs) = verdict (if applies r then r.allows else b) rs

  abbrev pub permits : List ProfileRule → Bool
  permits rs = verdict false rs

  abbrev pub grants : ProfileRule → Bool
  grants r = applies r && r.allows

  abbrev pub refuses : ProfileRule → Bool
  refuses r = applies r && not r.allows

  pub verdict-append :
      (b : Bool) (rs ss : List ProfileRule) → verdict b (rs ++ ss) ≡ verdict (verdict b rs) ss
  unfolding verdict
  verdict-append b [] ss = refl
  verdict-append b (r ∷ rs) ss = verdict-append (if applies r then r.allows else b) rs ss

  one_grants : (b c a g : Bool) → ((if c then a else b) || g) ≡ true → (b || ((c && a) || g)) ≡ true
  one_grants b true true g h = ground (arith, h)
  one_grants b true false g h = ground (arith, h)
  one_grants b false a g h = h

  -- What is permitted is granted by a rule.
  pub verdict-grants :
      (b : Bool) (rs : List ProfileRule) → verdict b rs ≡ true → (b || any grants rs) ≡ true
  unfolding verdict
  verdict-grants b [] h = ground (arith, h)
  verdict-grants b (r ∷ rs) h =
      one_grants b (applies r) r.allows (any grants rs)
        (verdict-grants (if applies r then r.allows else b) rs h)

  pub verdict-no_grants : (rs : List ProfileRule) → any grants rs ≡ false → verdict false rs ≡ false
  verdict-no_grants rs n = elim (Bool-cases (verdict false rs)) [
    | inl e ↦ cc (verdict-grants false rs e, n)
    | inr e ↦ e
  ]

  settled :
      (b c a : Bool) (rs : List ProfileRule)
      → ((c && a) || any grants rs) ≡ false
      → ((c && not a) || any refuses rs) ≡ true
      → ((b' : Bool) → any refuses rs ≡ true → verdict b' rs ≡ false)
      → verdict (if c then a else b) rs ≡ false
  settled b true true rs n h f = cc n
  settled b true false rs n h f = verdict-no_grants rs n
  settled b false a rs n h f = f b h

  no_more : (a b : Bool) → (a || b) ≡ false → b ≡ false
  no_more true b h = cc h
  no_more false b h = h

  -- Rules of which none grants and one refuses settle the matter.
  pub verdict-refuses :
      (b : Bool) (rs : List ProfileRule)
      → any grants rs ≡ false
      → any refuses rs ≡ true
      → verdict b rs ≡ false
  unfolding verdict
  verdict-refuses b [] n h = cc h
  verdict-refuses b (r ∷ rs) n h =
      settled b (applies r) r.allows rs n h
        (λ b' h'. verdict-refuses b' rs (no_more (grants r) (any grants rs) n) h')
