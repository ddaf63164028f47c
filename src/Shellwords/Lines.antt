-- ===== src/Shellwords/Lines.antt =====
-- Shell lines as they are written, and what `Split` of internal/shellwords/shellwords.go makes of
-- them. A word is written as one or more pieces: ordinary bytes, escaped bytes, single-quoted and
-- double-quoted runs. Each word of a line is followed by one or more blanks, the last one by any
-- number of them.
use pmg.Prelude.{
  ℕ, ◌≡◌, refl, ◌∙◌, ap, ◌≢◌, ◌||◌, Bool, true, false, List, [], ◌∷◌, ◌++◌, Text, ◌==◌, Option,
  none, some, All, Lacks, sym, append_assoc, append-nil, arith, map,
}
use pmg.Shellwords.{ok, split, escapes_in_double}
use pmg.Shellwords.Modes.{Mode, bare, single, double, Config, run, initial, advance}
use pmg.Shellwords.Modes.Agree.{split-run}

-- Inside double quotes: an ordinary byte, an escaped one, or a backslash that stays.
pub data Inner : Type 0 where
  raw escaped_in : ℕ → Inner
  kept : ℕ → Inner

pub data Piece : Type 0 where
  plain : ℕ → Piece
  backslashed : ℕ → Piece
  single_quoted : Text → Piece
  double_quoted : List Inner → Piece

abbrev pub write_inner : Inner → Text
write_inner (raw c) = c ∷ []
write_inner (escaped_in c) = b'\\' ∷ c ∷ []
write_inner (kept c) = b'\\' ∷ c ∷ []

abbrev pub read_inner : Inner → Text
read_inner (raw c) = c ∷ []
read_inner (escaped_in c) = c ∷ []
read_inner (kept c) = b'\\' ∷ c ∷ []

-- The bytes that a backslash escapes there: the quote, the backslash, the dollar, the backtick.
abbrev pub is_special : ℕ → Bool
is_special c = c == 34 || (c == 92 || (c == 36 || c == 96))

special-escapes : (c : ℕ) → is_special c ≡ escapes_in_double c
unfolding escapes_in_double
special-escapes c = refl

abbrev pub IsInner : Inner → Type 0
IsInner (raw c) = (c ≢ b'"') × (c ≢ b'\\')
IsInner (escaped_in c) = is_special c ≡ true
IsInner (kept c) = is_special c ≡ false

abbrev pub is_blank : ℕ → Bool
is_blank c = c == b' ' || (c == 9 || c == 10)

-- A piece as it is written, and the bytes that it contributes to the token.
abbrev pub concat_map {ℓ} : {A : Type ℓ} → (A → Text) → List A → Text
concat_map f [] = []
concat_map f (x ∷ xs) = f x ++ concat_map f xs

abbrev pub write_piece : Piece → Text
write_piece (plain c) = c ∷ []
write_piece (backslashed c) = b'\\' ∷ c ∷ []
write_piece (single_quoted t) = b'\'' ∷ (t ++ b'\'' ∷ [])
write_piece (double_quoted is) = b'"' ∷ (concat_map write_inner is ++ b'"' ∷ [])

abbrev pub read_piece : Piece → Text
read_piece (plain c) = c ∷ []
read_piece (backslashed c) = c ∷ []
read_piece (single_quoted t) = t
read_piece (double_quoted is) = concat_map read_inner is

abbrev pub IsPiece : Piece → Type 0
IsPiece (plain c) = (c ≢ b'\'') × (c ≢ b'"') × (c ≢ b'\\') × (is_blank c ≡ false)
IsPiece (backslashed c) = Unit
IsPiece (single_quoted t) = Lacks b'\'' t
IsPiece (double_quoted is) = All IsInner is

-- A word, with the blank that ends it and the further blanks after it.
pub record Word : Type 0 where
  pub first : Piece
  pub more : List Piece
  pub blank : ℕ
  pub blanks : Text

abbrev pub write_word : Word → Text
write_word w = (write_piece w.first ++ concat_map write_piece w.more) ++ w.blank ∷ w.blanks

abbrev pub read_word : Word → Text
read_word w = read_piece w.first ++ concat_map read_piece w.more

abbrev pub IsWord : Word → Type 0
IsWord w =
    IsPiece w.first
    × All IsPiece w.more
    × (is_blank w.blank ≡ true)
    × All (λ c. is_blank c ≡ true) w.blanks

-- Running the automaton over two texts in a row.
abbrev pub after : Config → Text → Config
after k [] = k
after k (c ∷ s) = after (advance k c) s

run-append : (s r : Text) (k : Config) → run k (s ++ r) ≡ run (after k s) r
run-append [] r k = refl
run-append (c ∷ s) r k = run-append s r (advance k c)

after-append : (s r : Text) (k : Config) → after k (s ++ r) ≡ after (after k s) r
after-append [] r k = refl
after-append (c ∷ s) r k = after-append s r (advance k c)

abbrev config : Mode → Text → List Text → Config
config m t ts = record { mode = m; token = some t; done = ts }

after-single :
    (s t : Text) (ts : List Text)
    → Lacks b'\'' s
    → after (config single t ts) s ≡ config single (t ++ s) ts
after-single [] t ts h = rw append-nil
after-single (c ∷ s) t ts (hc, hs) =
    ground (arith, after-single s (t ++ c ∷ []) ts hs, append_assoc t (c ∷ []) s)

after-inner :
    (is : List Inner) (t : Text) (ts : List Text)
    → All IsInner is
    → after (config double t ts) (concat_map write_inner is)
      ≡ config double (t ++ concat_map read_inner is) ts
after-inner [] t ts h = rw append-nil
after-inner (raw c ∷ is) t ts (hc, hs) =
    ground (
      arith,
      after-inner is (t ++ c ∷ []) ts hs,
      append_assoc t (c ∷ []) (concat_map read_inner is),
    )
after-inner (escaped_in c ∷ is) t ts (hc, hs) = rw (sym (special-escapes c) ∙ hc) (
    after-inner is (t ++ c ∷ []) ts hs
    ∙ ap (λ u. config double u ts) (append_assoc t (c ∷ []) (concat_map read_inner is)))
after-inner (kept c ∷ is) t ts (hc, hs) = rw (sym (special-escapes c) ∙ hc) (
    after-inner is ((t ++ b'\\' ∷ []) ++ c ∷ []) ts hs
    ∙ ap (λ u. config double u ts)
        (append_assoc (t ++ b'\\' ∷ []) (c ∷ []) (concat_map read_inner is)
          ∙ append_assoc t (b'\\' ∷ []) (c ∷ concat_map read_inner is)))

-- A piece adds its bytes to the token, and begins one if there is none.
abbrev extend : Text → Option Text → Option Text
extend u none = some u
extend u (some t) = some (t ++ u)

abbrev bare_at : Option Text → List Text → Config
bare_at t ts = record { mode = bare; token = t; done = ts }

after-piece :
    (p : Piece) (t : Option Text) (ts : List Text)
    → IsPiece p
    → after (bare_at t ts) (write_piece p) ≡ bare_at (extend (read_piece p) t) ts
after-piece (plain c) none ts h = ground arith
after-piece (plain c) (some t) ts h = ground arith
after-piece (backslashed c) none ts h = refl
after-piece (backslashed c) (some t) ts h = refl
after-piece (single_quoted s) none ts h =
    after-append s (b'\'' ∷ []) (config single [] ts) ∙ rw (after-single s [] ts h)
after-piece (single_quoted s) (some t) ts h =
    after-append s (b'\'' ∷ []) (config single t ts) ∙ rw (after-single s t ts h)
after-piece (double_quoted is) none ts h =
    after-append (concat_map write_inner is) (b'"' ∷ []) (config double [] ts)
    ∙ rw (after-inner is [] ts h)
after-piece (double_quoted is) (some t) ts h =
    after-append (concat_map write_inner is) (b'"' ∷ []) (config double t ts)
    ∙ rw (after-inner is t ts h)

after-pieces :
    (ps : List Piece) (t : Text) (ts : List Text)
    → All IsPiece ps
    → after (bare_at (some t) ts) (concat_map write_piece ps)
      ≡ bare_at (some (t ++ concat_map read_piece ps)) ts
after-pieces [] t ts h = rw append-nil
after-pieces (p ∷ ps) t ts (hp, hs) =
    after-append (write_piece p) (concat_map write_piece ps) (bare_at (some t) ts)
    ∙ rw (after-piece p (some t) ts hp) (
        after-pieces ps (t ++ read_piece p) ts hs
        ∙ ap (λ u. bare_at (some u) ts) (append_assoc t (read_piece p) (concat_map read_piece ps)))

after-blanks :
    (s : Text) (ts : List Text)
    → All (λ c. is_blank c ≡ true) s
    → after (bare_at none ts) s ≡ bare_at none ts
after-blanks [] ts h = refl
after-blanks (c ∷ s) ts (hc, hs) = ground (arith, after-blanks s ts hs)

after-end_word :
    (b : ℕ) (bs t : Text) (ts : List Text)
    → is_blank b ≡ true
    → All (λ c. is_blank c ≡ true) bs
    → after (bare_at (some t) ts) (b ∷ bs) ≡ bare_at none (ts ++ t ∷ [])
after-end_word b bs t ts hb hbs = ground (arith, after-blanks bs (ts ++ t ∷ []) hbs)

after-word :
    (w : Word) (ts : List Text)
    → IsWord w
    → after (bare_at none ts) (write_word w) ≡ bare_at none (ts ++ read_word w ∷ [])
after-word w ts (hp, hs, hb, hbs) =
    let first = write_piece w.first in
    let more = concat_map write_piece w.more in
    after-append (first ++ more) (w.blank ∷ w.blanks) (bare_at none ts)
    ∙ ap (λ k. after k (w.blank ∷ w.blanks))
        (after-append first more (bare_at none ts)
          ∙ ap (λ k. after k more) (after-piece w.first none ts hp)
          ∙ after-pieces w.more (read_piece w.first) ts hs)
    ∙ after-end_word w.blank w.blanks (read_word w) ts hb hbs

abbrev pub write_line : List Word → Text
write_line ws = concat_map write_word ws

run-line :
    (ws : List Word) (ts : List Text) (rest : Text)
    → All IsWord ws
    → run (bare_at none ts) (write_line ws ++ rest)
      ≡ run (bare_at none (ts ++ map read_word ws)) rest
run-line [] ts rest h = rw append-nil
run-line (w ∷ ws) ts rest (hw, hs) =
    ap (run (bare_at none ts)) (append_assoc (write_word w) (write_line ws) rest)
    ∙ run-append (write_word w) (write_line ws ++ rest) (bare_at none ts)
    ∙ ap (λ k. run k (write_line ws ++ rest)) (after-word w ts hw)
    ∙ run-line ws (ts ++ read_word w ∷ []) rest hs
    ∙ ap (λ us. run (bare_at none us) rest) (append_assoc ts (read_word w ∷ []) (map read_word ws))

-- A last word that no blank follows, if there is one.
abbrev pub LastWord : Type 0
LastWord = Option (Piece × List Piece)

abbrev pub write_last : LastWord → Text
write_last none = []
write_last (some (p, ps)) = write_piece p ++ concat_map write_piece ps

abbrev pub read_last : LastWord → List Text
read_last none = []
read_last (some (p, ps)) = (read_piece p ++ concat_map read_piece ps) ∷ []

abbrev pub IsLastWord : LastWord → Type 0
IsLastWord none = Unit
IsLastWord (some (p, ps)) = IsPiece p × All IsPiece ps

run-last :
    (l : LastWord) (ts : List Text)
    → IsLastWord l
    → run (bare_at none ts) (write_last l) ≡ ok (ts ++ read_last l)
run-last none ts h = rw append-nil
run-last (some (p, ps)) ts (hp, hs) =
    ap (run (bare_at none ts)) (sym (append-nil (write_piece p ++ concat_map write_piece ps)))
    ∙ run-append (write_piece p ++ concat_map write_piece ps) [] (bare_at none ts)
    ∙ ap (λ k. run k [])
        (after-append (write_piece p) (concat_map write_piece ps) (bare_at none ts)
          ∙ ap (λ k. after k (concat_map write_piece ps)) (after-piece p none ts hp)
          ∙ after-pieces ps (read_piece p) ts hs)

-- For blanks in front, well-formed words (each with blanks after it) and perhaps a last well-
-- formed word with no blank after it, `Split` of the line that they make up succeeds and returns
-- exactly the words, with every quote and escape resolved: between double quotes a backslash
-- escapes a double quote, a backslash, a dollar sign and a backtick, and stands for itself before
-- anything else.
pub split-write_line :
    (lead : Text) (ws : List Word) (l : LastWord)
    → All (λ c. is_blank c ≡ true) lead
    → All IsWord ws
    → IsLastWord l
    → split (lead ++ (write_line ws ++ write_last l)) ≡ ok (map read_word ws ++ read_last l)
split-write_line lead ws l hl hw hlast =
    split-run (lead ++ (write_line ws ++ write_last l))
    ∙ run-append lead (write_line ws ++ write_last l) initial
    ∙ ap (λ k. run k (write_line ws ++ write_last l)) (after-blanks lead [] hl)
    ∙ run-line ws [] (write_last l) hw
    ∙ run-last l (map read_word ws) hlast
