-- ===== src/Shellwords/Modes.antt =====
-- An independent description of shell splitting: an automaton that reads one byte at a time and
-- never looks ahead, with one mode in place of the three flags of `Split` in
-- internal/shellwords/shellwords.go, and a current token that is there or not.
pub mod Agree
use mathlib.Core.List.{foldl}
use pmg.Prelude.{ℕ, ◌||◌, List, [], ◌∷◌, ◌++◌, Text, ◌==◌, Option, none, some, if◌then◌else◌}
use pmg.Shellwords.{SplitResult, ok, err, dangling_backslash, unterminated_quote, escapes_in_double}

pub data Mode : Type 0 where
  bare escape single double double_escape : Mode

pub record Config : Type 0 where
  pub mode : Mode
  pub token : Option Text
  pub done : List Text

-- A byte joins the current token, which begins if there is none.
abbrev pub put : ℕ → Option Text → Option Text
put c none = some (c ∷ [])
put c (some t) = some (t ++ c ∷ [])

-- A quote begins a token, perhaps an empty one.
abbrev pub begin : Option Text → Option Text
begin none = some []
begin (some t) = some t

abbrev pub close : Option Text → List Text → List Text
close none ts = ts
close (some t) ts = ts ++ t ∷ []

abbrev pub read : Mode → Option Text → List Text → ℕ → Config
read escape t ts c = record { mode = bare; token = put c t; done = ts }
read single t ts c =
    if c == b'\''
    then record { mode = bare; token = begin t; done = ts }
    else record { mode = single; token = put c t; done = ts }
read double t ts c =
    if c == b'"'
    then record { mode = bare; token = begin t; done = ts }
    else if c == b'\\'
    then record { mode = double_escape; token = t; done = ts }
    else record { mode = double; token = put c t; done = ts }
read double_escape t ts c = record {
  mode = double;
  token = if escapes_in_double c then put c t else put c (put b'\\' t);
  done = ts;
}
read bare t ts c =
    if c == b'\''
    then record { mode = single; token = begin t; done = ts }
    else if c == b'"'
    then record { mode = double; token = begin t; done = ts }
    else if c == b'\\'
    then record { mode = escape; token = t; done = ts }
    else if c == b' ' || (c == 9 || c == 10)
    then record { mode = bare; token = none; done = close t ts }
    else record { mode = bare; token = put c t; done = ts }

abbrev pub advance : Config → ℕ → Config
advance k c = read k.mode k.token k.done c

abbrev pub conclude_in : Mode → Option Text → List Text → SplitResult
conclude_in bare t ts = ok (close t ts)
conclude_in escape t ts = err dangling_backslash
conclude_in double_escape t ts = err dangling_backslash
conclude_in single t ts = err unterminated_quote
conclude_in double t ts = err unterminated_quote

abbrev pub run : Config → Text → SplitResult
run k [] = conclude_in k.mode k.token k.done
run k (c ∷ s) = run (advance k c) s

abbrev pub initial : Config
initial = record { mode = bare; token = none; done = [] }
