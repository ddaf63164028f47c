-- ===== src/Shellwords.antt =====
-- internal/shellwords/shellwords.go: `Split`, the POSIX-like splitting of a command string.
--
-- The text is the list of its bytes. The loop over the index becomes a recursion on the bytes that
-- are left; the one place that looks ahead (a backslash in double quotes) takes two at a time.
mod Steps
pub mod Lines
pub mod Modes
use pmg.Prelude.{ℕ, Bool, true, false, ◌||◌, List, [], ◌∷◌, ◌++◌, Text, ◌==◌, if◌then◌else◌}

-- The two errors of `Split`.
pub data SplitError : Type 0 where
  dangling_backslash unterminated_quote : SplitError

pub data SplitResult : Type 0 where
  ok : List Text → SplitResult
  err : SplitError → SplitResult

-- The variables of the loop.
pub record State : Type 0 where
  pub out : List Text
  pub buf : Text
  pub in_single : Bool
  pub in_double : Bool
  pub escaped : Bool
  pub has_token : Bool

abbrev pub start : State
start = record {
  out = [];
  buf = [];
  in_single = false;
  in_double = false;
  escaped = false;
  has_token = false;
}

unfoldable pub flush : State → State
flush st =
    if st.has_token
    then record st { out = st.out ++ st.buf ∷ []; buf = []; has_token = false }
    else st

-- `buf.WriteByte(c)` with `hasToken = true`, which follows it on every path.
abbrev pub write : ℕ → State → State
write c st = record st { buf = st.buf ++ c ∷ []; has_token = true }

-- The bytes that a backslash escapes inside double quotes.
unfoldable pub escapes_in_double : ℕ → Bool
escapes_in_double c = c == b'"' || (c == b'\\' || (c == b'$' || c == b'`'))

-- The branches `escaped` and `inSingle`, and the last one, which read one byte.
unfoldable pub step_escaped : ℕ → State → State
step_escaped c st = record (write c st) { escaped = false }

unfoldable pub step_single : ℕ → State → State
step_single c st =
    if c == b'\'' then record st { in_single = false; has_token = true } else write c st

unfoldable pub step_bare : ℕ → State → State
unfolding flush
step_bare c st =
    if c == b'\''
    then record st { in_single = true; has_token = true }
    else if c == b'"'
    then record st { in_double = true; has_token = true }
    else if c == b'\\'
    then record st { escaped = true }
    else if c == b' ' || (c == 9 || c == 10)
    then flush st
    else write c st

-- What follows the loop.
unfoldable pub finish : State → SplitResult
unfolding flush
finish st =
    if st.in_single || st.in_double
    then err unterminated_quote
    else if st.escaped
    then err dangling_backslash
    else ok (flush st).out

-- Which branch of the outer switch a byte takes.
pub data Branch : Type 0 where
  take_escaped take_single take_double take_bare : Branch

unfoldable pub branch : State → Branch
branch st =
    if st.escaped
    then take_escaped
    else if st.in_single
    then take_single
    else if st.in_double
    then take_double
    else take_bare

-- The loop. In double quotes a backslash looks at the next byte and may consume it.
unfoldable pub loop : Text → State → SplitResult
unfolding finish branch step_escaped step_single step_bare escapes_in_double
loop [] st = finish st
loop (c ∷ []) st = elim (branch st) [
  | take_escaped ↦ finish (step_escaped c st)
  | take_single ↦ finish (step_single c st)
  | take_double ↦
      if c == b'"'
      then finish (record st { in_double = false; has_token = true })
      else if c == b'\\'
      then err dangling_backslash
      else finish (write c st)
  | take_bare ↦ finish (step_bare c st)
]
loop (c ∷ next ∷ rest) st = elim (branch st) [
  | take_escaped ↦ loop (next ∷ rest) (step_escaped c st)
  | take_single ↦ loop (next ∷ rest) (step_single c st)
  | take_double ↦
      let closed = loop (next ∷ rest) (record st { in_double = false; has_token = true }) in
      let skipped = loop rest (write next st) in
      let kept = loop (next ∷ rest) (write c st) in
      if c == b'"'
      then closed
      else if c == b'\\'
      then (if escapes_in_double next then skipped else kept)
      else kept
  | take_bare ↦ loop (next ∷ rest) (step_bare c st)
]

unfoldable pub split : Text → SplitResult
unfolding loop
split s = loop s start
