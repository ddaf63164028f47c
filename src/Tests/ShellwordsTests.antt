-- ===== src/Tests/ShellwordsTests.antt =====
-- `Split` on the inputs that internal/shellwords/shellwords_test.go uses, and its theorems at
-- concrete lines.
use pmg.Prelude.{◌≡◌, refl, [], ◌∷◌, ◌++◌, codes, some, arith}
use pmg.Shellwords.{split, ok, err, dangling_backslash, unterminated_quote}
use pmg.Shellwords.Modes.{run, initial}
use pmg.Shellwords.Modes.Agree.{split-run}
use pmg.Shellwords.Lines.{
  Word, plain, backslashed, single_quoted, double_quoted, raw, escaped_in, kept, write_line,
  write_last, split-write_line,
}

split_quotes :
    split (codes "code --wait 'a b' \"c \\\" d\"")
    ≡ ok (codes "code" ∷ codes "--wait" ∷ codes "a b" ∷ codes "c \" d" ∷ [])
unfolding split
split_quotes = refl

split_open_quote : split (codes "vim 'a") ≡ err unterminated_quote
unfolding split
split_open_quote = refl

split_dangling : split (codes "vim \\") ≡ err dangling_backslash
unfolding split
split_dangling = refl

split_empty_token : split (codes "a '' b") ≡ ok (codes "a" ∷ [] ∷ codes "b" ∷ [])
unfolding split
split_empty_token = refl

-- `a\ 'b c' `, and then `"d\"\n"`.
abbrev sample_word : Word
sample_word = record {
  first = plain b'a';
  more = backslashed b' ' ∷ single_quoted (codes "b c") ∷ [];
  blank = b' ';
  blanks = 9 ∷ [];
}

split-write_line_example :
    split (
      codes " "
      ++ (write_line (sample_word ∷ [])
          ++ write_last (some (double_quoted (raw b'd' ∷ escaped_in b'"' ∷ kept b'n' ∷ []), []))))
    ≡ ok (codes "a b c" ∷ codes "d\"\\n" ∷ [])
split-write_line_example =
    split-write_line (codes " ") (sample_word ∷ [])
      (some (double_quoted (raw b'd' ∷ escaped_in b'"' ∷ kept b'n' ∷ []), [])) (refl, tt)
      (
        ((omega arith, omega arith, omega arith, refl), (tt, (omega arith, tt)), refl, (refl, tt)),
        tt,
      )
      (((omega arith, omega arith), (refl, (refl, tt))), tt)

split-run_example : split (codes "a\\ b") ≡ run initial (codes "a\\ b")
split-run_example = split-run (codes "a\\ b")
