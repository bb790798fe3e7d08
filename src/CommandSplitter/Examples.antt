-- ===== src/CommandSplitter/Examples.antt =====
-- Runs of the splitter.
use kos_db.Base.{◌≡◌, refl, [], ◌∷◌, arith}
use kos_db.Text.{codes}
use kos_db.Text.Case.{strip, lstrip, is_space}
use kos_db.CommandSplitter.{split_commands, split_commands_legacy, clean_commands, scan}
use kos_db.CommandSplitter.Literals.{outside, singles, scan-literal}
use kos_db.CommandSplitter.Plain.{split_commands-legacy}

split_example : split_commands (codes "A 1;--c\nB  2;;") ≡ codes "A 1" ∷ codes "B 2" ∷ []
unfolding split_commands strip
split_example = refl

-- The second command is lost in the first.
split_empty_literal : split_commands (codes "A '';B") ≡ codes "A ''';B" ∷ []
unfolding split_commands strip
split_empty_literal = refl

scan-literal_example :
    scan (codes "'a;b';c") (outside [] [])
    ≡ scan (codes ";c") (outside (singles (codes "'a;b'")) [])
scan-literal_example = scan-literal 97 (codes ";b") (codes ";c") [] [] (ground arith)

split_commands-legacy_example :
    split_commands (codes "A;B") ≡ clean_commands (split_commands_legacy (codes "A;B"))
unfolding strip lstrip is_space
split_commands-legacy_example = split_commands-legacy (codes "A;B") (ground arith) (λ e. cc)
