-- ===== src/CommandSplitter/Literals.antt =====
-- command_splitter.py: string literals in single quotes.
use kos_db.Base.{
  ℕ, ◌≡◌, ◌≢◌, refl, ap, ◌∙◌, true, false, Option, none, some, List, [], ◌∷◌, ◌++◌, nat_eq, arith,
  All, map, append_assoc, append-nil,
}
use kos_db.Text.{Text, codes}
use kos_db.CommandSplitter.{
  Splitter, round, scan, text_step, handle_quotes, handle_comments, last_is, handle_escaped_char,
}

-- Outside of literals and comments, with the pieces and commands so far.
abbrev pub outside : List Text → List Text → Splitter
outside pieces commands = record {
  in_single_quote = false;
  in_double_quote = false;
  in_line_comment = false;
  in_block_comment = false;
  escape_next = false;
  current_command = pieces;
  commands = commands;
}

-- In a literal in single quotes.
abbrev pub inside : List Text → List Text → Splitter
inside pieces commands = record (outside pieces commands) { in_single_quote = true }

abbrev pub singles : Text → List Text
singles t = map (λ c. c ∷ []) t

pub scan-round :
    (c : ℕ) (t : Text) (s s2 : Splitter)
    → ((next : Option ℕ) → round c next s ≡ (false, s2))
    → scan (c ∷ t) s ≡ scan t s2
unfolding scan
scan-round c [] s s2 h = ap (λ r. r.1) (h none)
scan-round c (n ∷ t) s s2 h = rw (scan, h (some n)) refl

round-opening :
    (next : Option ℕ) (pieces commands : List Text)
    → round 39 next (outside pieces commands) ≡ (false, inside (pieces ++ (39 ∷ []) ∷ []) commands)
unfolding round handle_comments text_step handle_quotes
round-opening next pieces commands = refl

round-inside :
    (c : ℕ) (next : Option ℕ) (pieces commands : List Text)
    → c ≢ 39
    → round c next (inside pieces commands) ≡ (false, inside (pieces ++ (c ∷ []) ∷ []) commands)
unfolding round handle_comments text_step handle_quotes
round-inside c next pieces commands h = ground (arith, h)

round-closing :
    (next : Option ℕ) (pieces commands : List Text)
    → last_is 39 pieces ≡ false
    → round 39 next (inside pieces commands) ≡ (false, outside (pieces ++ (39 ∷ []) ∷ []) commands)
unfolding round handle_comments text_step handle_quotes
round-closing next pieces commands h = rw (h, text_step, handle_quotes) refl

-- Right after the opening quote a second quote does not close the literal.
round-second :
    (next : Option ℕ) (pieces commands : List Text)
    → last_is 39 pieces ≡ true
    → round 39 next (inside pieces commands)
      ≡ (false, inside ((pieces ++ (39 ∷ []) ∷ []) ++ (39 ∷ []) ∷ []) commands)
unfolding round handle_comments text_step handle_quotes
round-second next pieces commands h = rw (h, text_step, handle_quotes) refl

last_is-append : (b c : ℕ) (pieces : List Text) → last_is c (pieces ++ (b ∷ []) ∷ []) ≡ nat_eq b c
unfolding last_is
last_is-append b c [] = refl
last_is-append b c (p ∷ []) = refl
last_is-append b c (p ∷ q ∷ pieces) = last_is-append b c (q ∷ pieces)

abbrev pub NoQuote : Text → Type 0
NoQuote t = All (λ c. c ≢ 39) t

scan-body :
    (body rest : Text) (pieces commands : List Text)
    → NoQuote body
    → last_is 39 pieces ≡ false
    → scan (body ++ 39 ∷ rest) (inside pieces commands)
      ≡ scan rest (outside (pieces ++ singles (body ++ 39 ∷ [])) commands)
scan-body [] rest pieces commands h last =
    scan-round 39 rest (inside pieces commands) (outside (pieces ++ (39 ∷ []) ∷ []) commands)
      (λ next. round-closing next pieces commands last)
scan-body (c ∷ body) rest pieces commands h last =
    let grown = pieces ++ (c ∷ []) ∷ [] in
    scan-round c (body ++ 39 ∷ rest) (inside pieces commands) (inside grown commands)
      (λ next. round-inside c next pieces commands h.0)
    ∙ scan-body body rest grown commands h.1 (last_is-append c 39 pieces ∙ ground (arith, h.0))
    ∙ rw (append_assoc pieces ((c ∷ []) ∷ []) (singles (body ++ 39 ∷ []))) refl

scan-inside :
    (rest : Text) (pieces commands : List Text)
    → NoQuote rest
    → scan rest (inside pieces commands) ≡ inside (pieces ++ singles rest) commands
unfolding scan
scan-inside [] pieces commands h = rw (append-nil pieces) refl
scan-inside (c ∷ rest) pieces commands h =
    let grown = pieces ++ (c ∷ []) ∷ [] in
    scan-round c rest (inside pieces commands) (inside grown commands)
      (λ next. round-inside c next pieces commands h.0)
    ∙ scan-inside rest grown commands h.1
    ∙ rw (append_assoc pieces ((c ∷ []) ∷ []) (singles rest)) refl

-- A literal in single quotes that is not empty and has no such quote in it is taken as it is,
-- character by character, whatever it contains: semicolons, comment signs, backslashes and double
-- quotes. The scan goes on behind it, outside of literals, with the commands as they were.
pub scan-literal :
    (b : ℕ) (body rest : Text) (pieces commands : List Text)
    → NoQuote (b ∷ body)
    → scan (39 ∷ b ∷ body ++ 39 ∷ rest) (outside pieces commands)
      ≡ scan rest (outside (pieces ++ singles (39 ∷ b ∷ body ++ 39 ∷ [])) commands)
scan-literal b body rest pieces commands h =
    let opened = pieces ++ (39 ∷ []) ∷ [] in
    let grown = opened ++ (b ∷ []) ∷ [] in
    scan-round 39 (b ∷ body ++ 39 ∷ rest) (outside pieces commands) (inside opened commands)
      (λ next. round-opening next pieces commands)
    ∙ scan-round b (body ++ 39 ∷ rest) (inside opened commands) (inside grown commands)
        (λ next. round-inside b next opened commands h.0)
    ∙ scan-body body rest grown commands h.1 (last_is-append b 39 opened ∙ ground (arith, h.0))
    ∙ rw
        (
          append_assoc opened ((b ∷ []) ∷ []) (singles (body ++ 39 ∷ [])),
          append_assoc pieces ((39 ∷ []) ∷ []) ((b ∷ []) ∷ singles (body ++ 39 ∷ [])),
        )
        refl

-- An empty literal does not end: after two single quotes everything up to the next single quote,
-- semicolons included, is taken into the literal, and there are three quotes in place of two.
pub scan-empty_literal :
    (rest : Text) (pieces commands : List Text)
    → NoQuote rest
    → scan (39 ∷ 39 ∷ rest) (outside pieces commands)
      ≡ inside (pieces ++ singles (39 ∷ 39 ∷ 39 ∷ rest)) commands
scan-empty_literal rest pieces commands h =
    let opened = pieces ++ (39 ∷ []) ∷ [] in
    let doubled = (opened ++ (39 ∷ []) ∷ []) ++ (39 ∷ []) ∷ [] in
    scan-round 39 (39 ∷ rest) (outside pieces commands) (inside opened commands)
      (λ next. round-opening next pieces commands)
    ∙ scan-round 39 rest (inside opened commands) (inside doubled commands)
        (λ next. round-second next opened commands (last_is-append 39 39 pieces))
    ∙ scan-inside rest doubled commands h
    ∙ rw
        (
          append_assoc (opened ++ (39 ∷ []) ∷ []) ((39 ∷ []) ∷ []) (singles rest),
          append_assoc opened ((39 ∷ []) ∷ []) (singles (39 ∷ rest)),
          append_assoc pieces ((39 ∷ []) ∷ []) (singles (39 ∷ 39 ∷ rest)),
        )
        refl

-- Outside of literals a backslash and the character behind it never end a command or begin a
-- literal, whatever the character; they are taken with the backslash twice.
pub scan-escaped :
    (c : ℕ) (rest : Text) (pieces commands : List Text)
    → scan (92 ∷ c ∷ rest) (outside pieces commands)
      ≡ scan rest (outside (pieces ++ codes "\\" ∷ (92 ∷ c ∷ []) ∷ []) commands)
unfolding round handle_escaped_char
scan-escaped c rest pieces commands =
    let escaping = record (outside (pieces ++ (92 ∷ []) ∷ []) commands) { escape_next = true } in
    scan-round 92 (c ∷ rest) (outside pieces commands) escaping (λ next. refl)
    ∙ scan-round c rest escaping
        (outside ((pieces ++ (92 ∷ []) ∷ []) ++ (92 ∷ c ∷ []) ∷ []) commands) (λ next. refl)
    ∙ rw (append_assoc pieces ((92 ∷ []) ∷ []) ((92 ∷ c ∷ []) ∷ [])) refl
