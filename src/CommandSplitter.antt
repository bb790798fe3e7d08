-- ===== src/CommandSplitter.antt =====
-- command_splitter.py, CommandSplitter: a text of several commands, character by character.
pub mod Literals
pub mod Plain
mod Examples
use kos_db.Base.{
  ℕ, ◌≡◌, refl, Bool, true, false, not, ◌&&◌, ◌||◌, Option, none, some, List, [], ◌∷◌, ◌++◌,
  if◌then◌else◌, nat_eq,
}
use kos_db.Text.{Text, codes}
use kos_db.Text.Case.{strip, is_space}

-- The state of the loop; `prev_char` is left out, since it is never read. `current_command` is the
-- list of pieces that are joined at the end of a command, one or two characters each.
pub record Splitter : Type 0 where
  pub in_single_quote : Bool
  pub in_double_quote : Bool
  pub in_line_comment : Bool
  pub in_block_comment : Bool
  pub escape_next : Bool
  pub current_command : List Text
  pub commands : List Text

-- _reset_state
abbrev pub reset_state : Splitter
reset_state = record {
  in_single_quote = false;
  in_double_quote = false;
  in_line_comment = false;
  in_block_comment = false;
  escape_next = false;
  current_command = [];
  commands = [];
}

-- text.replace('\r\n', '\n').replace('\r', '\n')
unfoldable pub newlines : Text → Text
newlines [] = []
newlines (c ∷ []) = (if nat_eq c 13 then 10 else c) ∷ []
newlines (c ∷ n ∷ t) =
    let rest = newlines (n ∷ t) in
    if nat_eq c 13 && nat_eq n 10 then rest else (if nat_eq c 13 then 10 else c) ∷ rest

abbrev pub in_string : Splitter → Bool
in_string s = s.in_single_quote || s.in_double_quote

abbrev pub in_string_or_comment : Splitter → Bool
in_string_or_comment s = in_string s || s.in_line_comment || s.in_block_comment

abbrev pub append_piece : Text → Splitter → Splitter
append_piece piece s = record s { current_command = s.current_command ++ piece ∷ [] }

-- the last piece is just this character: self.current_command[-1] == char
unfoldable pub last_is : ℕ → List Text → Bool
last_is c [] = false
last_is c (piece ∷ []) = elim piece [
  | [] ↦ false
  | b ∷ rest ↦ elim rest [ [] ↦ nat_eq b c | d ∷ more ↦ false ]
]
last_is c (piece ∷ next ∷ pieces) = last_is c (next ∷ pieces)

-- ''.join
unfoldable pub join : List Text → Text
join [] = []
join (piece ∷ pieces) = piece ++ join pieces

-- cmd.strip(), kept if it is not empty
unfoldable pub add_command : Text → List Text → List Text
add_command text commands = elim (strip text) [ [] ↦ commands | c ∷ t ↦ commands ++ (c ∷ t) ∷ [] ]

-- _finalize_command
unfoldable pub finalize_command : Splitter → Splitter
unfolding join add_command
finalize_command s = record s {
  commands = add_command (join s.current_command) s.commands;
  current_command = [];
}

-- _handle_escaped_char: both branches of the source do this
unfoldable pub handle_escaped_char : ℕ → Splitter → Splitter
handle_escaped_char c s = append_piece (92 ∷ c ∷ []) (record s { escape_next = false })

abbrev next_is : ℕ → Option ℕ → Bool
next_is c none = false
next_is c (some n) = nat_eq n c

-- _handle_comments
unfoldable pub handle_comments : ℕ → Option ℕ → Splitter → Bool × Splitter
handle_comments c next s =
    if nat_eq c 45 && next_is 45 next && not (in_string s)
    then (true, record s { in_line_comment = true })
    else if nat_eq c 47 && next_is 42 next && not (in_string s)
    then (true, record s { in_block_comment = true })
    else (false, s)

-- _handle_quotes
unfoldable pub handle_quotes : ℕ → Splitter → Bool × Splitter
unfolding last_is
handle_quotes c s =
    if nat_eq c 39 && s.in_single_quote
    then (if last_is 39 s.current_command
        then (true, append_piece (c ∷ []) s)
        else (false, record s { in_single_quote = false }))
    else if nat_eq c 34 && s.in_double_quote
    then (if last_is 34 s.current_command
        then (true, append_piece (c ∷ []) s)
        else (false, record s { in_double_quote = false }))
    else if nat_eq c 39 && not s.in_double_quote
    then (false, record s { in_single_quote = true })
    else if nat_eq c 34 && not s.in_single_quote
    then (false, record s { in_double_quote = true })
    else (false, s)

-- the loop's body from the quotes on
unfoldable pub text_step : ℕ → Splitter → Splitter
unfolding handle_quotes finalize_command
text_step c s =
    let (handled, s') = handle_quotes c s in
    if handled
    then append_piece (c ∷ []) s'
    else if nat_eq c 59 && not (in_string s')
    then finalize_command s'
    else append_piece (c ∷ []) s'

-- One round of the loop: whether it goes on by two characters, and the state after it.
unfoldable pub round : ℕ → Option ℕ → Splitter → Bool × Splitter
unfolding handle_escaped_char handle_comments text_step
round c next s =
    if s.escape_next
    then (false, handle_escaped_char c s)
    else if nat_eq c 92 && not (in_string_or_comment s)
    then (false, append_piece (c ∷ []) (record s { escape_next = true }))
    else (let (changed, s') = handle_comments c next s in
        if changed
        then (s'.in_block_comment || s'.in_line_comment, s')
        else if s'.in_line_comment
        then (
          false,
          if nat_eq c 10
              then append_piece (32 ∷ []) (record s' { in_line_comment = false })
              else s',
        )
        else if s'.in_block_comment
        then (if nat_eq c 42 && next_is 47 next
            then (true, append_piece (32 ∷ []) (record s' { in_block_comment = false }))
            else (false, s'))
        else (false, text_step c s'))

unfoldable pub scan : Text → Splitter → Splitter
unfolding round
scan [] s = s
scan (c ∷ []) s = (round c none s).1
scan (c ∷ n ∷ t) s =
    let (two, s') = round c (some n) s in
    let by_two = scan t s' in let by_one = scan (n ∷ t) s' in if two then by_two else by_one

-- ' '.join(cmd.split()): the white space seen so far waits for the next character.
unfoldable pub squeeze : Bool → Bool → Text → Text
squeeze started waiting [] = []
squeeze started waiting (c ∷ t) =
    let spaced = squeeze started true t in
    let rest = squeeze true false t in
    if is_space c then spaced else if started && waiting then 32 ∷ c ∷ rest else c ∷ rest

-- _clean_commands
unfoldable pub clean_commands : List Text → List Text
unfolding squeeze
clean_commands [] = []
clean_commands (cmd ∷ cmds) =
    let rest = clean_commands cmds in
    elim (squeeze false false cmd) [ [] ↦ rest | c ∷ t ↦ (c ∷ t) ∷ rest ]

-- `if not text or not text.strip(): return []`, then the loop and the last command
unfoldable pub split_commands : Text → List Text
unfolding newlines scan finalize_command clean_commands
split_commands text = elim (strip text) [
  | [] ↦ []
  | c ∷ t ↦ clean_commands (finalize_command (scan (newlines text) reset_state)).commands
]

unfoldable pub legacy_loop : Text → Bool → Bool → Text → List Text → Text × List Text
unfolding add_command
legacy_loop [] in_single in_double current commands = (current, commands)
legacy_loop (c ∷ t) in_single in_double current commands =
    let more = current ++ c ∷ [] in
    let single = legacy_loop t (not in_single) in_double more commands in
    let double = legacy_loop t in_single (not in_double) more commands in
    let ended = legacy_loop t in_single in_double [] (add_command current commands) in
    let plain = legacy_loop t in_single in_double more commands in
    if nat_eq c 39 && not in_double
    then single
    else if nat_eq c 34 && not in_single
    then double
    else if nat_eq c 59 && not in_single && not in_double
    then ended
    else plain

unfoldable pub split_commands_legacy : Text → List Text
unfolding legacy_loop
split_commands_legacy text =
    let (current, commands) = legacy_loop text false false [] [] in add_command current commands
