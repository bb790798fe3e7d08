-- ===== src/CommandSplitter/Plain.antt =====
-- command_splitter.py: text without quotes, comments and backslashes, against split_commands_legacy.
use kos_db.Base.{
  ℕ, ◌≡◌, ◌≢◌, refl, sym, false, Option, List, [], ◌∷◌, ◌++◌, nat_eq, nat_eq_iff, arith, Bool-cases,
  inl, inr, All, append_assoc,
}
use kos_db.Text.{Text}
use kos_db.Text.Case.{strip}
use kos_db.CommandSplitter.{
  round, scan, text_step, handle_quotes, handle_comments, finalize_command, join, add_command,
  newlines, clean_commands, split_commands, legacy_loop, split_commands_legacy,
}
use kos_db.CommandSplitter.Literals.{outside, scan-round}

-- No quote, backslash, carriage return, minus sign or slash.
abbrev pub IsPlain : ℕ → Type 0
IsPlain c = (c ≢ 39) × (c ≢ 34) × (c ≢ 92) × (c ≢ 13) × (c ≢ 45) × (c ≢ 47)

join-append : (ps qs : List Text) → join (ps ++ qs) ≡ join ps ++ join qs
unfolding join
join-append [] qs = refl
join-append (p ∷ ps) qs = rw (join-append ps qs) (sym (append_assoc p (join ps) (join qs)))

round-end :
    (next : Option ℕ) (pieces commands : List Text)
    → round 59 next (outside pieces commands)
      ≡ (false, outside [] (add_command (join pieces) commands))
unfolding round handle_comments text_step handle_quotes finalize_command
round-end next pieces commands = refl

round-plain :
    (c : ℕ) (next : Option ℕ) (pieces commands : List Text)
    → IsPlain c
    → c ≢ 59
    → round c next (outside pieces commands) ≡ (false, outside (pieces ++ (c ∷ []) ∷ []) commands)
unfolding round handle_comments text_step handle_quotes
round-plain c next pieces commands h differ = ground (arith, h, differ)

newlines-plain : (t : Text) → All IsPlain t → newlines t ≡ t
unfolding newlines
newlines-plain [] h = refl
newlines-plain (c ∷ []) h = ground (arith, h.0)
newlines-plain (c ∷ n ∷ t) h = ground (arith, h.0, newlines-plain (n ∷ t) h.1)

legacy-end :
    (t current : Text) (commands : List Text)
    → legacy_loop (59 ∷ t) false false current commands
      ≡ legacy_loop t false false [] (add_command current commands)
unfolding legacy_loop
legacy-end t current commands = refl

nat_eq-false : (a b : ℕ) → a ≢ b → nat_eq a b ≡ false
nat_eq-false a b h = ground (arith, h)

legacy-plain :
    (c : ℕ) (t current : Text) (commands : List Text)
    → IsPlain c
    → c ≢ 59
    → legacy_loop (c ∷ t) false false current commands
      ≡ legacy_loop t false false (current ++ c ∷ []) commands
unfolding legacy_loop
legacy-plain c t current commands h differ =
    rw (nat_eq-false c 39 h.0, nat_eq-false c 34 h.1, nat_eq-false c 59 differ, legacy_loop) refl

-- What the last line of each function makes of the state of its loop.
abbrev legacy_end : Text × List Text → List Text
legacy_end r = add_command r.0 r.1

abbrev Agrees : Text → List Text → List Text → Type 0
Agrees t pieces commands =
    (finalize_command (scan t (outside pieces commands))).commands
    ≡ legacy_end (legacy_loop t false false (join pieces) commands)

scan-legacy_stop :
    (c : ℕ) (t : Text) (pieces commands : List Text)
    → c ≡ 59
    → Agrees t [] (add_command (join pieces) commands)
    → Agrees (c ∷ t) pieces commands
unfolding join
scan-legacy_stop c t pieces commands e h =
    rw
      (
        e,
        scan-round 59 t (outside pieces commands) (outside [] (add_command (join pieces) commands))
            (λ next. round-end next pieces commands),
        legacy-end t (join pieces) commands,
      )
      h

scan-legacy_step :
    (c : ℕ) (t : Text) (pieces commands : List Text)
    → IsPlain c
    → c ≢ 59
    → Agrees t (pieces ++ (c ∷ []) ∷ []) commands
    → Agrees (c ∷ t) pieces commands
unfolding join
scan-legacy_step c t pieces commands plain differ h =
    let grown = pieces ++ (c ∷ []) ∷ [] in
    rw
      (
        scan-round c t (outside pieces commands) (outside grown commands)
            (λ next. round-plain c next pieces commands plain differ),
        legacy-plain c t (join pieces) commands plain differ,
      )
      (rw (join-append pieces ((c ∷ []) ∷ [])) at h)

scan-legacy : (t : Text) (pieces commands : List Text) → All IsPlain t → Agrees t pieces commands
unfolding finalize_command scan join legacy_loop
scan-legacy [] pieces commands h = refl
scan-legacy (c ∷ t) pieces commands h = elim (Bool-cases (nat_eq c 59)) [
  | inl stop ↦
      scan-legacy_stop c t pieces commands ((nat_eq_iff c 59).0 stop)
        (scan-legacy t [] (add_command (join pieces) commands) h.1)
  | inr other ↦
      let grown = pieces ++ (c ∷ []) ∷ [] in
      scan-legacy_step c t pieces commands h.0 (ground (arith, other))
        (scan-legacy t grown commands h.1)
]

split_commands-nonblank :
    (t u : Text)
    → strip t ≡ u
    → u ≢ []
    → split_commands t
      ≡ clean_commands (finalize_command (scan (newlines t) (outside [] []))).commands
unfolding split_commands
split_commands-nonblank t [] e h = absurd (h refl)
split_commands-nonblank t (c ∷ u) e h = rw (e, split_commands) refl

-- On text that is not blank and has no quotes, minus signs, slashes, backslashes and carriage
-- returns the splitter gives the commands of split_commands_legacy, with their white space
-- normalized.
pub split_commands-legacy :
    (t : Text)
    → All IsPlain t
    → strip t ≢ []
    → split_commands t ≡ clean_commands (split_commands_legacy t)
unfolding join split_commands_legacy
split_commands-legacy t h nonblank =
    rw
      (split_commands-nonblank t (strip t) refl nonblank, newlines-plain t h, scan-legacy t [] [] h)
      refl
