-- ===== src/Shell/Command/Count.antt =====
-- How many arguments a line has.
use nano_vna_x.Base.{
  ℕ, zero, suc, ◌+◌, ◌-◌, ◌≤◌, ◌≡◌, subst, Bool, true, false, Option, none, some, List, [], ◌∷◌,
  length, ltb, ◌==◌, ◌||◌, arith, Bool-cases, inl, inr, ◌⊎◌,
}
use mathlib.Core.Option.{some-injective}
use nano_vna_x.Text.Line.{
  Parsed, moved, stored, brk, strpbrk, after_end, after_argument, cut_argument, take_argument,
  parse_loop, parse_line,
}
use nano_vna_x.Shell.Command.{Command, ParsedCommand, parsed_command, shell_parse_command}

-- No more arguments than there is room for.
abbrev pub AtMost : ℕ → Parsed → Type 0
AtMost n none = Unit
AtMost n (some (mem, args)) = length args ≤ n

moved-AtMost : (n : ℕ) (bytes : List ℕ) (r : Parsed) → AtMost n r → AtMost n (moved bytes r)
moved-AtMost n bytes none h = tt
moved-AtMost n bytes (some (mem, args)) h = h

stored-AtMost : (n pos : ℕ) (r : Parsed) → AtMost n r → AtMost (n + 1) (stored pos r)
stored-AtMost n pos none h = tt
stored-AtMost n pos (some (mem, args)) h = omega (arith, h)

after_argument-AtMost :
    (n : ℕ) (next : ℕ → List ℕ → Parsed) (quoted : Bool) (pos : ℕ) (mem : List ℕ)
    → ((pos : ℕ) (mem : List ℕ) → AtMost n (next pos mem))
    → AtMost n (after_argument next quoted pos mem)
unfolding after_argument
after_argument-AtMost n next quoted pos [] h = tt
after_argument-AtMost n next quoted pos (e ∷ mem) h = elim (Bool-cases (e == 0)) [
  | inl end ↦ rw end (omega arith)
  | inr more ↦ rw more (moved-AtMost n (0 ∷ []) _ (behind quoted mem))
]
  where
    behind : (quoted : Bool) (mem : List ℕ) → AtMost n (after_end next quoted (pos + 1) mem)
    behind false mem = h (pos + 1) mem
    behind true [] = tt
    behind true (y ∷ mem) = moved-AtMost n (y ∷ []) _ (h (pos + 1 + 1) mem)

cut_argument-AtMost : (mem : List ℕ) → AtMost 0 (cut_argument mem)
unfolding cut_argument
cut_argument-AtMost [] = tt
cut_argument-AtMost (e ∷ mem) = omega arith

-- With room for an argument the loop may store it and go on, with none it stops.
take_argument-AtMost :
    (k n : ℕ) (next : ℕ → List ℕ → Parsed) (room quoted : Bool) (pos : ℕ) (mem : List ℕ)
    → ((room ≡ true) × (n ≡ k + 1)) ⊎ ((room ≡ false) × (n ≡ 0))
    → ((pos : ℕ) (mem : List ℕ) → AtMost k (next pos mem))
    → AtMost n (take_argument next room quoted pos mem)
unfolding take_argument
take_argument-AtMost k n next room quoted pos mem (inl (e, m)) h =
    rw (e, m) (stored_text (strpbrk (brk quoted) mem))
  where
    stored_text :
        (o : Option (List ℕ × List ℕ))
        → AtMost (k + 1) (elim o [
          | none ↦ none
          | some (text, rest) ↦
              stored pos (moved text (after_argument next quoted (pos + length text) rest))
        ])
    stored_text none = tt
    stored_text (some (text, rest)) =
        stored-AtMost k pos (moved text (after_argument next quoted (pos + length text) rest)) (
          moved-AtMost k text (after_argument next quoted (pos + length text) rest)
            (after_argument-AtMost k next quoted (pos + length text) rest h))
take_argument-AtMost k n next room quoted pos mem (inr (e, m)) h =
    rw (e, m) (cut_text (strpbrk (brk quoted) mem))
  where
    cut_text :
        (o : Option (List ℕ × List ℕ))
        → AtMost 0 (elim o [ none ↦ none | some (text, rest) ↦ moved text (cut_argument rest) ])
    cut_text none = tt
    cut_text (some (text, rest)) =
        moved-AtMost 0 text (cut_argument rest) (cut_argument-AtMost rest)

room_cases :
    (nargs max_cnt : ℕ)
    → ((ltb nargs max_cnt ≡ true) × (max_cnt - nargs ≡ max_cnt - (nargs + 1) + 1))
      ⊎ ((ltb nargs max_cnt ≡ false) × (max_cnt - nargs ≡ 0))
room_cases nargs max_cnt = elim (Bool-cases (ltb nargs max_cnt)) [
  | inl room ↦ inl (room, ground arith)
  | inr full ↦ inr (full, ground arith)
]

-- One round of the loop, given what the rounds behind it do.
round-AtMost :
    (fuel max_cnt nargs pos c : ℕ) (mem : List ℕ)
    → AtMost (max_cnt - nargs) (parse_loop fuel max_cnt nargs (pos + 1) mem)
    → ((pos : ℕ) (mem : List ℕ)
        → AtMost (max_cnt - (nargs + 1)) (parse_loop fuel max_cnt (nargs + 1) pos mem))
    → AtMost (max_cnt - nargs) (parse_loop (suc fuel) max_cnt nargs pos (c ∷ mem))
unfolding parse_loop
round-AtMost fuel max_cnt nargs pos c mem same later = elim (Bool-cases (c == 0)) [
  | inl end ↦ rw end (omega arith)
  | inr more ↦ elim (Bool-cases (c == b' ' || c == 9)) [
    | inl blank ↦
        rw (more, blank)
          (moved-AtMost (max_cnt - nargs) (c ∷ []) (parse_loop fuel max_cnt nargs (pos + 1) mem)
            same)
    | inr word ↦ elim (Bool-cases (c == b'"')) [
      | inl quote ↦
          rw (more, word, quote)
            (moved-AtMost (max_cnt - nargs) (c ∷ [])
              (take_argument next (ltb nargs max_cnt) true (pos + 1) mem)
              (taken true (pos + 1) mem))
      | inr plain ↦ rw (more, word, plain) (taken false pos (c ∷ mem))
    ]
  ]
]
  where
    next : ℕ → List ℕ → Parsed
    next = parse_loop fuel max_cnt (nargs + 1)

    taken :
        (quoted : Bool) (pos : ℕ) (mem : List ℕ)
        → AtMost (max_cnt - nargs) (take_argument next (ltb nargs max_cnt) quoted pos mem)
    taken quoted pos mem =
        take_argument-AtMost (max_cnt - (nargs + 1)) (max_cnt - nargs) next (ltb nargs max_cnt)
          quoted pos mem (room_cases nargs max_cnt) later

parse_loop-AtMost :
    (fuel max_cnt nargs pos : ℕ) (mem : List ℕ)
    → AtMost (max_cnt - nargs) (parse_loop fuel max_cnt nargs pos mem)
unfolding parse_loop
parse_loop-AtMost zero max_cnt nargs pos mem = tt
parse_loop-AtMost (suc fuel) max_cnt nargs pos [] = tt
parse_loop-AtMost (suc fuel) max_cnt nargs pos (c ∷ mem) =
    round-AtMost fuel max_cnt nargs pos c mem (parse_loop-AtMost fuel max_cnt nargs (pos + 1) mem)
      (λ pos mem. parse_loop-AtMost fuel max_cnt (nargs + 1) pos mem)

AtMost-le : (m n : ℕ) (r : Parsed) → m ≤ n → AtMost m r → AtMost n r
AtMost-le m n none le h = tt
AtMost-le m n (some (mem, args)) le h = omega (arith, h, le)

parse_line-AtMost : (line : List ℕ) (max_cnt : ℕ) → AtMost max_cnt (parse_line line max_cnt)
unfolding parse_line
parse_line-AtMost line max_cnt = elim (Bool-cases (max_cnt == 0)) [
  | inl no_room ↦ rw no_room (omega arith)
  | inr room ↦ rw room (
      AtMost-le (max_cnt - 0) max_cnt (parse_loop (suc (length line)) max_cnt 0 0 line)
        (omega arith) (parse_loop-AtMost (suc (length line)) max_cnt 0 0 line))
]

-- What a call leaves of at most five words.
abbrev pub IsFew : ParsedCommand → Type 0
IsFew p = (p.too_many ≡ false) × (length p.argv ≤ 4) × (p.argc ≡ length p.argv)

parsed_command-IsFew :
    (table : Option (List Command)) (mem args : List ℕ)
    → length args ≤ 5
    → IsFew (parsed_command table mem args)
unfolding parsed_command
parsed_command-IsFew table mem [] h = ground arith
parsed_command-IsFew table mem (first ∷ args) h = rw (not_over) (ground arith)
  where
    not_over : ltb 5 (length (first ∷ args)) ≡ false
    not_over = ground arith

-- `shell_parse_command` never reports too many arguments, whatever the buffer holds: it hands on
-- at most four, and `argc` counts them.
pub shell_parse_command-IsFew :
    (table : Option (List Command)) (line : List ℕ) (p : ParsedCommand)
    → shell_parse_command table line ≡ some p
    → IsFew p
unfolding shell_parse_command
shell_parse_command-IsFew table line p e =
    parsed_few (parse_line line 5) (parse_line-AtMost line 5) e
  where
    parsed_few :
        (r : Parsed)
        → AtMost 5 r
        → (elim r [ none ↦ none | some (memory, args) ↦ some (parsed_command table memory args) ])
          ≡ some p
        → IsFew p
    parsed_few none h e = cc
    parsed_few (some (mem, args)) h e =
        subst IsFew (some-injective _ p e) (parsed_command-IsFew table mem args h)
