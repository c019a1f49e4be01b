-- ===== src/Text/Line.antt =====
-- src/core/common.c: `_strpbrk` and `parse_line`, which split a line in place. Memory is the list
-- of the buffer's bytes from the pointer on: the line, its NUL, and what stands behind it. An
-- argument is the offset of its first byte in the buffer. `none` is an access outside the buffer.
pub mod Layout
pub mod Split
pub mod Items
pub mod Entries
pub mod Overrun
use nano_vna_x.Base.{
  ℕ, zero, suc, ◌+◌, Bool, true, false, Option, none, some, List, [], ◌∷◌, ◌++◌, length, ltb, ◌==◌,
  ◌||◌, if◌then◌else◌,
}
use mathlib.Core.Option

-- The inner loop of `_strpbrk`: is the byte one of the set?
unfoldable pub has : List ℕ → ℕ → Bool
has [] x = false
has (s ∷ set) x = s == x || has set x

-- `_strpbrk` at the byte `x` with `mem` behind it: the bytes that are passed, and memory from the
-- result on. The first byte is only tested against the set; each later one is tested for NUL first.
pub span_from : List ℕ → ℕ → List ℕ → Option (List ℕ × List ℕ)
span_from set x [] = if has set x then some ([], x ∷ []) else none
span_from set x (y ∷ mem) =
    let later = Option.map (λ p. (x ∷ p.0, p.1)) (span_from set y mem) in
    if has set x then some ([], x ∷ y ∷ mem) else if y == 0 then some (x ∷ [], y ∷ mem) else later

pub strpbrk : List ℕ → List ℕ → Option (List ℕ × List ℕ)
unfolding has span_from
strpbrk set [] = none
strpbrk set (x ∷ mem) = span_from set x mem

-- Memory from the pointer on after the call, and the offsets of the arguments found from there on.
abbrev pub Parsed : Type 0
Parsed = Option (List ℕ × List ℕ)

-- The pointer has moved over `bytes`.
abbrev pub moved : List ℕ → Parsed → Parsed
moved bytes none = none
moved bytes (some (mem, args)) = some (bytes ++ mem, args)

-- args[nargs] = pos
abbrev pub stored : ℕ → Parsed → Parsed
stored pos none = none
stored pos (some (mem, args)) = some (mem, pos ∷ args)

-- The set `brk`: a quoted argument ends at a quote, another at a blank.
abbrev pub brk : Bool → List ℕ
brk true = b'"' ∷ []
brk false = b' ' ∷ 9 ∷ []

-- Behind the end of an argument. A quoted one passes one byte more than the closing quote.
unfoldable pub after_end : (ℕ → List ℕ → Parsed) → Bool → ℕ → List ℕ → Parsed
after_end next false pos mem = next pos mem
after_end next true pos [] = none
after_end next true pos (y ∷ mem) = moved (y ∷ []) (next (pos + 1) mem)

-- At the end of an argument: a NUL ends the loop, any other byte is overwritten by a NUL.
unfoldable pub after_argument : (ℕ → List ℕ → Parsed) → Bool → ℕ → List ℕ → Parsed
unfolding after_end
after_argument next quoted pos [] = none
after_argument next quoted pos (e ∷ mem) =
    if e == 0 then some (e ∷ mem, []) else moved (0 ∷ []) (after_end next quoted (pos + 1) mem)

-- With no room for one more argument only its end is marked.
unfoldable pub cut_argument : List ℕ → Parsed
cut_argument [] = none
cut_argument (e ∷ mem) = some (0 ∷ mem, [])

-- An argument that starts at `pos`.
unfoldable pub take_argument : (ℕ → List ℕ → Parsed) → Bool → Bool → ℕ → List ℕ → Parsed
unfolding strpbrk after_argument cut_argument
take_argument next room quoted pos mem = elim (strpbrk (brk quoted) mem) [
  | none ↦ none
  | some (text, rest) ↦
      if room
      then stored pos (moved text (after_argument next quoted (pos + length text) rest))
      else moved text (cut_argument rest)
]

-- The count of the arguments is a uint16_t in the code. It is not cut here: with room for at most
-- 65535 arguments, and each call of the program has room for at most 16, it does not wrap.
unfoldable pub parse_loop : ℕ → ℕ → ℕ → ℕ → List ℕ → Parsed
unfolding take_argument
parse_loop zero max_cnt nargs pos mem = none
parse_loop (suc fuel) max_cnt nargs pos [] = none
parse_loop (suc fuel) max_cnt nargs pos (c ∷ mem) =
    let blank = moved (c ∷ []) (parse_loop fuel max_cnt nargs (pos + 1) mem) in
    let next = parse_loop fuel max_cnt (nargs + 1) in
    if c == 0
    then some (c ∷ mem, [])
    else if c == b' ' || c == 9
    then blank
    else if c == b'"'
    then moved (c ∷ []) (take_argument next (ltb nargs max_cnt) true (pos + 1) mem)
    else take_argument next (ltb nargs max_cnt) false pos (c ∷ mem)

-- Each round passes a byte, so the size of the buffer is fuel enough. The result is memory after
-- the call, with the offsets that `args` holds.
unfoldable pub parse_line : List ℕ → ℕ → Parsed
unfolding parse_loop
parse_line line max_cnt =
    if max_cnt == 0 then some (line, []) else parse_loop (suc (length line)) max_cnt 0 0 line
