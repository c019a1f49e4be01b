-- ===== src/Shell/LineEdit.antt =====
-- src/sys/shell_service.c: `vna_shell_read_line`, over the bytes that the port delivers until it is
-- disconnected.
pub mod Laws
use nano_vna_x.Base.{
  ℕ, zero, suc, ◌+◌, ◌-◌, ◌≤◌, ◌<◌, ◌≡◌, ◌≢◌, refl, ap, sym, ◌∙◌, Bool, true, false, Option, none,
  some, List, [], ◌∷◌, ◌++◌, length, take, ltb, leb, ◌==◌, not, ◌&&◌, ◌||◌, if◌then◌else◌, arith,
  append-nil, append_assoc, length-append, Every, Bool-cases, inl, inr,
}

-- What a call leaves: the line, if one was ended, the flag to skip a line feed, the bytes that are
-- not read yet, and what was written.
pub record ReadLine : Type 0 where
  pub line : Option (List ℕ)
  pub skip_linefeed : Bool
  pub unread : List ℕ
  pub written : List ℕ

abbrev pub newline : List ℕ
newline = 13 ∷ 10 ∷ []

-- The array `backspace`, with its NUL.
abbrev pub backspace : List ℕ
backspace = 8 ∷ 32 ∷ 8 ∷ 0 ∷ []

-- All but the last.
unfoldable pub without_last : List ℕ → List ℕ
without_last [] = []
without_last (c ∷ []) = []
without_last (c ∷ c' ∷ cs) = c ∷ without_last (c' ∷ cs)

abbrev pub is_erase : ℕ → Bool
is_erase c = c == 8 || c == 127

abbrev pub is_dropped : ℕ → List ℕ → ℕ → Bool
is_dropped max_size line c = ltb c 32 || leb (max_size - 1) (length line)

-- The line after a byte that does not end it, and what is written for it.
unfoldable pub edited : ℕ → List ℕ → ℕ → List ℕ
unfolding without_last
edited max_size line c =
    if is_erase c
    then without_last line
    else if is_dropped max_size line c
    then line
    else line ++ c ∷ []

unfoldable pub echo : ℕ → List ℕ → ℕ → List ℕ
echo max_size line c =
    if is_erase c
    then if ltb 0 (length line) then backspace else []
    else if is_dropped max_size line c
    then []
    else c ∷ []

-- A byte that ends the line, with the flag to skip a line feed.
unfoldable pub ends_line : Bool → ℕ → Bool
ends_line skip c = not (skip && (c == 10)) && (not (is_erase c) && (c == 13 || c == 10))

-- The loop, with the bytes of the line so far, and what is written so far.
unfoldable pub read_loop : ℕ → Bool → List ℕ → List ℕ → List ℕ → ReadLine
read_loop max_size skip line written [] = record {
  line = none;
  skip_linefeed = skip;
  unread = [];
  written = written;
}
read_loop max_size skip line written (c ∷ input) =
    let skipped = skip && (c == 10) in
    let later =
      read_loop max_size false (if skipped then line else edited max_size line c)
        (if skipped then written else written ++ echo max_size line c) input in
    if ends_line skip c
    then record {
      line = some line;
      skip_linefeed = c == 13;
      unread = input;
      written = written ++ newline;
    }
    else later

unfoldable pub vna_shell_read_line : ℕ → Bool → List ℕ → ReadLine
unfolding read_loop
vna_shell_read_line max_size skip input = read_loop max_size skip [] [] input
