-- ===== src/Tests/Texts.antt =====
-- src/core/common.c and src/sys/chprintf.c at concrete inputs.
use nano_vna_x.Base.{
  ◌≡◌, ◌+◌, refl, none, some, List, [], ◌∷◌, ◌++◌, length, inl, arith, ltb, if◌then◌else◌, take,
}
use nano_vna_x.Text.Number.{my_atoui, digit_value}
use nano_vna_x.Text.Number.Digit.{char_digit, digit_value_lem}
use nano_vna_x.Text.Packbits.{packbits}
use nano_vna_x.Text.Packbits.Decoder.{unpack}
use nano_vna_x.Text.Packbits.RoundTrip.{unpack-packbits}
use nano_vna_x.Text.Options.{get_str_index}
use nano_vna_x.Text.Line.{parse_line}
use nano_vna_x.Text.Line.Layout.{Entry, bare, quoted, render, texts}
use nano_vna_x.Text.Line.Split.{Splits}
use nano_vna_x.Text.Line.Entries.{parse_line-entries}
use nano_vna_x.Text.Line.Overrun.{parse_line-overrun}

-- "1500", "0x1F", and "12W", which reads as 120
atoui_runs :
    (my_atoui (b'1' ∷ b'5' ∷ b'0' ∷ b'0' ∷ []) ≡ 1500)
    × (my_atoui (b'0' ∷ b'x' ∷ b'1' ∷ b'F' ∷ []) ≡ 31)
    × (my_atoui (b'1' ∷ b'2' ∷ b'W' ∷ []) ≡ 120)
unfolding my_atoui digit_value
atoui_runs = (refl, refl, refl)

digit_value_lem_example :
    (if ltb (digit_value b'W') 16 then digit_value b'W' else 16) ≡ char_digit b'W'
digit_value_lem_example = digit_value_lem b'W' (omega arith)

unpack-packbits_example :
    unpack
      (length (packbits (7 ∷ 7 ∷ 7 ∷ 7 ∷ 1 ∷ 2 ∷ 2 ∷ 3 ∷ [])))
      (packbits (7 ∷ 7 ∷ 7 ∷ 7 ∷ 1 ∷ 2 ∷ 2 ∷ 3 ∷ []))
    ≡ 7 ∷ 7 ∷ 7 ∷ 7 ∷ 1 ∷ 2 ∷ 2 ∷ 3 ∷ []
unpack-packbits_example = unpack-packbits (7 ∷ 7 ∷ 7 ∷ 7 ∷ 1 ∷ 2 ∷ 2 ∷ 3 ∷ [])

packbits_run : packbits (7 ∷ 7 ∷ 7 ∷ 7 ∷ 1 ∷ 2 ∷ 2 ∷ 3 ∷ []) ≡ 253 ∷ 7 ∷ 3 ∷ 1 ∷ 2 ∷ 2 ∷ 3 ∷ []
unfolding packbits
packbits_run = refl

get_str_index_runs :
    (get_str_index (b'c' ∷ b'w' ∷ []) (b'u' ∷ b'p' ∷ b'|' ∷ b'c' ∷ b'w' ∷ []) ≡ some 1)
    × (get_str_index (b'c' ∷ []) (b'u' ∷ b'p' ∷ b'|' ∷ b'c' ∷ b'w' ∷ []) ≡ none)
unfolding get_str_index
get_str_index_runs = (refl, refl)

-- save "a b" 5
abbrev save_line : List Entry
save_line =
    (bare b's' (b'a' ∷ []), b' ' ∷ [])
    ∷ (quoted (b'a' ∷ b' ' ∷ b'b' ∷ []), 9 ∷ b' ' ∷ [])
    ∷ (bare b'5' [], [])
    ∷ []

parse_line_run :
    parse_line (render save_line ++ (0 ∷ b'x' ∷ [])) 2
    ≡ some (
      b's' ∷ b'a' ∷ 0 ∷ b'"' ∷ b'a' ∷ b' ' ∷ b'b' ∷ 0 ∷ 9 ∷ b' ' ∷ b'5' ∷ 0 ∷ b'x' ∷ [],
      0 ∷ 4 ∷ [],
    )
unfolding parse_line
parse_line_run = refl

parse_line-entries_example :
    Splits
      (parse_line ((b' ' ∷ []) ++ (render save_line ++ (0 ∷ b'x' ∷ []))) 5)
      0
      (take 5 (texts save_line))
      (1 + 11)
      (b'x' ∷ [])
parse_line-entries_example =
    parse_line-entries (b' ' ∷ []) save_line 5 (b'x' ∷ []) (inl refl, tt) (omega arith)
      (omega arith)

parse_line-overrun_example :
    Splits
      (parse_line (b'"' ∷ b'a' ∷ b'"' ∷ 0 ∷ b'x' ∷ 0 ∷ []) 5)
      0
      ((b'a' ∷ []) ∷ (b'x' ∷ []) ∷ [])
      5
      []
parse_line-overrun_example =
    parse_line-overrun (b'a' ∷ []) ((bare b'x' [], []) ∷ []) 5 [] (omega arith) (omega arith)
      (omega arith)
