-- ===== src/Printf/Freq.antt =====
-- src/sys/chprintf.c: ulong_freq, of a frequency in 32 bits.
pub mod Division
pub mod Digits
pub mod Text
use nano_vna_x.Base.{
  ℕ, zero, suc, ◌+◌, ◌-◌, ◌*◌, ◌/◌, ◌%◌, ◌^◌, Bool, true, false, not, ◌&&◌, ◌||◌, Option, none,
  some, List, [], ◌∷◌, ◌++◌, get_or, length, ltb, leb, ◌==◌, if◌then◌else◌, u32, sub32,
}
use nano_vna_x.Base.Options.{◌>>=◌}

-- The approximation of a tenth by shifts.
abbrev pub shifted : ℕ → ℕ
shifted freq =
    let a = freq / 2 in
    let b = u32 (a + a / 2) in
    let c = u32 (b + b / 2 ^ 4) in
    let d = u32 (c + c / 2 ^ 8) in let e = u32 (d + d / 2 ^ 16) in e / 8

-- while (c >= 10)
unfoldable pub correct : ℕ → ℕ → ℕ → ℕ × ℕ
correct zero freq c = (freq, c)
correct (suc fuel) freq c =
    let again = correct fuel (u32 (freq + 1)) (sub32 c 10) in if leb 10 c then again else (freq, c)

-- The quotient and the rest of a division by 10.
unfoldable pub div_10 : ℕ → ℕ × ℕ
unfolding correct
div_10 freq = correct 3 (shifted freq) (sub32 freq (u32 (shifted freq * 10)))

-- The loop: the bytes from `q` on, and the number of spaces among them. `format` has a bit for each
-- digit that a space stands before.
unfoldable pub emit_groups : ℕ → ℕ → ℕ → ℕ → List ℕ → List ℕ × ℕ
unfolding div_10
emit_groups zero freq format s acc = (acc, s)
emit_groups (suc fuel) freq format s acc =
    let (quotient, c) = div_10 freq in
    let acc' = (c + b'0') ∷ acc in
    let spaced = emit_groups fuel quotient (format / 2) (s + 1) (b' ' ∷ acc') in
    let onward = emit_groups fuel quotient (format / 2) s acc' in
    if quotient == 0 then (acc', s) else if format % 2 == 1 then spaced else onward

-- The default precision.
abbrev pub max_freq_prescision : ℕ
max_freq_prescision = 14

-- 0b100100100100100
abbrev pub every_third : ℕ
every_third = 18724

-- A byte behind the period, for which there may be no room left, and what follows it.
abbrev pub put : ℕ → ℕ → Option (List ℕ) → Option (List ℕ)
put zero b rest = some []
put (suc room) b rest = rest >>= λ bytes. some (b ∷ bytes)

-- The copy of `count` bytes behind the period, where a space is passed over unless `spaces` is set:
-- that takes one byte more. `none` is a read behind the end of the digits.
unfoldable pub copy_tail : ℕ → Bool → ℕ → List ℕ → Option (List ℕ)
copy_tail zero spaces room bytes = some []
copy_tail (suc count) spaces room [] = none
copy_tail (suc count) spaces room (b ∷ []) =
    let rest = copy_tail count spaces (room - 1) [] in
    if (b == b' ') && not spaces then none else put room b rest
copy_tail (suc count) spaces room (b ∷ b' ∷ bytes) =
    let rest = copy_tail count spaces (room - 1) (b' ∷ bytes) in
    let skipped = copy_tail count spaces (room - 1) bytes in
    if (b == b' ') && not spaces then put room b' skipped else put room b rest

-- The copy up to the first space, which becomes a period.
unfoldable pub copy_head : ℕ → Bool → ℕ → List ℕ → Option (List ℕ)
unfolding copy_tail
copy_head zero spaces room bytes = some []
copy_head (suc count) spaces room [] = none
copy_head (suc count) spaces room (b ∷ bytes) =
    let tail = copy_tail count spaces (room - 1) bytes in
    let onward = copy_head count spaces room bytes in
    if b == b' ' then put room b'.' tail else (onward >>= λ rest. some (b ∷ rest))

-- bigPrefix
abbrev pub big_prefix : List ℕ
big_prefix = b' ' ∷ b'k' ∷ b'M' ∷ b'G' ∷ b'T' ∷ b'P' ∷ b'E' ∷ b'Z' ∷ b'Y' ∷ 0 ∷ []

abbrev pub suffix : Bool → ℕ → List ℕ
suffix spaces prefix = if spaces && not (prefix == b' ') then b' ' ∷ prefix ∷ [] else prefix ∷ []

-- The text that is put at `p`. A number below 2 ^ 32 has ten digits at most, so 32 rounds are enough.
unfoldable pub ulong_freq : ℕ → ℕ → Option (List ℕ)
unfolding emit_groups copy_head
ulong_freq freq precision =
    let spaces = precision == 0 in
    let digits =
      if spaces || ltb max_freq_prescision precision then max_freq_prescision else precision in
    let (bytes, s) = emit_groups 32 freq every_third 0 [] in
    copy_head (length bytes) spaces (digits + 1) bytes >>= λ text.
    some (text ++ suffix spaces (get_or big_prefix s 0))
