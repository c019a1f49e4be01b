-- ===== src/Tests/Frequencies.antt =====
-- ulong_freq of src/sys/chprintf.c at concrete frequencies.
use nano_vna_x.Base.{ℕ, ◌+◌, ◌≡◌, refl, true, some, List, [], ◌∷◌, ◌++◌, get_or, length, arith}
use nano_vna_x.Printf.Freq.{
  ulong_freq, emit_groups, copy_head, copy_tail, div_10, correct, suffix, big_prefix,
}
use nano_vna_x.Printf.Freq.Digits.{without_spaces}
use nano_vna_x.Printf.Freq.Text.{pointed, ulong_freq-digits}
use nano_vna_x.Printf.Long.{long_to_string}

ulong_freq-digits_example :
    (bytes : List ℕ) × (s : ℕ) × (ulong_freq 900000000 0
      ≡ some (pointed bytes ++ suffix true (get_or big_prefix s 0)))
    × (without_spaces bytes ≡ long_to_string 900000000 10 0)
    × (length bytes ≡ length (without_spaces bytes) + s)
ulong_freq-digits_example = ulong_freq-digits 900000000 (omega arith)

-- "1.234 k"
small : ulong_freq 1234 0 ≡ some (b'1' ∷ b'.' ∷ b'2' ∷ b'3' ∷ b'4' ∷ b' ' ∷ b'k' ∷ [])
unfolding ulong_freq emit_groups copy_head copy_tail div_10 correct
small = refl
