-- ===== src/Printf/Freq/Digits.antt =====
-- The digits of the frequency.
use nano_vna_x.Base.{
  ℕ, zero, suc, ◌+◌, ◌/◌, ◌%◌, ◌^◌, ◌<◌, ◌≡◌, refl, ap, ◌∙◌, true, false, List, [], ◌∷◌, length,
  ltb, ◌==◌, if◌then◌else◌, arith, Bool-cases, inl, inr,
}
use nano_vna_x.Printf.Freq.{emit_groups, every_third}
use nano_vna_x.Printf.Freq.Division.{div_10_lem}
use nano_vna_x.Printf.Long.{digit_char, emit_digits, long_to_string}

-- The bytes other than spaces.
abbrev pub without_spaces : List ℕ → List ℕ
without_spaces [] = []
without_spaces (b ∷ bytes) = let rest = without_spaces bytes in if b == b' ' then rest else b ∷ rest

digit_lem : (freq : ℕ) → digit_char (freq % 10 % 256) ≡ freq % 10 + b'0'
digit_lem freq = ground arith

kept_digit :
    (freq : ℕ) (acc : List ℕ)
    → without_spaces ((freq % 10 + b'0') ∷ acc) ≡ digit_char (freq % 10 % 256) ∷ without_spaces acc
kept_digit freq acc =
    let other : (freq % 10 + b'0' == b' ') ≡ false = ground arith in rw (other, digit_lem freq) refl

emit_groups-digits :
    (fuel freq format s : ℕ) (acc : List ℕ)
    → freq < 2 ^ 32
    → without_spaces (emit_groups fuel freq format s acc).0
      ≡ emit_digits fuel freq 10 0 (without_spaces acc)
unfolding emit_groups emit_digits
emit_groups-digits zero freq format s acc fits = refl
emit_groups-digits (suc fuel) freq format s acc fits = elim (Bool-cases (freq / 10 == 0)) [
  | inl last ↦
      let stop : ltb 0 (freq / 10) ≡ false = ground arith in
      rw (div_10_lem freq fits, last, stop) (kept_digit freq acc)
  | inr more ↦
      let onward : ltb 0 (freq / 10) ≡ true = ground arith in
      elim (Bool-cases (format % 2 == 1)) [
        | inl spaced ↦
            rw (div_10_lem freq fits, more, onward, spaced)
              (emit_groups-digits fuel (freq / 10) (format / 2) (s + 1)
                  (b' ' ∷ (freq % 10 + b'0') ∷ acc) (omega arith)
                ∙ ap (emit_digits fuel (freq / 10) 10 0) (kept_digit freq acc))
        | inr whole ↦
            rw (div_10_lem freq fits, more, onward, whole)
              (emit_groups-digits fuel (freq / 10) (format / 2) s ((freq % 10 + b'0') ∷ acc)
                  (omega arith)
                ∙ ap (emit_digits fuel (freq / 10) 10 0) (kept_digit freq acc))
      ]
]

-- Without its spaces, the text of the loop for a number of 32 bits is the decimal number that the
-- conversion of integers prints.
pub emit_groups-long_to_string :
    (freq : ℕ)
    → freq < 2 ^ 32
    → without_spaces (emit_groups 32 freq every_third 0 []).0 ≡ long_to_string freq 10 0
unfolding long_to_string
emit_groups-long_to_string freq fits = emit_groups-digits 32 freq every_third 0 [] fits

counted_digit :
    (freq s : ℕ) (acc : List ℕ)
    → length acc ≡ length (without_spaces acc) + s
    → length ((freq % 10 + b'0') ∷ acc) ≡ length (without_spaces ((freq % 10 + b'0') ∷ acc)) + s
counted_digit freq s acc e =
    let kept : length (without_spaces ((freq % 10 + b'0') ∷ acc))
        ≡ suc (length (without_spaces acc)) =
      ap length (kept_digit freq acc) in
    omega (arith, kept, e)

-- The loop counts its spaces.
pub emit_groups-spaces :
    (fuel freq format s : ℕ) (acc : List ℕ)
    → freq < 2 ^ 32
    → length acc ≡ length (without_spaces acc) + s
    → length (emit_groups fuel freq format s acc).0
      ≡ length (without_spaces (emit_groups fuel freq format s acc).0)
        + (emit_groups fuel freq format s acc).1
unfolding emit_groups
emit_groups-spaces zero freq format s acc fits e = e
emit_groups-spaces (suc fuel) freq format s acc fits e = elim (Bool-cases (freq / 10 == 0)) [
  | inl last ↦ rw (div_10_lem freq fits, last) (counted_digit freq s acc e)
  | inr more ↦ elim (Bool-cases (format % 2 == 1)) [
    | inl spaced ↦
        rw (div_10_lem freq fits, more, spaced)
          (emit_groups-spaces fuel (freq / 10) (format / 2) (s + 1)
            (b' ' ∷ (freq % 10 + b'0') ∷ acc) (omega arith) (spaced_digit freq s acc e))
    | inr whole ↦
        rw (div_10_lem freq fits, more, whole)
          (emit_groups-spaces fuel (freq / 10) (format / 2) s ((freq % 10 + b'0') ∷ acc)
            (omega arith) (counted_digit freq s acc e))
  ]
]
  where
    spaced_digit :
        (freq s : ℕ) (acc : List ℕ)
        → length acc ≡ length (without_spaces acc) + s
        → length (b' ' ∷ (freq % 10 + b'0') ∷ acc)
          ≡ length (without_spaces (b' ' ∷ (freq % 10 + b'0') ∷ acc)) + (s + 1)
    spaced_digit freq s acc e = omega (arith, counted_digit freq s acc e)
