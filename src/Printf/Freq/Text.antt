-- ===== src/Printf/Freq/Text.antt =====
-- The text with the default precision.
use nano_vna_x.Base.{
  ℕ, zero, suc, ◌+◌, ◌-◌, ◌*◌, ◌/◌, ◌%◌, ◌^◌, ◌≤◌, ◌<◌, ◌≡◌, refl, Bool, true, false, ◌&&◌, some,
  List, [], ◌∷◌, ◌++◌, length, ◌==◌, get_or, if◌then◌else◌, arith, Bool-cases, inl, inr,
}
use nano_vna_x.Base.Options.{>>=-some}
use nano_vna_x.Printf.Freq.Division.{div_10_lem}
use nano_vna_x.Printf.Freq.Digits.{without_spaces, emit_groups-long_to_string, emit_groups-spaces}
use nano_vna_x.Printf.Long.{long_to_string}
use nano_vna_x.Printf.Freq.{
  emit_groups, every_third, copy_tail, copy_head, suffix, big_prefix, ulong_freq,
}

-- The first space becomes a period.
pub pointed : List ℕ → List ℕ
pointed [] = []
pointed (b ∷ bytes) = let rest = pointed bytes in if b == b' ' then b'.' ∷ bytes else b ∷ rest

and_false : (b : Bool) → (b && false) ≡ false
and_false true = refl
and_false false = refl

copy_tail-spaces :
    (room : ℕ) (bytes : List ℕ)
    → length bytes ≤ room
    → copy_tail (length bytes) true room bytes ≡ some bytes
unfolding copy_tail
copy_tail-spaces room [] fits = refl
copy_tail-spaces zero (b ∷ bytes) fits = absurd (omega arith)
copy_tail-spaces (suc room) (b ∷ []) fits = rw (and_false (b == b' ')) refl
copy_tail-spaces (suc room) (b ∷ b' ∷ bytes) fits = rw (and_false (b == b' ')) (
    >>=-some (λ rest. some (b ∷ rest)) (copy_tail-spaces (suc room - 1) (b' ∷ bytes) (omega arith))
      refl)

copy_head-pointed :
    (room : ℕ) (bytes : List ℕ)
    → length bytes ≤ room
    → copy_head (length bytes) true room bytes ≡ some (pointed bytes)
unfolding copy_head pointed
copy_head-pointed room [] fits = refl
copy_head-pointed zero (b ∷ bytes) fits = absurd (omega arith)
copy_head-pointed (suc room) (b ∷ bytes) fits = elim (Bool-cases (b == b' ')) [
  | inl space ↦ rw space (
      >>=-some (λ rest. some (b'.' ∷ rest)) (copy_tail-spaces (suc room - 1) bytes (omega arith))
        refl)
  | inr digit ↦
      rw digit
        (>>=-some (λ rest. some (b ∷ rest)) (copy_head-pointed (suc room) bytes (omega arith)) refl)
]

power_10 : ℕ → ℕ
power_10 zero = 1
power_10 (suc k) = 10 * power_10 k

-- The bytes that a number of so many digits takes.
room_for : ℕ → ℕ → ℕ
room_for zero format = 0
room_for (suc k) format = 1 + format % 2 + room_for k (format / 2)

length-emit_groups :
    (k fuel freq format s : ℕ) (acc : List ℕ)
    → freq < 2 ^ 32
    → freq < power_10 (suc k)
    → length (emit_groups fuel freq format s acc).0 ≤ room_for (suc k) format + length acc
unfolding emit_groups power_10 room_for
length-emit_groups k zero freq format s acc fits small = omega arith
length-emit_groups zero (suc fuel) freq format s acc fits small =
    let last : (freq / 10 == 0) ≡ true = ground arith in
    rw (div_10_lem freq fits, last) (omega arith)
length-emit_groups (suc k) (suc fuel) freq format s acc fits small =
    elim (Bool-cases (freq / 10 == 0)) [
      | inl last ↦ rw (div_10_lem freq fits, last) (omega arith)
      | inr more ↦ elim (Bool-cases (format % 2 == 1)) [
        | inl spaced ↦
            let odd : format % 2 ≡ 1 = ground arith in
            rw (div_10_lem freq fits, more, spaced)
              (omega (
                arith,
                odd,
                length-emit_groups k fuel (freq / 10) (format / 2) (s + 1)
                    (b' ' ∷ (freq % 10 + b'0') ∷ acc) (omega arith) (omega arith),
              ))
        | inr whole ↦
            rw (div_10_lem freq fits, more, whole)
              (omega (
                arith,
                length-emit_groups k fuel (freq / 10) (format / 2) s ((freq % 10 + b'0') ∷ acc)
                    (omega arith) (omega arith),
              ))
      ]
    ]

limits : (power_10 10 ≡ 10000000000) × (room_for 10 every_third ≡ 13)
unfolding power_10 room_for
limits = (refl, refl)

within : (a b : ℕ) → a ≤ b + 0 → b ≡ 13 → a ≤ 15
within a b h e = omega arith

short_text : (freq : ℕ) → freq < 2 ^ 32 → length (emit_groups 32 freq every_third 0 []).0 ≤ 15
short_text freq fits =
    let (ten_digits, room) = limits in
    within (length (emit_groups 32 freq every_third 0 []).0) (room_for 10 every_third)
      (length-emit_groups 9 32 freq every_third 0 [] fits (omega (arith, ten_digits))) room

-- With the default precision the text of a number of 32 bits is made without a read behind the
-- digits. These are the decimal number that the conversion of integers prints, with spaces; the first
-- space becomes a period, and behind them stand a space and the prefix of as many groups as there are
-- spaces, or the prefix alone if that is a space.
pub ulong_freq-digits :
    (freq : ℕ)
    → freq < 2 ^ 32
    → (bytes : List ℕ) × (s : ℕ) × (ulong_freq freq 0
        ≡ some (pointed bytes ++ suffix true (get_or big_prefix s 0)))
      × (without_spaces bytes ≡ long_to_string freq 10 0)
      × (length bytes ≡ length (without_spaces bytes) + s)
unfolding ulong_freq
ulong_freq-digits freq fits =
    let bytes = (emit_groups 32 freq every_third 0 []).0 in
    let s = (emit_groups 32 freq every_third 0 []).1 in
    (
      bytes,
      s,
      >>=-some (λ text. some (text ++ suffix true (get_or big_prefix s 0)))
          (copy_head-pointed 15 bytes (short_text freq fits)) refl,
      emit_groups-long_to_string freq fits,
      emit_groups-spaces 32 freq every_third 0 [] fits refl,
    )
