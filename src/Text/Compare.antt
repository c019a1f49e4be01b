-- ===== src/Text/Compare.antt =====
-- src/core/common.c: `to_lower`, `strcmpi` and `swap_bytes`.
use nano_vna_x.Base.{
  ℕ, ◌+◌, ◌-◌, ◌*◌, ◌/◌, ◌%◌, ◌<◌, ◌≡◌, ◌≢◌, ◌↔◌, refl, Bool, true, false, List, [], ◌∷◌, map, drop,
  leb, ◌==◌, ◌&&◌, if◌then◌else◌, arith,
}
use nano_vna_x.Text.Number.{char_at}

pub to_lower : ℕ → ℕ
to_lower c = if leb b'A' c && leb c b'Z' then c - b'A' + b'a' else c

-- The loop over `i`: it ends at the first difference, or at the NUL of both texts.
pub strcmpi : List ℕ → List ℕ → Bool
unfolding to_lower
strcmpi [] t2 = if 0 == to_lower (char_at t2 0) then true else false
strcmpi (c ∷ t1) t2 =
    let rest = strcmpi t1 (drop 1 t2) in
    if to_lower c == to_lower (char_at t2 0) then if to_lower c == 0 then true else rest else false

-- __REVSH of a `uint16_t`
pub swap16 : ℕ → ℕ
swap16 x = x % 256 * 256 + x / 256

pub swap_bytes : List ℕ → List ℕ
unfolding swap16
swap_bytes [] = []
swap_bytes (x ∷ buf) = swap16 x ∷ swap_bytes buf

-- A text holds no NUL.
abbrev pub IsText : List ℕ → Type 0
IsText [] = Unit
IsText (b ∷ p) = (b ≢ 0) × IsText p

to_lower-ne-zero : (b : ℕ) → b ≢ 0 → to_lower b ≢ 0
unfolding to_lower
to_lower-ne-zero b h = ground arith

map_eq_of_strcmpi :
    (t1 t2 : List ℕ)
    → IsText t1
    → IsText t2
    → strcmpi t1 t2 ≡ true
    → map to_lower t1 ≡ map to_lower t2
unfolding strcmpi
map_eq_of_strcmpi [] [] h k e = refl
map_eq_of_strcmpi [] (b ∷ t2) h k e = absurd (ground (arith, to_lower-ne-zero b k.0))
map_eq_of_strcmpi (a ∷ t1) [] h k e = absurd (ground (arith, to_lower-ne-zero a h.0))
map_eq_of_strcmpi (a ∷ t1) (b ∷ t2) h k e =
    ground (arith, to_lower-ne-zero a h.0, map_eq_of_strcmpi t1 t2 h.1 k.1)

strcmpi_of_map_eq :
    (t1 t2 : List ℕ)
    → IsText t1
    → IsText t2
    → map to_lower t1 ≡ map to_lower t2
    → strcmpi t1 t2 ≡ true
unfolding strcmpi
strcmpi_of_map_eq [] [] h k e = refl
strcmpi_of_map_eq [] (b ∷ t2) h k e = cc
strcmpi_of_map_eq (a ∷ t1) [] h k e = cc
strcmpi_of_map_eq (a ∷ t1) (b ∷ t2) h k e =
    ground (arith, to_lower-ne-zero a h.0, strcmpi_of_map_eq t1 t2 h.1 k.1)

-- Two texts compare equal exactly when they agree after every letter is put in lower case.
pub strcmpi_iff :
    (t1 t2 : List ℕ)
    → IsText t1
    → IsText t2
    → (strcmpi t1 t2 ≡ true) ↔ (map to_lower t1 ≡ map to_lower t2)
strcmpi_iff t1 t2 h k = (map_eq_of_strcmpi t1 t2 h k, strcmpi_of_map_eq t1 t2 h k)

-- Swapping the bytes of a buffer of 16-bit words twice gives the buffer back.
abbrev pub IsWords : List ℕ → Type 0
IsWords [] = Unit
IsWords (x ∷ buf) = (x < 65536) × IsWords buf

pub swap_bytes-swap_bytes : (buf : List ℕ) → IsWords buf → swap_bytes (swap_bytes buf) ≡ buf
unfolding swap_bytes
swap_bytes-swap_bytes [] h = refl
swap_bytes-swap_bytes (x ∷ buf) h = ground (arith, swap_bytes-swap_bytes buf h.1)
