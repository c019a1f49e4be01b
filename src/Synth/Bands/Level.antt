-- ===== src/Synth/Bands/Level.antt =====
-- Which band the search finds.
use nano_vna_x.Base.{
  ℕ, zero, suc, ◌≤◌, ◌<◌, ◌≡◌, refl, subst, Option, none, some, List, [], ◌∷◌, leb, get_elem?,
  arith, Bool-cases, inl, inr,
}
use mathlib.Core.Option
use nano_vna_x.Synth.Bands.{Band, band_limit, si5351_get_harmonic_lvl}

-- The band at the index takes the frequency, and no band before it does.
abbrev pub IsFirst : ℕ → ℕ → List Band → ℕ → Type 0
IsFirst threshold freq bands i =
    ((b : Band) × (get_elem? bands i ≡ some b) × (freq ≤ band_limit threshold b))
    × ((j : ℕ) (b : Band) → j < i → get_elem? bands j ≡ some b → band_limit threshold b < freq)

-- No band takes it.
abbrev pub TooHigh : ℕ → ℕ → List Band → Type 0
TooHigh threshold freq bands =
    (j : ℕ) (b : Band) → get_elem? bands j ≡ some b → band_limit threshold b < freq

abbrev pub IsLevel : ℕ → ℕ → List Band → Option ℕ → Type 0
IsLevel threshold freq bands none = TooHigh threshold freq bands
IsLevel threshold freq bands (some i) = IsFirst threshold freq bands i

some_eq : {b b' : Band} → some b ≡ some b' → b ≡ b'
some_eq e = cc

-- A bound on the first entry and on those behind it.
all_below :
    (threshold freq : ℕ) (b : Band) (bands : List Band) (n : ℕ)
    → band_limit threshold b < freq
    → ((j : ℕ) (b' : Band) → j < n → get_elem? bands j ≡ some b' → band_limit threshold b' < freq)
    → (j : ℕ) (b' : Band) → j < suc n
    → get_elem? (b ∷ bands) j ≡ some b'
    → band_limit threshold b' < freq
all_below threshold freq b bands n low l zero b' h e =
    subst (λ x. band_limit threshold x < freq) (some_eq e) low
all_below threshold freq b bands n low l (suc j) b' h e = l j b' (omega arith) e

later-IsLevel :
    (threshold freq : ℕ) (b : Band) (bands : List Band) (r : Option ℕ)
    → band_limit threshold b < freq
    → IsLevel threshold freq bands r
    → IsLevel threshold freq (b ∷ bands) (Option.map suc r)
later-IsLevel threshold freq b bands none low l = λ j b' e.
    all_below threshold freq b bands j low (λ j' b'' h e'. l j' b'' e') j b' (omega arith) e
later-IsLevel threshold freq b bands (some i) low (found, before) =
    (found, all_below threshold freq b bands i low before)

pub si5351_get_harmonic_lvl-IsLevel :
    (threshold freq : ℕ) (bands : List Band)
    → IsLevel threshold freq bands (si5351_get_harmonic_lvl threshold freq bands)
unfolding si5351_get_harmonic_lvl
si5351_get_harmonic_lvl-IsLevel threshold freq [] = λ j b e. cc
si5351_get_harmonic_lvl-IsLevel threshold freq (b ∷ bands) =
    elim (Bool-cases (leb freq (band_limit threshold b))) [
      | inl here ↦ rw here ((b, refl, ground arith), λ j b' h e. absurd (omega arith))
      | inr more ↦ rw more (
          later-IsLevel threshold freq b bands (si5351_get_harmonic_lvl threshold freq bands)
            (ground arith) (si5351_get_harmonic_lvl-IsLevel threshold freq bands))
    ]
