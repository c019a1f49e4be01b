-- ===== src/Text/Options/Index.antt =====
-- `get_str_index` against the list of the options that the '|' divide.

use nano_vna_x.Base.{
  subst, ℕ, ◌+◌, ◌<◌, ◌≡◌, ◌≢◌, refl, Bool, true, false, Option, none, some, List, [], ◌∷◌, length,
  ◌==◌, if◌then◌else◌, arith, zero, suc, Bool-cases, inl, inr, ℕ_discrete,
}
use mathlib.Core.Logic.{ite, if_pos, if_neg}
use nano_vna_x.Text.Compare.{IsText}
use nano_vna_x.Text.Options.{match_option, next_option, index_loop, get_str_index}

pub text_discrete : Discrete (List ℕ)
text_discrete = hlevel ℕ_discrete

-- A word to look for: no NUL, and no '|'.
abbrev pub IsWord : List ℕ → Type 0
IsWord [] = Unit
IsWord (b ∷ p) = (b ≢ 0) × (b ≢ b'|') × IsWord p

abbrev extend_first : ℕ → List (List ℕ) → List (List ℕ)
extend_first b [] = (b ∷ []) ∷ []
extend_first b (o ∷ os) = (b ∷ o) ∷ os

-- The options of a list, which are one more than its '|'.
pub options : List ℕ → List (List ℕ)
options [] = [] ∷ []
options (b ∷ list) = if b == b'|' then [] ∷ options list else extend_first b (options list)

-- The index of the first option that is the word, counted from `i`.
unfoldable pub index_from : ℕ → List ℕ → List (List ℕ) → Option ℕ
index_from i v [] = none
index_from i v (o ∷ os) = ite (text_discrete v o) (some i) (index_from (i + 1) v os)

unfoldable pub first_option : List ℕ → List ℕ
first_option [] = []
first_option (b ∷ list) = if b == b'|' then [] else b ∷ first_option list

pub rest_options : Option (List ℕ) → List (List ℕ)
rest_options none = []
rest_options (some list) = options list

pub options_lem :
    (list : List ℕ) → options list ≡ first_option list ∷ rest_options (next_option list)
unfolding options first_option rest_options next_option
options_lem [] = refl
options_lem (b ∷ list) = ground (arith, options_lem list)

-- A match is found exactly at the word itself.
match_option_sound :
    (v list : List ℕ)
    → IsWord v
    → IsText list
    → (match_option v list).0 ≡ true
    → v ≡ first_option list
unfolding match_option first_option
match_option_sound [] [] w t e = refl
match_option_sound (a ∷ v) [] w t e = absurd (ground (arith, w.0))
match_option_sound [] (b ∷ list) w t e = ground (arith, t.0)
match_option_sound (a ∷ v) (b ∷ list) w t e =
    ground (arith, w.0, w.1, match_option_sound v list w.2 t.1)

match_option_complete :
    (v list : List ℕ)
    → IsWord v
    → IsText list
    → v ≡ first_option list
    → (match_option v list).0 ≡ true
unfolding match_option first_option
match_option_complete [] [] w t e = refl
match_option_complete (a ∷ v) [] w t e = cc
match_option_complete [] (b ∷ list) w t e = ground (arith, t.0)
match_option_complete (a ∷ v) (b ∷ list) w t e =
    ground (arith, w.0, w.1, match_option_complete v list w.2 t.1)

-- Where the match fails, the next option is still the next one.
next_option-match_option :
    (v list : List ℕ)
    → IsWord v
    → IsText list
    → (match_option v list).0 ≡ false
    → next_option (match_option v list).1 ≡ next_option list
unfolding match_option next_option
next_option-match_option [] [] w t e = refl
next_option-match_option (a ∷ v) [] w t e = refl
next_option-match_option [] (b ∷ list) w t e = ground (arith, t.0)
next_option-match_option (a ∷ v) (b ∷ list) w t e =
    ground (arith, w.0, w.1, next_option-match_option v list w.2 t.1)

next_option-shorter :
    (list : List ℕ) {r : List ℕ}
    → IsText list
    → next_option list ≡ some r
    → (length r < length list) × IsText r
unfolding next_option
next_option-shorter [] t e = cc
next_option-shorter (b ∷ list) {r} t e = elim (Bool-cases (b == b'|')) [
  | inl bar ↦ keep (ground arith)
  | inr other ↦
      let (lt, text) = next_option-shorter list t.1 (rw other at e) in (omega (arith, lt), text)
]
  where
    keep : list ≡ r → (length r < length (b ∷ list)) × IsText r
    keep p = subst (λ x. (length x < length (b ∷ list)) × IsText x) p (omega arith, t.1)

-- The search goes on with the next option, if there is one.
index_loop-onward :
    (fuel : ℕ) (v list : List ℕ) (i : ℕ) (o : Option (List ℕ))
    → IsText list
    → length list < suc fuel
    → ((l : List ℕ)
        → IsText l
        → length l < fuel
        → index_loop fuel v l (i + 1) ≡ index_from (i + 1) v (options l))
    → next_option list ≡ o
    → (elim o [ none ↦ none | some l ↦ index_loop fuel v l (i + 1) ])
      ≡ index_from (i + 1) v (rest_options o)
unfolding rest_options index_from
index_loop-onward fuel v list i none t h ih e = refl
index_loop-onward fuel v list i (some l) t h ih e =
    let (lt, text) = next_option-shorter list t e in ih l text (omega (arith, lt))

index_loop-options :
    (fuel : ℕ) (v list : List ℕ) (i : ℕ)
    → IsWord v
    → IsText list
    → length list < fuel
    → index_loop fuel v list i ≡ index_from i v (options list)
unfolding index_loop index_from
index_loop-options zero v list i w t h = absurd (omega arith)
index_loop-options (suc fuel) v list i w t h =
    rw (options_lem list) (elim (Bool-cases (match_option v list).0) [
      | inl e ↦
          rw (e, if_pos (text_discrete v (first_option list)) (match_option_sound v list w t e))
      | inr e ↦
          rw
            (
              e,
              if_neg (text_discrete v (first_option list))
                  (λ p. true≢false (match_option_complete v list w t p) e),
              next_option-match_option v list w t e,
            )
            (index_loop-onward fuel v list i (next_option list) t h
              (λ l text lt. index_loop-options fuel v l (i + 1) w text lt) refl)
    ])
  where
    true≢false : {b : Bool} → b ≡ true → b ≡ false → ⊥
    true≢false p q = cc

-- The result is the index of the word among the options, the first if it stands there twice, and
-- -1 if it is none of them.
pub get_str_index-options :
    (v list : List ℕ)
    → IsWord v
    → IsText list
    → get_str_index v list ≡ index_from 0 v (options list)
unfolding get_str_index
get_str_index-options v list w t = index_loop-options (suc (length list)) v list 0 w t (omega arith)
