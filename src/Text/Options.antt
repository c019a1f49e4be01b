-- ===== src/Text/Options.antt =====
-- src/core/common.c: `get_str_index`, the index of a word in a list of words that '|' divides.
pub mod Index
use nano_vna_x.Base.{
  ℕ, ◌+◌, ◌≤◌, ◌<◌, ◌≡◌, ◌≢◌, refl, ap, sym, ◌∙◌, Bool, true, false, Option, none, some, List, [],
  ◌∷◌, length, drop, ◌==◌, if◌then◌else◌, arith, zero, suc, Bool-cases, inl, inr,
}
use nano_vna_x.Text.Number.{char_at}
use nano_vna_x.Text.Compare.{IsText}

-- The inner `while`: a '|' counts as the end of the option. It returns whether the option is
-- found, and where it stands in the list then.
pub match_option : List ℕ → List ℕ → Bool × List ℕ
match_option v [] = (0 == char_at v 0, [])
match_option v (b ∷ list) =
    let c = if b == b'|' then 0 else b in
    let rest = match_option (drop 1 v) list in
    if c == char_at v 0 then if c == 0 then (true, b ∷ list) else rest else (false, b ∷ list)

-- Set the pointer behind the next '|'; `none` is the end of the list.
pub next_option : List ℕ → Option (List ℕ)
next_option [] = none
next_option (b ∷ list) = if b == b'|' then some list else next_option list

-- The outer `while`. `none` is the result -1.
pub index_loop : ℕ → List ℕ → List ℕ → ℕ → Option ℕ
unfolding match_option next_option
index_loop zero v list i = none
index_loop (suc fuel) v list i =
    let (found, at) = match_option v list in
    if found
    then some i
    else elim (next_option at) [ none ↦ none | some list' ↦ index_loop fuel v list' (i + 1) ]

-- Each round passes a '|', so the length of the list is fuel enough.
unfoldable pub get_str_index : List ℕ → List ℕ → Option ℕ
unfolding index_loop
get_str_index v list = index_loop (suc (length list)) v list 0
