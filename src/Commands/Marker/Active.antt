-- ===== src/Commands/Marker/Active.antt =====
-- The active marker is one that is enabled.
use nano_vna_x.Base.{
  ℕ, zero, suc, ◌-◌, ◌<◌, ◌^◌, ◌≡◌, ◌≢◌, refl, sym, ap, subst, ◌∙◌, Bool, true, false, ◌||◌, Option,
  none, some, List, [], ◌∷◌, map, leb, ◌==◌, if◌then◌else◌, get_elem?, set, length, length-set,
  length-map, get_elem?-set_self, get_elem?-set_ne, arith, Bool-cases, Option-cases, inl, inr,
  sub32,
}
use nano_vna_x.Commands.Marker.{
  Marker, Markers, markers_max, cmd_marker_list, with_marker, enable, is_active, set_marker_index,
  all_markers, marker_on, marker_off, marker_word, marker_words, marker_command, one_marker,
  cmd_marker,
}
use nano_vna_x.Sweep.Frequencies.{Frequencies, get_frequency}
use nano_vna_x.Text.Number.{my_atoi}
use nano_vna_x.Text.Options.{get_str_index}

abbrev pub IsEnabled : List Marker → ℕ → Type 0
IsEnabled ms t = (m : Marker) × (get_elem? ms t ≡ some m) × (m.enabled ≡ true)

-- There are eight markers, and the active one, if there is one, is enabled.
pub record IsActive (s : Markers) : Type 0 where
  pub eight : length s.markers ≡ markers_max
  pub on : (t : ℕ) → s.active_marker ≡ some t → IsEnabled s.markers t

get_elem?-lt : (ms : List Marker) (t : ℕ) → t < length ms → (m : Marker) × (get_elem? ms t ≡ some m)
get_elem?-lt [] t h = absurd (omega arith)
get_elem?-lt (m ∷ ms) zero h = (m, refl)
get_elem?-lt (m ∷ ms) (suc t) h = get_elem?-lt ms t (omega arith)

with_marker-none :
    (t : ℕ) (change : Marker → Marker) (ms : List Marker)
    → get_elem? ms t ≡ none
    → with_marker t change ms ≡ ms
unfolding with_marker
with_marker-none t change ms e = rw (with_marker, e) refl

with_marker-some :
    (t : ℕ) (change : Marker → Marker) (ms : List Marker) (m : Marker)
    → get_elem? ms t ≡ some m
    → with_marker t change ms ≡ set ms t (change m)
unfolding with_marker
with_marker-some t change ms m e = rw (with_marker, e) refl

length-with_marker :
    (t : ℕ) (change : Marker → Marker) (ms : List Marker)
    → length (with_marker t change ms) ≡ length ms
length-with_marker t change ms = elim (Option-cases (get_elem? ms t)) [
  | inl e ↦ ap length (with_marker-none t change ms e)
  | inr (m, e) ↦ ap length (with_marker-some t change ms m e) ∙ length-set ms t (change m)
]

with_marker_self :
    (t : ℕ) (change : Marker → Marker) (ms : List Marker) (m : Marker)
    → t < length ms
    → get_elem? ms t ≡ some m
    → get_elem? (with_marker t change ms) t ≡ some (change m)
with_marker_self t change ms m h e =
    ap (λ ms. get_elem? ms t) (with_marker-some t change ms m e)
    ∙ get_elem?-set_self ms t (change m) h

with_marker_ne :
    (t t' : ℕ) (change : Marker → Marker) (ms : List Marker)
    → t ≢ t'
    → get_elem? (with_marker t change ms) t' ≡ get_elem? ms t'
with_marker_ne t t' change ms ne = elim (Option-cases (get_elem? ms t)) [
  | inl e ↦ ap (λ ms. get_elem? ms t') (with_marker-none t change ms e)
  | inr (m, e) ↦
      ap (λ ms. get_elem? ms t') (with_marker-some t change ms m e)
      ∙ get_elem?-set_ne ms (change m) ne
]

ne_of : (t t' : ℕ) → (t == t') ≡ false → t ≢ t'
ne_of t t' e = ground arith

-- The marker that is set is enabled, if the change enables it.
with_marker-IsEnabled_self :
    (t : ℕ) (change : Marker → Marker) (ms : List Marker)
    → t < length ms
    → ((m : Marker) → get_elem? ms t ≡ some m → (change m).enabled ≡ true)
    → IsEnabled (with_marker t change ms) t
with_marker-IsEnabled_self t change ms h on =
    let (m, e) = get_elem?-lt ms t h in (change m, with_marker_self t change ms m h e, on m e)

-- A change that leaves `enabled` leaves what is enabled.
with_marker-IsEnabled :
    (t t' : ℕ) (change : Marker → Marker) (ms : List Marker)
    → t < length ms
    → ((m : Marker) → m.enabled ≡ true → (change m).enabled ≡ true)
    → IsEnabled ms t'
    → IsEnabled (with_marker t change ms) t'
with_marker-IsEnabled t t' change ms h keeps (m, e, on) = elim (Bool-cases (t == t')) [
  | inl same ↦
      let here : t' ≡ t = ground arith in
      let e' = ap (λ i. get_elem? ms i) (sym here) ∙ e in
      (
        change m,
        ap (λ i. get_elem? (with_marker t change ms) i) here ∙ with_marker_self t change ms m h e',
        keeps m on,
      )
  | inr other ↦ (m, with_marker_ne t t' change ms (ne_of t t' other) ∙ e, on)
]

get_elem?-map_0 :
    (f : Marker → Marker) (ms : List Marker)
    → 0 < length ms
    → (m : Marker) × (get_elem? (map f ms) 0 ≡ some (f m))
get_elem?-map_0 f [] h = absurd (omega arith)
get_elem?-map_0 f (m ∷ ms) h = (m, refl)

some_eq : {a b : ℕ} → some a ≡ some b → a ≡ b
some_eq e = cc

none_ne : {t : ℕ} → ¬ (none ≡ some t)
none_ne e = cc

all_markers-IsActive : (on : Bool) (s : Markers) → IsActive s → IsActive (all_markers on s)
unfolding all_markers
all_markers-IsActive true s h = record {
  eight = length-map s.markers (enable true) ∙ h.eight;
  on = λ t e.
      let zero_t : 0 ≡ t = some_eq e in
      let (m, found) = get_elem?-map_0 (enable true) s.markers (omega (arith, h.eight)) in
      (
        enable true m,
        ap (λ t. get_elem? (map (enable true) s.markers) t) (sym zero_t) ∙ found,
        refl,
      );
}
all_markers-IsActive false s h = record {
  eight = length-map s.markers (enable false) ∙ h.eight;
  on = λ t e. absurd (none_ne e);
}

marker_on-IsActive : (t : ℕ) (s : Markers) → t < markers_max → IsActive s → IsActive (marker_on t s)
unfolding marker_on
marker_on-IsActive t s few h = record {
  eight = length-with_marker t (enable true) s.markers ∙ h.eight;
  on = λ t' e. subst (IsEnabled (with_marker t (enable true) s.markers)) (some_eq e) (
      with_marker-IsEnabled_self t (enable true) s.markers (omega (arith, h.eight, few))
        (λ m found. refl));
}

set_marker_index-IsActive :
    (fs : Frequencies) (points t idx : ℕ) (s : Markers)
    → t < markers_max
    → IsActive s
    → IsActive (set_marker_index fs points t idx s)
unfolding set_marker_index
set_marker_index-IsActive fs points t idx s few h =
    let low = if leb (2 ^ 31) idx then 0 else idx in
    let at = if leb points low then points - 1 else low in
    let change : Marker → Marker = λ m. record m { index = at; frequency = get_frequency fs at } in
    record {
      eight = length-with_marker t change s.markers ∙ h.eight;
      on = λ t' e.
          with_marker-IsEnabled t t' change s.markers (omega (arith, h.eight, few)) (λ m on. on)
            (h.on t' e);
    }

marker_off-IsActive : (t : ℕ) (s : Markers) → IsActive s → IsActive (marker_off t s)
unfolding marker_off
marker_off-IsActive t s h = record {
  eight = length-with_marker t (enable false) s.markers ∙ h.eight;
  on = λ t' e. other_active s.active_marker refl t' e;
}
  where
    other_active :
        (active : Option ℕ)
        → s.active_marker ≡ active
        → (t' : ℕ) → (if is_active t active then none else active) ≡ some t'
        → IsEnabled (with_marker t (enable false) s.markers) t'
    other_active none e t' k = absurd (none_ne k)
    other_active (some i) e t' k = elim (Bool-cases (i == t)) [
      | inl same ↦
          let opened : (if i == t then none else some i) ≡ none = rw same refl in
          absurd (none_ne (sym opened ∙ k))
      | inr other ↦
          let opened : (if i == t then none else some i) ≡ some i = rw other refl in
          let here : i ≡ t' = some_eq (sym opened ∙ k) in
          let (m, found, on) = h.on i e in
          let apart : t ≢ i = λ same. ne_of i t other (sym same) in
          subst (IsEnabled (with_marker t (enable false) s.markers)) here
            (m, with_marker_ne t i (enable false) s.markers apart ∙ found, on)
    ]

marker_word-IsActive :
    (fs : Frequencies) (points t : ℕ) (b : List ℕ) (word : Option ℕ) (s : Markers)
    → t < markers_max
    → IsActive s
    → IsActive (marker_word fs points t b word s)
unfolding marker_word
marker_word-IsActive fs points t b (some zero) s few h = marker_on-IsActive t s few h
marker_word-IsActive fs points t b (some (suc i)) s few h = marker_off-IsActive t s h
marker_word-IsActive fs points t b none s few h =
    set_marker_index-IsActive fs points t (my_atoi b) (marker_on t s) few
      (marker_on-IsActive t s few h)

marker_words-IsActive :
    (fs : Frequencies) (points t : ℕ) (rest : List (List ℕ)) (s : Markers)
    → t < markers_max
    → IsActive s
    → IsActive (marker_words fs points t rest s).1
unfolding marker_words
marker_words-IsActive fs points t [] s few h = marker_on-IsActive t s few h
marker_words-IsActive fs points t (b ∷ rest) s few h =
    marker_word-IsActive fs points t b (get_str_index b cmd_marker_list) s few h

one_marker-IsActive :
    (fs : Frequencies) (points t : ℕ) (rest : List (List ℕ)) (s : Markers)
    → IsActive s
    → IsActive (one_marker fs points t rest s).1
unfolding one_marker
one_marker-IsActive fs points t rest s h = elim (Bool-cases (leb (2 ^ 31) t || leb markers_max t)) [
  | inl bad ↦ rw bad h
  | inr good ↦ rw good (marker_words-IsActive fs points t rest s (ground arith) h)
]

marker_command-IsActive :
    (fs : Frequencies) (points : ℕ) (a : List ℕ) (rest : List (List ℕ)) (index : Option ℕ)
    (s : Markers)
    → IsActive s
    → IsActive (marker_command fs points a rest index s).1
unfolding marker_command
marker_command-IsActive fs points a rest (some i) s h = all_markers-IsActive (i == 0) s h
marker_command-IsActive fs points a rest none s h =
    one_marker-IsActive fs points (sub32 (my_atoi a) 1) rest s h

-- Whatever the arguments of the command are, the active marker, if there is one, is one of the eight
-- and is enabled after it, if this was so before.
pub cmd_marker-IsActive :
    (fs : Frequencies) (points : ℕ) (args : List (List ℕ)) (s : Markers)
    → IsActive s
    → IsActive (cmd_marker fs points args s).1
unfolding cmd_marker
cmd_marker-IsActive fs points [] s h = h
cmd_marker-IsActive fs points (a ∷ rest) s h =
    marker_command-IsActive fs points a rest (get_str_index a cmd_marker_list) s h
