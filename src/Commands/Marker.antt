-- ===== src/Commands/Marker.antt =====
-- src/sys/shell_commands.c: cmd_marker, with set_marker_index of src/runtime/runtime_entry.c.

pub mod Active
use nano_vna_x.Base.{
  ℕ, zero, suc, ◌+◌, ◌-◌, ◌^◌, Bool, true, false, ◌||◌, Option, none, some, List, [], ◌∷◌, map, leb,
  ◌==◌, if◌then◌else◌, get_elem?, set, sub32,
}
use nano_vna_x.Commands.{Reply, quiet, report, usage}
use nano_vna_x.Sweep.Frequencies.{Frequencies, get_frequency}
use nano_vna_x.Text.Number.{my_atoi}
use nano_vna_x.Text.Options.{get_str_index}

pub record Marker : Type 0 where
  pub enabled : Bool
  pub index : ℕ
  pub frequency : ℕ

-- active_marker, where `none` is MARKER_INVALID, and markers
pub record Markers : Type 0 where
  pub active_marker : Option ℕ
  pub markers : List Marker

abbrev pub markers_max : ℕ
markers_max = 8

-- "on|off"
abbrev pub cmd_marker_list : List ℕ
cmd_marker_list = b'o' ∷ b'n' ∷ b'|' ∷ b'o' ∷ b'f' ∷ b'f' ∷ []

-- A marker that is there is changed.
unfoldable pub with_marker : ℕ → (Marker → Marker) → List Marker → List Marker
with_marker t change ms = elim (get_elem? ms t) [ none ↦ ms | some m ↦ set ms t (change m) ]

abbrev pub enable : Bool → Marker → Marker
enable on m = record m { enabled = on }

-- The index is an int: a negative one is taken for 0.
unfoldable pub set_marker_index : Frequencies → ℕ → ℕ → ℕ → Markers → Markers
unfolding with_marker
set_marker_index fs points t idx s =
    let low = if leb (2 ^ 31) idx then 0 else idx in
    let at = if leb points low then points - 1 else low in
    record s {
      markers =
          with_marker t (λ m. record m { index = at; frequency = get_frequency fs at }) s.markers;
    }

-- marker on|off
unfoldable pub all_markers : Bool → Markers → Markers
all_markers on s = record {
  active_marker = if on then some 0 else none;
  markers = map (enable on) s.markers;
}

abbrev pub is_active : ℕ → Option ℕ → Bool
is_active t none = false
is_active t (some i) = i == t

-- marker {n} on
unfoldable pub marker_on : ℕ → Markers → Markers
unfolding with_marker
marker_on t s = record { active_marker = some t; markers = with_marker t (enable true) s.markers }

-- marker {n} off
unfoldable pub marker_off : ℕ → Markers → Markers
unfolding with_marker
marker_off t s = record {
  active_marker = if is_active t s.active_marker then none else s.active_marker;
  markers = with_marker t (enable false) s.markers;
}

-- The argument behind the number of the marker.
unfoldable pub marker_word : Frequencies → ℕ → ℕ → List ℕ → Option ℕ → Markers → Markers
unfolding marker_on marker_off set_marker_index
marker_word fs points t b (some zero) s = marker_on t s
marker_word fs points t b (some (suc i)) s = marker_off t s
marker_word fs points t b none s = set_marker_index fs points t (my_atoi b) (marker_on t s)

-- The arguments behind it.
unfoldable pub marker_words : Frequencies → ℕ → ℕ → List (List ℕ) → Markers → Reply × Markers
unfolding marker_on marker_word
marker_words fs points t [] s = (report, marker_on t s)
marker_words fs points t (b ∷ rest) s =
    (quiet, marker_word fs points t b (get_str_index b cmd_marker_list) s)

-- marker {n} ...
unfoldable pub one_marker : Frequencies → ℕ → ℕ → List (List ℕ) → Markers → Reply × Markers
unfolding marker_words
one_marker fs points t rest s =
    if leb (2 ^ 31) t || leb markers_max t then (usage, s) else marker_words fs points t rest s

-- By the index of the first argument in the list.
unfoldable pub marker_command :
    Frequencies → ℕ → List ℕ → List (List ℕ) → Option ℕ → Markers → Reply × Markers
unfolding all_markers one_marker
marker_command fs points a rest (some i) s = (quiet, all_markers (i == 0) s)
marker_command fs points a rest none s = one_marker fs points (sub32 (my_atoi a) 1) rest s

unfoldable pub cmd_marker : Frequencies → ℕ → List (List ℕ) → Markers → Reply × Markers
unfolding marker_command
cmd_marker fs points [] s = (report, s)
cmd_marker fs points (a ∷ rest) s =
    marker_command fs points a rest (get_str_index a cmd_marker_list) s
