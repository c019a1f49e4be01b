-- ===== src/Shell/Command/Lookup.antt =====
-- Which command an argument names.
use nano_vna_x.Base.{
  ℕ, ◌+◌, ◌≡◌, refl, Bool, true, false, Option, none, some, List, [], ◌∷◌, arith, Every,
}
use mathlib.Core.Logic.{ite, if_pos, if_neg}
use nano_vna_x.Text.Options.{get_str_index}
use nano_vna_x.Text.Options.Index.{
  IsWord, first_option, rest_options, options_lem, index_from, get_str_index-options, text_discrete,
}
use nano_vna_x.Text.Options.{next_option}
use nano_vna_x.Text.Compare.{IsText}
use nano_vna_x.Shell.Command.{Command, is_index_0, find_command}

index_from-is_index_0 :
    (i : ℕ) (v : List ℕ) (os : List (List ℕ)) → is_index_0 (index_from (i + 1) v os) ≡ false
unfolding index_from
index_from-is_index_0 i v [] = refl
index_from-is_index_0 i v (o ∷ os) = elim (text_discrete v o) [
  | yes p ↦ rw (if_pos {C = Option ℕ} (text_discrete v o) p) (ground arith)
  | no p ↦ rw (if_neg {C = Option ℕ} (text_discrete v o) p) (index_from-is_index_0 (i + 1) v os)
]

-- The text `arg` read as a list of names that '|' divides starts with the name `v`.
index_0-first :
    (v arg : List ℕ)
    → IsWord v
    → IsText arg
    → is_index_0 (get_str_index v arg) ≡ ite (text_discrete v (first_option arg)) true false
unfolding index_from
index_0-first v arg w t =
    rw (get_str_index-options v arg w t, options_lem arg)
      (elim (text_discrete v (first_option arg)) [
        | yes p ↦
            rw
              (
                if_pos {C = Option ℕ} (text_discrete v (first_option arg)) p,
                if_pos {C = Bool} (text_discrete v (first_option arg)) p,
              )
              refl
        | no p ↦
            rw
              (
                if_neg {C = Option ℕ} (text_discrete v (first_option arg)) p,
                if_neg {C = Bool} (text_discrete v (first_option arg)) p,
              )
              (index_from-is_index_0 0 v (rest_options (next_option arg)))
      ])

-- The first entry of the table that has the name.
abbrev pub named : List Command → List ℕ → Option Command
named [] name = none
named (cmd ∷ table) name = ite (text_discrete cmd.sc_name name) (some cmd) (named table name)

-- The command that runs is the first of the table whose name is the argument up to its first '|'.
pub find_command-named :
    (table : List Command) (arg : List ℕ)
    → Every (λ cmd. IsWord cmd.sc_name) table
    → IsText arg
    → find_command table arg ≡ named table (first_option arg)
unfolding find_command
find_command-named [] arg w t = refl
find_command-named (cmd ∷ table) arg w t = elim (text_discrete cmd.sc_name (first_option arg)) [
  | yes p ↦ rw (
    index_0-first cmd.sc_name arg w.0 t,
    if_pos {C = Bool} (text_discrete cmd.sc_name (first_option arg)) p,
    if_pos {C = Option Command} (text_discrete cmd.sc_name (first_option arg)) p,
  )
  | no p ↦
      rw
        (
          index_0-first cmd.sc_name arg w.0 t,
          if_neg {C = Bool} (text_discrete cmd.sc_name (first_option arg)) p,
          if_neg {C = Option Command} (text_discrete cmd.sc_name (first_option arg)) p,
        )
        (find_command-named table arg w.1 t)
]
