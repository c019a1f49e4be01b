-- ===== src/Menu.antt =====
-- src/ui/core/ui_menu_engine.c: the stack of menus and the selected item. A pointer to an item is its
-- address, and NULL is 0; what the memory holds at an address is a parameter.
pub mod Stack
use nano_vna_x.Base.{
  ℕ, zero, suc, ◌+◌, ◌-◌, Bool, true, false, Option, none, some, List, [], ◌∷◌, ltb, leb, ◌==◌,
  if◌then◌else◌, get_or, set, replicate, ℤ, pos, negsuc,
}
use mathlib.Core.Option
use nano_vna_x.Base.Options.{◌>>=◌}

pub data ItemType : Type 0 where
  mt_next mt_submenu mt_callback mt_adv_callback : ItemType

-- menuitem_t, without its text
pub record Item : Type 0 where
  pub type : ItemType
  pub value : ℕ
  pub reference : ℕ

-- menu_stack, menu_current_level, selection, and the number of lines that menu_button_height is for
pub record Menu : Type 0 where
  pub menu_stack : List ℕ
  pub menu_current_level : ℕ
  pub selection : ℤ
  pub lines : ℕ

abbrev pub menu_stack_depth_max : ℕ
menu_stack_depth_max = 5

abbrev pub is_next : ItemType → Bool
is_next mt_next = true
is_next mt_submenu = false
is_next mt_callback = false
is_next mt_adv_callback = false

-- A negative selection is none; one behind the end becomes the last item.
abbrev pub kept_selection : ℕ → ℤ → ℤ
kept_selection count (negsuc n) = negsuc 0
kept_selection zero (pos n) = negsuc 0
kept_selection (suc last) (pos n) = if leb (suc last) n then pos last else pos n

unfoldable pub menu_stack_reset : ℕ → ℕ → Menu
menu_stack_reset menu_top lines_min = record {
  menu_stack = menu_top ∷ replicate (menu_stack_depth_max - 1) 0;
  menu_current_level = 0;
  selection = negsuc 0;
  lines = lines_min;
}

module _ (memory : ℕ → Item) where
  unfoldable pub menu_next_item : ℕ → ℕ
  menu_next_item m =
      if m == 0
      then 0
      else if is_next (memory (m + 1)).type
      then (memory (m + 1)).reference
      else m + 1

  -- The item that the loop of current_menu_item arrives at.
  unfoldable pub item_at : ℕ → ℕ → ℕ
  unfolding menu_next_item
  item_at zero m = m
  item_at (suc i) m = item_at i (menu_next_item m)

  unfoldable pub current_menu_item : ℕ → Menu → ℕ
  unfolding item_at
  current_menu_item i s = item_at i (get_or s.menu_stack s.menu_current_level 0)

  -- The loop that counts; `none` is a chain of more items than the fuel.
  unfoldable pub count_loop : ℕ → ℕ → Option ℕ
  unfolding menu_next_item
  count_loop zero m = none
  count_loop (suc fuel) m =
      let rest = Option.map suc (count_loop fuel (menu_next_item m)) in
      if m == 0 then some 0 else rest

  unfoldable pub current_menu_get_count : ℕ → Menu → Option ℕ
  unfolding count_loop
  current_menu_get_count fuel s = count_loop fuel (get_or s.menu_stack s.menu_current_level 0)

  unfoldable pub ensure_selection : ℕ → ℕ → ℕ → Menu → Option Menu
  unfolding current_menu_get_count
  ensure_selection fuel lines_min lines_max s = current_menu_get_count fuel s >>= λ i.
      some (record s {
        selection = kept_selection i s.selection;
        lines = if ltb i lines_min then lines_min else if leb lines_max i then lines_max else i;
      })

  unfoldable pub menu_move_back : ℕ → ℕ → ℕ → Menu → Option Menu
  unfolding ensure_selection
  menu_move_back fuel lines_min lines_max s =
      let left =
        ensure_selection fuel lines_min lines_max
          (record s { menu_current_level = s.menu_current_level - 1 }) in
      if s.menu_current_level == 0 then some s else left

  unfoldable pub menu_set_submenu : ℕ → ℕ → ℕ → ℕ → Menu → Option Menu
  unfolding ensure_selection
  menu_set_submenu fuel lines_min lines_max submenu s =
      ensure_selection fuel lines_min lines_max
        (record s { menu_stack = set s.menu_stack s.menu_current_level submenu })

  -- At the last level the submenu takes the place of the menu.
  unfoldable pub menu_push_submenu : ℕ → ℕ → ℕ → ℕ → Menu → Option Menu
  unfolding menu_set_submenu
  menu_push_submenu fuel lines_min lines_max submenu s =
      menu_set_submenu fuel lines_min lines_max submenu (
        if ltb s.menu_current_level (menu_stack_depth_max - 1)
        then record s { menu_current_level = s.menu_current_level + 1 }
        else s)
