-- ===== src/Tests/Menus.antt =====
-- src/ui/core/ui_menu_engine.c with a menu of two items that share their "back".
use nano_vna_x.Base.{
  ℕ, ◌<◌, ◌≡◌, refl, subst, ◌||◌, some, List, [], ◌∷◌, ◌==◌, if◌then◌else◌, get_or, length, arith,
}
use nano_vna_x.Menu.{
  Item, Menu, mt_next, mt_submenu, mt_callback, menu_next_item, menu_push_submenu, menu_stack_reset,
}
use nano_vna_x.Menu.Stack.{IsChain, null, link, IsMenu, menu_push_submenu-IsMenu}

-- At 10 a submenu and its end, at 20 a callback that goes on at 30, at 30 "back" and its end.
abbrev memory : ℕ → Item
memory a =
    if a == 10
    then record { type = mt_submenu; value = 0; reference = 20 }
    else if a == 21
    then record { type = mt_next; value = 0; reference = 30 }
    else if a == 20 || a == 30
    then record { type = mt_callback; value = 0; reference = 1 }
    else record { type = mt_next; value = 0; reference = 0 }

-- 20, 30
submenu : IsChain memory 20 (20 ∷ 30 ∷ [])
unfolding menu_next_item
submenu = link (omega arith) (link (omega arith) null)

top : IsChain memory 10 (10 ∷ [])
unfolding menu_next_item
top = link (omega arith) null

at_top : IsMenu memory 9 (menu_stack_reset 10 8)
unfolding menu_stack_reset
at_top = record {
  depth = refl;
  level = omega arith;
  chains = λ l le.
      let bottom : 0 ≡ l = omega arith in
      subst
        (λ l.
          (ms : List ℕ) × IsChain memory (get_or (menu_stack_reset 10 8).menu_stack l 0) ms
          × (length ms < 9))
        bottom (10 ∷ [], top, omega arith);
  selected = λ count e. refl;
}

menu_push_submenu-IsMenu_example :
    (t : Menu) × (menu_push_submenu memory 9 8 16 20 (menu_stack_reset 10 8) ≡ some t)
    × IsMenu memory 9 t
menu_push_submenu-IsMenu_example =
    menu_push_submenu-IsMenu memory 9 8 16 20 (20 ∷ 30 ∷ []) (menu_stack_reset 10 8) submenu
      (omega arith) at_top
