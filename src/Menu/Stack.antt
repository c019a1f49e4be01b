-- ===== src/Menu/Stack.antt =====
-- The stack and the selection stay inside their bounds.
use nano_vna_x.Base.{
  ℕ, zero, suc, ◌+◌, ◌-◌, ◌≤◌, ◌<◌, ◌≡◌, ◌≢◌, refl, sym, ap, subst, ◌∙◌, false, some, List, [], ◌∷◌,
  ltb, leb, ◌==◌, if◌then◌else◌, get_or, set, length, length-set, ℤ, pos, negsuc, arith, Bool-cases,
  inl, inr,
}
use mathlib.Core.Option
use nano_vna_x.Base.Options.{>>=-some}
use nano_vna_x.Menu.{
  Item, Menu, menu_stack_depth_max, menu_next_item, count_loop, current_menu_get_count,
  kept_selection, ensure_selection, menu_move_back, menu_set_submenu, menu_push_submenu,
}

get_or-set_self : (xs : List ℕ) (i v : ℕ) → i < length xs → get_or (set xs i v) i 0 ≡ v
get_or-set_self [] i v h = absurd (omega arith)
get_or-set_self (x ∷ xs) zero v h = refl
get_or-set_self (x ∷ xs) (suc i) v h = get_or-set_self xs i v (omega arith)

get_or-set_ne : (xs : List ℕ) (i j v : ℕ) → i ≢ j → get_or (set xs i v) j 0 ≡ get_or xs j 0
get_or-set_ne [] i j v ne = refl
get_or-set_ne (x ∷ xs) zero zero v ne = absurd (ne refl)
get_or-set_ne (x ∷ xs) zero (suc j) v ne = refl
get_or-set_ne (x ∷ xs) (suc i) zero v ne = refl
get_or-set_ne (x ∷ xs) (suc i) (suc j) v ne = get_or-set_ne xs i j v (λ e. ne (ap suc e))

ne_of : (a b : ℕ) → (a == b) ≡ false → a ≢ b
ne_of a b e = ground arith

lower_lt : (a b : ℕ) → a ≤ b → (a == b) ≡ false → a < b
lower_lt a b le e = ground arith

module _ (memory : ℕ → Item) where
  -- The items that the pointers lead through, from the first one to NULL.
  pub data IsChain : ℕ → List ℕ → Type 0 where
    null : IsChain 0 []
    link : {m : ℕ} {ms : List ℕ} → 0 < m → IsChain (menu_next_item memory m) ms → IsChain m (m ∷ ms)

  count_loop-IsChain :
      (fuel : ℕ) {m : ℕ} {ms : List ℕ}
      → IsChain m ms
      → length ms < fuel
      → count_loop memory fuel m ≡ some (length ms)
  unfolding count_loop
  count_loop-IsChain zero c h = absurd (omega arith)
  count_loop-IsChain (suc fuel) null h = refl
  count_loop-IsChain (suc fuel) (link {m = m} some_m c) h =
      let more : (m == 0) ≡ false = ground arith in
      ap
        (λ b.
          if b then some 0 else Option.map suc (count_loop memory fuel (menu_next_item memory m)))
        more
      ∙ ap (Option.map suc) (count_loop-IsChain fuel c (omega arith))

  -- The selection is none, or an item of the menu.
  abbrev pub Inside : ℕ → ℤ → Type 0
  Inside count (negsuc n) = n ≡ 0
  Inside count (pos n) = n < count

  -- Five levels, the current one among them, menus that end on all levels up to it, and a selection
  -- that is none or an item of the current one.
  pub record IsMenu (fuel : ℕ) (s : Menu) : Type 0 where
    pub depth : length s.menu_stack ≡ menu_stack_depth_max
    pub level : s.menu_current_level < menu_stack_depth_max
    pub chains :
        (l : ℕ)
        → l ≤ s.menu_current_level
        → (ms : List ℕ) × IsChain (get_or s.menu_stack l 0) ms × (length ms < fuel)
    pub selected :
        (count : ℕ) → current_menu_get_count memory fuel s ≡ some count → Inside count s.selection

  kept-Inside : (count : ℕ) (selection : ℤ) → Inside count (kept_selection count selection)
  kept-Inside count (negsuc n) = refl
  kept-Inside zero (pos n) = refl
  kept-Inside (suc last) (pos n) = elim (Bool-cases (leb (suc last) n)) [
    | inl behind ↦ rw behind (omega arith)
    | inr inside ↦ rw inside (ground arith)
  ]

  some_eq : {a b : ℕ} → some a ≡ some b → a ≡ b
  some_eq e = cc

  module _ (fuel lines_min lines_max : ℕ) where
    ensure_selection-IsMenu :
        (s : Menu)
        → length s.menu_stack ≡ menu_stack_depth_max
        → s.menu_current_level < menu_stack_depth_max
        → ((l : ℕ)
            → l ≤ s.menu_current_level
            → (ms : List ℕ) × IsChain (get_or s.menu_stack l 0) ms × (length ms < fuel))
        → (t : Menu) × (ensure_selection memory fuel lines_min lines_max s ≡ some t) × IsMenu fuel t
    unfolding ensure_selection current_menu_get_count
    ensure_selection-IsMenu s depth level chains =
        let (ms, c, few) = chains s.menu_current_level (omega arith) in
        let counted = count_loop-IsChain fuel c few in
        let i = length ms in
        (
          record s {
            selection = kept_selection i s.selection;
            lines = if ltb i lines_min then lines_min else if leb lines_max i then lines_max else i;
          },
          >>=-some _ counted refl,
          record {
            depth = depth;
            level = level;
            chains = chains;
            selected = λ count e.
                subst (λ count. Inside count (kept_selection i s.selection))
                  (some_eq (sym counted ∙ e)) (kept-Inside i s.selection);
          },
        )

    -- Back from a menu, the menu below is there, with a selection inside it.
    pub menu_move_back-IsMenu :
        (s : Menu)
        → IsMenu fuel s
        → (t : Menu) × (menu_move_back memory fuel lines_min lines_max s ≡ some t) × IsMenu fuel t
    unfolding menu_move_back
    menu_move_back-IsMenu s h = elim (Bool-cases (s.menu_current_level == 0)) [
      | inl bottom ↦ (s, rw bottom refl, h)
      | inr above ↦
          let (t, e, h') =
            ensure_selection-IsMenu (record s { menu_current_level = s.menu_current_level - 1 })
              h.depth (omega (arith, h.level)) (λ l le. h.chains l (omega arith)) in
          (t, rw above e, h')
    ]

    set-IsMenu :
        (submenu : ℕ) (ms : List ℕ) (s : Menu)
        → IsChain submenu ms
        → length ms < fuel
        → length s.menu_stack ≡ menu_stack_depth_max
        → s.menu_current_level < menu_stack_depth_max
        → ((l : ℕ)
            → l < s.menu_current_level
            → (ms : List ℕ) × IsChain (get_or s.menu_stack l 0) ms × (length ms < fuel))
        → (t : Menu) × (menu_set_submenu memory fuel lines_min lines_max submenu s ≡ some t)
          × IsMenu fuel t
    unfolding menu_set_submenu
    set-IsMenu submenu ms s c few depth level chains =
        ensure_selection-IsMenu
          (record s { menu_stack = set s.menu_stack s.menu_current_level submenu })
          (length-set s.menu_stack s.menu_current_level submenu ∙ depth) level below
      where
        Chain : ℕ → Type 0
        Chain m = (ms : List ℕ) × IsChain m ms × (length ms < fuel)

        below :
            (l : ℕ)
            → l ≤ s.menu_current_level
            → Chain (get_or (set s.menu_stack s.menu_current_level submenu) l 0)
        below l le = elim (Bool-cases (l == s.menu_current_level)) [
          | inl top ↦
              let here : l ≡ s.menu_current_level = ground arith in
              subst Chain
                (sym (
                  ap (λ l. get_or (set s.menu_stack s.menu_current_level submenu) l 0) here
                  ∙ get_or-set_self s.menu_stack s.menu_current_level submenu
                      (omega (arith, depth))))
                (ms, c, few)
          | inr lower ↦
              let apart : s.menu_current_level ≢ l =
                λ same. ne_of l s.menu_current_level lower (sym same) in
              subst Chain (sym (get_or-set_ne s.menu_stack s.menu_current_level l submenu apart))
                (chains l (lower_lt l s.menu_current_level le lower))
        ]

    -- A submenu that ends is put on the stack, or at the last level in the place of the menu, and the
    -- stack and the selection stay inside their bounds.
    pub menu_push_submenu-IsMenu :
        (submenu : ℕ) (ms : List ℕ) (s : Menu)
        → IsChain submenu ms
        → length ms < fuel
        → IsMenu fuel s
        → (t : Menu) × (menu_push_submenu memory fuel lines_min lines_max submenu s ≡ some t)
          × IsMenu fuel t
    unfolding menu_push_submenu
    menu_push_submenu-IsMenu submenu ms s c few h =
        elim (Bool-cases (ltb s.menu_current_level (menu_stack_depth_max - 1))) [
          | inl room ↦
              let (t, e, h') =
                set-IsMenu submenu ms (record s { menu_current_level = s.menu_current_level + 1 }) c
                  few h.depth (ground arith) (λ l lt. h.chains l (omega arith)) in
              (t, rw room e, h')
          | inr last ↦
              let (t, e, h') =
                set-IsMenu submenu ms s c few h.depth h.level (λ l lt. h.chains l (omega arith)) in
              (t, rw last e, h')
        ]
