-- ===== src/Examples/Menus.antt =====
-- The boot menu of crates/nextboot-menu/src/state.rs on two items.
use next_boot.Base.{◌+◌, ◌<◌, ◌≤◌, ◌≡◌, ◌⊎◌, refl, [], ◌∷◌, some, true, arith}
use next_boot.Menu
use next_boot.Menu.{MenuItem, MenuState, Text, ubuntu, windows}
use next_boot.Menu.Selection.{here, next, down, by_name, selected_item-Reach}
use next_boot.Menu.Stable.{IsStableSort}
use next_boot.Menu.Sorting.{
  ByLabel, ByFallingSize, ByTypeName, has_label, has_size, has_type_name, sorts_lem,
}
use next_boot.Menu.Window.{visible_range_lem}

abbrev item_a : MenuItem
item_a = record { label = b'b' ∷ []; path = []; size = 5; iso_type = ubuntu }

abbrev item_b : MenuItem
item_b = record { label = b'a' ∷ b'c' ∷ []; path = []; size = 9; iso_type = windows }

abbrev menu : MenuState
menu = record {
  items = item_a ∷ item_b ∷ item_a ∷ [];
  selected = 1;
  scroll_offset = 2;
  dirty = true;
  filter = [];
}

sorted_names : (Menu.sort_by_name menu).items ≡ item_b ∷ item_a ∷ item_a ∷ []
unfolding Menu.sort_by_name Menu.text_le
sorted_names = refl

filtered : Menu.filtered_items (λ t. t) (Menu.set_filter (λ t. t) menu (b'c' ∷ [])) ≡ item_b ∷ []
unfolding Menu.filtered_items Menu.set_filter
filtered = refl

selected_item-Reach_example :
    (x : MenuItem) × (Menu.selected_item (Menu.sort_by_name (Menu.move_down (Menu.new menu.items)))
      ≡ some x)
unfolding Menu.new Menu.move_down Menu.sort_by_name Menu.text_le
selected_item-Reach_example =
    selected_item-Reach (λ t. t) menu.items
      (Menu.sort_by_name (Menu.move_down (Menu.new menu.items))) (omega arith)
      (next (next here (down (Menu.new menu.items)))
        (by_name (Menu.move_down (Menu.new menu.items))))
      (omega arith)

visible_range_lem_example :
    let (s', start, end) = Menu.visible_range menu 2 in
    (start ≤ 1)
    × (1 < end)
    × (end ≤ 3)
    × (end ≤ start + 2)
    × (s' ≡ record menu { scroll_offset = start })
    × ((start ≡ 2) ⊎ ((1 < 2) ⊎ (2 + 2 ≤ 1)))
visible_range_lem_example =
    visible_range_lem menu 2 (omega arith) (omega arith) (omega arith) (omega arith)

sorts_lem_example :
    IsStableSort ByLabel has_label (Menu.sort_by_name menu).items menu.items
    × IsStableSort ByFallingSize has_size (Menu.sort_by_size menu).items menu.items
    × IsStableSort ByTypeName has_type_name (Menu.sort_by_type menu).items menu.items
sorts_lem_example = sorts_lem menu
