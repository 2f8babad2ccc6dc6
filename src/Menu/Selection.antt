-- ===== src/Menu/Selection.antt =====
-- The selection of the menu stays on an item, whatever the user does.
use next_boot.Base.{
  ℕ, ◌+◌, ◌-◌, ◌<◌, ◌≤◌, ◌≡◌, some, List, [], ◌∷◌, length, length-append, get_elem?-some, IsU64,
  arith,
}
use next_boot.Menu.{
  MenuItem, MenuState, Text, new, move_up, move_down, move_first, move_last, page_up, page_down,
  selected_item, visible_range, set_filter, add, clear, sort_by_name, sort_by_size, sort_by_type,
  name_le, size_ge, type_le,
}
use next_boot.Menu.Stable.{length-sort_by}

-- The selection is an item, or 0 in an empty menu; the items fit in memory.
pub record IsValid (s : MenuState) : Type 0 where
  pub selected_in : s.selected ≤ length s.items - 1
  pub items_fit : IsU64 (length s.items)

-- One call of a method that changes the state.
pub data Step (to_lowercase : Text → Text) : MenuState → MenuState → Type 0 where
  up : (s : MenuState) → Step to_lowercase s (move_up s)
  down : (s : MenuState) → Step to_lowercase s (move_down s)
  first : (s : MenuState) → Step to_lowercase s (move_first s)
  last : (s : MenuState) → Step to_lowercase s (move_last s)
  page_back : (s : MenuState) (n : ℕ) → Step to_lowercase s (page_up s n)
  page_on : (s : MenuState) (n : ℕ) → Step to_lowercase s (page_down s n)
  draw : (s : MenuState) (n : ℕ) → Step to_lowercase s (visible_range s n).0
  narrow : (s : MenuState) (t : Text) → Step to_lowercase s (set_filter to_lowercase s t)
  append :
      (s : MenuState) (x : MenuItem) → IsU64 (length s.items + 1) → Step to_lowercase s (add s x)
  reset : (s : MenuState) → Step to_lowercase s (clear s)
  by_name : (s : MenuState) → Step to_lowercase s (sort_by_name s)
  by_size : (s : MenuState) → Step to_lowercase s (sort_by_size s)
  by_type : (s : MenuState) → Step to_lowercase s (sort_by_type s)

pub data Reach (to_lowercase : Text → Text) (s : MenuState) : MenuState → Type 0 where
  here : Reach to_lowercase s s
  next : {t u : MenuState} → Reach to_lowercase s t → Step to_lowercase t u → Reach to_lowercase s u

Step-IsValid :
    {to_lowercase : Text → Text} {s t : MenuState} → Step to_lowercase s t → IsValid s → IsValid t
unfolding move_up move_down move_first move_last page_up page_down visible_range set_filter add
    clear sort_by_name sort_by_size sort_by_type
Step-IsValid (up s) v = ground arith
Step-IsValid (down s) v = ground arith
Step-IsValid (first s) v = ground arith
Step-IsValid (last s) v = ground arith
Step-IsValid (page_back s n) v = ground arith
Step-IsValid (page_on s n) v = ground arith
Step-IsValid (draw s n) v = ground arith
Step-IsValid (narrow s t) v = ground arith
Step-IsValid (append s x h) v = omega (arith, length-append s.items (x ∷ []))
Step-IsValid (reset s) v = omega arith
Step-IsValid (by_name s) v = omega (arith, length-sort_by name_le s.items)
Step-IsValid (by_size s) v = omega (arith, length-sort_by size_ge s.items)
Step-IsValid (by_type s) v = omega (arith, length-sort_by type_le s.items)

Reach-IsValid :
    {to_lowercase : Text → Text} {s t : MenuState} → Reach to_lowercase s t → IsValid s → IsValid t
Reach-IsValid here v = v
Reach-IsValid (next r st) v = Step-IsValid st (Reach-IsValid r v)

-- From a new menu, after any calls of its methods, a menu that has an item has a selected item.
pub selected_item-Reach :
    (to_lowercase : Text → Text) (items : List MenuItem) (s : MenuState)
    → IsU64 (length items)
    → Reach to_lowercase (new items) s
    → 0 < length s.items
    → (x : MenuItem) × (selected_item s ≡ some x)
unfolding new selected_item
selected_item-Reach to_lowercase items s h r some_items =
    let v = Reach-IsValid r (record { selected_in = omega arith; items_fit = h }) in
    get_elem?-some s.items s.selected (omega (arith, v))

-- Away from both ends of the list `move_down` and `move_up` undo one another.
pub move_up-move_down :
    (s : MenuState)
    → IsU64 (length s.items)
    → 0 < s.selected
    → s.selected + 1 < length s.items
    → ((move_up (move_down s)).selected ≡ s.selected)
      × ((move_down (move_up s)).selected ≡ s.selected)
unfolding move_up move_down
move_up-move_down s h lo hi = (ground arith, ground arith)
