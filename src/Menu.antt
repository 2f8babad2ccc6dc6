-- ===== src/Menu.antt =====
-- crates/nextboot-menu/src/state.rs: the state of the boot menu, and the items of crates/nextboot-menu/src/item.rs.
-- Text is the list of its UTF-8 bytes; `to_lowercase` of the standard library, which follows the Unicode
-- tables, is a parameter of the functions that use it.
pub mod Selection
pub mod Window
pub mod Sorting
pub mod Stable
use package.next_boot.Text.{starts_with}
use package.next_boot.Base.{
  ℕ, zero, suc, ◌+◌, ◌-◌, ◌<◌, min, Bool, true, false, ◌&&◌, ◌||◌, not, leb, ltb, ◌==◌,
  if◌then◌else◌, Option, some, none, List, [], ◌∷◌, ◌++◌, length, get_elem?, add_u64, sub_u64,
}

pub data IsoType : Type 0 where
  windows ubuntu debian fedora arch generic_linux win_pe unknown : IsoType

abbrev pub Text : Type 0
Text = List ℕ

-- "Windows", "Ubuntu", "Debian", "Fedora", "Arch Linux", "Linux", "WinPE", "Unknown"
unfoldable pub display_name : IsoType → Text
display_name windows = b'W' ∷ b'i' ∷ b'n' ∷ b'd' ∷ b'o' ∷ b'w' ∷ b's' ∷ []
display_name ubuntu = b'U' ∷ b'b' ∷ b'u' ∷ b'n' ∷ b't' ∷ b'u' ∷ []
display_name debian = b'D' ∷ b'e' ∷ b'b' ∷ b'i' ∷ b'a' ∷ b'n' ∷ []
display_name fedora = b'F' ∷ b'e' ∷ b'd' ∷ b'o' ∷ b'r' ∷ b'a' ∷ []
display_name arch = b'A' ∷ b'r' ∷ b'c' ∷ b'h' ∷ 32 ∷ b'L' ∷ b'i' ∷ b'n' ∷ b'u' ∷ b'x' ∷ []
display_name generic_linux = b'L' ∷ b'i' ∷ b'n' ∷ b'u' ∷ b'x' ∷ []
display_name win_pe = b'W' ∷ b'i' ∷ b'n' ∷ b'P' ∷ b'E' ∷ []
display_name unknown = b'U' ∷ b'n' ∷ b'k' ∷ b'n' ∷ b'o' ∷ b'w' ∷ b'n' ∷ []

pub record MenuItem : Type 0 where
  pub label : Text
  pub path : Text
  pub size : ℕ
  pub iso_type : IsoType

pub record MenuState : Type 0 where
  pub items : List MenuItem
  pub selected : ℕ
  pub scroll_offset : ℕ
  pub dirty : Bool
  pub filter : Text

unfoldable pub new : List MenuItem → MenuState
new items = record { items = items; selected = 0; scroll_offset = 0; dirty = true; filter = [] }

unfoldable pub empty : MenuState
unfolding new
empty = new []

unfoldable pub move_up : MenuState → MenuState
move_up s = if ltb 0 s.selected then record s { selected = s.selected - 1; dirty = true } else s

unfoldable pub move_down : MenuState → MenuState
move_down s =
    if ltb s.selected (length s.items - 1)
    then record s { selected = add_u64 s.selected 1; dirty = true }
    else s

unfoldable pub move_first : MenuState → MenuState
move_first s =
    if not (length s.items == 0) && not (s.selected == 0)
    then record s { selected = 0; dirty = true }
    else s

unfoldable pub move_last : MenuState → MenuState
move_last s =
    let last = length s.items - 1 in
    if not (s.selected == last) then record s { selected = last; dirty = true } else s

unfoldable pub page_up : MenuState → ℕ → MenuState
page_up s page_size =
    if ltb 0 page_size && ltb 0 s.selected
    then record s { selected = s.selected - page_size; dirty = true }
    else s

unfoldable pub page_down : MenuState → ℕ → MenuState
page_down s page_size =
    if ltb 0 page_size
    then record s {
      selected = min (add_u64 s.selected page_size) (length s.items - 1);
      dirty = true;
    }
    else s

unfoldable pub selected_item : MenuState → Option MenuItem
selected_item s = get_elem? s.items s.selected

-- The new state, and the ends of the range.
unfoldable pub visible_range : MenuState → ℕ → MenuState × ℕ × ℕ
visible_range s max_items =
    let scroll =
      if ltb s.selected s.scroll_offset
      then s.selected
      else (if leb (add_u64 s.scroll_offset max_items) s.selected
          then add_u64 (sub_u64 s.selected max_items) 1
          else s.scroll_offset) in
    if length s.items == 0 then (s, 0, 0) else (
      record s { scroll_offset = scroll },
      scroll,
      min (add_u64 scroll max_items) (length s.items),
    )

unfoldable pub set_filter : (Text → Text) → MenuState → Text → MenuState
set_filter to_lowercase s filter = record s {
  filter = to_lowercase filter;
  selected = 0;
  scroll_offset = 0;
  dirty = true;
}

-- `str::contains`
unfoldable pub contains : Text → Text → Bool
contains [] ys = starts_with [] ys
contains (x ∷ xs) ys = starts_with (x ∷ xs) ys || contains xs ys

unfoldable pub filter_items : (Text → Text) → Text → List MenuItem → List MenuItem
unfolding contains
filter_items to_lowercase pattern [] = []
filter_items to_lowercase pattern (x ∷ xs) =
    if contains (to_lowercase x.label) pattern
    then x ∷ filter_items to_lowercase pattern xs
    else filter_items to_lowercase pattern xs

unfoldable pub filtered_items : (Text → Text) → MenuState → List MenuItem
unfolding filter_items
filtered_items to_lowercase s =
    if length s.filter == 0 then s.items else filter_items to_lowercase s.filter s.items

unfoldable pub add : MenuState → MenuItem → MenuState
add s item = record s { items = s.items ++ item ∷ []; dirty = true }

unfoldable pub clear : MenuState → MenuState
clear s = record s { items = []; selected = 0; scroll_offset = 0; dirty = true }

-- `a.cmp(&b) != Greater` on texts: the order of their bytes.
unfoldable pub text_le : Text → Text → Bool
text_le [] ys = true
text_le (x ∷ xs) [] = false
text_le (x ∷ xs) (y ∷ ys) = ltb x y || x == y && text_le xs ys

-- `sort_by`, which is stable; `le a b` says that `a` compares less or equal.
unfoldable pub insert_by : (MenuItem → MenuItem → Bool) → MenuItem → List MenuItem → List MenuItem
insert_by le x [] = x ∷ []
insert_by le x (y ∷ ys) = if le x y then x ∷ y ∷ ys else y ∷ insert_by le x ys

unfoldable pub sort_by : (MenuItem → MenuItem → Bool) → List MenuItem → List MenuItem
unfolding insert_by
sort_by le [] = []
sort_by le (x ∷ xs) = insert_by le x (sort_by le xs)

-- The three orders: by label, by size with the largest first, by the name of the type.
abbrev pub name_le : MenuItem → MenuItem → Bool
name_le a b = text_le a.label b.label

abbrev pub size_ge : MenuItem → MenuItem → Bool
size_ge a b = leb b.size a.size

abbrev pub type_le : MenuItem → MenuItem → Bool
type_le a b = text_le (display_name a.iso_type) (display_name b.iso_type)

unfoldable pub sort_by_name : MenuState → MenuState
unfolding sort_by
sort_by_name s = record s { items = sort_by name_le s.items; dirty = true }

unfoldable pub sort_by_size : MenuState → MenuState
unfolding sort_by
sort_by_size s = record s { items = sort_by size_ge s.items; dirty = true }

unfoldable pub sort_by_type : MenuState → MenuState
unfolding sort_by
sort_by_type s = record s { items = sort_by type_le s.items; dirty = true }
