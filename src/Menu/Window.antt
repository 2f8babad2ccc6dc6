-- ===== src/Menu/Window.antt =====
-- The window of the menu: the selected item always lies in the range that is drawn.
use next_boot.Base.{
  ℕ, ◌+◌, ◌<◌, ◌≤◌, ◌≡◌, ◌⊎◌, refl, length, IsU64, arith, ◌==◌, Bool-cases, inl, inr,
}
use next_boot.Menu.{MenuState, visible_range}

-- Of a menu with items whose selection is one of them, drawn on at least one line, `visible_range` gives
-- a range of at most that many items, all of them in the list, that holds the selected one; it moves
-- nothing but the scroll offset, and moves that only if the selected item was outside the window.
pub visible_range_lem :
    (s : MenuState) (max_items : ℕ)
    → s.selected < length s.items
    → 0 < max_items
    → IsU64 (length s.items + max_items)
    → IsU64 (s.scroll_offset + max_items)
    → let (s', start, end) = visible_range s max_items in
      (start ≤ s.selected)
      × (s.selected < end)
      × (end ≤ length s.items)
      × (end ≤ start + max_items)
      × (s' ≡ record s { scroll_offset = start })
      × ((start ≡ s.scroll_offset)
          ⊎ ((s.selected < s.scroll_offset) ⊎ (s.scroll_offset + max_items ≤ s.selected)))
unfolding visible_range
visible_range_lem s max_items hs hm hl ho = elim (Bool-cases (length s.items == 0)) [
  | inl e ↦ absurd (ground arith)
  | inr e ↦ rw e (ground arith, ground arith, ground arith, ground arith, refl, ground arith)
]
