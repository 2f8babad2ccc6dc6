-- ===== src/Mapping/Merge.antt =====
-- `optimize` keeps a table well formed: its segments stay valid, and no two of them overlap.
use next_boot.Base.{◌≡◌, Bool-cases, inl, inr, ◌&&◌, ◌==◌, List, [], ◌∷◌, All, add_u64, arith}
use next_boot.Mapping.Extent.{
  Extent, IsValid, IsApart, IsDisjoint, count, sort_by_start, merge_adjacent, merge_sorted,
  optimize,
}
use next_boot.Mapping.Optimize.{joins, IsValid-merged, All-sort_by_start, IsDisjoint-sort_by_start}

merge_adjacent-IsValid :
    (current : Extent) (ms : List Extent)
    → IsValid current
    → All IsValid ms
    → All IsValid (merge_adjacent current ms)
unfolding merge_adjacent
merge_adjacent-IsValid current [] hc hs = (hc, tt)
merge_adjacent-IsValid current (m ∷ ms) hc hs =
    elim (Bool-cases (
      current.virtual_end == m.virtual_start
      && add_u64 current.physical_start (count current) == m.physical_start)) [
        | inl e ↦
            let (ends, starts) = joins current m e in
            rw e (
              merge_adjacent-IsValid (record current { virtual_end = m.virtual_end }) ms
                (IsValid-merged current m hc hs.0 ends starts) hs.1)
        | inr e ↦ rw e (hc, merge_adjacent-IsValid m ms hs.0 hs.1)
      ]

-- What is apart from two segments that meet is apart from the merged one.
IsApart-merged :
    (m x y : Extent)
    → m.virtual_end ≡ x.virtual_start
    → IsApart y m
    → IsApart y x
    → IsApart y (record m { virtual_end = x.virtual_end })
IsApart-merged m x y e am ax v hy hm = ground (arith, am v hy, ax v hy)

All-IsApart-merge_adjacent :
    (y current : Extent) (ms : List Extent)
    → IsApart y current
    → All (IsApart y) ms
    → All (IsApart y) (merge_adjacent current ms)
unfolding merge_adjacent
All-IsApart-merge_adjacent y current [] hc hs = (hc, tt)
All-IsApart-merge_adjacent y current (m ∷ ms) hc hs =
    elim (Bool-cases (
      current.virtual_end == m.virtual_start
      && add_u64 current.physical_start (count current) == m.physical_start)) [
        | inl e ↦ rw e (
            All-IsApart-merge_adjacent y (record current { virtual_end = m.virtual_end }) ms
              (IsApart-merged current m y (joins current m e).0 hc hs.0) hs.1)
        | inr e ↦ rw e (hc, All-IsApart-merge_adjacent y m ms hs.0 hs.1)
      ]

All-IsApart-merged :
    (m x : Extent) (ys : List Extent)
    → m.virtual_end ≡ x.virtual_start
    → All (IsApart m) ys
    → All (IsApart x) ys
    → All (IsApart (record m { virtual_end = x.virtual_end })) ys
All-IsApart-merged m x [] e am ax = tt
All-IsApart-merged m x (y ∷ ys) e am ax = (
  λ v hm hy. IsApart-merged m x y e (λ w a b. am.0 w b a) (λ w a b. ax.0 w b a) v hy hm,
  All-IsApart-merged m x ys e am.1 ax.1,
)

merge_adjacent-IsDisjoint :
    (current : Extent) (ms : List Extent)
    → IsDisjoint (current ∷ ms)
    → IsDisjoint (merge_adjacent current ms)
unfolding merge_adjacent
merge_adjacent-IsDisjoint current [] d = d
merge_adjacent-IsDisjoint current (m ∷ ms) d =
    elim (Bool-cases (
      current.virtual_end == m.virtual_start
      && add_u64 current.physical_start (count current) == m.physical_start)) [
        | inl e ↦ rw e (
            merge_adjacent-IsDisjoint (record current { virtual_end = m.virtual_end }) ms
              (All-IsApart-merged current m ms (joins current m e).0 d.0.1 d.1.0, d.1.1))
        | inr e ↦ rw e (
          All-IsApart-merge_adjacent current m ms d.0.0 d.0.1,
          merge_adjacent-IsDisjoint m ms d.1,
        )
      ]

merged :
    (ms : List Extent)
    → All IsValid ms
    → IsDisjoint ms
    → All IsValid (merge_sorted ms) × IsDisjoint (merge_sorted ms)
unfolding merge_sorted
merged [] h d = (tt, tt)
merged (m ∷ ms) h d = (merge_adjacent-IsValid m ms h.0 h.1, merge_adjacent-IsDisjoint m ms d)

-- `optimize` keeps segments valid and apart from one another.
pub optimize-IsDisjoint :
    (ms : List Extent)
    → All IsValid ms
    → IsDisjoint ms
    → All IsValid (optimize ms) × IsDisjoint (optimize ms)
unfolding optimize
optimize-IsDisjoint [] h d = (h, d)
optimize-IsDisjoint (m ∷ []) h d = (h, d)
optimize-IsDisjoint (m ∷ x ∷ ms) h d =
    merged (sort_by_start (m ∷ x ∷ ms)) (All-sort_by_start IsValid (m ∷ x ∷ ms) h)
      (IsDisjoint-sort_by_start (m ∷ x ∷ ms) d)
