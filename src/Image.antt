-- ===== src/Image.antt =====
-- crates/nextboot-image/src/lib.rs: the spans of a virtual disk image, and the step that adds one to a plan,
-- `push_span`, which vdi/planner.rs and vhdx/planner.rs both have.
pub mod Plan
pub mod Vdi
pub mod Vhdx
use package.next_boot.Base.{
  ℕ, ◌+◌, Bool, true, false, ◌&&◌, ◌==◌, if◌then◌else◌, List, [], ◌∷◌, checked_add,
}
use package.next_boot.Results.{Result, ok, err, ◌>>=◌, ok_or}

pub data ImageSpanSource : Type 0 where
  image : ℕ → ImageSpanSource
  parent zero_fill : ImageSpanSource

pub record ImageSpan : Type 0 where
  pub virtual_offset : ℕ
  pub byte_count : ℕ
  pub source : ImageSpanSource

pub data ImagePlanError : Type 0 where
  invalid unsupported : ImagePlanError

-- `Result<A, ImagePlanError>`, or a panic.
abbrev pub ImageResult {ℓ} : Type ℓ → Type ℓ
ImageResult A = Result ImagePlanError A

abbrev pub same_merge_source : ImageSpanSource → ImageSpanSource → Bool
same_merge_source parent parent = true
same_merge_source zero_fill zero_fill = true
same_merge_source left right = false

-- The `last_mut` step: the last span grows, or a new one is pushed.
unfoldable pub push_last : List ImageSpan → ℕ → ℕ → ImageSpanSource → ImageResult (List ImageSpan)
push_last [] virtual_offset n source =
    ok (record { virtual_offset = virtual_offset; byte_count = n; source = source } ∷ [])
push_last (last ∷ []) virtual_offset n source =
    let grown = (do
      count ← ok_or (checked_add last.byte_count n) invalid
      ok (record last { byte_count = count } ∷ [])) in
    do
      last_end ← ok_or (checked_add last.virtual_offset last.byte_count) invalid
      if last_end == virtual_offset && same_merge_source last.source source
          then grown
          else ok (
              last
              ∷ record { virtual_offset = virtual_offset; byte_count = n; source = source }
              ∷ [])
push_last (s ∷ t ∷ spans) virtual_offset n source = do
  rest ← push_last (t ∷ spans) virtual_offset n source
  ok (s ∷ rest)

unfoldable pub push_span : List ImageSpan → ℕ → ℕ → ImageSpanSource → ImageResult (List ImageSpan)
push_span spans virtual_offset n source =
    if n == 0 then ok spans else push_last spans virtual_offset n source
