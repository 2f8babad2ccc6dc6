-- ===== src/Image/Vhdx/Path/Resolved.antt =====
-- Where the path of crates/nextboot-image/src/vhdx/path.rs leads: the parts of the path of the parent, from
-- the directory of the child or from the root of its volume.
use next_boot.Base.{ℕ, ◌<◌, ◌≡◌, ◌≢◌, true, false, ◌⊎◌, List, [], ◌∷◌, ◌++◌, All}
use next_boot.Text.{trim}
use next_boot.Image.Vhdx.Path.{
  slash, backslash, colon, ends_with_slash, is_absolute, normalize_separators,
}
use next_boot.Image.Vhdx.Path.Leads.{IsName, Leads, parts_of, path_of}

-- The absolute path that is made of a parent path: its own, or one from the directory of the child, which is
-- where all parts of the child's path but the last name lead.
abbrev pub Combines : List ℕ → List ℕ → List ℕ → Type 0
Combines child_path parent_path path =
    ((is_absolute parent_path ≡ true) × (path ≡ normalize_separators parent_path))
    ⊎ ((is_absolute parent_path ≡ false)
        × ((name : List ℕ) × (at : List (List ℕ)) × (base : List ℕ) × Leads [] (parts_of child_path)
              (name ∷ at)
            × (base ≡ path_of at)
            × (((ends_with_slash base ≡ true) × (path ≡ base ++ normalize_separators parent_path))
                ⊎ ((ends_with_slash base ≡ false)
                    × (path ≡ (base ++ slash ∷ []) ++ normalize_separators parent_path)))))

-- The path begins neither with two separators of one kind nor with a drive.
pub record IsLocal (path : List ℕ) : Type 0 where
  pub nonempty : path ≢ []
  pub no_namespace : (rest : List ℕ) → path ≢ backslash ∷ backslash ∷ rest
  pub no_share : (rest : List ℕ) → path ≢ slash ∷ slash ∷ rest
  pub no_drive : (c : ℕ) (rest : List ℕ) → c < 128 → path ≢ c ∷ colon ∷ rest

-- The path from the root of the volume to where the parts of the combined path lead.
pub record IsResolved (child_path parent_path resolved : List ℕ) : Type 0 where
  pub local : IsLocal (trim parent_path)
  pub path : List ℕ
  pub combined : Combines child_path (trim parent_path) path
  pub end : List (List ℕ)
  pub names : All IsName end
  pub leads : Leads [] (parts_of path) end
  pub from_root : resolved ≡ path_of end
