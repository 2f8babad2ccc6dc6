-- ===== src/Text/Utf8.antt =====
-- `str::from_utf8` of the standard library: the characters of a text in UTF-8, if it is one.
use next_boot.Base.{
  ℕ, zero, suc, ◌+◌, ◌-◌, ◌*◌, ◌&&◌, leb, if◌then◌else◌, Option, none, some, ◌>>=◌, ◌≡◌, refl, List,
  [], ◌∷◌,
}

-- What a first byte announces: the bytes that follow, the range of the next one, and its own bits.
pub record Lead : Type 0 where
  pub more : ℕ
  pub low : ℕ
  pub high : ℕ
  pub bits : ℕ

abbrev lead : ℕ → ℕ → ℕ → ℕ → Option Lead
lead more low high bits = some (record { more = more; low = low; high = high; bits = bits })

-- A shorter form of a character, a surrogate and a number above 0x10FFFF are refused.
abbrev pub utf8_lead : ℕ → Option Lead
utf8_lead b =
    if leb b 0x7F
    then lead 0 0 0 b
    else (if leb 0xC2 b && leb b 0xDF
        then lead 1 0x80 0xBF (b - 0xC0)
        else (if leb 0xE0 b && leb b 0xEF
            then lead 2 (if leb b 0xE0 then 0xA0 else 0x80)
                (if leb 0xED b && leb b 0xED then 0x9F else 0xBF) (b - 0xE0)
            else (if leb 0xF0 b && leb b 0xF4
                then lead 3 (if leb b 0xF0 then 0x90 else 0x80) (if leb 0xF4 b then 0x8F else 0xBF)
                    (b - 0xF0)
                else none)))

-- `more` bytes of a character are still to come, the next of them from `low` to `high`.
unfoldable pub utf8_run : ℕ → ℕ → ℕ → ℕ → List ℕ → Option (List ℕ)
utf8_run zero low high bits [] = some []
utf8_run (suc more) low high bits [] = none
utf8_run zero low high bits (b ∷ bytes) = elim (utf8_lead b) [
  | none ↦ none
  | some l ↦ elim (l.more) [
    | zero ↦ do text ← utf8_run zero 0 0 0 bytes; some (l.bits ∷ text)
    | suc more ↦ utf8_run (suc more) l.low l.high l.bits bytes
  ]
]
utf8_run (suc more) low high bits (b ∷ bytes) =
    let next = bits * 64 + (b - 0x80) in
    let rest : Option (List ℕ) = elim more [
      | zero ↦ do text ← utf8_run zero 0 0 0 bytes; some (next ∷ text)
      | suc more' ↦ utf8_run (suc more') 0x80 0xBF next bytes
    ] in
    if leb low b && leb b high then rest else none

unfoldable pub from_utf8 : List ℕ → Option (List ℕ)
from_utf8 bytes = utf8_run 0 0 0 0 bytes

euro : from_utf8 (0xE2 ∷ 0x82 ∷ 0xAC ∷ 97 ∷ []) ≡ some (0x20AC ∷ 97 ∷ [])
unfolding from_utf8 utf8_run
euro = refl
