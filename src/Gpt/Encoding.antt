-- ===== src/Gpt/Encoding.antt =====
-- A partition entry written out as in the GPT format, for `parse_single_partition`
-- (crates/nextboot-fs/src/gpt.rs) to read back.
use next_boot.Base.{
  ℕ, zero, suc, ◌+◌, ◌-◌, ◌*◌, ◌/◌, ◌%◌, ◌<◌, ◌≤◌, ◌≡◌, ◌∙◌, sym, refl, ap, true, false, ◌==◌, List,
  [], ◌∷◌, ◌++◌, length, take, drop, replicate, length-append, length-replicate, All, IsU64,
  append-nil, arith,
}
use next_boot.Results.{ok}
use next_boot.Octets.{is_char, field}
use next_boot.Gpt.Partition.{GptPartition}
use next_boot.Gpt.{decode_utf16, parse_single_partition}
use next_boot.Gpt.Entries.{parse_single_partition_lem}

-- The `w` bytes of a number, the low one first.
abbrev pub le_bytes : ℕ → ℕ → List ℕ
le_bytes zero n = []
le_bytes (suc w) n = n % 256 ∷ le_bytes w (n / 256)

-- A name in UTF-16LE, for characters of two bytes.
abbrev pub utf16 : List ℕ → List ℕ
utf16 [] = []
utf16 (c ∷ cs) = c % 256 ∷ c / 256 ∷ utf16 cs

-- A character of two bytes that is neither zero nor a surrogate.
abbrev pub IsTwoBytes : ℕ → Type 0
IsTwoBytes c = (0 < c) × (c < 0x10000) × (is_char c ≡ true)

-- A partition that has an entry: GUIDs of 16 bytes, words of 64 bits, a name of at most 36 characters.
pub record IsEncodable (p : GptPartition) : Type 0 where
  pub type_guid_16 : length p.type_guid ≡ 16
  pub partition_guid_16 : length p.partition_guid ≡ 16
  pub start_fits : IsU64 p.start_lba
  pub end_fits : IsU64 p.end_lba
  pub attributes_fit : IsU64 p.attributes
  pub name_fits : length p.name ≤ 36
  pub name_plain : All IsTwoBytes p.name

-- The entry of 128 bytes: the name is filled up with zeros.
abbrev pub encoded : GptPartition → List ℕ
encoded p =
    p.type_guid
    ++ (p.partition_guid
        ++ (le_bytes 8 p.start_lba
            ++ (le_bytes 8 p.end_lba
                ++ (le_bytes 8 p.attributes
                    ++ (utf16 p.name ++ replicate (72 - 2 * length p.name) 0)))))

take-append : (xs ys : List ℕ) → take (length xs) (xs ++ ys) ≡ xs
take-append [] ys = refl
take-append (x ∷ xs) ys = ap (λ zs. x ∷ zs) (take-append xs ys)

drop-append : (xs ys : List ℕ) (n : ℕ) → drop (length xs + n) (xs ++ ys) ≡ drop n ys
drop-append [] ys n = let e : 0 + n ≡ n = omega arith in rw e
drop-append (x ∷ xs) ys n =
    let e : suc (length xs) + n ≡ suc (length xs + n) = omega arith in rw e (drop-append xs ys n)

-- The part that stands first, and one that stands later.
field-first : (xs ys : List ℕ) (n : ℕ) → length xs ≡ n → field (xs ++ ys) 0 n ≡ xs
field-first xs ys n e = let d : n - 0 ≡ n = omega arith in rw (d, sym e) (take-append xs ys)

field-later :
    (xs ys : List ℕ) (n from to : ℕ)
    → length xs ≡ n
    → field (xs ++ ys) (n + from) (n + to) ≡ field ys from to
field-later xs ys n from to e =
    let d : n + to - (n + from) ≡ to - from = omega arith in
    rw (d, sym e) (ap (take (to - from)) (drop-append xs ys from))

length-utf16 : (cs : List ℕ) → length (utf16 cs) ≡ 2 * length cs
length-utf16 [] = refl
length-utf16 (c ∷ cs) = omega (arith, length-utf16 cs)

decode_zeros : (n : ℕ) → decode_utf16 (replicate n 0) ≡ []
unfolding decode_utf16
decode_zeros zero = refl
decode_zeros (suc zero) = refl
decode_zeros (suc (suc n)) = refl

decode_utf16-utf16 :
    (cs : List ℕ) (n : ℕ) → All IsTwoBytes cs → decode_utf16 (utf16 cs ++ replicate n 0) ≡ cs
unfolding decode_utf16
decode_utf16-utf16 [] n h = decode_zeros n
decode_utf16-utf16 (c ∷ cs) n ((pos, small, char), h) =
    let whole : c % 256 + 256 * (c / 256) ≡ c = omega arith in
    let nonzero : (c == 0) ≡ false = ground arith in
    rw (whole, nonzero, char, decode_utf16-utf16 cs n h)

-- The six fields of 128 bytes.
module _ (a b c d e f : List ℕ) (la : length a ≡ 16) (lb : length b ≡ 16) (lc : length c ≡ 8)
    (ld : length d ≡ 8) (le : length e ≡ 8) (lf : length f ≡ 72) where
  joined : List ℕ
  joined = a ++ (b ++ (c ++ (d ++ (e ++ f))))

  length-joined : length joined ≡ 128
  unfolding joined
  length-joined = omega (
    arith,
    length-append a (b ++ (c ++ (d ++ (e ++ f)))),
    length-append b (c ++ (d ++ (e ++ f))),
    length-append c (d ++ (e ++ f)),
    length-append d (e ++ f),
    length-append e f,
  )

  first_a : field joined 0 16 ≡ a
  unfolding joined
  first_a = field-first a (b ++ (c ++ (d ++ (e ++ f)))) 16 la

  after_a :
      (from to : ℕ)
      → field joined (16 + from) (16 + to) ≡ field (b ++ (c ++ (d ++ (e ++ f)))) from to
  unfolding joined
  after_a from to = field-later a (b ++ (c ++ (d ++ (e ++ f)))) 16 from to la

  after_b :
      (from to : ℕ)
      → field joined (16 + (16 + from)) (16 + (16 + to)) ≡ field (c ++ (d ++ (e ++ f))) from to
  after_b from to =
      after_a (16 + from) (16 + to) ∙ field-later b (c ++ (d ++ (e ++ f))) 16 from to lb

  after_c :
      (from to : ℕ)
      → field joined (16 + (16 + (8 + from))) (16 + (16 + (8 + to))) ≡ field (d ++ (e ++ f)) from to
  after_c from to = after_b (8 + from) (8 + to) ∙ field-later c (d ++ (e ++ f)) 8 from to lc

  after_d :
      (from to : ℕ)
      → field joined (16 + (16 + (8 + (8 + from)))) (16 + (16 + (8 + (8 + to))))
        ≡ field (e ++ f) from to
  after_d from to = after_c (8 + from) (8 + to) ∙ field-later d (e ++ f) 8 from to ld

  after_e : field joined 56 128 ≡ f
  after_e =
      after_d 8 80
      ∙ field-later e f 8 0 72 le
      ∙ ap (λ ys. field ys 0 72) (sym (append-nil f))
      ∙ field-first f [] 72 lf

  joined-described :
      (read_u64 : List ℕ → ℕ)
      → (joined_bytes : List ℕ) → joined_bytes ≡ joined
      → parse_single_partition read_u64 joined_bytes
        ≡ ok (record {
          type_guid = a;
          partition_guid = b;
          start_lba = read_u64 c;
          end_lba = read_u64 d;
          attributes = read_u64 e;
          name = decode_utf16 f;
        })
  joined-described read_u64 joined_bytes same =
      ap (parse_single_partition read_u64) same
      ∙ parse_single_partition_lem read_u64 joined (omega (arith, length-joined))
      ∙ rw (
        first_a,
        after_a 0 16 ∙ field-first b (c ++ (d ++ (e ++ f))) 16 lb,
        after_b 0 8 ∙ field-first c (d ++ (e ++ f)) 8 lc,
        after_c 0 8 ∙ field-first d (e ++ f) 8 ld,
        after_d 0 8 ∙ field-first e f 8 le,
        after_e,
      )

-- An entry written out as in the GPT format is read back as the partition, its name included. The GUIDs have
-- 16 bytes, the words 64 bits; the name has at most 36 characters, each of two bytes, none zero or a
-- surrogate; and `read_u64` reads eight bytes in little-endian order.
pub parse_single_partition-encoded :
    (read_u64 : List ℕ → ℕ) (p : GptPartition)
    → ((n : ℕ) → IsU64 n → read_u64 (le_bytes 8 n) ≡ n)
    → IsEncodable p
    → parse_single_partition read_u64 (encoded p) ≡ ok p
unfolding joined
parse_single_partition-encoded read_u64 p reads h =
    joined-described p.type_guid p.partition_guid (le_bytes 8 p.start_lba) (le_bytes 8 p.end_lba)
      (le_bytes 8 p.attributes) (utf16 p.name ++ replicate (72 - 2 * length p.name) 0)
      h.type_guid_16 h.partition_guid_16 refl refl refl
      (length-append (utf16 p.name) (replicate (72 - 2 * length p.name) 0) ∙ padded) read_u64
      (encoded p) refl
    ∙ rw (
      reads p.start_lba h.start_fits,
      reads p.end_lba h.end_fits,
      reads p.attributes h.attributes_fit,
      decode_utf16-utf16 p.name (72 - 2 * length p.name) h.name_plain,
    )
  where
    padded : length (utf16 p.name) + length {A = ℕ} (replicate (72 - 2 * length p.name) 0) ≡ 72
    padded =
        let room = h.name_fits in
        omega (arith, length-utf16 p.name, length-replicate {A = ℕ} (72 - 2 * length p.name) 0)
