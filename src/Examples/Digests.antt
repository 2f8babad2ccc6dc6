-- ===== src/Examples/Digests.antt =====
-- Digests of short passwords (crates/nextboot-config/src/md5.rs), as in RFC 1321, and a directory of two records
-- (crates/nextboot-fs/src/ext4/directories.rs).
use next_boot.Base.{ℕ, ◌<◌, ◌≡◌, refl, inl, some, List, [], ◌∷◌, All, arith}
use next_boot.Octets.{from_le_bytes, to_le_bytes}
use next_boot.Md5.{
  md5_digest, message_of, pad_loop, mix_chunks, mix_chunk, rounds, round_of, words_of,
  parse_md5_hex,
}
use next_boot.Md5.Written.{written, parse_md5_hex-written}
use next_boot.Fs.Fat.Answers.{Answer}
use next_boot.Fs.Ext4.Directories.{dir_entries}
use next_boot.Fs.Ext4.Listing.{IsListed, dir_entries-Answer}

abbrev digest_of_abc : List ℕ
digest_of_abc =
    0x90 ∷ 0x01 ∷ 0x50 ∷ 0x98 ∷ 0x3c ∷ 0xd2 ∷ 0x4f ∷ 0xb0 ∷ 0xd6 ∷ 0x96 ∷ 0x3f ∷ 0x7d ∷ 0x28 ∷ 0xe1
    ∷ 0x7f ∷ 0x72 ∷ []

md5_of_abc : md5_digest (b'a' ∷ b'b' ∷ b'c' ∷ []) ≡ digest_of_abc
unfolding md5_digest message_of pad_loop to_le_bytes mix_chunks mix_chunk rounds round_of words_of
    from_le_bytes
md5_of_abc = refl

small_bytes : All (λ byte. byte < 256) digest_of_abc
small_bytes = (
  omega arith,
  (
    omega arith,
    (
      omega arith,
      (
        omega arith,
        (
          omega arith,
          (
            omega arith,
            (
              omega arith,
              (
                omega arith,
                (
                  omega arith,
                  (
                    omega arith,
                    (
                      omega arith,
                      (omega arith, (omega arith, (omega arith, (omega arith, (omega arith, tt))))),
                    ),
                  ),
                ),
              ),
            ),
          ),
        ),
      ),
    ),
  ),
)

parse_md5_hex-written_example : parse_md5_hex (written b'a' digest_of_abc) ≡ some digest_of_abc
parse_md5_hex-written_example = parse_md5_hex-written b'a' digest_of_abc (inl refl) small_bytes refl

-- A record of inode 12 named "a", and an unused one.
abbrev two_records : List ℕ
two_records =
    12 ∷ 0 ∷ 0 ∷ 0 ∷ 12 ∷ 0 ∷ 1 ∷ 1 ∷ b'a' ∷ 0 ∷ 0 ∷ 0 ∷ 0 ∷ 0 ∷ 0 ∷ 0 ∷ 8 ∷ 0 ∷ 0 ∷ 0 ∷ []

dir_entries-Answer_example : Answer (All IsListed) (dir_entries 21 two_records 0)
dir_entries-Answer_example = dir_entries-Answer two_records (omega arith)
