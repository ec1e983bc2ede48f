-- ===== src/Format/Tests.antt =====
-- Eight-bit integers: the largest of them needs all three places of its decimal array.
use picolibrary.Common.{ℕ, ◌+◌, ◌≤◌, ◌≡◌, refl, some, List, [], ◌∷◌, length, arith}
use picolibrary.Format.{format_bin, format_hex, format_dec}
use picolibrary.Format.Digits.{
  read, read_prefixed, IsLeading, read_prefixed-format_bin, read_prefixed-format_hex,
  read-format_dec,
}

format_dec_largest : format_dec 3 255 ≡ some (50 ∷ 53 ∷ 53 ∷ [])
unfolding format_dec
format_dec_largest = refl

read_prefixed-format_bin_example :
    (length (format_bin 8 0xb1) ≡ 2 + 8) × (read_prefixed 2 98 (format_bin 8 0xb1) ≡ some 0xb1)
read_prefixed-format_bin_example = read_prefixed-format_bin 8 0xb1 (omega arith)

read_prefixed-format_hex_example :
    (length (format_hex 2 0xb1) ≡ 2 + 2) × (read_prefixed 16 120 (format_hex 2 0xb1) ≡ some 0xb1)
read_prefixed-format_hex_example = read_prefixed-format_hex 2 0xb1 (omega arith)

read-format_dec_example :
    (result : List ℕ) × (format_dec 3 255 ≡ some result)
    × (read 10 0 result ≡ some 255)
    × (length result ≤ 3)
    × IsLeading 255 result
read-format_dec_example = read-format_dec 3 255 (omega arith) (omega arith)
