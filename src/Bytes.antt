-- ===== src/Bytes.antt =====
-- Bytes of the standard library that queue/wal.go writes: big-endian uint32 and the IEEE CRC-32. A
-- byte is a number below 256.
use Prim.Native.Nat.{bit_xor}
use artie_takehome.Base.{
  ℕ, zero, suc, ◌+◌, ◌*◌, ◌/◌, ◌%◌, ◌^◌, ◌<◌, ◌≡◌, refl, List, [], ◌∷◌, ◌++◌, Option, some, none,
  arith, ◌==◌, if◌then◌else◌, length, Option-cases, ap, inl, inr,
}

-- binary.BigEndian.PutUint32 of uint32(n).
unfoldable pub put_uint32 : ℕ → List ℕ
put_uint32 n = (n / 2 ^ 24 % 256) ∷ (n / 2 ^ 16 % 256) ∷ (n / 2 ^ 8 % 256) ∷ (n % 256) ∷ []

-- binary.BigEndian.Uint32 of four bytes.
unfoldable pub uint32 : ℕ → ℕ → ℕ → ℕ → ℕ
uint32 a b c d = a * 2 ^ 24 + b * 2 ^ 16 + c * 2 ^ 8 + d

-- One bit, and one byte, of the reflected CRC with polynomial 0xEDB88320.
crc_bit : ℕ → ℕ
crc_bit c = if c % 2 == 0 then c / 2 else bit_xor (c / 2) 0xEDB88320

crc_bits : ℕ → ℕ → ℕ
crc_bits zero c = c
crc_bits (suc n) c = crc_bits n (crc_bit c)

crc_bytes : ℕ → List ℕ → ℕ
crc_bytes c [] = c
crc_bytes c (b ∷ bs) = crc_bytes (crc_bits 8 (bit_xor c b)) bs

-- crc32.ChecksumIEEE, a uint32.
unfoldable pub checksum_ieee : List ℕ → ℕ
unfolding crc_bytes crc_bits crc_bit
checksum_ieee bs = bit_xor (crc_bytes 0xFFFFFFFF bs) 0xFFFFFFFF % 2 ^ 32

pub checksum-lt : (bs : List ℕ) → checksum_ieee bs < 2 ^ 32
unfolding checksum_ieee
checksum-lt bs = omega arith

pub uint32-put_uint32 :
    (n : ℕ)
    → n < 2 ^ 32
    → uint32 (n / 2 ^ 24 % 256) (n / 2 ^ 16 % 256) (n / 2 ^ 8 % 256) (n % 256) ≡ n
unfolding uint32
uint32-put_uint32 n h = omega arith

-- The first n bytes and the others, if there are that many.
unfoldable pub split_at : ℕ → List ℕ → Option (List ℕ × List ℕ)
split_at zero bs = some ([], bs)
split_at (suc n) [] = none
split_at (suc n) (b ∷ bs) = elim (split_at n bs) [ none ↦ none | some (a, c) ↦ some (b ∷ a, c) ]

pub split_at-append : (xs bs : List ℕ) → split_at (length xs) (xs ++ bs) ≡ some (xs, bs)
unfolding split_at
split_at-append [] bs = refl
split_at-append (x ∷ xs) bs = rw (split_at-append xs bs)

pub split_at-short : (n : ℕ) (bs : List ℕ) → length bs < n → split_at n bs ≡ none
unfolding split_at
split_at-short zero bs h = absurd (omega arith)
split_at-short (suc n) [] h = refl
split_at-short (suc n) (b ∷ bs) h = rw (split_at-short n bs (omega arith))

-- A split leaves the bytes behind it.
pub split_at-rest :
    (n : ℕ) (bs body rest : List ℕ)
    → split_at n bs ≡ some (body, rest)
    → length rest + n ≡ length bs
unfolding split_at
split_at-rest zero bs body rest e = ground (arith, e)
split_at-rest (suc n) [] body rest e = absurd (cc)
split_at-rest (suc n) (b ∷ bs) body rest e = elim (Option-cases (split_at n bs)) [
  | inl f ↦ absurd (cc (rw f at e))
  | inr ((a, c), f) ↦ omega (arith, split_at-rest n bs a c f, ap length (same a c (rw f at e)))
]
  where
    same :
        (a c : List ℕ)
        → ◌≡◌ {A = Option (List ℕ × List ℕ)} (some (b ∷ a, c)) (some (body, rest))
        → c ≡ rest
    same a c e = cc
