-- ===== src/Recovery/Bytes.antt =====
-- The pieces that both directions share: big-endian numbers, nonces, the cipher and the errors.
use codex_prompt_better.Base.{
  ℕ, ◌+◌, ◌*◌, ◌/◌, ◌%◌, ◌^◌, ◌<◌, ◌≡◌, refl, Bool, List, [], ◌∷◌, ◌++◌, Option, none, some, ◌==◌,
  ap, true, length, length-append, take, drop, arith, leb, if◌then◌else◌,
}

abbrev pub Bytes : Type 0
Bytes = List ℕ

abbrev pub chunk_size : ℕ
chunk_size = 2 ^ 20

-- "PBDB1".
abbrev pub magic : Bytes
magic = 80 ∷ 66 ∷ 68 ∷ 66 ∷ 49 ∷ []

-- The errors of this file, one for each message.
pub data Failure : Type 0 where
  bad_key no_nonce write_header too_many_chunks write_size write_chunk read_dump write_end : Failure
  bad_header read_size trailing_data oversized read_chunk unauthentic write_restore : Failure
  out_of_fuel : Failure

-- `cipher.AEAD` under a 32-byte key: nonce, text, associated data.
pub record Aead : Type 0 where
  pub overhead : ℕ
  pub seal : Bytes → Bytes → Bytes → Bytes → Bytes
  pub open_sealed : Bytes → Bytes → Bytes → Bytes → Option Bytes
  pub open-seal :
      (key nonce text extra : Bytes)
      → open_sealed key nonce (seal key nonce text extra) extra ≡ some text
  pub length-seal :
      (key nonce text extra : Bytes) → length (seal key nonce text extra) ≡ length text + overhead
  pub overhead_lem : overhead ≡ 16

-- `binary.BigEndian.PutUint32` and `Uint32`.
unfoldable pub put_u32 : ℕ → Bytes
put_u32 n = n / 2 ^ 24 % 256 ∷ n / 2 ^ 16 % 256 ∷ n / 2 ^ 8 % 256 ∷ n % 256 ∷ []

unfoldable pub get_u32 : Bytes → ℕ
get_u32 (a ∷ b ∷ c ∷ d ∷ rest) = a * 2 ^ 24 + b * 2 ^ 16 + c * 2 ^ 8 + d
get_u32 _ = 0

pub get_u32-put_u32 : (n : ℕ) → n < 2 ^ 32 → get_u32 (put_u32 n) ≡ n
unfolding get_u32 put_u32
get_u32-put_u32 n h = omega arith

-- `makeNonce`: the prefix in the first 8 bytes, the counter in the last 4.
unfoldable pub make_nonce : Bytes → ℕ → Bytes
make_nonce prefix counter = take 8 prefix ++ put_u32 counter

-- `newAEAD`: only the length of the key is checked by the code.
unfoldable pub check_key : Bytes → Bool
check_key key = length key == 32

-- `io.ReadFull` of `n` bytes: what was read and what is left, or nothing if the stream is too short.
unfoldable pub read_full : ℕ → Bytes → Option (Bytes × Bytes)
read_full n bytes = if leb n (length bytes) then some (take n bytes, drop n bytes) else none

module _ {ℓ} {A : Type ℓ} where
  pub take-append : (xs ys : List A) → take (length xs) (xs ++ ys) ≡ xs
  take-append [] ys = refl
  take-append (x ∷ xs) ys = ap (◌∷◌ x) (take-append xs ys)

  drop-append : (xs ys : List A) → drop (length xs) (xs ++ ys) ≡ ys
  drop-append [] ys = refl
  drop-append (x ∷ xs) ys = drop-append xs ys

-- A read of as many bytes as the first part has gives the two parts.
pub read_full-append :
    (n : ℕ) (xs ys : Bytes) → length xs ≡ n → read_full n (xs ++ ys) ≡ some (xs, ys)
unfolding read_full
read_full-append n xs ys h =
    let fits : leb (length xs) (length (xs ++ ys)) ≡ true = ground (arith, length-append xs ys) in
    rw (← h) (rw (fits, take-append xs ys, drop-append xs ys))
