-- ===== src/Recovery/Decrypt.antt =====
-- `decrypt`: the frames are read, authenticated and handed to the destination one by one.
use codex_prompt_better.Base.{
  ℕ, zero, suc, ◌+◌, ◌%◌, ◌^◌, ◌==◌, Bool, true, false, not, [], ◌∷◌, ◌++◌, Option, none, some,
  length, take, drop, ltb, if◌then◌else◌, ◌&&◌,
}
use codex_prompt_better.Recovery.Bytes.{
  Bytes, magic, chunk_size, Failure, bad_key, bad_header, read_size, trailing_data, oversized,
  read_chunk, unauthentic, write_restore, out_of_fuel, Aead, put_u32, get_u32, make_nonce,
  check_key, read_full,
}

-- The destination, which accepts `room` more writes.
pub record Restored : Type 0 where
  pub plain : Bytes
  pub room : ℕ

unfoldable pub equal_bytes : Bytes → Bytes → Bool
equal_bytes [] [] = true
equal_bytes (x ∷ xs) (y ∷ ys) = x == y && equal_bytes xs ys
equal_bytes _ _ = false

-- What is left of the stream after one round, or how the loop ends in it: `none` is success.
pub data Round : Type 0 where
  next : Bytes → Restored → Round
  stop : Option Failure → Round

module _ (aead : Aead) (key prefix : Bytes) where
  -- `destination.Write(plaintext)`, behind the authentication.
  unfoldable pub deliver : Option Bytes → Bytes → Restored → Round
  deliver none rest out = stop (some unauthentic)
  deliver (some plaintext) rest out = elim out.room [
    | zero ↦ stop (some write_restore)
    | suc room ↦ next rest (record { plain = out.plain ++ plaintext; room = room })
  ]

  -- The frame behind a length that is not 0.
  unfoldable pub read_frame : ℕ → ℕ → Bytes → Restored → Round
  unfolding deliver
  read_frame counter size bytes out = elim (ltb (chunk_size + aead.overhead) size) [
    | true ↦ stop (some oversized)
    | false ↦ elim (read_full size bytes) [
      | none ↦ stop (some read_chunk)
      | some (ciphertext, rest) ↦
          deliver (aead.open_sealed key (make_nonce prefix counter) ciphertext (put_u32 counter))
            rest out
    ]
  ]

  -- One round of the loop; `counter` is the counter of a frame read in it.
  unfoldable pub round : ℕ → Bytes → Restored → Round
  unfolding read_frame
  round counter bytes out = elim (read_full 4 bytes) [
    | none ↦ stop (some read_size)
    | some (size, rest) ↦ elim (get_u32 size) [
      | zero ↦ stop (elim rest [ [] ↦ none | b ∷ bs ↦ some trailing_data ])
      | suc n ↦ read_frame counter (suc n) rest out
    ]
  ]

  -- The loop, with fuel for its rounds.
  unfoldable pub decrypt_loop : ℕ → ℕ → Bytes → Restored → Option Failure × Restored
  decrypt_loop zero counter bytes out = (some out_of_fuel, out)
  decrypt_loop (suc fuel) counter bytes out =
      let counter' = (counter + 1) % 2 ^ 32 in
      elim (round counter' bytes out) [
        | stop failure ↦ (failure, out)
        | next rest out' ↦ decrypt_loop fuel counter' rest out'
      ]

-- The header, then the loop. Each round reads 4 bytes at least, so the fuel is enough.
unfoldable pub decrypt : Aead → Bytes → Bytes → ℕ → Option Failure × Restored
unfolding equal_bytes check_key read_full
decrypt aead key source room =
    let out : Restored = record { plain = []; room = room } in
    if not (check_key key) then (some bad_key, out) else elim (read_full 13 source) [
      | none ↦ (some bad_header, out)
      | some (header, rest) ↦
          if not (equal_bytes (take 5 header) magic)
          then (some bad_header, out)
          else decrypt_loop aead key (drop 5 header) (suc (length rest)) 0 rest out
    ]
