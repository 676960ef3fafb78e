-- ===== src/Recovery/Encrypt.antt =====
-- `encrypt`: header, one frame for each read that has bytes, and an end mark.
use codex_prompt_better.Base.{
  ℕ, zero, suc, ◌+◌, ◌-◌, ◌%◌, ◌^◌, ◌==◌, not, List, [], ◌∷◌, ◌++◌, Option, none, some, length,
  Result, ok, err, ◌>>=◌, ◌>>◌, require,
}
use codex_prompt_better.Recovery.Bytes.{
  Bytes, magic, Failure, bad_key, no_nonce, write_header, too_many_chunks, write_size, write_chunk,
  read_dump, write_end, Aead, put_u32, make_nonce, check_key,
}

-- How a call of `source.Read` ends; the bytes that it returned come with it.
pub data ReadStatus : Type 0 where
  more eof failed : ReadStatus

abbrev pub Reads : Type 0
Reads = List (Bytes × ReadStatus)

-- The destination, which accepts `room` more writes, with what the running digest of the writes saw.
pub record Writer : Type 0 where
  pub written : Bytes
  pub hashed : Bytes
  pub room : ℕ

pub record Metadata : Type 0 where
  pub plaintext_digest : Bytes
  pub encrypted_digest : Bytes
  pub plaintext_bytes : ℕ  -- int64

-- `io.MultiWriter(destination, encryptedHash).Write`.
unfoldable pub write : Writer → Bytes → Failure → Result Failure Writer
write w bytes failure = elim w.room [
  | zero ↦ err failure
  | suc room ↦ ok (record { written = w.written ++ bytes; hashed = w.hashed ++ bytes; room = room })
]

-- The variables of the loop: `counter`, what `plainHash` has read, `total`, and the writer.
pub record Progress : Type 0 where
  pub counter : ℕ  -- uint32
  pub plain : Bytes
  pub total : ℕ  -- int64
  pub writer : Writer

module _ (aead : Aead) (sha256 : Bytes → Bytes) (key prefix : Bytes) where
  -- `if count > 0 { ... }`
  unfoldable pub encrypt_chunk : Bytes → Progress → Result Failure Progress
  unfolding write
  encrypt_chunk [] p = ok p
  encrypt_chunk (b ∷ bytes) p = do
    require (not (p.counter == 2 ^ 32 - 1)) too_many_chunks
    let counter = p.counter + 1
    let text = b ∷ bytes
    let ciphertext = aead.seal key (make_nonce prefix counter) text (put_u32 counter)
    w ← write p.writer (put_u32 (length ciphertext % 2 ^ 32)) write_size
    w' ← write w ciphertext write_chunk
    ok (record {
      counter = counter;
      plain = p.plain ++ text;
      total = (p.total + length text) % 2 ^ 64;
      writer = w';
    })

  -- The code behind the loop.
  unfoldable pub finish : Progress → Result Failure (Metadata × Writer)
  unfolding write
  finish p = do
    w ← write p.writer (0 ∷ 0 ∷ 0 ∷ 0 ∷ []) write_end
    ok (
      record {
        plaintext_digest = sha256 p.plain;
        encrypted_digest = sha256 w.hashed;
        plaintext_bytes = p.total;
      },
      w,
    )

  -- The loop; a reader that has no read left is at its end.
  unfoldable pub encrypt_loop : Reads → Progress → Result Failure (Metadata × Writer)
  unfolding encrypt_chunk finish
  encrypt_loop [] p = finish p
  encrypt_loop ((bytes, status) ∷ reads) p = encrypt_chunk bytes p >>= λ p'. elim status [
    | more ↦ encrypt_loop reads p'
    | eof ↦ finish p'
    | failed ↦ err read_dump
  ]

-- `nonce` is what `rand.Reader` gives for the prefix, if it gives 8 bytes. What an error leaves in
-- the destination is dropped, as `BackupFile` removes its file then.
unfoldable pub encrypt :
    Aead → (Bytes → Bytes) → Bytes → Option Bytes → Reads → ℕ → Result Failure (Metadata × Writer)
unfolding write check_key
encrypt aead sha256 key nonce reads room = do
  require (check_key key) bad_key
  prefix ← elim nonce [ none ↦ err no_nonce | some bytes ↦ ok bytes ]
  w ← write (record { written = []; hashed = []; room = room }) (magic ++ prefix) write_header
  encrypt_loop aead sha256 key prefix reads
      (record { counter = 0; plain = []; total = 0; writer = w })
