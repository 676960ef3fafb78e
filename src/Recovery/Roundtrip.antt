-- ===== src/Recovery/Roundtrip.antt =====
-- What `encrypt` writes, `decrypt` reads back.
use mathlib.Core.List.{append_assoc, append-nil}
use codex_prompt_better.Base.{
  ℕ, zero, suc, ◌+◌, ◌-◌, ◌%◌, ◌^◌, ◌≤◌, ◌<◌, ◌≡◌, refl, sym, ◌∙◌, true, List, [], ◌∷◌, ◌++◌, none,
  some, length, length-append, arith, ok, All, >>=-eq-ok, require,
}
use codex_prompt_better.Recovery.Bytes.{
  Bytes, magic, chunk_size, Aead, put_u32, get_u32, get_u32-put_u32, make_nonce, check_key, bad_key,
  read_full-append,
}
use codex_prompt_better.Recovery.Encrypt.{more, eof, failed, Reads, Writer, Metadata, encrypt}
use codex_prompt_better.Recovery.Archive.{
  chunks_of, concat, sealed, archive, encrypt_loop-Encrypted,
}
use codex_prompt_better.Recovery.Decrypt.{
  Restored, next, stop, deliver, read_frame, round, decrypt_loop, decrypt,
}

-- The other direction, one frame at a time.
module _ (aead : Aead) (key prefix : Bytes) where
  length-put_u32 : (n : ℕ) → length (put_u32 n) ≡ 4
  unfolding put_u32
  length-put_u32 n = refl

  round-frame :
      (counter : ℕ) (c rest : Bytes) (out : Restored)
      → 0 < length c
      → length c ≤ chunk_size
      → 0 < out.room
      → (out' : Restored) × (round aead key prefix counter
            (put_u32 (length (sealed aead key prefix counter c) % 2 ^ 32)
              ++ (sealed aead key prefix counter c ++ rest))
            out
          ≡ next rest out')
        × (out'.plain ≡ out.plain ++ c)
        × (out'.room + 1 ≡ out.room)
  unfolding round read_frame deliver
  round-frame counter c rest out pos small room =
      let n = length (sealed aead key prefix counter c) in
      let size : n ≡ length c + 16 = omega (
        arith,
        aead.length-seal key (make_nonce prefix counter) c (put_u32 counter),
        aead.overhead_lem,
      ) in
      let whole : n % 2 ^ 32 ≡ n = omega arith in
      let n' = n % 2 ^ 32 in
      (
        record { plain = out.plain ++ c; room = out.room - 1 },
        ground (
          arith,
          whole,
          size,
          aead.overhead_lem,
          get_u32-put_u32 n' (omega arith),
          read_full-append 4 (put_u32 n') (sealed aead key prefix counter c ++ rest)
              (length-put_u32 n'),
          read_full-append n (sealed aead key prefix counter c) rest refl,
          aead.open-seal key (make_nonce prefix counter) c (put_u32 counter),
        ),
        refl,
        omega arith,
      )

  round-end :
      (counter : ℕ) (out : Restored)
      → round aead key prefix counter (0 ∷ 0 ∷ 0 ∷ 0 ∷ []) out ≡ stop none
  unfolding round get_u32
  round-end counter out = ground (arith, read_full-append 4 (0 ∷ 0 ∷ 0 ∷ 0 ∷ []) [] refl)

  decrypt_loop-next :
      (fuel counter k : ℕ) (bytes rest : Bytes) (out out' : Restored)
      → (counter + 1) % 2 ^ 32 ≡ k
      → round aead key prefix k bytes out ≡ next rest out'
      → decrypt_loop aead key prefix (suc fuel) counter bytes out
        ≡ decrypt_loop aead key prefix fuel k rest out'
  unfolding decrypt_loop
  decrypt_loop-next fuel counter k bytes rest out out' e went = rw (decrypt_loop, e, went, e)

  decrypt_loop-archive :
      (cs : List Bytes) (fuel counter : ℕ) (out : Restored)
      → length cs < fuel
      → length cs ≤ out.room
      → counter + length cs ≤ 2 ^ 32 - 1
      → All (λ c. (0 < length c) × (length c ≤ chunk_size)) cs
      → ((decrypt_loop aead key prefix fuel counter (archive aead key prefix counter cs) out).0
          ≡ none)
        × ((decrypt_loop aead key prefix fuel counter
              (archive aead key prefix counter cs)
              out).1.plain
            ≡ out.plain ++ concat cs)
  unfolding decrypt_loop archive concat
  decrypt_loop-archive cs zero counter out f r b a = absurd (omega arith)
  decrypt_loop-archive [] (suc fuel) counter out f r b a =
      rw (decrypt_loop, round-end ((counter + 1) % 2 ^ 32) out) (refl, sym (append-nil out.plain))
  decrypt_loop-archive (c ∷ cs) (suc fuel) counter out f r b a =
      let exact : (counter + 1) % 2 ^ 32 ≡ counter + 1 = omega arith in
      let rest = archive aead key prefix (counter + 1) cs in
      let (out', went, plain, left) =
        round-frame (counter + 1) c rest out a.0.0 a.0.1 (omega arith) in
      let (done, all) =
        decrypt_loop-archive cs fuel (counter + 1) out' (omega arith) (omega arith) (omega arith)
          a.1 in
      rw (decrypt_loop-next fuel counter (counter + 1) _ rest out out' exact went)
        (done, all ∙ rw plain (append_assoc out.plain c (concat cs)))

length-archive :
    (aead : Aead) (key prefix : Bytes) (counter : ℕ) (cs : List Bytes)
    → length cs ≤ length (archive aead key prefix counter cs)
unfolding archive put_u32
length-archive aead key prefix counter [] = omega arith
length-archive aead key prefix counter (c ∷ cs) = omega (
  arith,
  length-append (sealed aead key prefix (counter + 1) c) (archive aead key prefix (counter + 1) cs),
  length-archive aead key prefix (counter + 1) cs,
)

chunks_of-small :
    (reads : Reads)
    → All (λ r. length r.0 ≤ chunk_size) reads
    → All (λ c. (0 < length c) × (length c ≤ chunk_size)) (chunks_of reads)
unfolding chunks_of
chunks_of-small [] a = tt
chunks_of-small (([], more) ∷ reads) a = chunks_of-small reads a.1
chunks_of-small (([], eof) ∷ reads) a = tt
chunks_of-small (([], failed) ∷ reads) a = tt
chunks_of-small ((b ∷ bytes, more) ∷ reads) a = ((omega arith, a.0), chunks_of-small reads a.1)
chunks_of-small ((b ∷ bytes, eof) ∷ reads) a = ((omega arith, a.0), tt)
chunks_of-small ((b ∷ bytes, failed) ∷ reads) a = ((omega arith, a.0), tt)

-- The header is the magic and the prefix, and the loop has run behind it.
encrypt-inv :
    (aead : Aead) (sha256 : Bytes → Bytes) (key prefix : Bytes) (reads : Reads) (room : ℕ)
    (m : Metadata) (w : Writer)
    → All (λ r. length r.0 ≤ chunk_size) reads
    → encrypt aead sha256 key (some prefix) reads room ≡ ok (m, w)
    → (check_key key ≡ true)
      × (w.written ≡ (magic ++ prefix) ++ archive aead key prefix 0 (chunks_of reads))
      × (m.plaintext_digest ≡ sha256 (concat (chunks_of reads)))
      × (m.plaintext_bytes ≡ length (concat (chunks_of reads)))
      × (length (chunks_of reads) ≤ 2 ^ 32 - 1)
unfolding encrypt
encrypt-inv aead sha256 key prefix reads zero m w a h =
    let (_, _, stuck) = >>=-eq-ok (require (check_key key) bad_key) _ h in cc
encrypt-inv aead sha256 key prefix reads (suc room) m w a h =
    let (_, good, ran) = >>=-eq-ok (require (check_key key) bad_key) _ h in
    let e =
      encrypt_loop-Encrypted aead sha256 key prefix reads _ m w a (omega arith, omega arith) ran in
    (ground arith, e.archived, e.digested, e.counted ∙ omega arith, omega (arith, e.within))

-- An archive that `encrypt` has made of reads of at most a chunk each is restored by `decrypt`
-- under the same key, to a destination with room for the chunks, to exactly the bytes that the
-- reads gave up to the end of the source; and the metadata has their digest and their number.
pub decrypt-encrypt :
    (aead : Aead) (sha256 : Bytes → Bytes) (key prefix : Bytes) (reads : Reads) (room room' : ℕ)
    (m : Metadata) (w : Writer)
    → length prefix ≡ 8
    → All (λ r. length r.0 ≤ chunk_size) reads
    → length (chunks_of reads) ≤ room'
    → encrypt aead sha256 key (some prefix) reads room ≡ ok (m, w)
    → ((decrypt aead key w.written room').0 ≡ none)
      × ((decrypt aead key w.written room').1.plain ≡ concat (chunks_of reads))
      × (m.plaintext_digest ≡ sha256 (concat (chunks_of reads)))
      × (m.plaintext_bytes ≡ length (concat (chunks_of reads)))
unfolding decrypt
decrypt-encrypt aead sha256 key prefix reads room room' m w p a r h =
    let (good, written, digest, count, within) =
      encrypt-inv aead sha256 key prefix reads room m w a h in
    let cs = chunks_of reads in
    let header =
      read_full-append 13 (magic ++ prefix) (archive aead key prefix 0 cs) (omega (arith, p)) in
    let (done, all) =
      decrypt_loop-archive aead key prefix cs (suc (length (archive aead key prefix 0 cs))) 0
        (record { plain = []; room = room' }) (omega (arith, length-archive aead key prefix 0 cs)) r
        (omega arith) (chunks_of-small reads a) in
    rw (written, good, header) (done, all, digest, count)
