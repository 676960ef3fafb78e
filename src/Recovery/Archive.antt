-- ===== src/Recovery/Archive.antt =====
-- What `encrypt` writes: the archive of its chunks.
use mathlib.Core.List.{append_assoc, append-nil}
use codex_prompt_better.Base.{
  ℕ, ◌+◌, ◌-◌, ◌*◌, ◌%◌, ◌^◌, ◌≤◌, ◌≡◌, ◌≢◌, sym, ◌∙◌, ap, List, [], ◌∷◌, ◌++◌, length,
  length-append, arith, ok, All, >>=-eq-ok,
}
use codex_prompt_better.Recovery.Bytes.{Bytes, chunk_size, Aead, put_u32, make_nonce}
use codex_prompt_better.Recovery.Encrypt.{
  more, eof, failed, Reads, Writer, Metadata, Progress, encrypt_chunk, finish, encrypt_loop,
}

-- The chunks that the reads give, up to the end of the source.
unfoldable pub chunks_of : Reads → List Bytes
chunks_of [] = []
chunks_of (([], more) ∷ reads) = chunks_of reads
chunks_of (([], eof) ∷ reads) = []
chunks_of (([], failed) ∷ reads) = []
chunks_of ((b ∷ bytes, more) ∷ reads) = (b ∷ bytes) ∷ chunks_of reads
chunks_of ((b ∷ bytes, eof) ∷ reads) = (b ∷ bytes) ∷ []
chunks_of ((b ∷ bytes, failed) ∷ reads) = (b ∷ bytes) ∷ []

unfoldable pub concat : List Bytes → Bytes
concat [] = []
concat (c ∷ cs) = c ++ concat cs

module _ (aead : Aead) (key prefix : Bytes) where
  abbrev pub sealed : ℕ → Bytes → Bytes
  sealed counter text = aead.seal key (make_nonce prefix counter) text (put_u32 counter)

  -- The archive behind its header: the frames from a counter on, and the end mark.
  unfoldable pub archive : ℕ → List Bytes → Bytes
  archive counter [] = 0 ∷ 0 ∷ 0 ∷ 0 ∷ []
  archive counter (c ∷ cs) =
      put_u32 (length (sealed (counter + 1) c) % 2 ^ 32)
      ++ (sealed (counter + 1) c ++ archive (counter + 1) cs)

module _ (aead : Aead) (sha256 : Bytes → Bytes) (key prefix : Bytes) where
  encrypt_chunk-inv :
      (b : ℕ) (bytes : Bytes) (p p' : Progress)
      → encrypt_chunk aead sha256 key prefix (b ∷ bytes) p ≡ ok p'
      → (p.counter ≢ 2 ^ 32 - 1)
        × (p'.counter ≡ p.counter + 1)
        × (p'.plain ≡ p.plain ++ (b ∷ bytes))
        × (p'.total ≡ (p.total + length (b ∷ bytes)) % 2 ^ 64)
        × (p'.writer.written
            ≡ (p.writer.written
                ++ put_u32 (length (sealed aead key prefix (p.counter + 1) (b ∷ bytes)) % 2 ^ 32))
              ++ sealed aead key prefix (p.counter + 1) (b ∷ bytes))
  unfolding encrypt_chunk
  encrypt_chunk-inv b bytes p p' h = ground arith

  finish-inv :
      (p : Progress) (m : Metadata) (w : Writer)
      → finish aead sha256 key prefix p ≡ ok (m, w)
      → (m.plaintext_digest ≡ sha256 p.plain)
        × (m.plaintext_bytes ≡ p.total)
        × (w.written ≡ p.writer.written ++ archive aead key prefix p.counter [])
  unfolding finish archive
  finish-inv p m w h = ground arith

  -- What a run of the loop has done by its end, on the chunks that were left.
  pub record Encrypted (p : Progress) (cs : List Bytes) (m : Metadata) (w : Writer) : Type 0 where
    pub archived : w.written ≡ p.writer.written ++ archive aead key prefix p.counter cs
    pub digested : m.plaintext_digest ≡ sha256 (p.plain ++ concat cs)
    pub counted : m.plaintext_bytes ≡ p.total + length (concat cs)
    pub within : p.counter + length cs ≤ 2 ^ 32 - 1

  -- The counter is in range, and the total is in step with it.
  abbrev pub Sound : Progress → Type 0
  Sound p = (p.counter ≤ 2 ^ 32 - 1) × (p.total ≤ p.counter * chunk_size)

  finish-Encrypted :
      (p : Progress) (m : Metadata) (w : Writer)
      → Sound p
      → finish aead sha256 key prefix p ≡ ok (m, w)
      → Encrypted p [] m w
  unfolding concat
  finish-Encrypted p m w s h =
      let (digest, count, archived) = finish-inv p m w h in
      record {
        archived = archived;
        digested = digest ∙ ap sha256 (sym (append-nil p.plain));
        counted = omega arith;
        within = omega arith;
      }

  module _ (b : ℕ) (bytes : Bytes) (p p' : Progress) where
    chunk-Sound :
        length (b ∷ bytes) ≤ chunk_size
        → Sound p
        → encrypt_chunk aead sha256 key prefix (b ∷ bytes) p ≡ ok p'
        → Sound p' × (p'.total ≡ p.total + length (b ∷ bytes)) × (p'.counter ≡ p.counter + 1)
    chunk-Sound l s h =
        let (free, c, _, t, _) = encrypt_chunk-inv b bytes p p' h in
        let exact : p'.total ≡ p.total + length (b ∷ bytes) = omega arith in
        ((omega arith, omega arith), exact, c)

    chunk-Encrypted :
        (cs : List Bytes) (m : Metadata) (w : Writer)
        → length (b ∷ bytes) ≤ chunk_size
        → Sound p
        → encrypt_chunk aead sha256 key prefix (b ∷ bytes) p ≡ ok p'
        → Encrypted p' cs m w
        → Encrypted p ((b ∷ bytes) ∷ cs) m w
    unfolding archive concat
    chunk-Encrypted cs m w l s h e =
        let (_, t, c) = chunk-Sound l s h in
        let (_, _, plain, _, written) = encrypt_chunk-inv b bytes p p' h in
        record {
          archived = e.archived ∙ rw (written, c) (simp append_assoc);
          digested =
              e.digested ∙ ap sha256 (rw plain (append_assoc p.plain (b ∷ bytes) (concat cs)));
          counted = omega (arith, e.counted, length-append (b ∷ bytes) (concat cs));
          within = omega (arith, e.within);
        }

  pub encrypt_loop-Encrypted :
      (reads : Reads) (p : Progress) (m : Metadata) (w : Writer)
      → All (λ r. length r.0 ≤ chunk_size) reads
      → Sound p
      → encrypt_loop aead sha256 key prefix reads p ≡ ok (m, w)
      → Encrypted p (chunks_of reads) m w
  unfolding encrypt_loop encrypt_chunk chunks_of
  encrypt_loop-Encrypted [] p m w a s h = finish-Encrypted p m w s h
  encrypt_loop-Encrypted (([], more) ∷ reads) p m w a s h =
      encrypt_loop-Encrypted reads p m w a.1 s h
  encrypt_loop-Encrypted (([], eof) ∷ reads) p m w a s h = finish-Encrypted p m w s h
  encrypt_loop-Encrypted (([], failed) ∷ reads) p m w a s h = cc
  encrypt_loop-Encrypted ((b ∷ bytes, more) ∷ reads) p m w a s h =
      let (p', c, r) = >>=-eq-ok (encrypt_chunk aead sha256 key prefix (b ∷ bytes) p) _ h in
      chunk-Encrypted b bytes p p' (chunks_of reads) m w a.0 s c
        (encrypt_loop-Encrypted reads p' m w a.1 (chunk-Sound b bytes p p' a.0 s c).0 r)
  encrypt_loop-Encrypted ((b ∷ bytes, eof) ∷ reads) p m w a s h =
      let (p', c, r) = >>=-eq-ok (encrypt_chunk aead sha256 key prefix (b ∷ bytes) p) _ h in
      chunk-Encrypted b bytes p p' [] m w a.0 s c
        (finish-Encrypted p' m w (chunk-Sound b bytes p p' a.0 s c).0 r)
  encrypt_loop-Encrypted ((b ∷ bytes, failed) ∷ reads) p m w a s h =
      let (p', c, r) = >>=-eq-ok (encrypt_chunk aead sha256 key prefix (b ∷ bytes) p) _ h in cc
