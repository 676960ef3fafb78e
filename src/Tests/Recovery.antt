-- ===== src/Tests/Recovery.antt =====
-- An archive of two chunks under a cipher that only appends a tag of zeros.
use codex_prompt_better.Base.{
  ◌-◌, ◌≡◌, refl, [], ◌∷◌, ◌++◌, some, none, length, length-append, take, ok, arith,
}
use codex_prompt_better.Recovery.Bytes.{Bytes, Aead, put_u32, take-append}
use codex_prompt_better.Recovery.Encrypt.{more, eof, Reads, Metadata, Writer, encrypt_loop, encrypt}
use codex_prompt_better.Recovery.Decrypt.{decrypt}
use codex_prompt_better.Recovery.Archive.{concat, chunks_of}
use codex_prompt_better.Recovery.Roundtrip.{decrypt-encrypt}

abbrev pub zeros_4 : Bytes
zeros_4 = 0 ∷ 0 ∷ 0 ∷ 0 ∷ []

abbrev pub zeros_16 : Bytes
zeros_16 = zeros_4 ++ zeros_4 ++ zeros_4 ++ zeros_4

pub open_toy : (text : Bytes) → take (length (text ++ zeros_16) - 16) (text ++ zeros_16) ≡ text
open_toy text =
    let n : length (text ++ zeros_16) - 16 ≡ length text =
      omega (arith, length-append text zeros_16) in
    rw n (take-append text zeros_16)

abbrev pub toy_aead : Aead
toy_aead = record {
  overhead = 16;
  seal = λ key nonce text extra. text ++ zeros_16;
  open_sealed = λ key nonce sealed extra. some (take (length sealed - 16) sealed);
  open-seal = λ key nonce text extra. rw (open_toy text) refl;
  length-seal = λ key nonce text extra. length-append text zeros_16;
  overhead_lem = refl;
}

abbrev pub toy_key : Bytes
toy_key = zeros_16 ++ zeros_16

abbrev pub toy_prefix : Bytes
toy_prefix = 7 ∷ 6 ∷ 5 ∷ 4 ∷ 3 ∷ 2 ∷ 1 ∷ 0 ∷ []

abbrev pub dump_reads : Reads
dump_reads = (1 ∷ 2 ∷ 3 ∷ [], more) ∷ ([], more) ∷ (4 ∷ [], eof) ∷ []

abbrev pub dump_archive : Bytes
dump_archive =
    (80 ∷ 66 ∷ 68 ∷ 66 ∷ 49 ∷ [])
    ++ toy_prefix
    ++ (0 ∷ 0 ∷ 0 ∷ 19 ∷ 1 ∷ 2 ∷ 3 ∷ [])
    ++ zeros_16
    ++ (0 ∷ 0 ∷ 0 ∷ 17 ∷ 4 ∷ [])
    ++ zeros_16
    ++ zeros_4

abbrev pub dump_metadata : Metadata
dump_metadata = record {
  plaintext_digest = 1 ∷ 2 ∷ 3 ∷ 4 ∷ [];
  encrypted_digest = dump_archive;
  plaintext_bytes = 4;
}

abbrev pub dump_writer : Writer
dump_writer = record { written = dump_archive; hashed = dump_archive; room = 4 }

dump_encrypted :
    encrypt toy_aead (λ bytes. bytes) toy_key (some toy_prefix) dump_reads 10
    ≡ ok (dump_metadata, dump_writer)
unfolding encrypt encrypt_loop put_u32
dump_encrypted = refl

decrypt-encrypt_example :
    ((decrypt toy_aead toy_key dump_archive 2).0 ≡ none)
    × ((decrypt toy_aead toy_key dump_archive 2).1.plain ≡ 1 ∷ 2 ∷ 3 ∷ 4 ∷ [])
    × (dump_metadata.plaintext_digest ≡ 1 ∷ 2 ∷ 3 ∷ 4 ∷ [])
    × (dump_metadata.plaintext_bytes ≡ 4)
unfolding chunks_of concat
decrypt-encrypt_example =
    decrypt-encrypt toy_aead (λ bytes. bytes) toy_key toy_prefix dump_reads 10 2 dump_metadata
      dump_writer refl (omega arith, (omega arith, (omega arith, tt))) (omega arith) dump_encrypted
