-- ===== src/Framing/Tests.antt =====
-- A run with a cipher that only appends a tag, and the theorem at a concrete input.
use fossilsafe_t.Prelude.{
  ℕ, ◌+◌, ◌-◌, ◌≡◌, refl, true, Option, none, some, List, [], ◌∷◌, ◌++◌, arith, leb, if◌then◌else◌,
  length, take, length-append, nat_eq, string_eq,
}
use fossilsafe_t.Framing.{
  Aead, encrypt_stream, decrypt_stream, read_salt, finished, ran, decrypt_chunks, raised,
  truncated_length, too_large, from_bytes,
}
use fossilsafe_t.Framing.Numbers.{take-append}
use fossilsafe_t.Framing.RoundTrip.{decrypt_stream-encrypt_stream}

abbrev zeros : List ℕ
zeros = 0 ∷ 0 ∷ 0 ∷ 0 ∷ 0 ∷ 0 ∷ 0 ∷ 0 ∷ 0 ∷ 0 ∷ 0 ∷ 0 ∷ 0 ∷ 0 ∷ 0 ∷ 0 ∷ []

abbrev nonce : List ℕ
nonce = 0 ∷ 0 ∷ 0 ∷ 0 ∷ 0 ∷ 0 ∷ 0 ∷ 0 ∷ 0 ∷ 0 ∷ 0 ∷ 0 ∷ []

untagged : List ℕ → Option (List ℕ)
untagged c = if leb 16 (length c) then some (take (length c - 16) c) else none

untag_append : (c : List ℕ) → untagged (c ++ zeros) ≡ some c
unfolding untagged
untag_append c =
    let size : length (c ++ zeros) ≡ length c + 16 = length-append c zeros in
    let left : length (c ++ zeros) - 16 ≡ length c = omega (arith, size) in
    let enough : leb 16 (length (c ++ zeros)) ≡ true = ground (arith, size) in
    rw (enough, left, take-append c zeros) refl

abbrev tagging : Aead
tagging = record {
  encrypt = λ n c. c ++ zeros;
  decrypt = λ n c. untagged c;
  decrypt-encrypt = λ n c. untag_append c;
  length-encrypt = λ n c. length-append c zeros;
}

cut_off : decrypt_chunks tagging 2 (0 ∷ 0 ∷ []) ≡ raised truncated_length []
unfolding decrypt_chunks
cut_off = refl

oversized : decrypt_chunks tagging 5 (1 ∷ 0 ∷ 0 ∷ 0 ∷ []) ≡ raised (too_large 16777216) []
unfolding decrypt_chunks from_bytes
oversized = refl

decrypt_stream-encrypt_stream_example :
    (stream : List ℕ) × (encrypt_stream tagging (λ j. nonce) (some zeros) (1 ∷ 2 ∷ 3 ∷ [])
      ≡ some stream)
    × (decrypt_stream tagging stream ≡ ran zeros (finished (1 ∷ 2 ∷ 3 ∷ [])))
    × (read_salt stream ≡ some zeros)
decrypt_stream-encrypt_stream_example =
    decrypt_stream-encrypt_stream tagging (λ j. nonce) zeros (1 ∷ 2 ∷ 3 ∷ []) (λ j. refl) refl
