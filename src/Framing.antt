-- ===== src/Framing.antt =====
-- backend/utils/encryption.py: `EncryptionManager`'s format of an encrypted stream. A byte is a
-- number, and a stream that is read is the list of the bytes left. AES-GCM is a parameter.
pub mod Numbers
pub mod RoundTrip
mod Tests
use fossilsafe_t.Prelude.{
  ℕ, zero, suc, ◌+◌, ◌-◌, ◌*◌, ◌/◌, ◌%◌, ◌^◌, ◌≤◌, ◌<◌, String, ◌≡◌, refl, sym, ap, subst, ◌∙◌, ◌≢◌,
  ◌↔◌, ◌⊎◌, inl, inr, Bool, true, false, not, ◌&&◌, ◌||◌, Option, none, some, List, [], ◌∷◌, ◌++◌,
  map, arith, ltb, leb, nat_beq, if◌then◌else◌, nat_beq_iff, Bool-cases, Option-cases, length, take,
  drop, keep, find, last?, length-append, length-keep-le, last?-append, All, All-append, Eq, ◌==◌,
  nat_eq, string_eq, beq_refl, str_iff, is_text, text_truth, truth,
}

abbrev pub header_v1 : List ℕ
header_v1 = 70 ∷ 79 ∷ 83 ∷ 83 ∷ 73 ∷ 76 ∷ 83 ∷ 65 ∷ 70 ∷ 69 ∷ 95 ∷ 118 ∷ 49 ∷ 58 ∷ []

abbrev pub salt_size : ℕ
salt_size = 16

abbrev pub nonce_size : ℕ
nonce_size = 12

abbrev pub tag_size : ℕ
tag_size = 16

abbrev pub chunk_size : ℕ
chunk_size = 1024 * 1024

abbrev pub max_chunk_size : ℕ
max_chunk_size = chunk_size + 1024

-- AES-GCM under the manager's key: decryption raises where this is `none`. What was encrypted is
-- decrypted with the same nonce, and a ciphertext is longer by the tag.
pub record Aead : Type 0 where
  pub encrypt : List ℕ → List ℕ → List ℕ
  pub decrypt : List ℕ → List ℕ → Option (List ℕ)
  pub decrypt-encrypt : (nonce chunk : List ℕ) → decrypt nonce (encrypt nonce chunk) ≡ some chunk
  pub length-encrypt :
      (nonce chunk : List ℕ) → length (encrypt nonce chunk) ≡ length chunk + tag_size

-- `n.to_bytes(4, 'big')` of a number below 2^32, and `int.from_bytes(bytes, 'big')`.
unfoldable pub to_bytes : ℕ → List ℕ
to_bytes n = n / 16777216 ∷ n / 65536 % 256 ∷ n / 256 % 256 ∷ n % 256 ∷ []

unfoldable pub from_bytes : ℕ → List ℕ → ℕ
from_bytes n [] = n
from_bytes n (b ∷ bs) = from_bytes (n * 256 + b) bs

-- One turn of the loop that writes: the length, the nonce and the ciphertext.
unfoldable pub frame : Aead → List ℕ → List ℕ → List ℕ
frame a nonce chunk =
    let ciphertext = a.encrypt nonce chunk in to_bytes (length ciphertext) ++ (nonce ++ ciphertext)

-- The loop: `fuel` bounds the turns, and `nonces i` is what `os.urandom` gives in turn i.
unfoldable pub encrypt_chunks : Aead → (ℕ → List ℕ) → ℕ → ℕ → List ℕ → List ℕ
encrypt_chunks a nonces zero i input = []
encrypt_chunks a nonces (suc fuel) i [] = []
encrypt_chunks a nonces (suc fuel) i (b ∷ bs) =
    frame a (nonces i) (take chunk_size (b ∷ bs))
    ++ encrypt_chunks a nonces fuel (i + 1) (drop chunk_size (b ∷ bs))

-- `_encrypt_stream_with_len`, or `none` for the salt of another length, which raises when only the
-- header is written.
unfoldable pub encrypt_stream : Aead → (ℕ → List ℕ) → Option (List ℕ) → List ℕ → Option (List ℕ)
encrypt_stream a nonces salt input =
    let used : List ℕ = elim salt [
      | none ↦ 0 ∷ 0 ∷ 0 ∷ 0 ∷ 0 ∷ 0 ∷ 0 ∷ 0 ∷ 0 ∷ 0 ∷ 0 ∷ 0 ∷ 0 ∷ 0 ∷ 0 ∷ 0 ∷ []
      | some s ↦ s
    ] in
    let body = encrypt_chunks a nonces (length input) 0 input in
    if nat_beq (length used) salt_size then some (header_v1 ++ (used ++ body)) else none

pub data Failure : Type 0 where
  invalid_header : Failure
  truncated_length : Failure
  too_large : ℕ → Failure
  truncated_nonce : Failure
  truncated_ciphertext : Failure
  invalid_tag : Failure
  out_of_fuel : Failure

-- The output written so far, and how the loop ends: with the end of the stream, or by raising.
pub data Outcome : Type 0 where
  finished : List ℕ → Outcome
  raised : Failure → List ℕ → Outcome

unfoldable pub wrote : List ℕ → Outcome → Outcome
wrote chunk (finished output) = finished (chunk ++ output)
wrote chunk (raised e output) = raised e (chunk ++ output)

abbrev is_none_left : List ℕ → Bool
is_none_left [] = true
is_none_left (b ∷ bs) = false

-- The part of a turn after the length: nonce and ciphertext, then the rest of the stream.
unfoldable pub decrypt_chunk : Aead → ℕ → List ℕ → (List ℕ → Outcome) → Outcome
decrypt_chunk a size input continue =
    let nonce = take nonce_size input in
    let ciphertext = take size (drop nonce_size input) in
    let rest = continue (drop size (drop nonce_size input)) in
    if ltb (length nonce) nonce_size
    then raised truncated_nonce []
    else if ltb (length ciphertext) size
    then raised truncated_ciphertext []
    else elim (a.decrypt nonce ciphertext) [
      | none ↦ raised invalid_tag []
      | some plaintext ↦ wrote plaintext rest
    ]

unfoldable pub decrypt_chunks : Aead → ℕ → List ℕ → Outcome
decrypt_chunks a zero input = if is_none_left input then finished [] else raised out_of_fuel []
decrypt_chunks a (suc fuel) input =
    let len_bytes = take 4 input in
    let size = from_bytes 0 len_bytes in
    let turn = decrypt_chunk a size (drop 4 input) (λ rest. decrypt_chunks a fuel rest) in
    if is_none_left len_bytes
    then finished []
    else if ltb (length len_bytes) 4
    then raised truncated_length []
    else if ltb max_chunk_size size
    then raised (too_large size) []
    else turn

unfoldable pub same_bytes : List ℕ → List ℕ → Bool
same_bytes [] [] = true
same_bytes [] (c ∷ cs) = false
same_bytes (b ∷ bs) [] = false
same_bytes (b ∷ bs) (c ∷ cs) = b == c && same_bytes bs cs

-- How `_decrypt_stream_with_len` ends: `None` for an empty file, an invalid header, or the salt
-- and the end of the loop.
pub data Decrypted : Type 0 where
  empty_file : Decrypted
  no_header : Decrypted
  ran : List ℕ → Outcome → Decrypted

-- The rest of the stream after the header and the salt bounds the turns of the loop.
unfoldable pub decrypt_stream : Aead → List ℕ → Decrypted
decrypt_stream a input =
    let header = take (length header_v1) input in
    let after_header = drop (length header_v1) input in
    let body = drop salt_size after_header in
    if same_bytes header header_v1
    then ran (take salt_size after_header) (decrypt_chunks a (length body) body)
    else if is_none_left header
    then empty_file
    else no_header

-- `read_salt`, or `none` where it raises.
unfoldable pub read_salt : List ℕ → Option (List ℕ)
read_salt input =
    let salt = take salt_size (drop (length header_v1) input) in
    if not (same_bytes (take (length header_v1) input) header_v1)
    then none
    else if ltb (length salt) salt_size
    then none
    else some salt
