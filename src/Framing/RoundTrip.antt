-- ===== src/Framing/RoundTrip.antt =====
-- Decryption gives back what was encrypted.
use fossilsafe_t.Prelude.{
  ℕ, zero, suc, ◌+◌, ◌≤◌, ◌≡◌, refl, ap, subst, ◌∙◌, false, some, List, [], ◌∷◌, ◌++◌, arith, ltb,
  length, take, drop, length-append, nat_eq, string_eq,
}
use fossilsafe_t.Framing.{
  header_v1, salt_size, nonce_size, chunk_size, max_chunk_size, Aead, to_bytes, frame,
  encrypt_chunks, encrypt_stream, Outcome, finished, wrote, decrypt_chunk, decrypt_chunks,
  same_bytes, ran, decrypt_stream, read_salt,
}
use fossilsafe_t.Framing.Numbers.{
  from_bytes-to_bytes, take-append, drop-append, append-take-drop, length-take-le, length-drop,
}

take-at : (n : ℕ) (xs ys : List ℕ) → length xs ≡ n → take n (xs ++ ys) ≡ xs
take-at n xs ys e = subst (λ m. take m (xs ++ ys) ≡ xs) e (take-append xs ys)

drop-at : (n : ℕ) (xs ys : List ℕ) → length xs ≡ n → drop n (xs ++ ys) ≡ ys
drop-at n xs ys e = subst (λ m. drop m (xs ++ ys) ≡ ys) e (drop-append xs ys)

append_assoc : (xs ys zs : List ℕ) → (xs ++ ys) ++ zs ≡ xs ++ (ys ++ zs)
append_assoc [] ys zs = refl
append_assoc (x ∷ xs) ys zs = ap (λ r. x ∷ r) (append_assoc xs ys zs)

ltb_irrefl : (n : ℕ) → ltb n n ≡ false
ltb_irrefl n = ground arith

module _ (a : Aead) where
  decrypt_chunk-frame :
      (nonce chunk rest : List ℕ) (k : List ℕ → Outcome)
      → length nonce ≡ nonce_size
      → let ciphertext = a.encrypt nonce chunk in
        decrypt_chunk a (length ciphertext) ((nonce ++ ciphertext) ++ rest) k ≡ wrote chunk (k rest)
  unfolding decrypt_chunk
  decrypt_chunk-frame nonce chunk rest k e =
      let ciphertext = a.encrypt nonce chunk in
      rw
        (
          append_assoc nonce ciphertext rest,
          decrypt_chunk,
          take-at nonce_size nonce (ciphertext ++ rest) e,
          drop-at nonce_size nonce (ciphertext ++ rest) e,
          take-append ciphertext rest,
          e,
          ltb_irrefl (length ciphertext),
          a.decrypt-encrypt nonce chunk,
          append_assoc nonce ciphertext rest,
          drop-at nonce_size nonce (ciphertext ++ rest) e,
          drop-append ciphertext rest,
        )
        refl

  decrypt_chunks-frame :
      (fuel : ℕ) (nonce chunk rest : List ℕ)
      → length nonce ≡ nonce_size
      → length chunk ≤ chunk_size
      → decrypt_chunks a (suc fuel) (frame a nonce chunk ++ rest)
        ≡ wrote chunk (decrypt_chunks a fuel rest)
  unfolding decrypt_chunks frame to_bytes
  decrypt_chunks-frame fuel nonce chunk rest e small =
      let size = length (a.encrypt nonce chunk) in
      let fits : ltb max_chunk_size size ≡ false =
        ground (arith, a.length-encrypt nonce chunk, small) in
      rw (from_bytes-to_bytes size, fits)
        (decrypt_chunk-frame nonce chunk rest (λ left. decrypt_chunks a fuel left) e)

  length-frame : (nonce chunk : List ℕ) → length chunk ≤ length (frame a nonce chunk)
  unfolding frame to_bytes
  length-frame nonce chunk =
      omega (arith, length-append nonce (a.encrypt nonce chunk), a.length-encrypt nonce chunk)

  -- The frames are no shorter than what they hold.
  length-encrypt_chunks :
      (nonces : ℕ → List ℕ) (fuel i : ℕ) (input : List ℕ)
      → length input ≤ fuel
      → length input ≤ length (encrypt_chunks a nonces fuel i input)
  unfolding encrypt_chunks
  length-encrypt_chunks nonces zero i [] le = omega arith
  length-encrypt_chunks nonces zero i (b ∷ bs) le = omega (arith, le)
  length-encrypt_chunks nonces (suc fuel) i [] le = omega arith
  length-encrypt_chunks nonces (suc fuel) i (b ∷ bs) le =
      let chunk = take chunk_size (b ∷ bs) in
      let left = drop chunk_size (b ∷ bs) in
      let written = encrypt_chunks a nonces fuel (i + 1) left in
      let rest =
        length-encrypt_chunks nonces fuel (i + 1) left
          (omega (arith, le, length-drop chunk_size (b ∷ bs))) in
      let parts = ap length (append-take-drop chunk_size (b ∷ bs)) in
      omega (
        arith,
        rest,
        parts,
        length-append chunk left,
        length-frame (nonces i) chunk,
        length-append (frame a (nonces i) chunk) written,
      )

  decrypt-encrypt_chunks :
      (nonces : ℕ → List ℕ) (fuel more i : ℕ) (input : List ℕ)
      → ((j : ℕ) → length (nonces j) ≡ nonce_size)
      → length input ≤ fuel
      → length input ≤ more
      → decrypt_chunks a more (encrypt_chunks a nonces fuel i input) ≡ finished input
  unfolding encrypt_chunks decrypt_chunks wrote
  decrypt-encrypt_chunks nonces zero zero i [] sizes le le' = refl
  decrypt-encrypt_chunks nonces zero (suc more) i [] sizes le le' = refl
  decrypt-encrypt_chunks nonces (suc fuel) zero i [] sizes le le' = refl
  decrypt-encrypt_chunks nonces (suc fuel) (suc more) i [] sizes le le' = refl
  decrypt-encrypt_chunks nonces zero more i (b ∷ bs) sizes le le' = elim (absurd bs le) [ ]
    where
      absurd : (xs : List ℕ) → suc (length xs) ≤ 0 → ⊥
      absurd xs h = omega (arith, h)
  decrypt-encrypt_chunks nonces (suc fuel) zero i (b ∷ bs) sizes le le' = elim (absurd bs le') [ ]
    where
      absurd : (xs : List ℕ) → suc (length xs) ≤ 0 → ⊥
      absurd xs h = omega (arith, h)
  decrypt-encrypt_chunks nonces (suc fuel) (suc more) i (b ∷ bs) sizes le le' =
      let chunk = take chunk_size (b ∷ bs) in
      let left = drop chunk_size (b ∷ bs) in
      let shorter = length-drop chunk_size (b ∷ bs) in
      let rest =
        decrypt-encrypt_chunks nonces fuel more (i + 1) left sizes (omega (arith, le, shorter))
          (omega (arith, le', shorter)) in
      decrypt_chunks-frame more (nonces i) chunk (encrypt_chunks a nonces fuel (i + 1) left)
        (sizes i) (length-take-le chunk_size (b ∷ bs))
      ∙ (ap (wrote chunk) rest ∙ ap finished (append-take-drop chunk_size (b ∷ bs)))

  -- With a salt of 16 bytes and nonces of 12 bytes, encryption writes a stream for every input, of
  -- any length. From that stream decryption gives the salt and writes the input, and `read_salt`
  -- gives the salt.
  pub decrypt_stream-encrypt_stream :
      (nonces : ℕ → List ℕ) (salt input : List ℕ)
      → ((j : ℕ) → length (nonces j) ≡ nonce_size)
      → length salt ≡ salt_size
      → (stream : List ℕ) × (encrypt_stream a nonces (some salt) input ≡ some stream)
        × (decrypt_stream a stream ≡ ran salt (finished input))
        × (read_salt stream ≡ some salt)
  unfolding encrypt_stream decrypt_stream read_salt same_bytes
  decrypt_stream-encrypt_stream nonces salt input sizes salted =
      let body = encrypt_chunks a nonces (length input) 0 input in
      let enough = length-encrypt_chunks nonces (length input) 0 input (omega arith) in
      let back =
        decrypt-encrypt_chunks nonces (length input) (length body) 0 input sizes (omega arith)
          enough in
      (
        header_v1 ++ (salt ++ body),
        rw (encrypt_stream, salted) refl,
        rw
            (
              decrypt_stream,
              take-at salt_size salt body salted,
              drop-at salt_size salt body salted,
              back,
            )
            refl,
        rw (read_salt, take-at salt_size salt body salted, salted) refl,
      )
