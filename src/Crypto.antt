-- ===== src/Crypto.antt =====
-- internal/crypto/aesgcm.go: the layout of an encrypted column, nonce, ciphertext and tag. AES-GCM of
-- the standard library is an argument: `seal` and `unseal` take a key, a nonce, a text and an AAD. A
-- key is 32 bytes, a nonce 12, a tag 16.
use pio.Base.{
  ◌+◌, ◌≤◌, ◌≡◌, refl, ap, true, false, Option, none, some, [], ◌∷◌, ◌++◌, GoString, codes, length,
  take, drop, ltb, ◌==◌, if◌then◌else◌, arith, length-append, subst, List,
}

abbrev pub aad_prefix : GoString
aad_prefix = codes "webshare-proxy/v1/"

abbrev pub column_aad : GoString → GoString
column_aad column_name = aad_prefix ++ column_name

abbrev pub Sealing : Type 0
Sealing = GoString → GoString → GoString → GoString → GoString

abbrev pub Unsealing : Type 0
Unsealing = GoString → GoString → GoString → GoString → Option GoString

-- `nonce` is what crypto/rand read, if it did.
unfoldable pub encrypt :
    Sealing → GoString → Option GoString → GoString → GoString → Option GoString
encrypt seal key none plaintext aad = none
encrypt seal key (some nonce) plaintext aad =
    if length key == 32 then some (nonce ++ seal key nonce plaintext aad) else none

unfoldable pub decrypt : Unsealing → GoString → GoString → GoString → Option GoString
decrypt unseal key blob aad =
    if length key == 32
    then if ltb (length blob) (12 + 16) then none else unseal key (take 12 blob) (drop 12 blob) aad
    else none

-- What AES-GCM documents: a sealed text opens under the same key, nonce and AAD, and is longer by the
-- tag.
pub record IsAead (seal : Sealing) (unseal : Unsealing) : Type 0 where
  pub opens :
      (key nonce plaintext aad : GoString)
      → unseal key nonce (seal key nonce plaintext aad) aad ≡ some plaintext
  pub tagged :
      (key nonce plaintext aad : GoString)
      → length (seal key nonce plaintext aad) ≡ length plaintext + 16

take-append : {A : Type 0} (xs ys : List A) → take (length xs) (xs ++ ys) ≡ xs
take-append [] ys = refl
take-append (x ∷ xs) ys = ap (λ l. x ∷ l) (take-append xs ys)

drop-append : {A : Type 0} (xs ys : List A) → drop (length xs) (xs ++ ys) ≡ ys
drop-append [] ys = refl
drop-append (x ∷ xs) ys = drop-append xs ys

module _ (seal : Sealing) (unseal : Unsealing) (aead : IsAead seal unseal) where
  -- A text that was encrypted with a nonce of twelve bytes decrypts under the same key and AAD as that
  -- text, and its ciphertext is not empty.
  pub decrypt-encrypt :
      (key nonce plaintext aad blob : GoString)
      → length nonce ≡ 12
      → encrypt seal key (some nonce) plaintext aad ≡ some blob
      → (decrypt unseal key blob aad ≡ some plaintext) × (1 ≤ length blob)
  unfolding encrypt decrypt
  decrypt-encrypt key nonce plaintext aad blob n h =
      let sealed = seal key nonce plaintext aad in
      let made : nonce ++ sealed ≡ blob = ground arith in
      let size = length-append nonce sealed in
      let tag = aead.tagged key nonce plaintext aad in
      let front = subst (λ k. take k (nonce ++ sealed) ≡ nonce) n (take-append nonce sealed) in
      let back = subst (λ k. drop k (nonce ++ sealed) ≡ sealed) n (drop-append nonce sealed) in
      let whole : ltb (length (nonce ++ sealed)) (12 + 16) ≡ false = ground (arith, size, tag, n) in
      let key_size : (length key == 32) ≡ true = ground arith in
      subst (λ b. (decrypt unseal key b aad ≡ some plaintext) × (1 ≤ length b)) made
        (
          rw (decrypt, key_size, whole, front, back) (aead.opens key nonce plaintext aad),
          omega (arith, size, tag, n),
        )
