-- ===== src/Hassh/Fingerprint/Shape.antt =====
-- The text of a fingerprint: lower-case hexadecimal digits, two for each byte of the digest.
use hassh.Common.{
  ℕ, ◌*◌, ◌/◌, ◌%◌, ◌≤◌, ◌<◌, ◌≡◌, ◌⊎◌, inl, inr, refl, List, [], ◌∷◌, arith, ◌==◌, if◌then◌else◌,
  length, All, Bool-cases,
}
use hassh.Text.{Bytes, hex, hex_digit}
use hassh.Hassh.Fingerprint.{Digests, HashAlgorithm, hash_sha256, algorithms, calculate_with_hash}

abbrev pub IsHexDigit : ℕ → Type 0
IsHexDigit c = ((b'0' ≤ c) × (c ≤ b'9')) ⊎ ((b'a' ≤ c) × (c ≤ b'f'))

length-hex : (s : Bytes) → length (hex s) ≡ 2 * length s
unfolding hex
length-hex [] = refl
length-hex (c ∷ s) = omega (arith, length-hex s)

hex_digit-IsHexDigit : (n : ℕ) → n < 16 → IsHexDigit (hex_digit n)
hex_digit-IsHexDigit n h = ground arith

hex-IsHexDigit : (s : Bytes) → All (λ c. c < 256) s → All IsHexDigit (hex s)
unfolding hex
hex-IsHexDigit [] h = tt
hex-IsHexDigit (c ∷ s) (hc, h) = (
  hex_digit-IsHexDigit (c / 16) (omega arith),
  (hex_digit-IsHexDigit (c % 16) (omega arith), hex-IsHexDigit s h),
)

hex_digit-injective : (n m : ℕ) → n < 16 → m < 16 → hex_digit n ≡ hex_digit m → n ≡ m
hex_digit-injective n m h k e = ground arith

two_heads :
    {a b a' b' : ℕ} {s t : Bytes}
    → ◌≡◌ {A = Bytes} (a ∷ b ∷ s) (a' ∷ b' ∷ t)
    → (a ≡ a') × (b ≡ b') × (s ≡ t)
two_heads e = (cc, cc, cc)

-- The two digits of a byte determine it.
pub hex-injective :
    (s t : Bytes) → All (λ c. c < 256) s → All (λ c. c < 256) t → hex s ≡ hex t → s ≡ t
unfolding hex
hex-injective [] [] hs ht e = refl
hex-injective [] (b ∷ t) hs ht e = cc
hex-injective (a ∷ s) [] hs ht e = cc
hex-injective (a ∷ s) (b ∷ t) (ha, hs) (hb, ht) e =
    let (high, low, rest) = two_heads e in
    let same_high = hex_digit-injective (a / 16) (b / 16) (omega arith) (omega arith) high in
    let same_low = hex_digit-injective (a % 16) (b % 16) (omega arith) (omega arith) low in
    let same : a ≡ b = omega arith in rw (same, hex-injective s t hs ht rest)

-- A fingerprint is 64 hexadecimal digits with SHA-256 and 32 otherwise, so it fits the 64
-- characters of its database column.
pub calculate_with_hash_shape :
    (d : Digests) (kex ciphers macs compression : List Bytes) (algo : HashAlgorithm)
    → let hash = calculate_with_hash d kex ciphers macs compression algo in
      All IsHexDigit hash
      × (length hash ≡ (if algo == hash_sha256 then 64 else 32))
      × (length hash ≤ 64)
unfolding calculate_with_hash
calculate_with_hash_shape d kex ciphers macs compression algo =
    elim (Bool-cases (algo == hash_sha256)) [
      | inl sha ↦
          let size : length (hex (d.sha256 text)) ≡ 64 =
            omega (arith, length-hex (d.sha256 text), d.length-sha256 text) in
          rw sha (hex-IsHexDigit _ (d.sha256_bytes text), size, omega arith)
      | inr md ↦
          let size : length (hex (d.md5 text)) ≡ 32 =
            omega (arith, length-hex (d.md5 text), d.length-md5 text) in
          rw md (hex-IsHexDigit _ (d.md5_bytes text), size, omega arith)
    ]
  where
    text : Bytes
    text = algorithms kex ciphers macs compression
