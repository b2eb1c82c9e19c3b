-- ===== src/Hassh/Fingerprint.antt =====
-- pkg/hassh/hassh.go: `Fingerprint`, `Calculate` and `CalculateWithHash`. The digests of crypto/md5
-- and crypto/sha256 are parameters, with the sizes that these packages document.
pub mod Shape
pub mod Separation
use hassh.Common.{ℕ, ◌≡◌, ◌<◌, List, [], ◌∷◌, ◌++◌, ◌==◌, if◌then◌else◌, length, All}
use hassh.Text.{Bytes, join, hex}

pub record Fingerprint : Type 0 where
  pub hash : Bytes
  pub client_banner : Bytes
  pub remote_addr : Bytes

-- `Sum` of md5 and `Sum256` of sha256, as functions of the bytes that they digest.
pub record Digests : Type 0 where
  pub md5 : Bytes → Bytes
  pub sha256 : Bytes → Bytes
  pub length-md5 : (s : Bytes) → length (md5 s) ≡ 16
  pub length-sha256 : (s : Bytes) → length (sha256 s) ≡ 32
  pub md5_bytes : (s : Bytes) → All (λ c. c < 256) (md5 s)
  pub sha256_bytes : (s : Bytes) → All (λ c. c < 256) (sha256 s)

abbrev pub HashAlgorithm : Type 0
HashAlgorithm = ℕ

abbrev pub hash_md5 : HashAlgorithm
hash_md5 = 0

abbrev pub hash_sha256 : HashAlgorithm
hash_sha256 = 1

-- fmt.Sprintf("%s;%s;%s;%s", …)
unfoldable pub algorithms : List Bytes → List Bytes → List Bytes → List Bytes → Bytes
algorithms kex ciphers macs compression =
    join kex b','
    ++ (b';' ∷ (join ciphers b',' ++ (b';' ∷ (join macs b',' ++ (b';' ∷ join compression b',')))))

module _ (d : Digests) where
  -- The switch: every value other than `hash_sha256` takes the default.
  unfoldable pub calculate_with_hash :
      List Bytes → List Bytes → List Bytes → List Bytes → HashAlgorithm → Bytes
  calculate_with_hash kex ciphers macs compression algo =
      let text = algorithms kex ciphers macs compression in
      if algo == hash_sha256 then hex (d.sha256 text) else hex (d.md5 text)

  unfoldable pub calculate : List Bytes → List Bytes → List Bytes → List Bytes → Bytes
  unfolding calculate_with_hash
  calculate kex ciphers macs compression = calculate_with_hash kex ciphers macs compression hash_md5
