-- ===== src/Tests/Fingerprints.antt =====
-- Fingerprints and the blocklist, on concrete data.
use hassh.Common.{◌≡◌, ◌≤◌, [], length, All}
use hassh.Hassh.Fingerprint.{calculate_with_hash, hash_sha256}
use hassh.Hassh.Fingerprint.Shape.{IsHexDigit, calculate_with_hash_shape}
use hassh.Tests.Data.{blank_digests, kex_names, cipher_names}

calculate_with_hash_shape_example :
    All IsHexDigit (calculate_with_hash blank_digests kex_names cipher_names [] [] hash_sha256)
    × (length (calculate_with_hash blank_digests kex_names cipher_names [] [] hash_sha256) ≡ 64)
    × (length (calculate_with_hash blank_digests kex_names cipher_names [] [] hash_sha256) ≤ 64)
calculate_with_hash_shape_example =
    calculate_with_hash_shape blank_digests kex_names cipher_names [] [] hash_sha256
