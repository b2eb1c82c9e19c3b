-- ===== src/Hassh/Fingerprint/Separation.antt =====
-- Which lists of algorithms have the same fingerprint.
use hassh.Common.{
  ℕ, ◌≡◌, ◌≢◌, refl, sym, ap, ◌∙◌, List, [], ◌∷◌, ◌++◌, append_assoc, arith, length, length-append,
  All, All-append,
}
use hassh.Text.{Bytes, join, Lacks, split, split-join}
use hassh.Hassh.Names.Valid.{IsValidName}
use hassh.Hassh.NameList.RoundTrip.{All-Lacks, length-join-pos}
use hassh.Hassh.KexInit.{KexInit}
use hassh.Hassh.Fingerprint.{Digests, algorithms, calculate}
use hassh.Hassh.Fingerprint.Shape.{hex-injective}

-- Lists whose names are valid and hold no semicolon.
pub record IsClear (names : List Bytes) : Type 0 where
  pub valid : All IsValidName names
  pub clear : All (Lacks b';') names

pub record IsClearKex (k : KexInit) : Type 0 where
  pub kex : IsClear k.kex
  pub ciphers : IsClear k.ciphers
  pub macs : IsClear k.macs
  pub compression : IsClear k.compression

abbrev pub text_of : KexInit → Bytes
text_of k = algorithms k.kex k.ciphers k.macs k.compression

join-Lacks : (names : List Bytes) → All (Lacks b';') names → Lacks b';' (join names b',')
unfolding join
join-Lacks [] h = tt
join-Lacks (p ∷ []) (h, _) = h
join-Lacks (p ∷ q ∷ ps) (h, hs) =
    All-append _ p (b',' ∷ join (q ∷ ps) b',') h (omega arith, join-Lacks (q ∷ ps) hs)

join-injective :
    (xs ys : List Bytes)
    → All IsValidName xs
    → All IsValidName ys
    → join xs b',' ≡ join ys b','
    → xs ≡ ys
join-injective [] [] hx hy e = refl
join-injective [] (y ∷ ys) hx hy e =
    absurd (unfold join in omega (arith, ap length e, length-join-pos (y ∷ ys) (cc) hy))
join-injective (x ∷ xs) [] hx hy e =
    absurd (unfold join in omega (arith, ap length e, length-join-pos (x ∷ xs) (cc) hx))
join-injective (x ∷ xs) (y ∷ ys) hx hy e =
    sym (split-join (x ∷ xs) b',' (cc) (All-Lacks (x ∷ xs) hx))
    ∙ ap (λ s. split s b',') e
    ∙ split-join (y ∷ ys) b',' (cc) (All-Lacks (y ∷ ys) hy)

abbrev sections : KexInit → List Bytes
sections k = join k.kex b',' ∷ join k.ciphers b',' ∷ join k.macs b',' ∷ join k.compression b',' ∷ []

split-text : (k : KexInit) → IsClearKex k → split (text_of k) b';' ≡ sections k
unfolding algorithms join
split-text k c = split-join (sections k) b';' (cc) (
  join-Lacks k.kex c.kex.clear,
  (
    join-Lacks k.ciphers c.ciphers.clear,
    (join-Lacks k.macs c.macs.clear, (join-Lacks k.compression c.compression.clear, tt)),
  ),
)

-- The text that is digested determines the four lists, if every name is valid and holds no
-- semicolon.
pub algorithms-injective :
    (a b : KexInit) → IsClearKex a → IsClearKex b → text_of a ≡ text_of b → a ≡ b
algorithms-injective a b ca cb e = λ i. record {
  kex = join-injective a.kex b.kex ca.kex.valid cb.kex.valid same.0 i;
  ciphers = join-injective a.ciphers b.ciphers ca.ciphers.valid cb.ciphers.valid same.1 i;
  macs = join-injective a.macs b.macs ca.macs.valid cb.macs.valid same.2 i;
  compression =
      join-injective a.compression b.compression ca.compression.valid cb.compression.valid same.3 i;
}
  where
    four :
        {p q r s p' q' r' s' : Bytes}
        → ◌≡◌ {A = List Bytes} (p ∷ q ∷ r ∷ s ∷ []) (p' ∷ q' ∷ r' ∷ s' ∷ [])
        → (p ≡ p') × (q ≡ q') × (r ≡ r') × (s ≡ s')
    four e = (cc, cc, cc, cc)

    same :
        (join a.kex b',' ≡ join b.kex b',')
        × (join a.ciphers b',' ≡ join b.ciphers b',')
        × (join a.macs b',' ≡ join b.macs b',')
        × (join a.compression b',' ≡ join b.compression b',')
    same = four (sym (split-text a ca) ∙ ap (λ s. split s b';') e ∙ split-text b cb)

abbrev pub fingerprint_of : Digests → KexInit → Bytes
fingerprint_of d k = calculate d k.kex k.ciphers k.macs k.compression

-- Two different offers of valid names without semicolons have the same fingerprint only if their
-- texts differ and collide under MD5.
pub calculate_collision :
    (d : Digests) (a b : KexInit)
    → IsClearKex a
    → IsClearKex b
    → a ≢ b
    → fingerprint_of d a ≡ fingerprint_of d b
    → (text_of a ≢ text_of b) × (d.md5 (text_of a) ≡ d.md5 (text_of b))
unfolding calculate
calculate_collision d a b ca cb ne e = (
  λ same. ne (algorithms-injective a b ca cb same),
  hex-injective _ _ (d.md5_bytes (text_of a)) (d.md5_bytes (text_of b)) e,
)

longer : (p q : Bytes) → ◌≢◌ {A = List Bytes} ((p ++ b';' ∷ q) ∷ []) (p ∷ [])
longer p q e = absurd (omega (arith, length-append p (b';' ∷ q), ap total e))
  where
    total : List Bytes → ℕ
    total [] = 0
    total (x ∷ xs) = length x

-- Without that restriction different offers share a fingerprint under every digest: a semicolon
-- inside a name reads like the one between two lists.
pub calculate_semicolon :
    (d : Digests) (kex ciphers : List Bytes) (p q r : Bytes)
    → (calculate d kex ciphers ((p ++ b';' ∷ q) ∷ []) (r ∷ [])
        ≡ calculate d kex ciphers (p ∷ []) ((q ++ b';' ∷ r) ∷ []))
      × ◌≢◌ {A = List Bytes} ((p ++ b';' ∷ q) ∷ []) (p ∷ [])
unfolding calculate algorithms join
calculate_semicolon d kex ciphers p q r = (rw (append_assoc p (b';' ∷ q) (b';' ∷ r)), longer p q)
