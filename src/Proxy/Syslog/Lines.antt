-- ===== src/Proxy/Syslog/Lines.antt =====
-- The lines of an entry's message: where a newline can come from.
use hassh.Common.{ℕ, suc, ◌+◌, ◌≡◌, refl, [], ◌∷◌, ◌++◌, arith, ◌==◌, if◌then◌else◌, All, inl, inr}
use hassh.Text.{Bytes, codes, decimal, IsDigit, decimal-IsDigit}
use hassh.Hassh.Fingerprint.Shape.{IsHexDigit}
use hassh.Proxy.Syslog.{Chain, tag, handshake_entry}

abbrev pub newlines : Bytes → ℕ
newlines [] = 0
newlines (c ∷ s) = let rest = newlines s in if c == 10 then suc rest else rest

newlines-append : (s t : Bytes) → newlines (s ++ t) ≡ newlines s + newlines t
newlines-append [] t = omega arith
newlines-append (c ∷ s) t = ground (arith, newlines-append s t)

newlines_digits : (s : Bytes) → All IsDigit s → newlines s ≡ 0
newlines_digits [] h = refl
newlines_digits (c ∷ s) (d, h) = ground (arith, newlines_digits s h)

newlines_hex : (s : Bytes) → All IsHexDigit s → newlines s ≡ 0
newlines_hex [] h = refl
newlines_hex (c ∷ s) (inl d, h) = ground (arith, newlines_hex s h)
newlines_hex (c ∷ s) (inr d, h) = ground (arith, newlines_hex s h)

newlines-decimal : (n : ℕ) → newlines (decimal n) ≡ 0
newlines-decimal n = newlines_digits (decimal n) (decimal-IsDigit n)

-- The addresses are each on one line.
pub record IsClean (c : Chain) : Type 0 where
  pub client : newlines c.client_ip ≡ 0
  pub proxy : newlines c.proxy_ip ≡ 0
  pub upstream : newlines c.upstream_local_ip ≡ 0
  pub target : newlines c.target_addr ≡ 0

newlines-tag : (n : ℕ) (s : Bytes) → newlines (tag n ++ s) ≡ newlines s
newlines-tag n s =
    omega (
      arith,
      newlines-append (tag n) s,
      newlines-append (decimal n) (codes "] "),
      newlines-decimal n,
    )

arrow_codes : newlines (codes " -> ") ≡ 0
arrow_codes = refl

-- Addresses and fingerprint of one line each make the message of a handshake as many lines as the
-- banner of the client: no newline of the banner is removed or escaped.
pub handshake_entry-newlines :
    (c : Chain) (hassh banner : Bytes)
    → IsClean c
    → All IsHexDigit hassh
    → newlines (handshake_entry c hassh banner).message ≡ newlines banner
unfolding handshake_entry
handshake_entry-newlines c hassh banner h digits =
    simp
      (
        newlines-append,
        newlines-tag,
        newlines-decimal,
        h.client,
        h.proxy,
        h.upstream,
        h.target,
        newlines_hex hassh digits,
        arrow_codes,
      )
      (omega arith)
