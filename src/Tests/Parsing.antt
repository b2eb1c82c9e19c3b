-- ===== src/Tests/Parsing.antt =====
-- The parsers, on concrete bytes.
use hassh.Common.{◌≡◌, refl, [], ◌∷◌, ok, arith, slice, be_uint32}
use hassh.Text.{codes, join, split, trim_space}
use hassh.Hassh.Names.{is_valid_algorithm_name, sanitize_algorithm_names}
use hassh.Hassh.Names.Valid.{IsValidName}
use hassh.Hassh.Names.Sanitized.{sanitize_algorithm_names_lem}
use hassh.Hassh.NameList.{parse_name_list}
use hassh.Hassh.NameList.RoundTrip.{put_name_list, IsSendable}
use hassh.Hassh.KexInit.{parse_kex_init}
use hassh.Hassh.KexInit.Totality.{IsPacket, parse_kex_init-IsPacket}
use hassh.Hassh.KexInit.RoundTrip.{put_packet, IsWithinLimits, parse_kex_init-put_packet}
use hassh.Tests.Data.{sample_packet, kex_names, cipher_names, sample_offer}

kex_name-IsValidName : IsValidName (codes "kex")
kex_name-IsValidName = record { nonempty = omega arith; fits = omega arith; bytes = omega arith }

nothing-IsSendable : IsSendable []
unfolding join
nothing-IsSendable = record { valid = tt; few = omega arith; small = omega arith }

kex_names-IsSendable : IsSendable kex_names
unfolding join
kex_names-IsSendable = record {
  valid = (kex_name-IsValidName, tt);
  few = omega arith;
  small = omega arith;
}

cipher_names-IsSendable : IsSendable cipher_names
unfolding join
cipher_names-IsSendable = record {
  valid = (
    record { nonempty = omega arith; fits = omega arith; bytes = omega arith },
    (record { nonempty = omega arith; fits = omega arith; bytes = omega arith }, tt),
  );
  few = omega arith;
  small = omega arith;
}

pub sample_packet-IsWithinLimits : IsWithinLimits sample_packet
unfolding put_packet put_name_list join
sample_packet-IsWithinLimits = record {
  cookie = refl;
  kex = kex_names-IsSendable;
  host_keys = nothing-IsSendable;
  ciphers = cipher_names-IsSendable;
  ciphers_back = nothing-IsSendable;
  macs = nothing-IsSendable;
  macs_back = nothing-IsSendable;
  compression = nothing-IsSendable;
  compression_back = nothing-IsSendable;
  languages = nothing-IsSendable;
  languages_back = nothing-IsSendable;
  few = omega arith;
  tail = omega arith;
  small = omega arith;
}

sanitize_algorithm_names_lem_example :
    sanitize_algorithm_names (codes " kex" ∷ codes " " ∷ []) ≡ ok (codes "kex" ∷ [])
unfolding trim_space is_valid_algorithm_name
sanitize_algorithm_names_lem_example = sanitize_algorithm_names_lem (codes " kex" ∷ codes " " ∷ [])

spaced : sanitize_algorithm_names (codes " kex" ∷ codes " " ∷ []) ≡ ok (codes "kex" ∷ [])
unfolding sanitize_algorithm_names trim_space is_valid_algorithm_name
spaced = refl

one_name : parse_name_list (0 ∷ 0 ∷ 0 ∷ 1 ∷ 107 ∷ []) 0 ≡ ok (codes "k" ∷ [], 5)
unfolding parse_name_list be_uint32 slice split sanitize_algorithm_names trim_space
    is_valid_algorithm_name
one_name = refl

parse_kex_init-put_packet_example : parse_kex_init (put_packet sample_packet) ≡ ok sample_offer
parse_kex_init-put_packet_example =
    parse_kex_init-put_packet sample_packet sample_packet-IsWithinLimits

parse_kex_init-IsPacket_example : IsPacket (put_packet sample_packet) sample_offer
parse_kex_init-IsPacket_example =
    parse_kex_init-IsPacket (put_packet sample_packet)
      (parse_kex_init-put_packet sample_packet sample_packet-IsWithinLimits)
