-- ===== src/Hassh/KexInit.antt =====
-- pkg/hassh/hassh.go: `parseKexInitImpl` and the two functions around it.
pub mod Totality
pub mod RoundTrip
use hassh.Common.{
  ℕ, ◌+◌, List, leb, ◌==◌, length, Option, none, some, Result, ok, err, ◌>>=◌, ◌>>◌, guard, map_err,
  recover, index,
}
use hassh.Text.{Bytes}
use hassh.Hassh.Names.{
  Sentinel, too_many_algorithms, buffer_too_short, invalid_packet, panicked, max_payload_size,
  max_total_algorithms, ssh_msg_kex_init,
}
use hassh.Hassh.NameList.{parse_name_list}

-- The `fieldName` of each name-list, in the order of the packet.
pub data Field : Type 0 where
  kex_algorithms : Field
  server_host_key_algorithms : Field
  encryption_algorithms_client_to_server : Field
  encryption_algorithms_server_to_client : Field
  mac_algorithms_client_to_server : Field
  mac_algorithms_server_to_client : Field
  compression_algorithms_client_to_server : Field
  compression_algorithms_server_to_client : Field
  languages_client_to_server : Field
  languages_server_to_client : Field

-- `ctx.Err()` of a context that is done.
pub data ContextError : Type 0 where
  canceled : ContextError
  deadline_exceeded : ContextError

-- A sentinel, a sentinel behind `failed to parse <field>`, or the context's own error.
pub data Error : Type 0 where
  plain : Sentinel → Error
  in_field : Field → Sentinel → Error
  context : ContextError → Error

-- The named results of `ParseKexInit`.
pub record KexInit : Type 0 where
  pub kex : List Bytes
  pub ciphers : List Bytes
  pub macs : List Bytes
  pub compression : List Bytes

-- The closure, with the variable `totalAlgorithms` that it counts in as an argument and a result.
unfoldable pub parse_and_track : Bytes → ℕ → ℕ → Field → Result Error (List Bytes × ℕ × ℕ)
parse_and_track payload offset total field = do
  (algorithms, new_offset) ← map_err (λ e. in_field field e.0) (parse_name_list payload offset)
  let total' = total + length algorithms
  guard (leb total' max_total_algorithms) (plain too_many_algorithms)
  ok (algorithms, new_offset, total')

-- The boolean and the reserved uint32 behind the name-lists.
unfoldable pub check_tail : Bytes → ℕ → KexInit → Result Error KexInit
check_tail payload offset found = do
  guard (leb (offset + 1) (length payload)) (plain buffer_too_short)
  guard (leb (offset + 1 + 4) (length payload)) (plain buffer_too_short)
  ok found

unfoldable pub parse_kex_init_impl : Bytes → Result Error KexInit
unfolding parse_and_track check_tail
parse_kex_init_impl payload = do
  guard (leb (length payload) max_payload_size) (plain invalid_packet)
  guard (leb 17 (length payload)) (plain invalid_packet)
  message_type ← index payload 0
  guard (message_type == ssh_msg_kex_init) (plain invalid_packet)
  (kex, o, t) ← parse_and_track payload 17 0 kex_algorithms
  (_, o, t) ← parse_and_track payload o t server_host_key_algorithms
  (ciphers, o, t) ← parse_and_track payload o t encryption_algorithms_client_to_server
  (_, o, t) ← parse_and_track payload o t encryption_algorithms_server_to_client
  (macs, o, t) ← parse_and_track payload o t mac_algorithms_client_to_server
  (_, o, t) ← parse_and_track payload o t mac_algorithms_server_to_client
  (compression, o, t) ← parse_and_track payload o t compression_algorithms_client_to_server
  (_, o, t) ← parse_and_track payload o t compression_algorithms_server_to_client
  (_, o, t) ← parse_and_track payload o t languages_client_to_server
  (_, o, t) ← parse_and_track payload o t languages_server_to_client
  check_tail payload o
      (record { kex = kex; ciphers = ciphers; macs = macs; compression = compression })

unfoldable pub parse_kex_init : Bytes → Result Error KexInit
parse_kex_init payload = recover (plain panicked) (parse_kex_init_impl payload)

-- `none` is a context that is not done when the call begins.
unfoldable pub parse_kex_init_with_context : Option ContextError → Bytes → Result Error KexInit
parse_kex_init_with_context (some e) payload = err (context e)
parse_kex_init_with_context none payload = recover (plain panicked) (parse_kex_init_impl payload)
