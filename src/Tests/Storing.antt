-- ===== src/Tests/Storing.antt =====
-- A database in memory in which fingerprints are blocked and connections are recorded, up to a client
-- that is refused.
use hassh.Common.{
  not, if◌then◌else◌, ℕ, ◌≡◌, refl, sym, ap, inl, inr, Bool, Bool-cases, true, false, ◌&&◌, Option,
  none, some, List, [], ◌∷◌, arith, length, take, All, ◌==◌,
}
use hassh.Text.{Bytes, codes, same, same_iff}
use hassh.Filter.{reload, contains}
use hassh.Storage.Rows.{is_blocked, find, has, matches}
use hassh.Storage.Rows.{taken, same_table}
use hassh.Storage.Rows.Consistent.{is_alone, is_grounded, IsConsistent, distinct_rows, grounded}
use hassh.Storage.Database.Replies.{done, After, after_done}
use hassh.Storage.Memory.{Memory, memory_database, memory_database-IsLawful}
use hassh.Storage.Repository.{
  Net, parse_ip, max_banner_column_length, load_blocked_hashes, block_hash, unblock_hash,
  record_connection,
}
use hassh.Storage.Repository.Created.{IsLike}
use hassh.Storage.Repository.Blocking.{
  IsBlocking, IsUnblocking, block_hash-After, unblock_hash-After,
}
use hassh.Storage.Repository.Recording.{IsRecorded, record_connection-After}
use hassh.Storage.Enforced.{load_blocked_hashes-reload}
use hassh.Storage.Queries.{
  ℤ, pos, negsuc, Clock, Condition, blocked_is, address_is, address_like, fingerprint_like,
  banner_like, SelectQuery, ConnectionRow, Reader, list_connections,
}
use hassh.Storage.Queries.Selected.{
  IsLimited, IsWithin, Meets, IsSelecting, IsState, list_connections-After,
}
use hassh.Proxy.Lifecycle.{reload_blocklist}
use hassh.Tests.Running.{first_server, refused_client}
use hassh.Tests.Data.{sample_fingerprint}

abbrev pub empty_memory : Memory
empty_memory = record { rows = []; changed = []; is_fresh = false; fails = [] }

pub empty_memory-IsConsistent : IsConsistent empty_memory.rows
unfolding distinct_rows grounded
empty_memory-IsConsistent = record { distinct = refl; blocks = refl }

abbrev pub reason : Bytes
reason = codes "manual_block"

-- The fingerprint of the sample client, blocked.
abbrev pub blocked_memory : Memory
blocked_memory = (block_hash memory_database sample_fingerprint.hash reason empty_memory).1

block_hash-After_example :
    After
      (λ _ t. IsBlocking sample_fingerprint.hash [] (t.rows))
      (λ _ t. IsLike [] (t.rows))
      (block_hash memory_database sample_fingerprint.hash reason empty_memory)
block_hash-After_example =
    block_hash-After memory_database memory_database-IsLawful sample_fingerprint.hash reason
      empty_memory empty_memory-IsConsistent

blocked_memory-IsConsistent : IsConsistent blocked_memory.rows
unfolding distinct_rows grounded is_alone is_grounded block_hash find has matches taken same_table
blocked_memory-IsConsistent = record { distinct = refl; blocks = refl }

unblock_hash-After_example :
    After
      (λ _ t. IsUnblocking sample_fingerprint.hash blocked_memory.rows (t.rows))
      (λ _ t. IsLike blocked_memory.rows (t.rows))
      (unblock_hash memory_database sample_fingerprint.hash blocked_memory)
unblock_hash-After_example =
    unblock_hash-After memory_database memory_database-IsLawful sample_fingerprint.hash
      blocked_memory blocked_memory-IsConsistent

blocking_done :
    block_hash memory_database sample_fingerprint.hash reason empty_memory
    ≡ (done tt, blocked_memory)
unfolding block_hash find matches
blocking_done = refl

pub loading_done :
    load_blocked_hashes memory_database blocked_memory
    ≡ (done (sample_fingerprint.hash ∷ []), blocked_memory)
unfolding load_blocked_hashes block_hash find has matches
loading_done = refl

load_blocked_hashes-reload_example :
    contains
      (reload (record { exact = (codes "ab", true) ∷ [] }) (sample_fingerprint.hash ∷ []))
      (codes "ab")
    ≡ is_blocked (codes "ab") blocked_memory.rows
load_blocked_hashes-reload_example =
    load_blocked_hashes-reload memory_database memory_database-IsLawful
      (record { exact = (codes "ab", true) ∷ [] }) (sample_fingerprint.hash ∷ []) blocked_memory
      blocked_memory (codes "ab") loading_done

pub list_held :
    (reload_blocklist first_server (some (sample_fingerprint.hash ∷ []))).0.blocklist
    ≡ some refused_client.blocklist
unfolding reload_blocklist reload
list_held = refl

-- One address, in four bytes.
abbrev pub size : Option Bytes → ℕ
size none = 4
size (some b) = length b

abbrev pub sample_net : Net
sample_net = record {
  Ip = Unit;
  parse_ip = λ _. some tt;
  to4 = λ _. some (10 ∷ 0 ∷ 0 ∷ 1 ∷ []);
  to16 = λ _. 0 ∷ 0 ∷ 0 ∷ 0 ∷ 0 ∷ 0 ∷ 0 ∷ 0 ∷ 0 ∷ 0 ∷ 255 ∷ 255 ∷ 10 ∷ 0 ∷ 0 ∷ 1 ∷ [];
  show = λ _. codes "10.0.0.1";
  length-to4 = λ ip b e. sym (ap size e);
  length-to16 = λ ip. refl;
}

record_connection-After_example :
    After
      (λ _ t.
        IsRecorded
          (parse_ip sample_net (codes "10.0.0.1"))
          (codes "ab")
          (take max_banner_column_length (codes "SSH-2.0-x"))
          true
          []
          t.rows)
      (λ _ t. IsLike [] t.rows)
      (record_connection memory_database sample_net
        (codes "10.0.0.1")
        (codes "ab")
        (codes "SSH-2.0-x")
        true
        empty_memory)
record_connection-After_example =
    record_connection-After memory_database memory_database-IsLawful sample_net (codes "10.0.0.1")
      (codes "ab") (codes "SSH-2.0-x") true empty_memory empty_memory-IsConsistent

abbrev pub sample_clock : Clock
sample_clock = record {
  Time = ℕ;
  zero_time = 0;
  parse = λ _ _. some 7;
  format = λ _ _. codes "2024";
}

abbrev sample_row : ConnectionRow sample_clock
sample_row = record {
  id = 1;
  timestamp = 5;
  ip_version = 4;
  ip_address_bytes = 10 ∷ 0 ∷ 0 ∷ 1 ∷ [];
  hassh_fingerprint = codes "ab";
  ssh_client_banner = codes "SSH-2.0-x";
  blocked = true;
}

-- A table of one row, in which every text is found.
found_in : Condition → Bool
found_in (blocked_is b) = b
found_in (address_is v a) = v == 4 && same (10 ∷ 0 ∷ 0 ∷ 1 ∷ []) a
found_in _ = true

found_in-Meets : (c : Condition) → found_in c ≡ true → Meets sample_clock (λ _ _. true) sample_row c
unfolding found_in
found_in-Meets (blocked_is b) e = sym e
found_in-Meets (address_is v a) e = (ground arith, ground (arith, same_iff (10 ∷ 0 ∷ 0 ∷ 1 ∷ []) a))
found_in-Meets (address_like t) e = refl
found_in-Meets (fingerprint_like t) e = refl
found_in-Meets (banner_like t) e = refl

all_found : List Condition → Bool
all_found [] = true
all_found (c ∷ cs) = found_in c && all_found cs

all_found-Meets :
    (cs : List Condition)
    → all_found cs ≡ true
    → All (Meets sample_clock (λ _ _. true) sample_row) cs
unfolding all_found
all_found-Meets [] e = tt
all_found-Meets (c ∷ cs) e = (found_in-Meets c (ground arith), all_found-Meets cs (ground arith))

-- The limit 0 leaves nothing.
leaves_one : Option ℤ → Bool
leaves_one (some (pos n)) = not (n == 0)
leaves_one _ = true

leaves_one-IsWithin : (limit : Option ℤ) → leaves_one limit ≡ true → IsWithin limit 1
unfolding leaves_one
leaves_one-IsWithin none e = tt
leaves_one-IsWithin (some (pos n)) e = ground arith
leaves_one-IsWithin (some (negsuc n)) e = tt

nothing-IsWithin : (limit : Option ℤ) → IsWithin limit 0
nothing-IsWithin none = tt
nothing-IsWithin (some (pos n)) = omega arith
nothing-IsWithin (some (negsuc n)) = tt

answered : SelectQuery → List (ConnectionRow sample_clock)
unfolding all_found leaves_one
answered q = if all_found q.conditions && leaves_one q.limit then sample_row ∷ [] else []

abbrev sample_reader : Reader sample_clock Unit
unfolding answered
sample_reader = record {
  find_connections = λ q s. (done (answered q), s);
  find_summaries = λ q s. (done [], s);
}

sample_reader-IsSelecting : IsSelecting sample_clock (λ _ _. true) sample_reader
unfolding sample_reader answered
sample_reader-IsSelecting = record {
  connections = λ q s. elim (Bool-cases (all_found q.conditions && leaves_one q.limit)) [
    | inl e ↦ rw e (
        after_done (
          (all_found-Meets q.conditions (ground arith), tt),
          leaves_one-IsWithin q.limit (ground arith),
        ))
    | inr e ↦ rw e (after_done (tt, nothing-IsWithin q.limit))
  ];
  summaries = λ q s. after_done (tt, nothing-IsWithin q.limit);
}

list_connections-After_example :
    After
      (λ ds _. All (λ d. IsState (some true) d.blocked) ds × IsLimited (pos 25) (length ds))
      (λ _ _. Unit {0})
      (list_connections sample_clock sample_reader sample_net
        (pos 25)
        (some true)
        (codes "ip")
        true
        tt)
list_connections-After_example =
    list_connections-After sample_clock sample_net (λ _ _. true) sample_reader
      sample_reader-IsSelecting (pos 25) (some true) (codes "ip") true tt
