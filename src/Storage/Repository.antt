-- ===== src/Storage/Repository.antt =====
-- pkg/storage/db.go: the addresses, and the operations of `Repository` that write, with
-- `LoadBlockedHashes`. A record that is read or created is its primary key.
pub mod Created
pub mod Blocking
pub mod Recording
use hassh.Common.{
  if◌then◌else◌, ℕ, ◌≡◌, Bool, ◌&&◌, Option, none, some, List, [], ltb, ◌==◌, length, take,
}
use hassh.Text.{Bytes}
use hassh.Storage.Rows.{
  Row, hassh_fingerprint, blocked_fingerprint, logged, ip_address, ssh_client_banner,
  ssh_connection, Entry, Query, by_address, by_fingerprint, by_banner, by_hassh_id,
}
use hassh.Storage.Database.Replies.{record_not_found, invalid_data, Reply, done, failed, ◌>>=◌}
use hassh.Storage.Database.{Database, pool, tx}

-- Package net: addresses, with the sizes that it documents.
pub record Net : Type 1 where
  pub Ip : Type 0
  pub parse_ip : Bytes → Option Ip
  pub to4 : Ip → Option Bytes
  pub to16 : Ip → Bytes
  -- `net.IP(address).String()`
  pub show : Bytes → Bytes
  pub length-to4 : (ip : Ip) (b : Bytes) → to4 ip ≡ some b → length b ≡ 4
  pub length-to16 : (ip : Ip) → length (to16 ip) ≡ 16

abbrev pub max_banner_column_length : ℕ
max_banner_column_length = 255

module _ (N : Net) where
  -- The version and the bytes of an address; `none` is `gorm.ErrInvalidData`.
  unfoldable pub parse_ip : Bytes → Option (ℕ × Bytes)
  parse_ip ip_str = elim (N.parse_ip ip_str) [
    | none ↦ none
    | some ip ↦ some (elim (N.to4 ip) [ some ip4 ↦ (4, ip4) | none ↦ (6, N.to16 ip) ])
  ]

  unfoldable pub ip_to_string : ℕ → Bytes → Bytes
  ip_to_string version address =
      if version == 4 && length address == 4
      then N.show address
      else if version == 6 && length address == 16
      then N.show address
      else []

module _ (D : Database) where
  -- What `First` found, or a new row if there is none.
  unfoldable pub or_create : Row → Reply Entry × D.State → Reply ℕ × D.State
  or_create row (done e, s) = (done e.0, s)
  or_create row (failed record_not_found, s) = D.create pool row s
  or_create row (failed e, s) = (failed e, s)

  -- The body that the three functions share. They use `r.db`, not the transaction.
  unfoldable pub get_or_create : Query → Row → D.State → Reply ℕ × D.State
  unfolding or_create
  get_or_create q row s = or_create row (D.first pool q s)

  unfoldable pub get_or_create_hassh : Bytes → D.State → Reply ℕ × D.State
  unfolding get_or_create
  get_or_create_hassh fingerprint =
      get_or_create (by_fingerprint fingerprint) (hassh_fingerprint fingerprint)

  unfoldable pub get_or_create_banner : Bytes → D.State → Reply ℕ × D.State
  unfolding get_or_create
  get_or_create_banner banner = get_or_create (by_banner banner) (logged (ssh_client_banner banner))

  abbrev pub with_address : Option (ℕ × Bytes) → D.State → Reply ℕ × D.State
  with_address none s = (failed invalid_data, s)
  with_address (some (version, address)) s =
      get_or_create (by_address version address) (logged (ip_address version address)) s

  unfoldable pub get_or_create_ip_address : Net → Bytes → D.State → Reply ℕ × D.State
  unfolding get_or_create
  get_or_create_ip_address N ip_str s = with_address (parse_ip N ip_str) s

  -- The error of a `Create` whose record is not used.
  abbrev pub forget : Reply ℕ × D.State → Reply (Unit {0}) × D.State
  forget m = m >>= λ _ s. (done tt, s)

  unfoldable pub record_body :
      Net → Bytes → Bytes → Bytes → Bool → D.State → Reply (Unit {0}) × D.State
  unfolding get_or_create_ip_address get_or_create_hassh get_or_create_banner
  record_body N ip hassh banner blocked s = get_or_create_ip_address N ip s >>= λ ip_id t.
      get_or_create_hassh hassh t >>= λ hassh_id u. get_or_create_banner banner u >>= λ banner_id v.
      forget (D.create tx (logged (ssh_connection ip_id hassh_id banner_id blocked)) v)

  unfoldable pub record_connection :
      Net → Bytes → Bytes → Bytes → Bool → D.State → Reply (Unit {0}) × D.State
  unfolding record_body
  record_connection N ip hassh banner blocked =
      let clipped =
        if ltb max_banner_column_length (length banner)
        then take max_banner_column_length banner
        else banner in
      D.transaction (record_body N ip hassh clipped blocked)

  unfoldable pub load_blocked_hashes : D.State → Reply (List Bytes) × D.State
  load_blocked_hashes = D.pluck_blocked

  -- A block for the fingerprint of a key, if there is none.
  unfoldable pub block_unless : ℕ → Bytes → Reply Entry × D.State → Reply (Unit {0}) × D.State
  block_unless hassh_id reason (done e, s) = (done tt, s)
  block_unless hassh_id reason (failed record_not_found, s) =
      forget (D.create tx (blocked_fingerprint hassh_id reason) s)
  block_unless hassh_id reason (failed e, s) = (failed e, s)

  unfoldable pub block_body : Bytes → Bytes → D.State → Reply (Unit {0}) × D.State
  unfolding get_or_create_hassh block_unless
  block_body hassh reason s = get_or_create_hassh hassh s >>= λ hassh_id t.
      block_unless hassh_id reason (D.first tx (by_hassh_id hassh_id) t)

  unfoldable pub block_hash : Bytes → Bytes → D.State → Reply (Unit {0}) × D.State
  unfolding block_body
  block_hash hassh reason = D.transaction (block_body hassh reason)

  unfoldable pub unblock_body : Bytes → D.State → Reply (Unit {0}) × D.State
  unblock_body hassh s = D.first tx (by_fingerprint hassh) s >>= λ e t. D.delete (by_hassh_id e.0) t

  unfoldable pub unblock_hash : Bytes → D.State → Reply (Unit {0}) × D.State
  unfolding unblock_body
  unblock_hash hassh = D.transaction (unblock_body hassh)
