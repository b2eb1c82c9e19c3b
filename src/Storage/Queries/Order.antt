-- ===== src/Storage/Queries/Order.antt =====
-- The ORDER BY of a query, whatever is asked for.
use hassh.Common.{◌≡◌, refl, Bool, true, false, List, [], ◌∷◌, ◌++◌, if◌then◌else◌}
use hassh.Text.{Bytes, codes, same}
use hassh.Filter.Laws.{listed}
use hassh.Storage.Queries.{
  descending, connection_column, summary_column, connection_order, summary_order,
}

abbrev pub connection_orders : List Bytes
connection_orders =
    codes "ssh_connections.timestamp ASC"
    ∷ codes "ssh_connections.timestamp DESC"
    ∷ codes "ip_addresses.address ASC"
    ∷ codes "ip_addresses.address DESC"
    ∷ codes "hassh_fingerprints.fingerprint ASC"
    ∷ codes "hassh_fingerprints.fingerprint DESC"
    ∷ []

abbrev pub summary_orders : List Bytes
summary_orders =
    codes "last_seen ASC"
    ∷ codes "last_seen DESC"
    ∷ codes "ip_count ASC"
    ∷ codes "ip_count DESC"
    ∷ codes "total_connections ASC"
    ∷ codes "total_connections DESC"
    ∷ codes "hassh_fingerprint ASC"
    ∷ codes "hassh_fingerprint DESC"
    ∷ codes "ssh_client_banner ASC"
    ∷ codes "ssh_client_banner DESC"
    ∷ []

pick : (b : Bool) (P : Bytes → Type 0) {x y : Bytes} → P x → P y → P (if b then x else y)
pick true P p q = p
pick false P p q = q

module _ (P : Bytes → Type 0) (sort_by : Bytes) where
  connection_column_among :
      P (codes "ssh_connections.timestamp")
      → P (codes "ip_addresses.address")
      → P (codes "hassh_fingerprints.fingerprint")
      → P (connection_column sort_by)
  unfolding connection_column
  connection_column_among t i h = pick _ P t (pick _ P i (pick _ P h t))

  summary_column_among :
      P (codes "last_seen")
      → P (codes "ip_count")
      → P (codes "total_connections")
      → P (codes "hassh_fingerprint")
      → P (codes "ssh_client_banner")
      → P (summary_column sort_by)
  unfolding summary_column
  summary_column_among l i t h b = pick _ P l (pick _ P i (pick _ P t (pick _ P h (pick _ P b l))))

-- Whatever text is asked to sort by, the ORDER BY of both queries is one of a fixed set of texts, so
-- no part of it comes from the caller.
pub order_fixed :
    (sort_by : Bytes) (reverse : Bool)
    → (listed (connection_order sort_by reverse) connection_orders ≡ true)
      × (listed (summary_order sort_by reverse) summary_orders ≡ true)
unfolding same
order_fixed sort_by true = (
  connection_column_among (λ c. listed (c ++ descending true) connection_orders ≡ true) sort_by refl
      refl refl,
  summary_column_among (λ c. listed (c ++ descending true) summary_orders ≡ true) sort_by refl refl
      refl refl refl,
)
order_fixed sort_by false = (
  connection_column_among (λ c. listed (c ++ descending false) connection_orders ≡ true) sort_by
      refl refl refl,
  summary_column_among (λ c. listed (c ++ descending false) summary_orders ≡ true) sort_by refl refl
      refl refl refl,
)
