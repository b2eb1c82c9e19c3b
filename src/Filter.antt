-- ===== src/Filter.antt =====
-- pkg/filter/blocklist.go: the set of blocked fingerprints. Every method holds the lock from its
-- first line to its last, so each is one step on the map.
pub mod Laws
use hassh.Common.{ℕ, Bool, true, false, List, [], ◌∷◌, if◌then◌else◌, length}
use hassh.Text.{Bytes, same}

-- `map[string]bool`: the keys with their values, each key once.
abbrev pub BoolMap : Type 0
BoolMap = List (Bytes × Bool)

-- `m[k]`, false on a missing key.
unfoldable pub lookup : Bytes → BoolMap → Bool
lookup k [] = false
lookup k ((j, v) ∷ m) = if same j k then v else lookup k m

-- `m[k] = v`
unfoldable pub insert : Bytes → Bool → BoolMap → BoolMap
insert k v [] = (k, v) ∷ []
insert k v ((j, w) ∷ m) = if same j k then (j, v) ∷ m else (j, w) ∷ insert k v m

pub record BlocklistFilter : Type 0 where
  pub exact : BoolMap

abbrev pub new_blocklist_filter : BlocklistFilter
new_blocklist_filter = record { exact = [] }

unfoldable pub add : BlocklistFilter → Bytes → BlocklistFilter
add b hassh = record { exact = insert hassh true b.exact }

unfoldable pub contains : BlocklistFilter → Bytes → Bool
contains b hassh = lookup hassh b.exact

-- The loop of `Reload` over the new map.
unfoldable pub insert_all : BoolMap → List Bytes → BoolMap
insert_all m [] = m
insert_all m (hassh ∷ hashes) = insert_all (insert hassh true m) hashes

unfoldable pub reload : BlocklistFilter → List Bytes → BlocklistFilter
unfolding insert_all
reload b blocked_hashes = record { exact = insert_all [] blocked_hashes }

unfoldable pub count : BlocklistFilter → ℕ
count b = length b.exact
