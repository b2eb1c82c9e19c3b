-- ===== src/Filter/Laws.antt =====
-- The blocklist refines a set of fingerprints.
use hassh.Common.{
  ℕ, suc, ◌+◌, ◌≡◌, refl, Bool, true, false, ◌||◌, inl, inr, List, [], ◌∷◌, arith, if◌then◌else◌,
  Bool-cases, length, All,
}
use hassh.Text.{Bytes, same, same_iff}
use hassh.Filter.{
  BoolMap, lookup, insert, BlocklistFilter, add, contains, insert_all, reload, count,
}

lookup-insert :
    (k j : Bytes) (v : Bool) (m : BoolMap)
    → lookup j (insert k v m) ≡ (if same k j then v else lookup j m)
unfolding lookup insert
lookup-insert k j v [] = refl
lookup-insert k j v ((i, w) ∷ m) =
    ground (arith, same_iff k j, same_iff i k, same_iff i j, lookup-insert k j v m)

-- Is a fingerprint among those of a list?
abbrev pub listed : Bytes → List Bytes → Bool
listed k [] = false
listed k (h ∷ hs) = same h k || listed k hs

lookup-insert_all :
    (k : Bytes) (hs : List Bytes) (m : BoolMap)
    → lookup k (insert_all m hs) ≡ (listed k hs || lookup k m)
unfolding insert_all
lookup-insert_all k [] m = refl
lookup-insert_all k (h ∷ hs) m =
    ground (arith, lookup-insert_all k hs (insert h true m), lookup-insert h k true m)

-- `Contains` after `Add`: the new fingerprint is blocked, every other as before.
pub contains-add :
    (b : BlocklistFilter) (h k : Bytes) → contains (add b h) k ≡ (same h k || contains b k)
unfolding contains add
contains-add b h k = ground (arith, lookup-insert h k true b.exact)

-- `Contains` after `Reload`: exactly the given fingerprints are blocked, whatever was before.
pub contains-reload :
    (b : BlocklistFilter) (hs : List Bytes) (k : Bytes) → contains (reload b hs) k ≡ listed k hs
unfolding contains reload lookup
contains-reload b hs k = ground (arith, lookup-insert_all k hs [])

-- Every value of the map is true; the methods keep this.
abbrev pub IsTrue : Bytes × Bool → Type 0
IsTrue e = e.1 ≡ true

abbrev pub IsWellFormed : BlocklistFilter → Type 0
IsWellFormed b = All IsTrue b.exact

insert-IsTrue : (k : Bytes) (m : BoolMap) → All IsTrue m → All IsTrue (insert k true m)
unfolding insert
insert-IsTrue k [] h = (refl, tt)
insert-IsTrue k ((j, w) ∷ m) (e, h) = elim (Bool-cases (same j k)) [
  | inl here ↦ rw here (refl, h)
  | inr there ↦ rw there (e, insert-IsTrue k m h)
]

insert_all-IsTrue : (hs : List Bytes) (m : BoolMap) → All IsTrue m → All IsTrue (insert_all m hs)
unfolding insert_all
insert_all-IsTrue [] m h = h
insert_all-IsTrue (x ∷ hs) m h = insert_all-IsTrue hs (insert x true m) (insert-IsTrue x m h)

length-insert :
    (k : Bytes) (m : BoolMap)
    → All IsTrue m
    → length (insert k true m) ≡ (if lookup k m then length m else suc (length m))
unfolding insert lookup
length-insert k [] h = refl
length-insert k ((j, w) ∷ m) (e, h) = elim (Bool-cases (same j k)) [
  | inl here ↦ rw (here, e)
  | inr there ↦ rw (there, length-insert k m h) (ground arith)
]

-- The number of fingerprints of a list that are neither in `seen` nor earlier in the list.
abbrev pub distinct_from : List Bytes → List Bytes → ℕ
distinct_from seen [] = 0
distinct_from seen (h ∷ hs) =
    let old = distinct_from seen hs in
    let new = suc (distinct_from (h ∷ seen) hs) in if listed h seen then old else new

abbrev pub distinct : List Bytes → ℕ
distinct = distinct_from []

shows_old :
    (x k : Bytes) (seen : List Bytes) (m : BoolMap)
    → lookup k m ≡ listed k seen
    → listed x seen ≡ true
    → lookup k (insert x true m) ≡ listed k seen
shows_old x k seen m shows old = elim (Bool-cases (same x k)) [
  | inl e ↦
      let x-eq-k : x ≡ k = (same_iff x k).0 e in rw (lookup-insert x k true m, e, ← x-eq-k, old)
  | inr e ↦ rw (lookup-insert x k true m, e) shows
]

shows_new :
    (x k : Bytes) (seen : List Bytes) (m : BoolMap)
    → lookup k m ≡ listed k seen
    → lookup k (insert x true m) ≡ listed k (x ∷ seen)
shows_new x k seen m shows = ground (arith, lookup-insert x k true m)

length-insert_all :
    (hs seen : List Bytes) (m : BoolMap)
    → All IsTrue m
    → ((k : Bytes) → lookup k m ≡ listed k seen)
    → length (insert_all m hs) ≡ length m + distinct_from seen hs
unfolding insert_all
length-insert_all [] seen m h shows = omega arith
length-insert_all (x ∷ hs) seen m h shows = elim (Bool-cases (listed x seen)) [
  | inl old ↦
      let same_size : length (insert x true m) ≡ length m =
        ground (arith, length-insert x m h, shows x) in
      let rest =
        length-insert_all hs seen (insert x true m) (insert-IsTrue x m h)
          (λ k. shows_old x k seen m (shows k) old) in
      rw old (omega (arith, same_size, rest))
  | inr new ↦
      let one_more : length (insert x true m) ≡ suc (length m) =
        ground (arith, length-insert x m h, shows x) in
      let rest =
        length-insert_all hs (x ∷ seen) (insert x true m) (insert-IsTrue x m h)
          (λ k. shows_new x k seen m (shows k)) in
      rw new (omega (arith, one_more, rest))
]

-- `Reload` leaves a well-formed blocklist, and `Count` is then the number of distinct fingerprints
-- that were given.
pub count-reload :
    (b : BlocklistFilter) (hs : List Bytes)
    → IsWellFormed (reload b hs) × (count (reload b hs) ≡ distinct hs)
unfolding reload count
count-reload b hs = (
  insert_all-IsTrue hs [] tt,
  unfold lookup in omega (arith, length-insert_all hs [] [] tt (λ k. refl)),
)

-- `Add` keeps a blocklist well formed, and adds one to `Count` unless the fingerprint was blocked.
pub count-add :
    (b : BlocklistFilter) (h : Bytes)
    → IsWellFormed b
    → IsWellFormed (add b h) × (count (add b h) ≡ (if contains b h then count b else suc (count b)))
unfolding add count contains
count-add b h w = (insert-IsTrue h b.exact w, length-insert h b.exact w)
