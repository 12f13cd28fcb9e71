-- ===== src/Maps.antt =====
-- `std::unordered_map<std::string, std::string>` as an association list. Its order stands for the
-- order in which the hash table iterates, which the program does not rely on.
pub mod Distinct
pub mod Laws
use concurrent_kv_store.Base.{
  ◌&&◌, ℕ, ◌==◌, false, length, true, Bool, ◌≡◌, ite, Option, none, some, List, [], ◌∷◌, ◌++◌,
  Bytes, bytes_discrete,
}

abbrev pub Map : Type 0
Map = List (Bytes × Bytes)

-- `map.find(key)`
unfoldable pub find : Bytes → Map → Option Bytes
find key [] = none
find key ((k, v) ∷ m) = ite (bytes_discrete k key) (some v) (find key m)

-- `map.erase(key)`
unfoldable pub erase : Bytes → Map → Map
erase key [] = []
erase key ((k, v) ∷ m) = ite (bytes_discrete k key) m ((k, v) ∷ erase key m)

-- What `map.erase(key)` returns: how many entries it erases.
unfoldable pub erase_count : Bytes → Map → ℕ
erase_count key [] = 0
erase_count key ((k, v) ∷ m) = ite (bytes_discrete k key) 1 (erase_count key m)

-- `map[key] = value`: in place where the key is there.
unfoldable pub assign : Bytes → Bytes → Map → Map
assign key value [] = (key, value) ∷ []
assign key value ((k, v) ∷ m) =
    ite (bytes_discrete k key) ((k, value) ∷ m) ((k, v) ∷ assign key value m)

-- No key twice.
abbrev pub IsMap : Map → Type 0
IsMap [] = Unit {0}
IsMap ((k, v) ∷ m) = (find k m ≡ none) × IsMap m

-- The same answer for each key.
abbrev pub SameMap : Map → Map → Type 0
SameMap a b = (key : Bytes) → find key a ≡ find key b

-- Each entry of the first map is in the second.
unfoldable pub all_found : Map → Map → Bool
unfolding find
all_found [] b = true
all_found ((k, v) ∷ a) b = elim (find k b) [
  | none ↦ false
  | some w ↦ ite (bytes_discrete v w) (all_found a b) false
]

-- `a == b`: the same size, and each entry of one is in the other.
unfoldable pub map_eq : Map → Map → Bool
unfolding all_found
map_eq a b = length a == length b && all_found a b

-- `a.insert(b.begin(), b.end())`: an entry whose key is there already is not inserted.
unfoldable pub insert_all : Map → Map → Map
unfolding find
insert_all a [] = a
insert_all a ((k, v) ∷ b) = insert_all (elim (find k a) [ none ↦ a ++ (k, v) ∷ [] | some _ ↦ a ]) b
