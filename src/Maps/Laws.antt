-- ===== src/Maps/Laws.antt =====
-- Look-ups in changed, joined and compared maps.
use mathlib.Core.Path.{subst}
use concurrent_kv_store.Base.{
  inr, inl, Option, Option-cases, ite, false, append_assoc, ap, [], length, bytes_discrete, ◌∷◌,
  ◌++◌, Bytes, ==_refl, ◌≡◌, ◌≢◌, refl, none, some, sym, ◌∙◌, true,
}
use concurrent_kv_store.Maps.{erase, insert_all, Map, find, assign, IsMap, all_found, map_eq}
use mathlib.Core.Logic.{apply_ite, if_pos, if_neg, by_cases}
use mathlib.Core.Option.{some-ne-none}

-- A key that heads a map differs from each key that is not found there.
pub head-fresh :
    (key k v : Bytes) (m : Map) → find key ((k, v) ∷ m) ≡ none → (k ≢ key) × (find key m ≡ none)
unfolding find
head-fresh key k v m h =
    by_cases (bytes_discrete k key)
      (λ p.
        absurd (some-ne-none v (sym (if_pos (bytes_discrete k key) p (some v) (find key m)) ∙ h)))
      (λ np. (np, sym (if_neg (bytes_discrete k key) np (some v) (find key m)) ∙ h))

-- A new key goes to the end.
pub assign-fresh :
    (key value : Bytes) (m : Map) → find key m ≡ none → assign key value m ≡ m ++ (key, value) ∷ []
unfolding assign
assign-fresh key value [] h = refl
assign-fresh key value ((k, v) ∷ m) h =
    let (other, later) = head-fresh key k v m h in
    if_neg (bytes_discrete k key) other ((k, value) ∷ m) ((k, v) ∷ assign key value m)
    ∙ ap (λ (l : Map). (k, v) ∷ l) (assign-fresh key value m later)

-- Nothing is found before an entry where nothing is found in the whole.
find-append-none : (key k v : Bytes) (a b : Map) → find k (a ++ (key, v) ∷ b) ≡ none → k ≢ key
find-append-none key k v [] b h = λ e. (head-fresh k key v b h).0 (sym e)
find-append-none key k v ((l, w) ∷ a) b h =
    find-append-none key k v a b (head-fresh k l w (a ++ (key, v) ∷ b) h).1

-- An entry in the middle of a map has a key that the entries before it lack.
pub IsMap-fresh :
    (a : Map) (key value : Bytes) (b : Map) → IsMap (a ++ (key, value) ∷ b) → find key a ≡ none
unfolding find
IsMap-fresh [] key value b h = refl
IsMap-fresh ((k, v) ∷ a) key value b h =
    if_neg (bytes_discrete k key) (find-append-none key k value a b (h.0)) (some v) (find key a)
    ∙ IsMap-fresh a key value b (h.1)

-- What was just assigned is found.
pub find-assign : (key value : Bytes) (m : Map) → find key (assign key value m) ≡ some value
unfolding find assign
find-assign key value [] = if_pos (bytes_discrete key key) refl (some value) none
find-assign key value ((k, v) ∷ m) =
    by_cases (bytes_discrete k key)
      (λ p.
        ap (find key)
          (if_pos (bytes_discrete k key) p ((k, value) ∷ m) ((k, v) ∷ assign key value m))
        ∙ if_pos (bytes_discrete k key) p (some value) (find key m))
      (λ np.
        ap (find key)
          (if_neg (bytes_discrete k key) np ((k, value) ∷ m) ((k, v) ∷ assign key value m))
        ∙ if_neg (bytes_discrete k key) np (some v) (find key (assign key value m))
        ∙ find-assign key value m)

-- Each entry of a map is found in any map that has it and whose earlier keys differ.
find-middle :
    (a : Map) (key value : Bytes) (b : Map)
    → find key a ≡ none
    → find key (a ++ (key, value) ∷ b) ≡ some value
unfolding find
find-middle [] key value b h = if_pos (bytes_discrete key key) refl (some value) (find key b)
find-middle ((k, v) ∷ a) key value b h =
    let (other, later) = head-fresh key k v a h in
    if_neg (bytes_discrete k key) other (some v) (find key (a ++ (key, value) ∷ b))
    ∙ find-middle a key value b later

all_found-suffix : (a b : Map) → IsMap (a ++ b) → all_found b (a ++ b) ≡ true
unfolding all_found
all_found-suffix a [] h = refl
all_found-suffix a ((k, v) ∷ b) h =
    let e : (a ++ (k, v) ∷ []) ++ b ≡ a ++ (k, v) ∷ b = append_assoc a ((k, v) ∷ []) b in
    let later : all_found b (a ++ (k, v) ∷ b) ≡ true =
      subst (λ (m : Map). all_found b m ≡ true) e
        (all_found-suffix (a ++ (k, v) ∷ []) b (subst IsMap (sym e) h)) in
    rw (find-middle a k v b (IsMap-fresh a k v b h), all_found)
      (if_pos (bytes_discrete v v) refl (all_found b (a ++ (k, v) ∷ b)) false ∙ later)

-- A map equals itself.
pub map_eq_refl : (m : Map) → IsMap m → map_eq m m ≡ true
unfolding map_eq
map_eq_refl m h = rw (==_refl (length m)) (all_found-suffix [] m h)

-- The first answer, and the second where there is none.
abbrev pub or_else {ℓ} : {A : Type ℓ} → Option A → Option A → Option A
or_else none b = b
or_else (some a) b = some a

pub or_else-none {ℓ} : {A : Type ℓ} (a : Option A) → or_else a none ≡ a
or_else-none none = refl
or_else-none (some a) = refl

pub or_else_assoc {ℓ} :
    {A : Type ℓ} (a b c : Option A) → or_else (or_else a b) c ≡ or_else a (or_else b c)
or_else_assoc none b c = refl
or_else_assoc (some a) b c = refl

-- A test inside the first answer.
or_else-ite :
    (key k : Bytes) (v : Bytes) (a b : Option Bytes)
    → or_else (ite (bytes_discrete key k) (some v) a) b
      ≡ ite (bytes_discrete key k) (some v) (or_else a b)
or_else-ite key k v a b =
    apply_ite (λ (o : Option Bytes). or_else o b) (bytes_discrete key k) (some v) a

pub find-append : (k : Bytes) (a b : Map) → find k (a ++ b) ≡ or_else (find k a) (find k b)
unfolding find
find-append k [] b = refl
find-append k ((l, v) ∷ a) b =
    ap (ite (bytes_discrete l k) (some v)) (find-append k a b)
    ∙ sym (or_else-ite l k v (find k a) (find k b))

-- An entry that is inserted unless its key is there.
insert_new :
    (k key value : Bytes) (m : Map)
    → find k (elim (find key m) [ none ↦ m ++ (key, value) ∷ [] | some _ ↦ m ])
      ≡ or_else (find k m) (find k ((key, value) ∷ []))
unfolding find
insert_new k key value m = elim (Option-cases (find key m)) [
  | inl e ↦ rw e (find-append k m ((key, value) ∷ []))
  | inr (w, e) ↦ rw e (
      by_cases (bytes_discrete key k)
        (λ p.
          let found : find k m ≡ some w = subst (λ (x : Bytes). find x m ≡ some w) p e in
          found ∙ sym (ap (λ (o : Option Bytes). or_else o (find k ((key, value) ∷ []))) found))
        (λ np. sym (
          ap (or_else (find k m)) (if_neg (bytes_discrete key k) np (some value) none)
          ∙ or_else-none (find k m))))
]

-- What `insert_all` leaves: the entries that were there win.
pub find-insert_all :
    (k : Bytes) (a b : Map) → find k (insert_all a b) ≡ or_else (find k a) (find k b)
unfolding find insert_all
find-insert_all k a [] = sym (or_else-none (find k a))
find-insert_all k a ((key, value) ∷ b) =
    find-insert_all k (elim (find key a) [ none ↦ a ++ (key, value) ∷ [] | some _ ↦ a ]) b
    ∙ ap (λ (o : Option Bytes). or_else o (find k b)) (insert_new k key value a)
    ∙ or_else_assoc (find k a) (find k ((key, value) ∷ [])) (find k b)
    ∙ ap (or_else (find k a)) (or_else-ite key k value none (find k b))

-- Other keys keep their values.
pub find-assign_other :
    (key value other : Bytes) (m : Map)
    → key ≢ other
    → find other (assign key value m) ≡ find other m
unfolding find assign
find-assign_other key value other [] h = if_neg (bytes_discrete key other) h (some value) none
find-assign_other key value other ((k, v) ∷ m) h =
    by_cases (bytes_discrete k key)
      (λ p.
        ap (find other)
          (if_pos (bytes_discrete k key) p ((k, value) ∷ m) ((k, v) ∷ assign key value m))
        ∙ if_neg (bytes_discrete k other) (λ e. h (sym p ∙ e)) (some value) (find other m)
        ∙ sym (if_neg (bytes_discrete k other) (λ e. h (sym p ∙ e)) (some v) (find other m)))
      (λ np.
        ap (find other)
          (if_neg (bytes_discrete k key) np ((k, value) ∷ m) ((k, v) ∷ assign key value m))
        ∙ ap (ite (bytes_discrete k other) (some v)) (find-assign_other key value other m h))

pub find-erase_other :
    (key other : Bytes) (m : Map) → key ≢ other → find other (erase key m) ≡ find other m
unfolding find erase
find-erase_other key other [] h = refl
find-erase_other key other ((k, v) ∷ m) h =
    by_cases (bytes_discrete k key)
      (λ p.
        ap (find other) (if_pos (bytes_discrete k key) p m ((k, v) ∷ erase key m))
        ∙ sym (if_neg (bytes_discrete k other) (λ e. h (sym p ∙ e)) (some v) (find other m)))
      (λ np.
        ap (find other) (if_neg (bytes_discrete k key) np m ((k, v) ∷ erase key m))
        ∙ ap (ite (bytes_discrete k other) (some v)) (find-erase_other key other m h))

pub find-erase : (key : Bytes) (m : Map) → IsMap m → find key (erase key m) ≡ none
unfolding find erase
find-erase key [] h = refl
find-erase key ((k, v) ∷ m) h =
    by_cases (bytes_discrete k key)
      (λ p.
        ap (find key) (if_pos (bytes_discrete k key) p m ((k, v) ∷ erase key m))
        ∙ subst (λ (x : Bytes). find x m ≡ none) p (h.0))
      (λ np.
        ap (find key) (if_neg (bytes_discrete k key) np m ((k, v) ∷ erase key m))
        ∙ if_neg (bytes_discrete k key) np (some v) (find key (erase key m))
        ∙ find-erase key m (h.1))
