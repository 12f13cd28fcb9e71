-- ===== src/Maps/Distinct.antt =====
-- Maps without repeated keys, and maps of which each entry has a property.
use concurrent_kv_store.Base.{
  Option, ap, ◌∙◌, All-append, inr, inl, sym, Option-cases, bytes_discrete, [], ◌∷◌, ◌++◌, Bytes,
  refl, ◌≡◌, none, some, All,
}
use concurrent_kv_store.Maps.{Map, find, assign, erase, insert_all, IsMap}
use concurrent_kv_store.Maps.Laws.{
  head-fresh, find-assign_other, find-erase_other, find-append, or_else,
}
use mathlib.Core.Logic.{if_pos, if_neg, by_cases}
use mathlib.Core.Path.{subst}

pub assign-IsMap : (key value : Bytes) (m : Map) → IsMap m → IsMap (assign key value m)
unfolding assign find
assign-IsMap key value [] h = (refl, tt)
assign-IsMap key value ((k, v) ∷ m) h =
    by_cases (bytes_discrete k key)
      (λ p.
        subst IsMap
          (sym (if_pos (bytes_discrete k key) p ((k, value) ∷ m) ((k, v) ∷ assign key value m)))
          (h.0, h.1))
      (λ np.
        subst IsMap
          (sym (if_neg (bytes_discrete k key) np ((k, value) ∷ m) ((k, v) ∷ assign key value m)))
          (find-assign_other key value k m (λ e. np (sym e)) ∙ h.0, assign-IsMap key value m (h.1)))

pub erase-IsMap : (key : Bytes) (m : Map) → IsMap m → IsMap (erase key m)
unfolding erase
erase-IsMap key [] h = tt
erase-IsMap key ((k, v) ∷ m) h =
    by_cases (bytes_discrete k key)
      (λ p. subst IsMap (sym (if_pos (bytes_discrete k key) p m ((k, v) ∷ erase key m))) (h.1))
      (λ np.
        subst IsMap (sym (if_neg (bytes_discrete k key) np m ((k, v) ∷ erase key m)))
          (find-erase_other key k m (λ e. np (sym e)) ∙ h.0, erase-IsMap key m (h.1)))

-- A new entry at the end.
snoc-IsMap :
    (m : Map) (key value : Bytes) → IsMap m → find key m ≡ none → IsMap (m ++ (key, value) ∷ [])
unfolding find
snoc-IsMap [] key value h fresh = (refl, tt)
snoc-IsMap ((k, v) ∷ m) key value h fresh =
    let (other, later) = head-fresh key k v m fresh in
    (
      find-append k m ((key, value) ∷ [])
          ∙ ap (λ (o : Option Bytes). or_else o (find k ((key, value) ∷ []))) (h.0)
          ∙ if_neg (bytes_discrete key k) (λ e. other (sym e)) (some value) none,
      snoc-IsMap m key value (h.1) later,
    )

pub insert_all-IsMap : (a b : Map) → IsMap a → IsMap (insert_all a b)
unfolding insert_all
insert_all-IsMap a [] h = h
insert_all-IsMap a ((key, value) ∷ b) h = elim (Option-cases (find key a)) [
  | inl e ↦
      rw (e, insert_all) (insert_all-IsMap (a ++ (key, value) ∷ []) b (snoc-IsMap a key value h e))
  | inr (w, e) ↦ rw (e, insert_all) (insert_all-IsMap a b h)
]

module _ (P : Bytes × Bytes → Type 0) where
  pub assign-All :
      (key value : Bytes) (m : Map) → P (key, value) → All P m → All P (assign key value m)
  unfolding assign
  assign-All key value [] p h = (p, tt)
  assign-All key value ((k, v) ∷ m) p h =
      by_cases (bytes_discrete k key)
        (λ e.
          subst (All P)
            (sym (if_pos (bytes_discrete k key) e ((k, value) ∷ m) ((k, v) ∷ assign key value m)))
            (subst (λ (x : Bytes). P (x, value)) (sym e) p, h.1))
        (λ np.
          subst (All P)
            (sym (if_neg (bytes_discrete k key) np ((k, value) ∷ m) ((k, v) ∷ assign key value m)))
            (h.0, assign-All key value m p (h.1)))

  pub erase-All : (key : Bytes) (m : Map) → All P m → All P (erase key m)
  unfolding erase
  erase-All key [] h = tt
  erase-All key ((k, v) ∷ m) h =
      by_cases (bytes_discrete k key)
        (λ e. subst (All P) (sym (if_pos (bytes_discrete k key) e m ((k, v) ∷ erase key m))) (h.1))
        (λ np.
          subst (All P) (sym (if_neg (bytes_discrete k key) np m ((k, v) ∷ erase key m)))
            (h.0, erase-All key m (h.1)))

  pub insert_all-All : (a b : Map) → All P a → All P b → All P (insert_all a b)
  unfolding insert_all
  insert_all-All a [] h g = h
  insert_all-All a ((key, value) ∷ b) h g = elim (Option-cases (find key a)) [
    | inl e ↦
        rw (e, insert_all)
          (insert_all-All (a ++ (key, value) ∷ []) b
            (All-append P a ((key, value) ∷ []) h (g.0, tt)) (g.1))
    | inr (w, e) ↦ rw (e, insert_all) (insert_all-All a b h (g.1))
  ]
