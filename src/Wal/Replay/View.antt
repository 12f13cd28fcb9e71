-- ===== src/Wal/Replay/View.antt =====
-- A map as the function that answers its look-ups, and records as updates of it.
use concurrent_kv_store.Base.{
  sym, ◌∙◌, [], inl, ◌⊎◌, ◌++◌, bytes_discrete, ◌∷◌, inr, ite, Bytes, ap, List, refl, ◌≡◌, none,
  some, Option,
}
use concurrent_kv_store.Maps.{erase, assign, Map, find, IsMap}
use concurrent_kv_store.Maps.Distinct.{assign-IsMap, erase-IsMap}
use concurrent_kv_store.Maps.Laws.{find-assign, find-assign_other, find-erase, find-erase_other}
use concurrent_kv_store.Wal.Record.Parser.{apply_op, apply_record}
use concurrent_kv_store.Wal.Replay.Written.{apply_all}
use concurrent_kv_store.Wal.Types
use concurrent_kv_store.Wal.Types.{ParsedRecord, WalOp}
use mathlib.Core.Logic.{if_pos, if_neg, by_cases}
use mathlib.Core.Path.{subst}

abbrev pub View : Type 0
View = Bytes → Option Bytes

abbrev pub view : Map → View
view m = λ key. find key m

-- What a record leaves under its key.
abbrev pub outcome : WalOp → Bytes → Option Bytes
outcome Types.WalOp.set value = some value
outcome Types.WalOp.delete value = none

abbrev pub update : ParsedRecord → View → View
update r v key = ite (bytes_discrete r.key key) (outcome r.op r.value) (v key)

abbrev pub update_all : List ParsedRecord → View → View
update_all [] v = v
update_all (r ∷ rs) v = update_all rs (update r v)

-- Two views answer alike.
abbrev pub SameView : View → View → Type 0
SameView a b = (key : Bytes) → a key ≡ b key

pub update-SameView :
    (r : ParsedRecord) (a b : View) → SameView a b → SameView (update r a) (update r b)
update-SameView r a b h key = ap (ite (bytes_discrete r.key key) (outcome r.op r.value)) (h key)

pub update_all-SameView :
    (rs : List ParsedRecord) (a b : View)
    → SameView a b
    → SameView (update_all rs a) (update_all rs b)
update_all-SameView [] a b h = h
update_all-SameView (r ∷ rs) a b h =
    update_all-SameView rs (update r a) (update r b) (update-SameView r a b h)

pub update_all-append :
    (rs ts : List ParsedRecord) (v : View)
    → update_all (rs ++ ts) v ≡ update_all ts (update_all rs v)
update_all-append [] ts v = refl
update_all-append (r ∷ rs) ts v = update_all-append rs ts (update r v)

apply_op-IsMap :
    (op : WalOp) (key value : Bytes) (m : Map) → IsMap m → IsMap (apply_op op key value m)
unfolding apply_op
apply_op-IsMap Types.WalOp.set key value m h = assign-IsMap key value m h
apply_op-IsMap Types.WalOp.delete key value m h = erase-IsMap key m h

pub apply_record-IsMap : (r : ParsedRecord) (m : Map) → IsMap m → IsMap (apply_record r m)
unfolding apply_record
apply_record-IsMap r m h = apply_op-IsMap r.op r.key r.value m h

view-apply_op :
    (op : WalOp) (key value other : Bytes) (m : Map)
    → IsMap m
    → find other (apply_op op key value m)
      ≡ ite (bytes_discrete key other) (outcome op value) (find other m)
unfolding apply_op
view-apply_op Types.WalOp.set key value other m h =
    by_cases (bytes_discrete key other)
      (λ e.
        subst (λ (x : Bytes). find x (assign key value m) ≡ some value) e (find-assign key value m)
        ∙ sym (if_pos (bytes_discrete key other) e (some value) (find other m)))
      (λ ne.
        find-assign_other key value other m ne
        ∙ sym (if_neg (bytes_discrete key other) ne (some value) (find other m)))
view-apply_op Types.WalOp.delete key value other m h =
    by_cases (bytes_discrete key other)
      (λ e.
        subst (λ (x : Bytes). find x (erase key m) ≡ none) e (find-erase key m h)
        ∙ sym (if_pos (bytes_discrete key other) e none (find other m)))
      (λ ne.
        find-erase_other key other m ne
        ∙ sym (if_neg (bytes_discrete key other) ne none (find other m)))

-- Applying records to a map updates its view.
pub view-apply_record :
    (r : ParsedRecord) (m : Map) → IsMap m → SameView (view (apply_record r m)) (update r (view m))
unfolding apply_record
view-apply_record r m h key = view-apply_op r.op r.key r.value key m h

-- Applying records one after the other to a map without repeated keys answers each look-up as the
-- function does that is updated by the same records, a SET at its key to the value and a DELETE at its
-- key to nothing.
pub view-apply_all :
    (rs : List ParsedRecord) (m : Map)
    → IsMap m
    → SameView (view (apply_all rs m)) (update_all rs (view m))
unfolding apply_all
view-apply_all [] m h key = refl
view-apply_all (r ∷ rs) m h key =
    view-apply_all rs (apply_record r m) (apply_record-IsMap r m h) key
    ∙ update_all-SameView rs (view (apply_record r m)) (update r (view m)) (view-apply_record r m h)
        key

-- Records either decide what stands under a key, or leave it.
Decides : List ParsedRecord → Bytes → Type 0
Decides rs key =
    ((a b : View) → update_all rs a key ≡ update_all rs b key)
    ⊎ ((v : View) → update_all rs v key ≡ v key)

decides : (rs : List ParsedRecord) (key : Bytes) → Decides rs key
unfolding Decides
decides [] key = inr (λ v. refl)
decides (r ∷ rs) key = elim (decides rs key) [
  | inl fixed ↦ inl (λ a b. fixed (update r a) (update r b))
  | inr kept ↦
      by_cases (bytes_discrete r.key key)
        (λ e. inl (λ a b.
          kept (update r a)
          ∙ if_pos (bytes_discrete r.key key) e (outcome r.op r.value) (a key)
          ∙ sym (
              kept (update r b)
              ∙ if_pos (bytes_discrete r.key key) e (outcome r.op r.value) (b key))))
        (λ ne. inr (λ v.
          kept (update r v) ∙ if_neg (bytes_discrete r.key key) ne (outcome r.op r.value) (v key)))
]

-- Updating twice by the same records is updating once.
pub update_all_twice :
    (rs : List ParsedRecord) (v : View)
    → SameView (update_all rs (update_all rs v)) (update_all rs v)
unfolding Decides
update_all_twice rs v key = elim (decides rs key) [
  | inl fixed ↦ fixed (update_all rs v) v
  | inr kept ↦ kept (update_all rs v)
]
