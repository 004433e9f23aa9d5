-- ===== src/Inheritance/Files/Unique.antt =====
-- `_unique_object`, on one object and as the hook of `json.loads` on a whole document.
use chat_chart.Base.{
  List, Text, Value, Dict, obj, any, contains, keys, [], ◌∷◌, ◌≡◌, false, ok, entries, refl, arr,
  arith, bool, int, real, str, Items, cons, Fields, field, null, nil, end, ◌↔◌,
  from_entries-entries, >>=-eq-ok, has_duplicates,
}
use chat_chart.Inheritance.Files.{
  unique_object, unique_keys, with_hook, with_hook_items, with_hook_fields,
}

-- No key of `ks` is `k` or has been seen.
fresh_parts :
    (k : Text) (seen ks : List Text)
    → any (λ j. contains j (k ∷ seen)) ks ≡ false
    → (contains k ks ≡ false) × (any (λ j. contains j seen) ks ≡ false)
fresh_parts k seen [] h = (refl, refl)
fresh_parts k seen (j ∷ js) h = ground (arith, fresh_parts k seen js)

fresh_join :
    (k : Text) (seen ks : List Text)
    → contains k ks ≡ false
    → any (λ j. contains j seen) ks ≡ false
    → any (λ j. contains j (k ∷ seen)) ks ≡ false
fresh_join k seen [] h g = refl
fresh_join k seen (j ∷ js) h g = ground (arith, fresh_join k seen js)

unique_keys-eq-ok :
    (seen : List Text) (d : Dict)
    → unique_keys seen d ≡ ok tt
    → (has_duplicates (keys d) ≡ false) × (any (λ k. contains k seen) (keys d) ≡ false)
unfolding unique_keys has_duplicates
unique_keys-eq-ok seen [] h = (refl, refl)
unique_keys-eq-ok seen ((k, v) ∷ d) h =
    ground (arith, unique_keys-eq-ok (k ∷ seen) d, fresh_parts k seen (keys d))

unique_keys-ok_of :
    (seen : List Text) (d : Dict)
    → has_duplicates (keys d) ≡ false
    → any (λ k. contains k seen) (keys d) ≡ false
    → unique_keys seen d ≡ ok tt
unfolding unique_keys has_duplicates
unique_keys-ok_of seen [] h g = refl
unique_keys-ok_of seen ((k, v) ∷ d) h g =
    ground (arith, unique_keys-ok_of (k ∷ seen) d, fresh_join k seen (keys d))

none_seen : (ks : List Text) → any (λ k. contains k []) ks ≡ false
none_seen [] = refl
none_seen (k ∷ ks) = none_seen ks

unique_object-eq-ok :
    (d : Dict) {u : Dict} → unique_object d ≡ ok u → (u ≡ d) × (has_duplicates (keys d) ≡ false)
unfolding unique_object
unique_object-eq-ok d h = ground (arith, unique_keys-eq-ok [] d)

unique_object-ok_of : (d : Dict) → has_duplicates (keys d) ≡ false → unique_object d ≡ ok d
unfolding unique_object
unique_object-ok_of d h = rw (unique_keys-ok_of [] d h (none_seen (keys d)))

-- No object of the value, at any depth, holds a key twice.
abbrev mutual
  pub HasUniqueKeys : Value → Type 0
  HasUniqueKeys (obj fs) = (has_duplicates (keys (entries fs)) ≡ false) × HasUniqueFields fs
  HasUniqueKeys (arr vs) = HasUniqueItems vs
  HasUniqueKeys null = Unit
  HasUniqueKeys (bool b) = Unit
  HasUniqueKeys (int n) = Unit
  HasUniqueKeys (real t) = Unit
  HasUniqueKeys (str t) = Unit

  pub HasUniqueItems : Items → Type 0
  HasUniqueItems nil = Unit
  HasUniqueItems (cons v vs) = HasUniqueKeys v × HasUniqueItems vs

  pub HasUniqueFields : Fields → Type 0
  HasUniqueFields end = Unit
  HasUniqueFields (field k v fs) = HasUniqueKeys v × HasUniqueFields fs

mutual
  unfolding with_hook

  with_hook_sound : (v : Value) {w : Value} → with_hook v ≡ ok w → (w ≡ v) × HasUniqueKeys v
  with_hook_sound (obj fs) h =
      let (d, e, f) = >>=-eq-ok (with_hook_fields fs) _ h in
      let (u, e', f') = >>=-eq-ok (unique_object d) _ f in
      let ih = with_hook_fields_sound fs e in
      ground (arith, unique_object-eq-ok d e', from_entries-entries fs)
  with_hook_sound (arr vs) h =
      let (ws, e, f) = >>=-eq-ok (with_hook_items vs) _ h in
      let ih = with_hook_items_sound vs e in ground arith
  with_hook_sound null h = ground arith
  with_hook_sound (bool b) h = ground arith
  with_hook_sound (int n) h = ground arith
  with_hook_sound (real t) h = ground arith
  with_hook_sound (str t) h = ground arith

  with_hook_items_sound :
      (vs : Items) {ws : Items} → with_hook_items vs ≡ ok ws → (ws ≡ vs) × HasUniqueItems vs
  with_hook_items_sound nil h = ground arith
  with_hook_items_sound (cons v vs) h =
      let (w, e, f) = >>=-eq-ok (with_hook v) _ h in
      let (ws, e', f') = >>=-eq-ok (with_hook_items vs) _ f in
      let ih = with_hook_sound v e in let ih' = with_hook_items_sound vs e' in ground arith

  with_hook_fields_sound :
      (fs : Fields) {d : Dict} → with_hook_fields fs ≡ ok d → (d ≡ entries fs) × HasUniqueFields fs
  with_hook_fields_sound end h = ground arith
  with_hook_fields_sound (field k v fs) h =
      let (w, e, f) = >>=-eq-ok (with_hook v) _ h in
      let (d, e', f') = >>=-eq-ok (with_hook_fields fs) _ f in
      let ih = with_hook_sound v e in let ih' = with_hook_fields_sound fs e' in ground arith

mutual
  unfolding with_hook

  with_hook_complete : (v : Value) → HasUniqueKeys v → with_hook v ≡ ok v
  with_hook_complete (obj fs) u = ground (
    arith,
    with_hook_fields_complete fs u.1,
    unique_object-ok_of (entries fs) u.0,
    from_entries-entries fs,
  )
  with_hook_complete (arr vs) u = ground (arith, with_hook_items_complete vs u)
  with_hook_complete null u = refl
  with_hook_complete (bool b) u = refl
  with_hook_complete (int n) u = refl
  with_hook_complete (real t) u = refl
  with_hook_complete (str t) u = refl

  with_hook_items_complete : (vs : Items) → HasUniqueItems vs → with_hook_items vs ≡ ok vs
  with_hook_items_complete nil u = refl
  with_hook_items_complete (cons v vs) u =
      ground (arith, with_hook_complete v u.0, with_hook_items_complete vs u.1)

  with_hook_fields_complete :
      (fs : Fields) → HasUniqueFields fs → with_hook_fields fs ≡ ok (entries fs)
  with_hook_fields_complete end u = refl
  with_hook_fields_complete (field k v fs) u =
      ground (arith, with_hook_complete v u.0, with_hook_fields_complete fs u.1)

-- The hook lets a document pass exactly when no object in it holds a key twice, and never changes
-- one that passes.
pub with_hook_iff :
    (v : Value)
    → ((with_hook v ≡ ok v) ↔ HasUniqueKeys v) × ((w : Value) → with_hook v ≡ ok w → w ≡ v)
with_hook_iff v =
    (((λ h. (with_hook_sound v h).1), with_hook_complete v), λ w h. (with_hook_sound v h).0)
