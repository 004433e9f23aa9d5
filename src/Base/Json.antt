-- ===== src/Base/Json.antt =====
-- The values that `json.loads` returns, and the type tests that the scripts make on them.
use Prim.Native.Nat.{ℕ}
use mathlib.Core.Path.{◌≡◌, refl}
use mathlib.Core.Bool.{Bool}
use mathlib.Core.Option.{Option, none, some}
use mathlib.Core.List.{List, [], ◌∷◌}
use chat_chart.Base.Tests.{if◌then◌else◌}
use chat_chart.Base.Strings.{Text, ◌==◌}

-- A Python `int`; `negsuc n` is -(n + 1).
pub data ℤ : Type 0 where
  pos : ℕ → ℤ
  negsuc : ℕ → ℤ

-- `real` is a number that is read as a `float`, by its text.
mutual
  pub data Value : Type 0 where
    null : Value
    bool : Bool → Value
    int : ℤ → Value
    real : Text → Value
    str : Text → Value
    arr : Items → Value
    obj : Fields → Value

  pub data Items : Type 0 where
    nil : Items
    cons : Value → Items → Items

  pub data Fields : Type 0 where
    end : Fields
    field : Text → Value → Fields → Fields

-- A `dict` in insertion order.
abbrev pub Dict : Type 0
Dict = List (Text × Value)

abbrev pub items : Items → List Value
items nil = []
items (cons v vs) = v ∷ items vs

abbrev pub entries : Fields → Dict
entries end = []
entries (field k v fs) = (k, v) ∷ entries fs

abbrev pub from_items : List Value → Items
from_items [] = nil
from_items (v ∷ vs) = cons v (from_items vs)

abbrev pub from_entries : Dict → Fields
from_entries [] = end
from_entries ((k, v) ∷ d) = field k v (from_entries d)

-- `type(value) is str`, and so on, with the value.
abbrev pub as_str : Value → Option Text
as_str (str t) = some t
as_str _ = none

abbrev pub as_bool : Value → Option Bool
as_bool (bool b) = some b
as_bool _ = none

abbrev pub as_int : Value → Option ℤ
as_int (int n) = some n
as_int _ = none

abbrev pub as_list : Value → Option (List Value)
as_list (arr vs) = some (items vs)
as_list _ = none

abbrev pub as_dict : Value → Option Dict
as_dict (obj fs) = some (entries fs)
as_dict _ = none

abbrev pub keys : Dict → List Text
keys [] = []
keys ((k, _) ∷ d) = k ∷ keys d

-- `d.get(key)`, where `none` is a missing key.
unfoldable pub lookup : Text → Dict → Option Value
lookup k [] = none
lookup k ((j, v) ∷ d) = if j == k then some v else lookup k d

-- `d[key] = value`
unfoldable pub insert : Text → Value → Dict → Dict
insert k v [] = (k, v) ∷ []
insert k v ((j, w) ∷ d) = if j == k then (j, v) ∷ d else (j, w) ∷ insert k v d

pub items-from_items : (vs : List Value) → items (from_items vs) ≡ vs
items-from_items [] = refl
items-from_items (v ∷ vs) = rw (items-from_items vs)

pub entries-from_entries : (d : Dict) → entries (from_entries d) ≡ d
entries-from_entries [] = refl
entries-from_entries ((k, v) ∷ d) = rw (entries-from_entries d)

pub from_entries-entries : (fs : Fields) → from_entries (entries fs) ≡ fs
from_entries-entries end = refl
from_entries-entries (field k v fs) = rw (from_entries-entries fs)
