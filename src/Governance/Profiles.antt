-- ===== src/Governance/Profiles.antt =====
-- scripts/github_governance.py: `_profile_chain` and `_merge_required_checks`.
pub mod Merge
pub mod Chain
use Prim.Native.Nat.{ℕ, suc}
use chat_chart.Governance.Settings.{M, object, schema_version, get_item, required_checks}
use chat_chart.Governance.Errors.{not_one_chain, duplicate_profile, bad_profiles, bad_profile_id}
use chat_chart.Base.{
  ℕ, zero, suc, Bool, true, false, not, ◌&&◌, ◌||◌, Option, none, some, List, [], ◌∷◌, ◌++◌, ok,
  err, ◌>>=◌, ◌>>◌, ◌==◌, leb, Value, keep_if, Text, length, raise_if, contains, require, nat_eq,
  codes, flatten, all, ltb, as_str,
}

abbrev pub manager : Text
manager = codes "ai-dev-foundation"

abbrev pub max_profiles : ℕ
max_profiles = 32

is_id_char : ℕ → Bool
is_id_char c = (leb b'a' c && leb c b'z') || (leb b'0' c && leb c b'9') || nat_eq c b'-'

-- `PROFILE_ID.fullmatch`
unfoldable pub profile_id : Text → Bool
unfolding is_id_char
profile_id [] = false
profile_id (c ∷ s) = leb b'a' c && leb c b'z' && leb (length s) 62 && all is_id_char s

pub record Profile : Type 0 where
  pub id : Text
  pub parent : Text
  pub checks : List Text

-- One profile of the list.
unfoldable pub read_profile : Value → M Profile
read_profile value = do
  d ←
      object value
        (codes "schema_version" ∷ codes "id" ∷ codes "parent" ∷ codes "required_checks" ∷ []) false
  schema_version d
  id_value ← get_item d (codes "id")
  parent_value ← get_item d (codes "parent")
  id ← require (as_str id_value) bad_profile_id
  raise_if (not (profile_id id) || id == manager) bad_profile_id
  parent ← require (as_str parent_value) bad_profile_id
  raise_if (not (profile_id parent)) bad_profile_id
  checks ← required_checks (← get_item d (codes "required_checks"))
  ok (record { id = id; parent = parent; checks = checks })

abbrev pub ids : List Profile → List Text
ids [] = []
ids (p ∷ ps) = p.id ∷ ids ps

-- The first loop of `_profile_chain`: the profiles behind those of `by_id`.
unfoldable pub read_profiles : List Profile → List Value → M (List Profile)
unfolding read_profile
read_profiles by_id [] = ok by_id
read_profiles by_id (value ∷ values) = do
  p ← read_profile value
  raise_if (contains p.id (ids by_id)) (duplicate_profile p.id)
  read_profiles (by_id ++ (p ∷ [])) values

-- The only item of a list.
abbrev pub only : List Profile → Option Profile
only (p ∷ []) = some p
only _ = none

-- The `while remaining` loop. `fuel` bounds the profiles that remain.
unfoldable pub chain_from : ℕ → Text → List Profile → M (List Profile)
unfolding keep_if
chain_from fuel parent [] = ok []
chain_from zero parent (p ∷ ps) = err not_one_chain
chain_from (suc fuel) parent (p ∷ ps) =
    let remaining = p ∷ ps in
    require (only (keep_if (λ q. q.parent == parent) remaining)) not_one_chain >>= λ child.
    chain_from fuel child.id (keep_if (λ q. not (q.id == child.id)) remaining) >>= λ rest.
    ok (child ∷ rest)

-- `_profile_chain`
unfoldable pub profile_chain : List Value → M (List Profile)
unfolding read_profiles chain_from
profile_chain values = do
  raise_if (ltb max_profiles (length values)) bad_profiles
  profiles ← read_profiles [] values
  chain_from (length profiles) manager profiles

-- `dict.fromkeys`: the first of equal items, behind those that were seen.
unfoldable pub first_of_each : List Text → List Text → List Text
first_of_each seen [] = []
first_of_each seen (x ∷ xs) = elim (contains x seen) [
  | true ↦ first_of_each seen xs
  | false ↦ x ∷ first_of_each (x ∷ seen) xs
]

-- `_merge_required_checks`
unfoldable pub merge_required_checks : List (List Text) → List Text
unfolding first_of_each
merge_required_checks groups = first_of_each [] (flatten groups)
