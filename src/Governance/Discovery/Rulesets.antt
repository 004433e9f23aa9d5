-- ===== src/Governance/Discovery/Rulesets.antt =====
-- scripts/github_governance.py: `_ruleset_endpoint` and `_discover_rulesets`.
use chat_chart.Base.{
  Bool, true, false, not, ◌&&◌, ◌||◌, Option, none, some, List, [], ◌∷◌, ◌++◌, ok, err, ◌>>=◌, ◌>>◌,
  if◌then◌else◌, ◌==◌, repository_target, Value, Text, lookup, sort_by, str, ℤ, obj, require,
  is_name, as_int, Dict, field, text_le, null, codes, as_dict, arr, entries, as_str, traverse, bool,
  is_empty, raise_if, end, items, decimal,
}
use chat_chart.Governance.Settings.{M}
use chat_chart.Governance.Gh.{Gh, gh_get_pages, gh_get_json, known_str}
use chat_chart.Governance.Inventory.{Ruleset, unknown_value, unknown_text, int_eq, Rule}
use chat_chart.Governance.Discovery.UpdateState.{managed_update_state}
use chat_chart.Governance.Compare.{managed_ruleset_name}
use chat_chart.Governance.Actions.{endpoint_of, int_text}
use chat_chart.Governance.Errors.{bad_rulesets, bad_detail}

-- A key of `references`.
pub record Reference : Type 0 where
  pub source_type : Text
  pub source : Text
  pub id : ℤ

abbrev pub reference_eq : Reference → Reference → Bool
reference_eq a b = a.source_type == b.source_type && a.source == b.source && int_eq a.id b.id

abbrev pub References : Type 0
References = List (Reference × Text)

-- `references[reference] = name`
unfoldable put_reference : Reference → Text → References → References
put_reference r name [] = (r, name) ∷ []
put_reference r name ((q, old) ∷ rest) =
    if reference_eq q r then (q, name) ∷ rest else (q, old) ∷ put_reference r name rest

-- The references of the effective rules.
unfoldable rule_references : References → List Rule → References
unfolding put_reference
rule_references known [] = known
rule_references known (rule ∷ rules) = rule_references (add (as_int rule.ruleset_id)) rules
  where
    add : Option ℤ → References
    add none = known
    add (some id) =
        put_reference (record { source_type = rule.source_type; source = rule.source; id = id })
          unknown_text known

is_repository : Option Value → Bool
is_repository (some (str t)) = t == codes "Repository"
is_repository _ = false

-- A summary of a repository's ruleset, with its name.
unfoldable read_summary : Value → M (Reference × Text)
unfolding lookup is_repository
read_summary value = do
  d ← require (as_dict value) bad_rulesets
  id_value ← require (lookup (codes "id") d) bad_rulesets
  id ← require (as_int id_value) bad_rulesets
  source_value ← require (lookup (codes "source") d) bad_rulesets
  source ← require (as_str source_value) bad_rulesets
  raise_if (not (is_repository (lookup (codes "source_type") d))) bad_rulesets
  ok (
    record { source_type = codes "Repository"; source = source; id = id },
    known_str (lookup (codes "name") d),
  )

unfoldable summary_references : References → List Value → M References
unfolding read_summary put_reference
summary_references known [] = ok known
summary_references known (value ∷ values) = do
  (r, name) ← read_summary value
  summary_references (put_reference r name known) values

module _ (G : Gh) where
  -- `_ruleset_endpoint`
  unfoldable ruleset_endpoint : Reference → Option Text
  unfolding repository_target is_name decimal
  ruleset_endpoint r =
      if r.source_type == codes "Repository" && repository_target r.source
      then some (endpoint_of r.source (codes "/rulesets/" ++ int_text r.id))
      else if r.source_type == codes "Organization" && is_name r.source
      then some (codes "orgs/" ++ (G.quote r.source ++ (codes "/rulesets/" ++ int_text r.id)))
      else none

  -- The detail, where `null` stands for `None`.
  unfoldable pub ruleset_detail : Reference → Text → M Value
  unfolding ruleset_endpoint
  ruleset_detail r name =
      if name == unknown_text || name == managed_ruleset_name
      then elim (ruleset_endpoint r) [
        | none ↦ ok null
        | some endpoint ↦ gh_get_json G endpoint true
      ]
      else ok null

  -- An item from a detail that is no empty dict.
  unfoldable detailed : Reference → Dict → Ruleset
  unfolding lookup managed_update_state
  detailed r d =
      let name = known_str (lookup (codes "name") d) in
      record {
        id = r.id;
        name = name;
        source = r.source;
        source_type = r.source_type;
        has_bypass_actors = actors_of (lookup (codes "bypass_actors") d);
        update_state =
            if r.source_type == codes "Repository" && name == managed_ruleset_name
            then some (managed_update_state d)
            else none;
      }
    where
      actors_of : Option Value → Value
      actors_of (some (arr vs)) = bool (not (is_empty (items vs)))
      actors_of _ = unknown_value

  -- An item without a detail, or with an empty one.
  abbrev undetailed : Reference → Text → Ruleset
  undetailed r name = record {
    id = r.id;
    name = name;
    source = r.source;
    source_type = r.source_type;
    has_bypass_actors = unknown_value;
    update_state = none;
  }

  unfoldable pub item_of : Reference → Text → Value → M Ruleset
  unfolding detailed
  item_of r name null = ok (undetailed r name)
  item_of r name (obj end) = ok (undetailed r name)
  item_of r name (obj (field k v fs)) = ok (detailed r (entries (field k v fs)))
  item_of r name _ = err bad_detail

  unfoldable pub discover_ruleset : Reference × Text → M Ruleset
  unfolding ruleset_detail item_of
  discover_ruleset (r, name) = ruleset_detail r name >>= item_of r name

  -- `_discover_rulesets`
  unfoldable pub discover_rulesets : Text → List Rule → M (List Ruleset)
  unfolding rule_references summary_references discover_ruleset sort_by text_le
  discover_rulesets repository rules = do
    summaries ←
        gh_get_pages G
          (endpoint_of repository (codes "/rulesets?includes_parents=false&per_page=100")) none
    references ← summary_references (rule_references [] rules) summaries
    traverse discover_ruleset (sort_by before references)
    where
      key : Reference × Text → Text
      key (r, name) = G.reference_text r.source_type r.source r.id

      before : Reference × Text → Reference × Text → Bool
      before a b = text_le (key a) (key b)
