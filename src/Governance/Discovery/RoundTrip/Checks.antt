-- ===== src/Governance/Discovery/RoundTrip/Checks.antt =====
-- `_checks_update_state` on the checks that `_ruleset_payload` writes.
use chat_chart.Base.{
  zero, suc, ◌≡◌, refl, true, false, ◌∷◌, [], List, Option, Text, ℕ, Bool, some, is_empty, contains,
  arith, text_dec, ok, none, any, sorted, has_duplicates, sort_by, InOrder, all, text_le,
  sort_by_lem, sort_by-InOrder, text_le_total,
}
use chat_chart.Governance.Ruleset.{
  CheckState, payload_check, integration_of, read_check, read_all, required, payload_checks,
  contexts,
}
use chat_chart.Governance.Settings.{text_list, all_str}
use chat_chart.Governance.Compare.{text_values}
use chat_chart.Governance.Discovery.UpdateState.{
  normal_check, normal_checks, check_values, check_value, context_le,
}

pub text_list-text_values : (ts : List Text) → text_list (text_values ts) ≡ some ts
unfolding text_list all_str
text_list-text_values [] = refl
text_list-text_values (t ∷ ts) = ground (arith, text_list-text_values ts)

-- Checks that an update can keep: named, different, and with positive integrations.
abbrev pub integration_valid : Option ℕ → Bool
integration_valid (some zero) = false
integration_valid _ = true

abbrev pub AreChecks : List Text → List CheckState → Type 0
AreChecks seen [] = Unit
AreChecks seen (c ∷ cs) =
    (is_empty c.context ≡ false)
    × (contains c.context seen ≡ false)
    × (integration_valid c.integration ≡ true)
    × AreChecks (c.context ∷ seen) cs

pub normal_check-payload :
    (seen : List Text) (context : Text) (integration : Option ℕ)
    → is_empty context ≡ false
    → contains context seen ≡ false
    → integration_valid integration ≡ true
    → normal_check seen (payload_check (record { context = context; integration = integration }))
      ≡ ok (record { context = context; integration = integration })
unfolding normal_check payload_check text_dec
normal_check-payload seen context none n f v = ground arith
normal_check-payload seen context (some zero) n f v = cc
normal_check-payload seen context (some (suc k)) n f v = ground arith

pub read_check_value :
    (context : Text) (integration : Option ℕ)
    → is_empty context ≡ false
    → integration_valid integration ≡ true
    → read_check (check_value (record { context = context; integration = integration }))
      ≡ some (record { context = context; integration = integration })
unfolding read_check text_dec
read_check_value context none n v = ground arith
read_check_value context (some zero) n v = cc
read_check_value context (some (suc k)) n v = ground arith

pub normal_checks-payload :
    (seen : List Text) (cs : List CheckState)
    → AreChecks seen cs
    → normal_checks seen (payload_checks cs) ≡ ok cs
unfolding normal_checks payload_checks
normal_checks-payload seen [] h = refl
normal_checks-payload seen (c ∷ cs) h =
    rw
      (
        normal_check-payload seen c.context c.integration h.0 h.1 h.2,
        normal_checks-payload (c.context ∷ seen) cs h.3,
      )
      refl

pub read_all-check_values :
    (seen : List Text) (cs : List CheckState)
    → AreChecks seen cs
    → read_all (check_values cs) ≡ some cs
unfolding read_all
read_all-check_values seen [] h = refl
read_all-check_values seen (c ∷ cs) h =
    rw
      (
        read_check_value c.context c.integration h.0 h.2,
        read_all-check_values (c.context ∷ seen) cs h.3,
      )
      refl

pub contexts-required : (cs : List CheckState) (ts : List Text) → contexts (required cs ts) ≡ ts
unfolding required
contexts-required cs [] = refl
contexts-required cs (t ∷ ts) = rw (contexts-required cs ts) refl

pub integration_of-valid :
    (context : Text) (cs : List CheckState)
    → all (λ c. integration_valid c.integration) cs ≡ true
    → integration_valid (integration_of context cs) ≡ true
unfolding integration_of
integration_of-valid context [] h = refl
integration_of-valid context (c ∷ cs) h = ground (arith, integration_of-valid context cs)

pub unseen_more :
    (x : Text) (seen ts : List Text)
    → contains x ts ≡ false
    → any (λ t. contains t seen) ts ≡ false
    → any (λ t. contains t (x ∷ seen)) ts ≡ false
unseen_more x seen [] h k = refl
unseen_more x seen (t ∷ ts) h k = ground (arith, unseen_more x seen ts)

pub required-AreChecks :
    (cs : List CheckState) (seen ts : List Text)
    → all (λ c. integration_valid c.integration) cs ≡ true
    → any is_empty ts ≡ false
    → has_duplicates ts ≡ false
    → any (λ t. contains t seen) ts ≡ false
    → AreChecks seen (required cs ts)
unfolding required has_duplicates
required-AreChecks cs seen [] v n d u = tt
required-AreChecks cs seen (t ∷ ts) v n d u = (
  ground arith,
  ground arith,
  integration_of-valid t cs v,
  required-AreChecks cs (t ∷ seen) ts v (ground arith) (ground arith)
      (unseen_more t seen ts (ground arith) (ground arith)),
)

pub required-InOrder :
    (cs : List CheckState) (ts : List Text)
    → InOrder text_le ts
    → InOrder context_le (required cs ts)
unfolding required
required-InOrder cs [] h = tt
required-InOrder cs (t ∷ []) h = tt
required-InOrder cs (t ∷ u ∷ ts) h = (h.0, required-InOrder cs (u ∷ ts) h.1)

pub required-in_order :
    (cs : List CheckState) (ts : List Text)
    → sort_by context_le (required cs (sorted ts)) ≡ required cs (sorted ts)
unfolding sorted
required-in_order cs ts =
    sort_by_lem context_le (required cs (sort_by text_le ts))
      (required-InOrder cs (sort_by text_le ts) (sort_by-InOrder text_le text_le_total ts))
