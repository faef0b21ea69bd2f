-- ===== src/Discovery/Tests.antt =====
-- Discovery at small listings.
use mathlib.Core.List.{Memᴰ}
use shepard.Base.{
  ◌≡◌, refl, String, true, false, none, some, List, [], ◌∷◌, ◌++◌, Map, lookup, insert, arith,
  eq_iff, pos, ◌==◌, string_eq, if◌then◌else◌,
}
use shepard.Base.Text.{◌<>◌, has_prefix, text_lt}
use shepard.Config.Types.{ProviderConfig, zero_provider}
use shepard.Discovery.{
  discover_all, unanswered, discovering, Answer, listed, found, unknown, model_of, get, listing_ids,
  discover_provider, resolve_discovered_model,
}
use shepard.Discovery.Caching.{Outcome, discover_provider-Outcome}
use shepard.Discovery.Members.{AreDistinct}
use shepard.Discovery.Completeness.{Covers, result_of, discover_all-Covers}
use shepard.Discovery.Resolution.{resolve_discovered_model-listed}

abbrev provider_at : String → ProviderConfig
provider_at prefix = record zero_provider {
  autodiscover = record { enabled = true; prefix = prefix; cache_ttl = pos 60 };
}

abbrev lists : List String → Answer
lists ids = record { asked = 5; stored = 6; listing = listed 200 100 (some ids) }

abbrev near_ids : List String
near_ids = "zeta" ∷ "" ∷ "alpha" ∷ []

abbrev answers : String → Answer
answers name = lists near_ids

-- The prefix of the first provider is a prefix of the second one's.
abbrev nested : Map ProviderConfig
nested = ("outer", provider_at "a/") ∷ ("inner", provider_at "a/b/") ∷ []

inner_hidden : (resolve_discovered_model answers nested "a/b/alpha" []).0 ≡ unknown
unfolding resolve_discovered_model lookup insert has_prefix text_lt
inner_hidden = refl

inner_found :
    (resolve_discovered_model answers
      (("inner", provider_at "a/b/") ∷ ("outer", provider_at "a/") ∷ [])
      "a/b/alpha"
      []).0
    ≡ found (model_of "inner" "alpha")
unfolding resolve_discovered_model lookup insert has_prefix text_lt
inner_found = refl

others_do_not_serve : has_prefix ("near/" <> "alpha") "far/" ≡ false
unfolding has_prefix
others_do_not_serve = refl

never_asked : get 5 "near" [] ≡ none
unfolding get lookup
never_asked = refl

listing_is_good : listing_ids (lists near_ids).listing ≡ (none, near_ids)
unfolding listing_ids
listing_is_good = refl

resolve_discovered_model-listed_example :
    (resolve_discovered_model answers
      ((("far", provider_at "far/") ∷ []) ++ ("near", provider_at "near/") ∷ [])
      ("near/" <> "alpha")
      []).0
    ≡ found (model_of "near" "alpha")
resolve_discovered_model-listed_example =
    resolve_discovered_model-listed answers (("far", provider_at "far/") ∷ []) [] "near"
      (provider_at "near/") "alpha" near_ids [] refl (others_do_not_serve, tt) never_asked
      listing_is_good (Memᴰ.tail (Memᴰ.tail (Memᴰ.head refl))) (ground (arith, eq_iff "alpha" ""))

discover_provider-Outcome_example :
    Outcome
      (lists near_ids)
      "near"
      (provider_at "near/")
      []
      (discover_provider (lists near_ids) "near" (provider_at "near/") [])
discover_provider-Outcome_example =
    discover_provider-Outcome (lists near_ids) "near" (provider_at "near/") []

-- One of two providers does not answer.
abbrev half : String → Answer
half name =
    if name == "inner"
    then record { asked = 5; stored = 6; listing = unanswered "refused" }
    else lists near_ids

nested_apart : AreDistinct (discovering nested)
unfolding discovering
nested_apart = ((refl, tt), (tt, tt))

discover_all-Covers_example :
    Covers (discover_all half nested []) "outer" (result_of half nested "outer" []).0
unfolding discovering
discover_all-Covers_example = discover_all-Covers half nested [] nested_apart (Memᴰ.head refl)
