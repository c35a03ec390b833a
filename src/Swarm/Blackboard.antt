-- ===== src/Swarm/Blackboard.antt =====
-- blackboard.rs: `BlackboardStore`, the versions of each deliverable under its URI.
pub mod Versions
use syntropy.Prelude.{
  Option-cases, ◌^◌, ℕ, zero, suc, ◌≡◌, ◌≢◌, ◌↔◌, ◌⊎◌, inl, inr, ◌≤◌, ◌<◌, ◌+◌, ◌-◌, ◌*◌, ◌%◌, ◌/◌,
  min, max, refl, sym, ap, ◌∙◌, Bool, true, false, not, ◌&&◌, ◌||◌, Option, none, some, List, [],
  ◌∷◌, ◌++◌, map, Text, lit, text_eq, text_eq_iff, text_eq_refl, Dict, lookup, insert, remove,
  Result, ok, err, ◌>>=◌, ◌>>◌, guard, with_ok, Result-cases, Bool-cases, ok-injective,
  if◌then◌else◌, length, take, drop, get_elem?, ltb, leb, ◌==◌, ==_iff, lookup-insert,
  lookup-remove, lookup-insert_self, dict_laws, arith,
}
use syntropy.Prelude.{last?, starts_with}
use syntropy.Security.Crypto.{Crypto}
use syntropy.Security.Ledger.Database.{I64}

pub data BlackboardError : Type 0 where
  not_found : Text → BlackboardError
  access_denied : Text → Text → Text → BlackboardError
  invalid_uri : Text → BlackboardError

pub record Artifact : Type 0 where
  pub uri : Text
  pub author_agent : Text
  pub version : ℕ
  pub content : Text
  pub sha256 : Text
  pub created_at_unix_ms : I64

abbrev pub BlackboardStore : Type 0
BlackboardStore = Dict (List Artifact)

-- `map.entry(uri).or_default()`
unfoldable pub history_of : Text → BlackboardStore → List Artifact
history_of uri store = elim (lookup uri store) [ none ↦ [] | some history ↦ history ]

-- The author of the latest version may write the next one, and so may a lead.
abbrev pub may_write : Text → Artifact → Bool
may_write author latest = text_eq latest.author_agent author || starts_with (lit "lead_") author

-- The version of the next artifact, a `u32`.
unfoldable pub next_version : Text → Text → Option Artifact → Result BlackboardError ℕ
next_version uri author none = ok 1
next_version uri author (some latest) =
    if may_write author latest
    then ok ((latest.version + 1) % 2 ^ 32)
    else err (access_denied author uri latest.author_agent)

module _ (c : Crypto) where
  unfoldable pub new_artifact :
      Text → Text → Text → I64 → BlackboardStore → Result BlackboardError Artifact
  unfolding next_version history_of
  new_artifact uri author content now store = do
    guard (starts_with (lit "blackboard://") uri) (invalid_uri uri)
    version ← next_version uri author (last? (history_of uri store))
    ok (record {
      uri = uri;
      author_agent = author;
      version = version;
      content = content;
      sha256 = c.hex_encode (c.sha256 content);
      created_at_unix_ms = now;
    })

  unfoldable pub publish :
      Text → Text → Text → I64 → BlackboardStore → Result BlackboardError Artifact × BlackboardStore
  unfolding new_artifact
  publish uri author content now store = elim (new_artifact uri author content now store) [
    | err e ↦ (err e, store)
    | ok a ↦ (ok a, insert uri (history_of uri store ++ a ∷ []) store)
  ]

unfoldable pub get_latest : Text → BlackboardStore → Result BlackboardError Artifact
unfolding history_of
get_latest uri store = elim (last? (history_of uri store)) [
  | none ↦ err (not_found uri)
  | some a ↦ ok a
]
