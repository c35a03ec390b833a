-- ===== src/Tests/BrokerTests.antt =====
-- broker.rs on a handle that names one secret.
use syntropy.Prelude.{
  ap, eq_ignore_ascii_case, zero, suc, ◌≡◌, refl, true, false, ◌&&◌, Option, none, some, [], ◌∷◌,
  Text, lit, text_eq, text_eq_iff, Dict, lookup, insert, ok, err, if◌then◌else◌, arith,
}
use syntropy.Prelude.{from_utf8, find?, strip_prefix?}
use syntropy.Security.KeyStore.InMemory
use syntropy.Security.KeyStore.InMemory.{InMemoryKeyStore}
use syntropy.Security.KeyStore.Laws.{in_memory}
use syntropy.Security.Ledger.Database.{pos, negsuc}
use syntropy.Security.Broker.{
  inject_header_action, inject_template_action, sign_payload_action, same_action, CredentialBinding,
  CredentialBroker, host_not_allowed, resolve_secret, secret_of, is_action_allowed, has_action,
  any_host, is_host_allowed, inject_header, host_fits, with_prefix, register, register_handle,
  sign_payload, inject_all, inject_one, inject_template, sanitize_output, sanitize_all, redactable,
  long_placeholder, short_placeholder,
}
use syntropy.Security.Broker.Hmac.{compute_hmac_sha256}
use syntropy.Security.Broker.Access.{inject_header_sound}
use syntropy.Security.Broker.OAuth.{
  OAuthSession, SessionJson, oauth_key, save_oauth_session, get_oauth_session,
}
use syntropy.Tests.Samples.{toy_crypto}

program : Unit {0}
unfolding text_eq lookup insert InMemory.set InMemory.get InMemory.delete same_action has_action
    any_host eq_ignore_ascii_case is_host_allowed is_action_allowed resolve_secret secret_of
    inject_header host_fits register register_handle sign_payload from_utf8 find? strip_prefix?
    inject_all inject_one inject_template sanitize_output sanitize_all redactable long_placeholder
    short_placeholder save_oauth_session get_oauth_session
program = tt

abbrev token : CredentialBinding
token = record {
  handle = lit "gh";
  keystore_key = lit "k";
  allowed_actions = inject_header_action ∷ sign_payload_action ∷ [];
  allowed_hosts = some (lit "api" ∷ []);
}

abbrev store : InMemoryKeyStore
store = record { poisoned = false; entries = (lit "k", lit "abc") ∷ [] }

abbrev broker : CredentialBroker in_memory
broker = record { poisoned = false; bindings = (lit "gh", token) ∷ []; keystore = store }

resolves : resolve_secret (lit "gh") inject_header_action broker ≡ ok (token, lit "abc")
unfolding program
resolves = refl

-- A handle that may not be signed with, and a host that is not on the list.
refuses_host :
    inject_header (lit "gh") (lit "Authorization") none (some (lit "evil")) broker []
    ≡ err (host_not_allowed (lit "gh") (lit "evil"))
unfolding program
refuses_host = refl

abbrev authorized : Dict Text
authorized = (lit "Authorization", lit "Bearer abc") ∷ []

inject_header_sound_example :
    (binding : CredentialBinding) × (secret : Text) × (lookup (lit "gh") broker.bindings
      ≡ some binding)
    × (is_action_allowed binding inject_header_action ≡ true)
    × (InMemory.get binding.keystore_key store ≡ ok (some secret))
    × (host_fits binding (some (lit "API")) ≡ true)
    × ((k : Text)
        → lookup k authorized ≡ (
            if text_eq (lit "Authorization") k
            then some (with_prefix (some (lit "Bearer ")) secret)
            else lookup k []))
inject_header_sound_example =
    inject_header_sound (lit "gh") (lit "Authorization") (some (lit "Bearer ")) (some (lit "API"))
      broker [] authorized runs
  where
    runs :
        inject_header
          (lit "gh")
          (lit "Authorization")
          (some (lit "Bearer "))
          (some (lit "API"))
          broker
          []
        ≡ ok authorized
    runs = unfold program in refl

abbrev template_binding : CredentialBinding
template_binding = record {
  handle = lit "t";
  keystore_key = lit "k";
  allowed_actions = inject_template_action ∷ [];
  allowed_hosts = none;
}

abbrev signature : Text
signature = toy_crypto.hex_encode (compute_hmac_sha256 toy_crypto (lit "abc") (lit "hi"))

-- A JSON that writes one session.
abbrev session : OAuthSession
session = record {
  account_id = lit "a";
  access_token = lit "t";
  refresh_token = lit "r";
  token_type = lit "Bearer";
  expires_at_unix = pos 0;
}

abbrev write_session : OAuthSession → Option Text
write_session s = elim s.expires_at_unix [
  | negsuc n ↦ none
  | pos (suc n) ↦ none
  | pos zero ↦
      if text_eq s.account_id (lit "a")
        && text_eq s.access_token (lit "t")
        && text_eq s.refresh_token (lit "r")
        && text_eq s.token_type (lit "Bearer")
      then some (lit "{}")
      else none
]

session_only : (s : OAuthSession) (t : Text) → write_session s ≡ some t → session ≡ s
session_only s t h = ground (
  arith,
  text_eq_iff s.account_id (lit "a"),
  text_eq_iff s.access_token (lit "t"),
  text_eq_iff s.refresh_token (lit "r"),
  text_eq_iff s.token_type (lit "Bearer"),
)

abbrev session_json : SessionJson
session_json = record {
  to_vec = write_session;
  from_slice = λ t. some session;
  from_slice_to_vec = λ s t h. ap some (session_only s t h);
}

abbrev signed_in : CredentialBroker in_memory
signed_in = record broker {
  keystore = record {
    poisoned = false;
    entries = (lit "k", lit "abc") ∷ (oauth_key, lit "{}") ∷ [];
  };
}

abbrev locked : CredentialBroker in_memory
locked = record broker { keystore = record { poisoned = true; entries = [] } }
