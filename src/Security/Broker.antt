-- ===== src/Security/Broker.antt =====
-- broker.rs: secrets named by handles, their injection and redaction.
pub mod Hmac
pub mod Access
pub mod Redaction
pub mod OAuth
use syntropy.Prelude.{
  ℕ, ◌≡◌, Bool, true, false, not, ◌&&◌, ◌||◌, Option, none, some, List, [], ◌∷◌, ◌++◌, Text, lit,
  text_eq, Dict, lookup, insert, Result, ok, err, ◌>>=◌, ◌>>◌, guard, if◌then◌else◌, length, ltb,
  leb, contains, replace, eq_ignore_ascii_case, from_utf8,
}
use syntropy.Security.Crypto.{Crypto}
use syntropy.Security.KeyStore.{KeyStore, KeyStoreError}
use Hmac.{compute_hmac_sha256}

pub data BrokerAction : Type 0 where
  inject_header_action inject_env_action inject_template_action sign_payload_action all :
      BrokerAction

pub data BrokerError : Type 0 where
  handle_not_found : Text → BrokerError
  secret_not_found : Text → Text → BrokerError
  action_not_allowed : Text → BrokerAction → BrokerError
  host_not_allowed : Text → Text → BrokerError
  key_store : KeyStoreError → BrokerError
  invalid_encoding : BrokerError
  lock_error : BrokerError

-- `==` on actions.
unfoldable pub same_action : BrokerAction → BrokerAction → Bool
same_action inject_header_action inject_header_action = true
same_action inject_env_action inject_env_action = true
same_action inject_template_action inject_template_action = true
same_action sign_payload_action sign_payload_action = true
same_action all all = true
same_action _ _ = false

-- `HashSet::contains`.
unfoldable pub has_action : BrokerAction → List BrokerAction → Bool
has_action a [] = false
has_action a (b ∷ s) = same_action b a || has_action a s

pub record CredentialBinding : Type 0 where
  pub handle : Text
  pub keystore_key : Text
  pub allowed_actions : List BrokerAction
  pub allowed_hosts : Option (List Text)

unfoldable pub is_action_allowed : CredentialBinding → BrokerAction → Bool
is_action_allowed b action = has_action all b.allowed_actions || has_action action b.allowed_actions

unfoldable pub any_host : Text → List Text → Bool
any_host host [] = false
any_host host (h ∷ hosts) = eq_ignore_ascii_case h host || any_host host hosts

unfoldable pub is_host_allowed : CredentialBinding → Text → Bool
unfolding any_host
is_host_allowed b host = elim b.allowed_hosts [ none ↦ true | some hosts ↦ any_host host hosts ]

module _ (ks : KeyStore) where
  -- `poisoned` says that a holder of the lock on the bindings has panicked.
  pub record CredentialBroker : Type 0 where
    pub poisoned : Bool
    pub bindings : Dict CredentialBinding
    pub keystore : ks.Store

-- `o.ok_or(e)`
abbrev pub ok_or : {A : Type 0} → Option A → BrokerError → Result BrokerError A
ok_or none e = err e
ok_or (some a) e = ok a

-- `?` on a call of the keystore.
abbrev pub from_store : {A : Type 0} → Result KeyStoreError A → Result BrokerError A
from_store (ok a) = ok a
from_store (err e) = err (key_store e)

-- `if let Some(host) = target_host { .. }`
unfoldable pub host_fits : CredentialBinding → Option Text → Bool
host_fits binding none = true
host_fits binding (some host) = is_host_allowed binding host

-- The text of the host in the error; it is made only where there is a host.
abbrev pub host_text : Option Text → Text
host_text none = []
host_text (some host) = host

abbrev pub with_prefix : Option Text → Text → Text
with_prefix none secret = secret
with_prefix (some p) secret = p ++ secret

-- The two placeholders of a handle, `{{credential:<handle>}}` and `{{<handle>}}`.
unfoldable pub long_placeholder : Text → Text
long_placeholder handle = lit "{{credential:" ++ (handle ++ lit "}}")

unfoldable pub short_placeholder : Text → Text
short_placeholder handle = lit "{{" ++ (handle ++ lit "}}")

abbrev pub mentions : Text → Text → Bool
mentions handle output =
    contains (long_placeholder handle) output || contains (short_placeholder handle) output

module _ {ks : KeyStore} where
  unfoldable pub register :
      CredentialBinding → CredentialBroker ks → Result BrokerError (Unit {0}) × CredentialBroker ks
  register binding b =
      if b.poisoned
      then (err lock_error, b)
      else (ok tt, record b { bindings = insert binding.handle binding b.bindings })

  unfoldable pub register_handle :
      Text
      → Text
      → List BrokerAction
      → CredentialBroker ks
      → Result BrokerError (Unit {0}) × CredentialBroker ks
  unfolding register
  register_handle handle key actions = register (record {
    handle = handle;
    keystore_key = key;
    allowed_actions = actions;
    allowed_hosts = none;
  })

  unfoldable pub register_handle_with_hosts :
      Text
      → Text
      → List BrokerAction
      → List Text
      → CredentialBroker ks
      → Result BrokerError (Unit {0}) × CredentialBroker ks
  unfolding register
  register_handle_with_hosts handle key actions hosts = register (record {
    handle = handle;
    keystore_key = key;
    allowed_actions = actions;
    allowed_hosts = some hosts;
  })

  unfoldable pub secret_of :
      Text → CredentialBinding → CredentialBroker ks → Result BrokerError Text
  secret_of handle binding b = do
    found ← from_store (ks.get binding.keystore_key b.keystore)
    ok_or found (secret_not_found handle binding.keystore_key)

  unfoldable pub resolve_secret :
      Text → BrokerAction → CredentialBroker ks → Result BrokerError (CredentialBinding × Text)
  resolve_secret handle action b = do
    guard (not b.poisoned) lock_error
    binding ← ok_or (lookup handle b.bindings) (handle_not_found handle)
    guard (is_action_allowed binding action) (action_not_allowed handle action)
    secret ← secret_of handle binding b
    ok (binding, secret)

  module _ (c : Crypto) where
    unfoldable pub sign_payload : Text → Text → CredentialBroker ks → Result BrokerError Text
    sign_payload handle payload b = do
      (binding, secret) ← resolve_secret handle sign_payload_action b
      ok (c.hex_encode (compute_hmac_sha256 c secret payload))

    unfoldable pub verify_signature :
        Text → Text → Text → CredentialBroker ks → Result BrokerError Bool
    verify_signature handle payload signature_hex b = do
      expected ← sign_payload handle payload b
      ok (eq_ignore_ascii_case expected signature_hex)

  -- The headers of the request are the last argument, and come back changed.
  unfoldable pub inject_header :
      Text
      → Text
      → Option Text
      → Option Text
      → CredentialBroker ks
      → Dict Text
      → Result BrokerError (Dict Text)
  inject_header handle header_name header_prefix target_host b headers = do
    (binding, secret) ← resolve_secret handle inject_header_action b
    guard (host_fits binding target_host) (host_not_allowed handle (host_text target_host))
    secret_str ← ok_or (from_utf8 secret) invalid_encoding
    ok (insert header_name (with_prefix header_prefix secret_str) headers)

  unfoldable pub inject_env :
      Text → Text → CredentialBroker ks → Dict Text → Result BrokerError (Dict Text)
  inject_env handle env_var b env = do
    (binding, secret) ← resolve_secret handle inject_env_action b
    secret_str ← ok_or (from_utf8 secret) invalid_encoding
    ok (insert env_var secret_str env)

  -- One round of the loop of `inject_template`.
  unfoldable pub inject_one :
      Text → CredentialBinding → CredentialBroker ks → Text → Result BrokerError Text
  inject_one handle binding b output =
      let filled = do
        guard (is_action_allowed binding inject_template_action)
            (action_not_allowed handle inject_template_action)
        secret ← secret_of handle binding b
        secret_str ← ok_or (from_utf8 secret) invalid_encoding
        ok (
            replace (short_placeholder handle) secret_str
              (replace (long_placeholder handle) secret_str output))
      in if mentions handle output then filled else ok output

  unfoldable pub inject_all :
      Dict CredentialBinding → CredentialBroker ks → Text → Result BrokerError Text
  inject_all [] b output = ok output
  inject_all ((handle, binding) ∷ rest) b output = do
    output' ← inject_one handle binding b output
    inject_all rest b output'

  unfoldable pub inject_template : Text → CredentialBroker ks → Result BrokerError Text
  inject_template template b = do
    guard (not b.poisoned) lock_error
    inject_all b.bindings b template

  -- What is redacted for a binding: its secret, if there is one, it is text and not too short.
  unfoldable pub redactable : CredentialBinding → CredentialBroker ks → Option Text
  redactable binding b = elim (ks.get binding.keystore_key b.keystore) [
    | err e ↦ none
    | ok none ↦ none
    | ok (some secret) ↦ elim (from_utf8 secret) [
      | none ↦ none
      | some s ↦ if leb 4 (length s) then some s else none
    ]
  ]

  unfoldable pub sanitize_all : Dict CredentialBinding → CredentialBroker ks → Text → Text
  sanitize_all [] b text = text
  sanitize_all ((handle, binding) ∷ rest) b text =
      sanitize_all rest b (elim (redactable binding b) [
        | none ↦ text
        | some s ↦ replace s (lit "[REDACTED:" ++ (handle ++ lit "]")) text
      ])

  unfoldable pub sanitize_output : Text → CredentialBroker ks → Text
  sanitize_output text b = if b.poisoned then text else sanitize_all b.bindings b text
