-- ===== src/Security/Broker/Access.antt =====
-- broker.rs: what a handle gives access to.
use syntropy.Prelude.{
  ◌≡◌, ◌↔◌, inl, inr, true, false, Option, none, some, List, Text, text_eq, Dict, lookup, insert,
  ok, err, ◌>>=◌, with_ok, Bool-cases, if◌then◌else◌, lookup-insert, lookup-insert_self, arith,
}
use syntropy.Prelude.{eq_ignore_ascii_case_refl, from_utf8}
use syntropy.Security.Crypto.{Crypto}
use syntropy.Security.KeyStore.{KeyStore}
use syntropy.Security.Broker.{
  BrokerAction, inject_header_action, CredentialBinding, CredentialBroker, action_not_allowed,
  resolve_secret, secret_of, is_action_allowed, inject_header, host_fits, with_prefix, register,
  register_handle, sign_payload, verify_signature,
}

module _ {ks : KeyStore} where
  -- A handle gives a binding and a secret exactly when the lock is sound, the handle is registered
  -- with that binding, the binding allows the action, and the keystore holds the secret at its key.
  pub resolve_secret_iff :
      (handle : Text) (action : BrokerAction) (b : CredentialBroker ks)
      (binding : CredentialBinding) (secret : Text)
      → (resolve_secret handle action b ≡ ok (binding, secret)) ↔ (
          (b.poisoned ≡ false)
          × (lookup handle b.bindings ≡ some binding)
          × (is_action_allowed binding action ≡ true)
          × (ks.get binding.keystore_key b.keystore ≡ ok (some secret)))
  unfolding resolve_secret secret_of
  resolve_secret_iff handle action b binding secret = (λ h. ground arith, λ h. ground arith)

  -- A header is injected only for a handle that allows it and, where the request names its host,
  -- for a host that the binding admits; the only change is that header, which becomes the prefix
  -- followed by the secret.
  pub inject_header_sound :
      (handle header_name : Text) (header_prefix target_host : Option Text)
      (b : CredentialBroker ks) (headers headers' : Dict Text)
      → inject_header handle header_name header_prefix target_host b headers ≡ ok headers'
      → (binding : CredentialBinding) × (secret : Text) × (lookup handle b.bindings ≡ some binding)
        × (is_action_allowed binding inject_header_action ≡ true)
        × (ks.get binding.keystore_key b.keystore ≡ ok (some secret))
        × (host_fits binding target_host ≡ true)
        × ((k : Text)
            → lookup k headers' ≡ (
                if text_eq header_name k
                then some (with_prefix header_prefix secret)
                else lookup k headers))
  unfolding inject_header from_utf8
  inject_header_sound handle header_name header_prefix target_host b headers headers' h =
      with_ok (resolve_secret handle inject_header_action b) _ h λ (binding, secret) r rest.
        let (_, found, allowed, held) =
          (resolve_secret_iff handle inject_header_action b binding secret).0 r in
        (
          binding,
          secret,
          found,
          allowed,
          held,
          ground arith,
          λ k.
              ground
                (arith, lookup-insert header_name k (with_prefix header_prefix secret) headers),
        )

  -- After a handle is registered, it resolves as its new binding says: the secret at the new key if
  -- the action is among the new actions, the refusal if not.
  pub resolve_secret-register_handle :
      (handle key : Text) (actions : List BrokerAction) (action : BrokerAction)
      (b : CredentialBroker ks)
      → b.poisoned ≡ false
      → resolve_secret handle action (register_handle handle key actions b).1 ≡ (
          let binding : CredentialBinding = record {
            handle = handle;
            keystore_key = key;
            allowed_actions = actions;
            allowed_hosts = none;
          } in
          if is_action_allowed binding action
          then (secret_of handle binding b >>= λ secret. ok (binding, secret))
          else err (action_not_allowed handle action))
  unfolding resolve_secret register_handle register secret_of
  resolve_secret-register_handle handle key actions action b sound =
      let binding : CredentialBinding = record {
        handle = handle;
        keystore_key = key;
        allowed_actions = actions;
        allowed_hosts = none;
      } in
      let found : lookup handle (insert handle binding b.bindings) ≡ some binding =
        lookup-insert_self handle binding b.bindings in
      elim (Bool-cases (is_action_allowed binding action)) [
        | inl t ↦ simp (sound, found, t)
        | inr f ↦ simp (sound, found, f)
      ]

module _ {ks : KeyStore} (c : Crypto) where
  -- A signature that the broker makes is accepted by the broker.
  pub verify_signature-sign_payload :
      (handle payload signature : Text) (b : CredentialBroker ks)
      → sign_payload c handle payload b ≡ ok signature
      → verify_signature c handle payload signature b ≡ ok true
  unfolding verify_signature
  verify_signature-sign_payload handle payload signature b h = simp (h, eq_ignore_ascii_case_refl)
