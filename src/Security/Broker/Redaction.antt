-- ===== src/Security/Broker/Redaction.antt =====
-- broker.rs: what a template takes in, and what is taken out of an output.
use syntropy.Prelude.{
  ◌≡◌, inl, inr, refl, true, false, none, [], ◌∷◌, ◌++◌, Text, Dict, ok, err, Bool-cases,
}
use syntropy.Security.KeyStore.{KeyStore}
use syntropy.Security.Broker.{
  CredentialBinding, CredentialBroker, action_not_allowed, inject_template_action,
  is_action_allowed, mentions, inject_one, inject_all, inject_template, sanitize_all,
  sanitize_output, redactable,
}

-- None of these bindings has a placeholder in the template.
abbrev pub NoneMentioned : Text → Dict CredentialBinding → Type 0
NoneMentioned template [] = Unit
NoneMentioned template ((handle, binding) ∷ rest) =
    (mentions handle template ≡ false) × NoneMentioned template rest

module _ {ks : KeyStore} where
  -- A template in which the first binding with a placeholder forbids templates is refused with
  -- that binding's handle, whatever the other bindings are.
  pub inject_all_denied :
      (before rest : Dict CredentialBinding) (handle : Text) (binding : CredentialBinding)
      (b : CredentialBroker ks) (template : Text)
      → NoneMentioned template before
      → mentions handle template ≡ true
      → is_action_allowed binding inject_template_action ≡ false
      → inject_all (before ++ (handle, binding) ∷ rest) b template
        ≡ err (action_not_allowed handle inject_template_action)
  unfolding inject_all inject_one
  inject_all_denied [] rest handle binding b template absent here denied = simp (here, denied)
  inject_all_denied ((h, d) ∷ before) rest handle binding b template absent here denied =
      simp (absent.0, inject_all_denied before rest handle binding b template absent.1 here denied)

  inject_all_unmentioned :
      (bindings : Dict CredentialBinding) (b : CredentialBroker ks) (template : Text)
      → NoneMentioned template bindings
      → inject_all bindings b template ≡ ok template
  unfolding inject_all inject_one
  inject_all_unmentioned [] b template absent = refl
  inject_all_unmentioned ((h, d) ∷ rest) b template absent =
      simp (absent.0, inject_all_unmentioned rest b template absent.1)

  -- A template without any placeholder comes back unchanged.
  pub inject_template_unmentioned :
      (b : CredentialBroker ks) (template : Text)
      → b.poisoned ≡ false
      → NoneMentioned template b.bindings
      → inject_template template b ≡ ok template
  unfolding inject_template
  inject_template_unmentioned b template sound absent =
      simp (sound, inject_all_unmentioned b.bindings b template absent)

  -- The secret of none of these bindings is redacted: each is missing, unreadable, not text, or
  -- shorter than four bytes.
  abbrev pub NoneRedactable : CredentialBroker ks → Dict CredentialBinding → Type 0
  NoneRedactable b [] = Unit
  NoneRedactable b ((handle, binding) ∷ rest) =
      (redactable binding b ≡ none) × NoneRedactable b rest

  sanitize_all_unchanged :
      (bindings : Dict CredentialBinding) (b : CredentialBroker ks) (text : Text)
      → NoneRedactable b bindings
      → sanitize_all bindings b text ≡ text
  unfolding sanitize_all
  sanitize_all_unchanged [] b text hidden = refl
  sanitize_all_unchanged ((h, d) ∷ rest) b text hidden =
      simp (hidden.0, sanitize_all_unchanged rest b text hidden.1)

  -- An output is passed on as it stands, its secrets included, when no binding's secret is at least
  -- four bytes of text that the keystore returns.
  pub sanitize_output_unchanged :
      (b : CredentialBroker ks) (text : Text)
      → NoneRedactable b b.bindings
      → sanitize_output text b ≡ text
  unfolding sanitize_output
  sanitize_output_unchanged b text hidden = elim (Bool-cases b.poisoned) [
    | inl t ↦ simp t
    | inr f ↦ simp (f, sanitize_all_unchanged b.bindings b text hidden)
  ]
