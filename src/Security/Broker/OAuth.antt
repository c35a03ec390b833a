-- ===== src/Security/Broker/OAuth.antt =====
-- broker.rs: the OAuth session, kept in the keystore under a key of its own.
use syntropy.Prelude.{
  Option-cases, ◌≡◌, inl, inr, refl, true, Option, none, some, Text, lit, text_eq, text_eq_refl,
  Result, ok, err, ◌>>=◌, arith,
}
use syntropy.Security.KeyStore.{KeyStore, KeyStoreError, IsLawful}
use syntropy.Security.Ledger.Database.{I64}
use syntropy.Security.Broker.{BrokerError, invalid_encoding, from_store, CredentialBroker}

pub record OAuthSession : Type 0 where
  pub account_id : Text
  pub access_token : Text
  pub refresh_token : Text
  pub token_type : Text
  pub expires_at_unix : I64

-- `serde_json` on a session: what is written reads back.
pub record SessionJson : Type 0 where
  pub to_vec : OAuthSession → Option Text
  pub from_slice : Text → Option OAuthSession
  pub from_slice_to_vec : (s : OAuthSession) (t : Text) → to_vec s ≡ some t → from_slice t ≡ some s

-- `OAUTH_KEY`
abbrev pub oauth_key : Text
oauth_key = lit "syntropy:oauth_session"

module _ (ks : KeyStore) (j : SessionJson) where
  -- The session as JSON, or the store as it was.
  unfoldable pub save_oauth_session :
      OAuthSession → CredentialBroker ks → Result BrokerError (Unit {0}) × CredentialBroker ks
  save_oauth_session session b = elim (j.to_vec session) [
    | none ↦ (err invalid_encoding, b)
    | some json ↦
        let (r, store) = ks.set oauth_key json b.keystore in
        (from_store r, record b { keystore = store })
  ]

  -- A session that is stored, read.
  abbrev pub parsed : Option Text → Result BrokerError (Option OAuthSession)
  parsed none = ok none
  parsed (some bytes) = elim (j.from_slice bytes) [
    | none ↦ err invalid_encoding
    | some session ↦ ok (some session)
  ]

  unfoldable pub get_oauth_session : CredentialBroker ks → Result BrokerError (Option OAuthSession)
  get_oauth_session b = do stored ← from_store (ks.get oauth_key b.keystore); parsed stored

  -- `let _ = self.keystore.delete(..)`: the call succeeds whatever the keystore says.
  unfoldable pub clear_oauth_session :
      CredentialBroker ks → Result BrokerError (Unit {0}) × CredentialBroker ks
  clear_oauth_session b = (ok tt, record b { keystore = (ks.delete oauth_key b.keystore).1 })

  -- With a keystore that keeps the laws of the trait and can be read, a session that was saved is
  -- the one that is found.
  pub get_oauth_session-save :
      IsLawful ks
      → (session : OAuthSession) (b b' : CredentialBroker ks) (before : Option Text)
      → ks.get oauth_key b.keystore ≡ ok before
      → save_oauth_session session b ≡ (ok tt, b')
      → get_oauth_session b' ≡ ok (some session)
  unfolding save_oauth_session get_oauth_session
  get_oauth_session-save lawful session b b' before readable saved =
      elim (Option-cases (j.to_vec session)) [
        | inl e ↦ absurd (ground arith)
        | inr (json, e) ↦
            let stored =
              lawful.get-set oauth_key oauth_key json b.keystore b'.keystore before (ground arith)
                readable in
            let read = j.from_slice_to_vec session json e in
            let here : text_eq oauth_key oauth_key ≡ true = text_eq_refl oauth_key in
            ground (arith, stored, read, here)
      ]

  -- `clear_oauth_session` reports success even when the keystore refused to delete, and a session
  -- that such a keystore left in place is still found.
  pub clear_oauth_session_failing :
      (b : CredentialBroker ks) (e : KeyStoreError)
      → ks.delete oauth_key b.keystore ≡ (err e, b.keystore)
      → ((clear_oauth_session b).0 ≡ ok tt)
        × (get_oauth_session (clear_oauth_session b).1 ≡ get_oauth_session b)
  unfolding clear_oauth_session get_oauth_session
  clear_oauth_session_failing b e refused = (refl, ground (arith, refused))
