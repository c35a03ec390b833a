-- ===== src/Security/KeyStore/Dpapi.antt =====
-- keystore.rs: `DpapiKeyStore` and the two wrappers of Windows' data protection, on Windows.
use syntropy.Prelude.{
  ℕ, ◌%◌, ◌^◌, ◌<◌, ◌≡◌, sym, ap, ◌∙◌, Bool, true, false, not, Option, none, some, [], ◌∷◌, ◌++◌,
  Text, lit, Dict, lookup, insert, remove, Result, ok, err, ◌>>=◌, ◌>>◌, guard, with_ok,
  Result-cases, Bool-cases, inl, inr, if◌then◌else◌, length, take, take_of_length-le, show, text_eq,
  lookup-insert, arith,
}
use syntropy.Security.KeyStore.{KeyStoreError, platform_error, lock_error, is_some}
use syntropy.Security.KeyStore.File.{Json, replace_file}

-- `CryptProtectData` and `CryptUnprotectData` of crypt32, by the bytes of their blobs: an error
-- code, or the bytes of the blob that they make. What a user has protected is given back to the
-- same user, and a blob has at most 2 ^ 32 - 1 bytes.
pub record Crypt32 : Type 0 where
  pub protect_data : Text → Result ℕ Text
  pub unprotect_data : Text → Result ℕ Text
  pub protect_data_length : (t p : Text) → protect_data t ≡ ok p → length p < 2 ^ 32
  pub unprotect_data-protect_data : (t p : Text) → protect_data t ≡ ok p → unprotect_data p ≡ ok t

-- The blob of a slice: its length as a `u32`.
abbrev pub blob : Text → Text
blob bytes = take (length bytes % 2 ^ 32) bytes

-- The store, and the file at its path: `none` where there is none.
pub record DpapiKeyStore : Type 0 where
  pub entries : Dict Text
  pub file : Option Text

-- What one call meets outside: a poisoned lock, and the first error of the calls that write the
-- file. The file is replaced by a rename at the end.
pub record Meets : Type 0 where
  pub poisoned : Bool
  pub write_error : Option KeyStoreError

module _ (w : Crypt32) where
  unfoldable pub protect : Text → Result KeyStoreError Text
  protect bytes = elim (w.protect_data (blob bytes)) [
    | ok p ↦ ok p
    | err code ↦ err (platform_error (lit "CryptProtectData failed with error code: " ++ show code))
  ]

  unfoldable pub unprotect : Text → Result KeyStoreError Text
  unprotect bytes = elim (w.unprotect_data (blob bytes)) [
    | ok t ↦ ok t
    | err code ↦
        err (platform_error (lit "CryptUnprotectData failed with error code: " ++ show code))
  ]

  module _ (j : Json) where
    -- The contents of the file that `persist` leaves.
    unfoldable pub persist : Meets → DpapiKeyStore → Result KeyStoreError Text
    persist o s = do
      guard (not o.poisoned) (lock_error (lit "Failed to acquire read lock"))
      serialized ← j.to_vec s.entries
      replace_file o.write_error serialized

    -- `self.persist()` as the last act of a change that is already in memory.
    unfoldable pub persisted :
        {A : Type 0} → Meets → A → DpapiKeyStore → Result KeyStoreError A × DpapiKeyStore
    persisted o a s = elim (persist o s) [
      | ok contents ↦ (ok a, record s { file = some contents })
      | err e ↦ (err e, s)
    ]

    unfoldable pub open_or_create : Meets → Option Text → Result KeyStoreError DpapiKeyStore
    open_or_create o none = do
      contents ← persist o (record { entries = []; file = none })
      ok (record { entries = []; file = some contents })
    open_or_create o (some []) = ok (record { entries = []; file = some [] })
    open_or_create o (some (b ∷ content)) = do
      entries ← j.from_slice (b ∷ content)
      ok (record { entries = entries; file = some (b ∷ content) })

    unfoldable pub set :
        Meets → Text → Text → DpapiKeyStore → Result KeyStoreError (Unit {0}) × DpapiKeyStore
    unfolding persisted
    set o key secret s = elim (protect secret) [
      | err e ↦ (err e, s)
      | ok p ↦
          if o.poisoned
          then (err (lock_error (lit "Failed to acquire write lock")), s)
          else persisted o tt (record s { entries = insert key p s.entries })
    ]

    unfoldable pub get : Meets → Text → DpapiKeyStore → Result KeyStoreError (Option Text)
    get o key s =
        if o.poisoned
        then err (lock_error (lit "Failed to acquire read lock"))
        else elim (lookup key s.entries) [
          | none ↦ ok none
          | some p ↦ unprotect p >>= λ t. ok (some t)
        ]

    unfoldable pub delete : Meets → Text → DpapiKeyStore → Result KeyStoreError Bool × DpapiKeyStore
    unfolding persisted
    delete o key s =
        let s' = record s { entries = remove key s.entries } in
        if o.poisoned
        then (err (lock_error (lit "Failed to acquire write lock")), s)
        else if is_some (lookup key s.entries)
        then persisted o true s'
        else (ok false, s')

  blob-small : (t : Text) → length t < 2 ^ 32 → blob t ≡ t
  blob-small t h = take_of_length-le (length t % 2 ^ 32) t (omega arith)

  -- What was protected comes back, if its length fits into 32 bits.
  unprotect-protect : (t p : Text) → length t < 2 ^ 32 → protect t ≡ ok p → unprotect p ≡ ok t
  unfolding protect unprotect
  unprotect-protect t p small h = elim (Result-cases (w.protect_data (blob t))) [
    | inr (code, f) ↦ absurd (ground (arith, f))
    | inl (q, f) ↦
        let same : q ≡ p = ground (arith, f) in
        let whole = blob-small t small in
        let back = w.unprotect_data-protect_data (blob t) q f in
        let short = blob-small q (w.protect_data_length (blob t) q f) in
        ground (arith, same, whole, back, short)
  ]

  persisted-ok :
      {A : Type 0} (j : Json) (o : Meets) (a b : A) (s s' : DpapiKeyStore)
      → persisted j o a s ≡ (ok b, s')
      → (contents : Text) × (persist j o s ≡ ok contents) × (record s { file = some contents } ≡ s')
  unfolding persisted
  persisted-ok j o a b s s' h = elim (Result-cases (persist j o s)) [
    | inl (contents, p) ↦ (contents, p, ground arith)
    | inr (e, p) ↦ absurd (ground arith)
  ]

  persist-ok :
      (j : Json) (o : Meets) (s : DpapiKeyStore) (contents : Text)
      → persist j o s ≡ ok contents
      → j.to_vec s.entries ≡ ok contents
  unfolding persist
  persist-ok j o s contents h =
      with_ok (guard (not o.poisoned) _) _ h
        λ u h0 k0. with_ok (j.to_vec s.entries) _ k0 λ t h1 k1. h1 ∙ written o.write_error t k1
    where
      written :
          (e : Option KeyStoreError) (t : Text)
          → replace_file e t ≡ ok contents
          → ◌≡◌ {A = Result KeyStoreError Text} (ok t) (ok contents)
      written none t h = h
      written (some e) t h = absurd (ground arith)

  set-ok :
      (j : Json) (o : Meets) (key secret : Text) (s s' : DpapiKeyStore)
      → set j o key secret s ≡ (ok tt, s')
      → (p : Text) × (protect secret ≡ ok p)
        × (contents : Text) × (j.to_vec (insert key p s.entries) ≡ ok contents)
        × (record { entries = insert key p s.entries; file = some contents } ≡ s')
  unfolding set
  set-ok j o key secret s s' h = elim (Result-cases (protect secret)) [
    | inr (e, f) ↦ absurd (ground (arith, f))
    | inl (p, f) ↦
        let after : DpapiKeyStore = record s { entries = insert key p s.entries } in
        let last : persisted j o tt after ≡ (ok tt, s') = ground (arith, f) in
        let (contents, q, left) = persisted-ok j o tt tt after s' last in
        (p, f, contents, persist-ok j o after contents q, left)
  ]

  get-same :
      (j : Json) (o : Meets) (k : Text) (a b : DpapiKeyStore)
      → lookup k a.entries ≡ lookup k b.entries
      → get j o k a ≡ get j o k b
  unfolding get
  get-same j o k a b h = ground (arith, h)

  get-set :
      (j : Json) (o : Meets) (key k secret p : Text) (s s' : DpapiKeyStore)
      → o.poisoned ≡ false
      → s'.entries ≡ insert key p s.entries
      → unprotect p ≡ ok secret
      → get j o k s' ≡ (if text_eq key k then ok (some secret) else get j o k s)
  unfolding get
  get-set j o key k secret p s s' sound entries back =
      let found = ap (lookup k) entries ∙ lookup-insert key k p s.entries in
      elim (Bool-cases (text_eq key k)) [
        | inl t ↦ ground (arith, t, found, back)
        | inr f ↦ ground (arith, f, found)
      ]

  open_or_create-full :
      (j : Json) (o : Meets) (b : ℕ) (content : Text) (m : Dict Text)
      → j.from_slice (b ∷ content) ≡ ok m
      → open_or_create j o (some (b ∷ content))
        ≡ ok (record { entries = m; file = some (b ∷ content) })
  unfolding open_or_create
  open_or_create-full j o b content m h = ground (arith, h)

  -- After a `set` that succeeds with a secret whose length fits into 32 bits, the key gives the
  -- secret and the other keys what they gave before; and a store that is opened on the file that it
  -- left, where that is not empty, gives the same.
  pub set-reopens :
      (j : Json) (o o' again : Meets) (key secret k : Text) (s s' : DpapiKeyStore) (b : ℕ)
      (content : Text)
      → length secret < 2 ^ 32
      → o'.poisoned ≡ false
      → set j o key secret s ≡ (ok tt, s')
      → s'.file ≡ some (b ∷ content)
      → (get j o' k s' ≡ (if text_eq key k then ok (some secret) else get j o' k s))
        × ((t : DpapiKeyStore) × (open_or_create j again s'.file ≡ ok t)
            × (get j o' k t ≡ get j o' k s'))
  set-reopens j o o' again key secret k s s' b content small sound h file =
      let (p, made, contents, written, left) = set-ok j o key secret s s' h in
      let entries : s'.entries ≡ insert key p s.entries = sym (ap (λ x. x.entries) left) in
      let full : contents ≡ b ∷ content = ground (arith, ap (λ x. x.file) left, file) in
      let (m, parsed, same) = j.from_slice_to_vec (insert key p s.entries) contents written in
      let opened : open_or_create j again s'.file
          ≡ ok (record { entries = m; file = some (b ∷ content) }) =
        rw file (open_or_create-full j again b content m (ap j.from_slice (sym full) ∙ parsed)) in
      (
        get-set j o' key k secret p s s' sound entries (unprotect-protect secret p small made),
        (
          record { entries = m; file = some (b ∷ content) },
          opened,
          get-same j o' k (record { entries = m; file = some (b ∷ content) }) s'
              (same k ∙ ap (lookup k) (sym entries)),
        ),
      )
