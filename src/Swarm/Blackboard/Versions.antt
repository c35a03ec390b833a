-- ===== src/Swarm/Blackboard/Versions.antt =====
-- blackboard.rs: who may publish, and how the versions count.
use syntropy.Prelude.{
  insert, lookup, starts_with, refl, ap, ◌∙◌, text_eq_refl, if◌then◌else◌, inl, inr, arith, with_ok,
  guard, none, some, Option, lookup-insert, true, lit, ok, Result-cases, Option-cases, ◌++◌, length,
  ◌+◌, ◌<◌, ◌^◌, ℕ, ◌≡◌, ◌⊎◌, List, [], ◌∷◌, Text, text_eq,
}
use syntropy.Prelude.{if_both, last?, last?-append, starts_with}
use syntropy.Security.Crypto.{Crypto}
use syntropy.Security.Ledger.Database.{I64}
use syntropy.Swarm.Blackboard.{
  Artifact, BlackboardStore, history_of, may_write, next_version, new_artifact, publish, get_latest,
}

-- The versions count on from a number.
unfoldable pub CountsFrom : ℕ → List Artifact → Type 0
CountsFrom n [] = Unit
CountsFrom n (a ∷ rest) = (a.version ≡ n) × CountsFrom (n + 1) rest

counts-append :
    (n : ℕ) (h : List Artifact) (a : Artifact)
    → CountsFrom n h
    → a.version ≡ n + length h
    → CountsFrom n (h ++ a ∷ [])
unfolding CountsFrom
counts-append n [] a counted e = (omega (arith, e), tt)
counts-append n (b ∷ h) a counted e =
    (counted.0, counts-append (n + 1) h a counted.1 (omega (arith, e)))

counts-last :
    (n : ℕ) (h : List Artifact) (a : Artifact)
    → CountsFrom n h
    → last? h ≡ some a
    → a.version + 1 ≡ n + length h
unfolding CountsFrom
counts-last n [] a counted e = absurd (ground arith)
counts-last n (b ∷ []) a counted e =
    let same : b ≡ a = ground arith in rw (← same) (omega (arith, counted.0))
counts-last n (b ∷ d ∷ h) a counted e = omega (arith, counts-last (n + 1) (d ∷ h) a counted.1 e)

last?-none : (h : List Artifact) → last? h ≡ none → length h ≡ 0
last?-none [] e = refl
last?-none (b ∷ []) e = absurd (ground arith)
last?-none (b ∷ d ∷ h) e = absurd (omega (arith, last?-none (d ∷ h) e))

-- The next version of a history that counts from 1 is its length and one.
next_version-counts :
    (uri author : Text) (h : List Artifact) (v : ℕ)
    → CountsFrom 1 h
    → length h + 1 < 2 ^ 32
    → next_version uri author (last? h) ≡ ok v
    → v ≡ 1 + length h
unfolding next_version
next_version-counts uri author h v counted few e = elim (Option-cases (last? h)) [
  | inl none_yet ↦
      let length_none : length h ≡ 0 = last?-none h none_yet in ground (arith, length_none)
  | inr (latest, l) ↦ let counts = counts-last 1 h latest counted l in ground (arith, counts)
]

history-insert :
    (uri k : Text) (h : List Artifact) (store : BlackboardStore)
    → history_of k (insert uri h store) ≡ (if text_eq uri k then h else history_of k store)
unfolding history_of
history-insert uri k h store = ground (arith, lookup-insert uri k h store)

latest_of :
    (uri : Text) (store : BlackboardStore) (a : Artifact)
    → last? (history_of uri store) ≡ some a
    → get_latest uri store ≡ ok a
unfolding get_latest
latest_of uri store a h = ground (arith, h)

module _ (c : Crypto) where
  published :
      (uri author content : Text) (now : I64) (store : BlackboardStore) (a : Artifact)
      → new_artifact c uri author content now store ≡ ok a
      → publish c uri author content now store
        ≡ (ok a, insert uri (history_of uri store ++ a ∷ []) store)
  unfolding publish starts_with insert
  published uri author content now store a h = rw h refl

  -- What an artifact that is made has passed.
  new_artifact_ok :
      (uri author content : Text) (now : I64) (store : BlackboardStore) (a : Artifact)
      → new_artifact c uri author content now store ≡ ok a
      → (starts_with (lit "blackboard://") uri ≡ true)
        × (next_version uri author (last? (history_of uri store)) ≡ ok a.version)
  unfolding new_artifact
  new_artifact_ok uri author content now store a h =
      with_ok (guard (starts_with (lit "blackboard://") uri) _) _ h λ u e1 h1.
        with_ok (next_version uri author (last? (history_of uri store))) _ h1
          λ v e2 h2. (ground arith, ground arith)

  -- The author of a next version.
  authorized :
      (uri author : Text) (last_one : Option Artifact) (v : ℕ)
      → next_version uri author last_one ≡ ok v
      → (last_one ≡ none)
        ⊎ ((latest : Artifact) × (last_one ≡ some latest) × (may_write author latest ≡ true))
  unfolding next_version
  authorized uri author none v h = inl refl
  authorized uri author (some latest) v h = inr (latest, refl, ground arith)

  -- An artifact that is published has a URI of the board, and either no version of it existed or its
  -- author wrote the latest version or is a lead; it is the latest version from then on, behind the
  -- old ones, and the histories of the other URIs stay.
  pub publish_ok :
      (uri author content : Text) (now : I64) (store : BlackboardStore) (a : Artifact)
      → (publish c uri author content now store).0 ≡ ok a
      → (starts_with (lit "blackboard://") uri ≡ true)
        × ((last? (history_of uri store) ≡ none)
            ⊎ ((latest : Artifact) × (last? (history_of uri store) ≡ some latest)
                × (may_write author latest ≡ true)))
        × (get_latest uri (publish c uri author content now store).1 ≡ ok a)
        × ((k : Text)
            → history_of k (publish c uri author content now store).1
              ≡ (if text_eq uri k then history_of uri store ++ a ∷ [] else history_of k store))
  unfolding publish
  publish_ok uri author content now store a h =
      elim (Result-cases (new_artifact c uri author content now store)) [
        | inr (e, p) ↦ absurd (ground arith)
        | inl (b, p) ↦
            let same : b ≡ a = ground arith in
            let (named, next) = new_artifact_ok uri author content now store b p in
            let pushed = history_of uri store ++ b ∷ [] in
            let made = published uri author content now store b p in
            let here : history_of uri (insert uri pushed store) ≡ pushed =
              history-insert uri uri pushed store
              ∙ ap (λ t. if t then pushed else history_of uri store) (text_eq_refl uri) in
            rw (← same) (
              named,
              authorized uri author (last? (history_of uri store)) b.version next,
              ap (λ r. get_latest uri r.1) made
                  ∙ latest_of uri (insert uri pushed store) b
                      (ap last? here ∙ last?-append (history_of uri store) b),
              λ k. ap (λ r. history_of k r.1) made ∙ history-insert uri k pushed store,
            )
      ]

  -- Histories whose versions are 1, 2, 3 and so on stay such, while a history is shorter than the
  -- numbers of 32 bits.
  pub publish-CountsFrom :
      (uri author content : Text) (now : I64) (store : BlackboardStore)
      → ((k : Text) → CountsFrom 1 (history_of k store))
      → length (history_of uri store) + 1 < 2 ^ 32
      → (k : Text) → CountsFrom 1 (history_of k (publish c uri author content now store).1)
  unfolding publish CountsFrom lookup starts_with
  publish-CountsFrom uri author content now store counted few k =
      elim (Result-cases (new_artifact c uri author content now store)) [
        | inr (e, p) ↦ rw p (counted k)
        | inl (a, p) ↦
            let (named, next) = new_artifact_ok uri author content now store a p in
            let version =
              next_version-counts uri author (history_of uri store) a.version (counted uri) few
                next in
            let pushed = history_of uri store ++ a ∷ [] in
            rw p (
              rw (history-insert uri k pushed store) (
                if_both (CountsFrom 1) (text_eq uri k)
                  (λ t. counts-append 1 (history_of uri store) a (counted uri) version)
                  (λ f. counted k)))
      ]
