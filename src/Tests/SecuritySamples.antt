-- ===== src/Tests/SecuritySamples.antt =====
-- Values for the parameters of the keystores: a JSON that writes the stores of these tests.
use syntropy.Prelude.{
  ◌≡◌, refl, false, none, some, [], ◌∷◌, Text, lit, text_eq, text_eq_iff, Dict, lookup, Result, ok,
  err, ok-injective, if◌then◌else◌, arith,
}
use syntropy.Prelude.{IsBytes}
use syntropy.Security.KeyStore.{KeyStoreError, serialization}
use syntropy.Security.KeyStore.File.{Json, Outside}

abbrev pub one_secret : Dict Text
one_secret = (lit "k", lit "v") ∷ []

abbrev pub write_map : Dict Text → Result KeyStoreError Text
write_map [] = ok []
write_map ((k, v) ∷ (k2 ∷ m)) = err (serialization (lit "too long"))
write_map ((k, v) ∷ []) =
    if text_eq k (lit "k")
    then (if text_eq v (lit "v") then ok (1 ∷ []) else err (serialization (lit "v")))
    else err (serialization (lit "k"))

abbrev pub read_map : Text → Result KeyStoreError (Dict Text)
read_map [] = ok []
read_map (x ∷ xs) = ok one_secret

pub write_map-IsBytes : (m : Dict Text) (t : Text) → write_map m ≡ ok t → IsBytes t
write_map-IsBytes [] t h = rw (← ok-injective h) tt
write_map-IsBytes ((k, v) ∷ (k2 ∷ m)) t h = absurd (ground arith)
write_map-IsBytes ((k, v) ∷ []) t h =
    let e : 1 ∷ [] ≡ t = ground arith in rw (← e) (omega arith, tt)

pub read_map-write_map :
    (m : Dict Text) (t : Text)
    → write_map m ≡ ok t
    → (m' : Dict Text) × (read_map t ≡ ok m') × ((k : Text) → lookup k m' ≡ lookup k m)
read_map-write_map [] t h = ([], rw (← ok-injective h) refl, λ k. refl)
read_map-write_map ((k, v) ∷ (k2 ∷ m)) t h = absurd (ground arith)
read_map-write_map ((k, v) ∷ []) t h =
    let e : 1 ∷ [] ≡ t = ground arith in
    let key : k ≡ lit "k" = ground (arith, text_eq_iff k (lit "k")) in
    let value : v ≡ lit "v" = ground (arith, text_eq_iff v (lit "v")) in
    (one_secret, rw (← e) refl, λ i. rw key (rw value refl))

abbrev pub toy_json : Json
toy_json = record {
  to_vec = write_map;
  from_slice = read_map;
  to_vec_bytes = write_map-IsBytes;
  from_slice_to_vec = read_map-write_map;
}

abbrev pub sixteen : Text
sixteen = lit "0123456789abcdef"

abbrev pub outside : Outside
outside = record { poisoned = false; salt = sixteen; nonce = sixteen; write_error = none }

abbrev pub disk_full : Outside
disk_full = record {
  poisoned = false;
  salt = sixteen;
  nonce = sixteen;
  write_error = some (serialization (lit "disk full"));
}
