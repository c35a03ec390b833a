-- ===== src/Tests/Samples.antt =====
-- Values for the parameters of the model: a digest and an encoding that keep the laws of the
-- crates, and a database that is the list of its rows.
use syntropy.Prelude.{
  IsBytes, ◌%◌, ok-injective, sym, ℕ, zero, suc, ◌*◌, ◌≡◌, refl, ap, Option, none, some, List, [],
  ◌∷◌, ◌++◌, arith, Text, length, take, length-take, length-append, ok, last?, map,
}
use mathlib.Core.Option
use syntropy.Security.Crypto.{Crypto}
use syntropy.Security.Ledger.Database.{AreRead, AuditEntry, id_and_hash, Sqlite, row_at, page, pos}

abbrev pub zeros : ℕ → Text
zeros zero = []
zeros (suc n) = 0 ∷ zeros n

length-zeros : (n : ℕ) → length (zeros n) ≡ n
length-zeros zero = refl
length-zeros (suc n) = ap suc (length-zeros n)

-- The first 32 bytes, filled up with zeros.
abbrev pub digest : Text → Text
digest t = take 32 (map (λ b. b % 256) t ++ zeros 32)

abbrev pub encode : Text → Text
encode [] = []
encode (x ∷ xs) = x ∷ x ∷ encode xs

abbrev pub decode : Text → Option Text
decode [] = some []
decode (x ∷ []) = none
decode (x ∷ y ∷ xs) = Option.map (◌∷◌ x) (decode xs)

pub length-digest : (t : Text) → length (digest t) ≡ 32
length-digest t = omega (
  arith,
  length-take 32 (map (λ b. b % 256) t ++ zeros 32),
  length-append (map (λ b. b % 256) t) (zeros 32),
)

IsBytes-zeros : (n : ℕ) → IsBytes (zeros n)
IsBytes-zeros zero = tt
IsBytes-zeros (suc n) = (omega arith, IsBytes-zeros n)

IsBytes-append : (s t : Text) → IsBytes t → IsBytes (map (λ b. b % 256) s ++ t)
IsBytes-append [] t h = h
IsBytes-append (x ∷ s) t h = (omega arith, IsBytes-append s t h)

IsBytes-take : (n : ℕ) (t : Text) → IsBytes t → IsBytes (take n t)
IsBytes-take zero t h = tt
IsBytes-take (suc n) [] h = tt
IsBytes-take (suc n) (x ∷ t) h = (h.0, IsBytes-take n t h.1)

pub digest-IsBytes : (t : Text) → IsBytes (digest t)
digest-IsBytes t = IsBytes-take 32 _ (IsBytes-append t (zeros 32) (IsBytes-zeros 32))

pub length-encode : (t : Text) → length (encode t) ≡ 2 * length t
length-encode [] = refl
length-encode (x ∷ xs) = omega (arith, length-encode xs)

pub decode-encode : (t : Text) → decode (encode t) ≡ some t
decode-encode [] = refl
decode-encode (x ∷ xs) = ap (Option.map (◌∷◌ x)) (decode-encode xs)

abbrev pub toy_crypto : Crypto
toy_crypto = record {
  sha256 = digest;
  hex_encode = encode;
  hex_decode = decode;
  sha256_length = length-digest;
  sha256_bytes = digest-IsBytes;
  hex_length = length-encode;
  hex_decode_encode = decode-encode;
}

pub all_read : (rows : List AuditEntry) → AreRead (map ok rows) rows
all_read [] = tt
all_read (e ∷ rows) = (refl, all_read rows)

abbrev pub list_sqlite : Sqlite
list_sqlite = record {
  Db = List AuditEntry;
  rows = λ d. d;
  transaction = λ d. ok d;
  select_last = λ d. ok (Option.map id_and_hash (last? d));
  select_all = λ d. ok (map ok d);
  select_hashes = λ d. ok (map (λ e. e.entry_hash) d);
  select_by_id = λ id d. ok (row_at id d);
  select_newest = λ d. ok (last? d);
  select_page = λ limit offset d. ok (page limit offset d);
  select_count = λ d. ok (pos (length d));
  insert_row = λ e d. ok (d ++ e ∷ []);
  commit = λ d. ok d;
  transaction_rows = λ d t h. sym (ok-injective h);
  select_last_rows = λ d o h. sym (ok-injective h);
  select_all_rows = λ d l h. rw (← ok-injective h) (all_read d);
  select_hashes_rows = λ d l h. sym (ok-injective h);
  select_by_id_rows = λ id d o h. sym (ok-injective h);
  select_newest_rows = λ d o h. sym (ok-injective h);
  select_page_rows = λ limit offset d l h. sym (ok-injective h);
  select_count_rows = λ d n h. sym (ok-injective h);
  insert_row_rows = λ e d t a h. sym (ok-injective h);
  commit_rows = λ d t h. sym (ok-injective h);
}
