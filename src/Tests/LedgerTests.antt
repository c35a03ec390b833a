-- ===== src/Tests/LedgerTests.antt =====
-- ledger.rs on a short trail.
use syntropy.Prelude.{
  text_eq, ◌≡◌, refl, ◌↔◌, true, false, none, List, [], ◌∷◌, ◌++◌, lit, ok, err, ◌⊎◌, map,
}
use syntropy.Prelude.{some}
use syntropy.Security.Ledger.Readers.{get_latest_entry, get_entry, count}
use syntropy.Security.Ledger.Database.{id_eq}
use syntropy.Security.Ledger.Database.{pos, AuditEntry, lock_error}
use syntropy.Security.Ledger.{
  verify_read, next, id_eq, to_be_bytes, preimage, compute_entry_hash, hash_payload, verify_rows,
  next_link, new_entry, append_tx, append, append_with_hash, verify_integrity, genesis_hash,
}
use syntropy.Security.Ledger.Chain.{IsChained}
use syntropy.Security.Ledger.Integrity.{clean, verify_integrity_iff, append-IsChained}
use syntropy.Security.Ledger.Tamper.{
  HaveCollision, hashed, shifted, tamper_evident, verify_rows-shifted,
}
use syntropy.Tests.Samples.{toy_crypto, list_sqlite}

program : Unit {0}
unfolding text_eq next id_eq to_be_bytes preimage compute_entry_hash hash_payload verify_rows
    next_link new_entry append_tx append append_with_hash verify_read verify_integrity
program = tt

abbrev first : AuditEntry
first = record {
  entry_id = pos 1;
  timestamp = lit "t1";
  agent_id = lit "alpha";
  action_type = lit "fs_read";
  payload_hash = hash_payload toy_crypto (lit "p");
  previous_hash = genesis_hash;
  entry_hash =
      compute_entry_hash toy_crypto (pos 1) (lit "t1") (lit "alpha") (lit "fs_read")
        (hash_payload toy_crypto (lit "p")) genesis_hash;
}

abbrev second : AuditEntry
second = record {
  entry_id = pos 2;
  timestamp = lit "t2";
  agent_id = lit "beta";
  action_type = lit "exec";
  payload_hash = hash_payload toy_crypto (lit "q");
  previous_hash = first.entry_hash;
  entry_hash =
      compute_entry_hash toy_crypto (pos 2) (lit "t2") (lit "beta") (lit "exec")
        (hash_payload toy_crypto (lit "q")) first.entry_hash;
}

abbrev trail : List AuditEntry
trail = first ∷ second ∷ []

append_runs :
    append toy_crypto list_sqlite false (first ∷ []) (lit "t2") (lit "beta") (lit "exec") (lit "q")
    ≡ (ok second, trail)
unfolding program
append_runs = refl

append_locked :
    append toy_crypto list_sqlite true trail (lit "t3") (lit "beta") (lit "exec") (lit "q")
    ≡ (err lock_error, trail)
unfolding program
append_locked = refl

verify_runs : verify_integrity toy_crypto list_sqlite false trail ≡ ok (clean toy_crypto trail)
unfolding program
verify_runs = refl

-- A row taken out of the middle is found.
verify_gap : (verify_rows toy_crypto (pos 1) genesis_hash 0 none (second ∷ [])).is_valid ≡ false
unfolding program
verify_gap = refl

trail-IsChained : IsChained toy_crypto (pos 1) genesis_hash trail
unfolding next
trail-IsChained = (refl, refl, refl, (refl, refl, refl, tt))

verify_integrity_iff_example :
    (((clean toy_crypto trail).is_valid ≡ true) ↔ IsChained toy_crypto (pos 1) genesis_hash trail)
    × ((clean toy_crypto trail).is_valid ≡ true → clean toy_crypto trail ≡ clean toy_crypto trail)
verify_integrity_iff_example =
    verify_integrity_iff toy_crypto list_sqlite false trail (clean toy_crypto trail) verify_runs

append-IsChained_example :
    (trail ≡ (first ∷ []) ++ second ∷ [])
    × IsChained toy_crypto (pos 1) genesis_hash trail
    × (second.agent_id ≡ lit "beta")
    × (second.payload_hash ≡ hash_payload toy_crypto (lit "q"))
    × (second.action_type ≡ lit "exec")
append-IsChained_example =
    append-IsChained toy_crypto list_sqlite false (first ∷ []) trail (lit "t2") (lit "beta")
      (lit "exec") (lit "q") second append_runs (refl, refl, refl, tt)

tamper_evident_example :
    ((genesis_hash ≡ genesis_hash) × (map hashed trail ≡ map hashed trail))
    ⊎ HaveCollision toy_crypto trail trail
tamper_evident_example =
    tamper_evident toy_crypto (pos 1) genesis_hash genesis_hash trail trail refl refl
      trail-IsChained trail-IsChained refl refl

verify_rows-shifted_example :
    verify_rows toy_crypto
      (pos 1)
      genesis_hash
      0
      none
      (first ∷ shifted toy_crypto second (lit "be") (lit "ta") ∷ [])
    ≡ verify_rows toy_crypto (pos 1) genesis_hash 0 none trail
verify_rows-shifted_example =
    verify_rows-shifted toy_crypto (pos 1) genesis_hash 0 none (first ∷ []) second [] (lit "be")
      (lit "ta") refl

latest_reads : get_latest_entry list_sqlite false trail ≡ ok (some second)
unfolding get_latest_entry
latest_reads = refl

entry_reads : get_entry list_sqlite false trail second.entry_id ≡ ok (some second)
unfolding get_entry id_eq
entry_reads = refl

counts_one : count list_sqlite false (first ∷ []) ≡ ok 1
unfolding count
counts_one = refl

counts_two : count list_sqlite false trail ≡ ok 2
unfolding count
counts_two = refl
