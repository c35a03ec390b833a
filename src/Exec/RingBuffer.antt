-- ===== src/Exec/RingBuffer.antt =====
-- pty_mux.rs: `RingBuffer`, the latest output of a screen.
pub mod Latest
use syntropy.Prelude.{
  Option-cases, ◌^◌, ℕ, zero, suc, ◌≡◌, ◌≢◌, ◌↔◌, ◌⊎◌, inl, inr, ◌≤◌, ◌<◌, ◌+◌, ◌-◌, ◌*◌, ◌%◌, ◌/◌,
  min, max, refl, sym, ap, ◌∙◌, Bool, true, false, not, ◌&&◌, ◌||◌, Option, none, some, List, [],
  ◌∷◌, ◌++◌, map, Text, lit, text_eq, text_eq_iff, text_eq_refl, Dict, lookup, insert, remove,
  Result, ok, err, ◌>>=◌, ◌>>◌, guard, with_ok, Result-cases, Bool-cases, ok-injective,
  if◌then◌else◌, length, take, drop, get_elem?, ltb, leb, ◌==◌, ==_iff, lookup-insert,
  lookup-remove, lookup-insert_self, dict_laws, arith,
}

pub record RingBuffer : Type 0 where
  pub capacity : ℕ
  pub buffer : Text

unfoldable pub new_buffer : ℕ → RingBuffer
new_buffer capacity = record { capacity = max capacity 1; buffer = [] }

unfoldable pub write : Text → RingBuffer → RingBuffer
write data_bytes r =
    let overflow = (length r.buffer + length data_bytes) - r.capacity in
    if leb r.capacity (length data_bytes)
    then record r { buffer = drop (length data_bytes - r.capacity) data_bytes }
    else record r {
      buffer = (if ltb 0 overflow then drop overflow r.buffer else r.buffer) ++ data_bytes;
    }
