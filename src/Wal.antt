-- ===== src/Wal.antt =====
-- src/wal/wal_manager.h and wal_manager.cpp: the write-ahead log. The log is its file's bytes, and
-- integers are stored as on a little-endian machine. The mutex makes a method one step. The
-- visitor's calls are the list of records that it is given.
pub mod Round
pub mod Replay
use adaptive_query_accelerat.Common.Arrays.{to_bytes, of_bytes}
use adaptive_query_accelerat.Common.{
  ℕ, zero, suc, ◌+◌, ◌*◌, ◌/◌, ◌%◌, ◌^◌, Option, none, some, List, [], ◌∷◌, ◌++◌, ltb, ◌==◌,
  if◌then◌else◌, u16, u32, u64, length, take,
}

pub record WalRecord : Type 0 where
  pub lsn : ℕ
  pub key : List ℕ
  pub value : List ℕ

pub record WalManager : Type 0 where
  pub log : List ℕ
  pub current_lsn : ℕ

infixl 5 ◌>>=◌
abbrev pub ◌>>=◌ {ℓ κ} : {A : Type ℓ} {B : Type κ} → Option A → (A → Option B) → Option B
none >>= f = none
some a >>= f = f a

-- Exclusive or, bit by bit.
unfoldable pub xor : ℕ → ℕ → ℕ → ℕ
xor zero a b = 0
xor (suc bits) a b = (a + b) % 2 + 2 * xor bits (a / 2) (b / 2)

-- `for (uint8_t b : bytes) checksum += b;`
unfoldable pub add_bytes : ℕ → List ℕ → ℕ
add_bytes checksum [] = checksum
add_bytes checksum (b ∷ bs) = add_bytes (u32 (checksum + b)) bs

unfoldable pub calculate_checksum : ℕ → List ℕ → List ℕ → ℕ
unfolding xor add_bytes
calculate_checksum lsn key value =
    add_bytes (add_bytes (xor 32 (xor 32 0 (u32 lsn)) (u32 (lsn / 2 ^ 32))) key) value

-- What `append` writes for a record; the lengths are cut to 16 bits.
unfoldable pub encode : WalRecord → List ℕ
encode r =
    to_bytes 4 (calculate_checksum r.lsn r.key r.value)
    ++ to_bytes 8 r.lsn
    ++ to_bytes 2 (u16 (length r.key))
    ++ to_bytes 2 (u16 (length r.value))
    ++ take (u16 (length r.key)) r.key
    ++ take (u16 (length r.value)) r.value

unfoldable pub append : WalManager → List ℕ → List ℕ → ℕ × WalManager
append w key value =
    let lsn = u64 (w.current_lsn + 1) in
    (
      lsn,
      record {
        log = w.log ++ encode (record { lsn = lsn; key = key; value = value });
        current_lsn = lsn;
      },
    )

-- `reader.read(buffer, n)`: the bytes read and those left, or a failure at the end of the file.
unfoldable pub read : ℕ → List ℕ → Option (List ℕ × List ℕ)
read zero bs = some ([], bs)
read (suc n) [] = none
read (suc n) (b ∷ bs) = do (xs, rest) ← read n bs; some (b ∷ xs, rest)

abbrev pub check_record : ℕ → WalRecord → List ℕ → Option (WalRecord × List ℕ)
check_record stored r rest =
    if calculate_checksum r.lsn r.key r.value == stored then some (r, rest) else none

-- The reads of one round, from the last on; each gets the field before it and the bytes left.
abbrev pub after_value : List ℕ → List ℕ → List ℕ → List ℕ × List ℕ → Option (WalRecord × List ℕ)
after_value stored lsn key (value, rest) =
    check_record (of_bytes stored) (record { lsn = of_bytes lsn; key = key; value = value }) rest

abbrev pub after_key : List ℕ → List ℕ → List ℕ → List ℕ × List ℕ → Option (WalRecord × List ℕ)
after_key stored lsn v_len (key, bs) = read (of_bytes v_len) bs >>= after_value stored lsn key

abbrev pub after_v_len : List ℕ → List ℕ → List ℕ → List ℕ × List ℕ → Option (WalRecord × List ℕ)
after_v_len stored lsn k_len (v_len, bs) = read (of_bytes k_len) bs >>= after_key stored lsn v_len

abbrev pub after_k_len : List ℕ → List ℕ → List ℕ × List ℕ → Option (WalRecord × List ℕ)
after_k_len stored lsn (k_len, bs) = read 2 bs >>= after_v_len stored lsn k_len

abbrev pub after_lsn : List ℕ → List ℕ × List ℕ → Option (WalRecord × List ℕ)
after_lsn stored (lsn, bs) = read 2 bs >>= after_k_len stored lsn

abbrev pub after_stored : List ℕ × List ℕ → Option (WalRecord × List ℕ)
after_stored (stored, bs) = read 8 bs >>= after_lsn stored

-- One round of the loop of `replay`: `none` is each of its breaks.
unfoldable pub read_record : List ℕ → Option (WalRecord × List ℕ)
read_record bs = read 4 bs >>= after_stored

-- The rest of a round and the rounds after it.
abbrev pub after_record :
    (List ℕ → ℕ → List WalRecord × ℕ) → ℕ → Option (WalRecord × List ℕ) → List WalRecord × ℕ
after_record again current none = ([], current)
after_record again current (some (r, rest)) =
    let (visited, last) = again rest (if ltb current r.lsn then r.lsn else current) in
    (r ∷ visited, last)

-- The loop, with the records that the visitor got and the last `current_lsn_`. A round reads at
-- least 16 bytes, and the fuel is the number of bytes.
unfoldable pub replay_loop : ℕ → List ℕ → ℕ → List WalRecord × ℕ
replay_loop zero bs current = ([], current)
replay_loop (suc fuel) [] current = ([], current)
replay_loop (suc fuel) (b ∷ bs) current =
    after_record (replay_loop fuel) current (read_record (b ∷ bs))

-- The number of records is the result of `replay`.
unfoldable pub replay : WalManager → List WalRecord × ℕ × WalManager
replay w =
    let (visited, last) = replay_loop (length w.log) w.log w.current_lsn in
    (visited, length visited, record w { current_lsn = last })

abbrev pub truncate : WalManager → WalManager
truncate w = record { log = []; current_lsn = 0 }
