-- ===== src/Wal/Replay.antt =====
-- The replay of a log that `append` wrote gives back its records.
use adaptive_query_accelerat.Common.Arrays.{to_bytes}
use adaptive_query_accelerat.Common.{
  none, ℕ, zero, suc, ◌+◌, ◌^◌, ◌≤◌, ◌<◌, ◌≡◌, refl, sym, ◌∙◌, ap, some, List, [], ◌∷◌, ◌++◌,
  append_assoc, append-nil, arith, ltb, if◌then◌else◌, u64, length, length-append, All, All-append,
}
use adaptive_query_accelerat.Wal.{
  WalRecord, encode, append, read_record, after_record, replay_loop, replay,
}
use adaptive_query_accelerat.Wal.Round.{Fits, read_record-encode}

-- The log of the records.
unfoldable pub encode_all : List WalRecord → List ℕ
encode_all [] = []
encode_all (r ∷ rs) = encode r ++ encode_all rs

-- The last log sequence number that the loop leaves.
unfoldable pub last_lsn : ℕ → List WalRecord → ℕ
last_lsn current [] = current
last_lsn current (r ∷ rs) = last_lsn (if ltb current r.lsn then r.lsn else current) rs

encode-cons : (r : WalRecord) → (b : ℕ) × (bs : List ℕ) × (encode r ≡ b ∷ bs)
unfolding encode to_bytes
encode-cons r = (_, _, refl)

loop_step :
    (fuel b : ℕ) (bs : List ℕ) (current : ℕ) (r : WalRecord) (rest : List ℕ)
    {out : List WalRecord × ℕ}
    → read_record (b ∷ bs) ≡ some (r, rest)
    → replay_loop fuel rest (if ltb current r.lsn then r.lsn else current) ≡ out
    → replay_loop (suc fuel) (b ∷ bs) current ≡ (r ∷ out.0, out.1)
unfolding replay_loop
loop_step fuel b bs current r rest found next =
    ap (after_record (replay_loop fuel) current) found ∙ ap (λ o. (r ∷ o.0, o.1)) next

replay_loop-encode_all :
    (fuel : ℕ) (rs : List WalRecord) (current : ℕ)
    → length rs ≤ fuel
    → All Fits rs
    → replay_loop fuel (encode_all rs) current ≡ (rs, last_lsn current rs)
unfolding replay_loop encode_all last_lsn
replay_loop-encode_all zero [] current h f = refl
replay_loop-encode_all zero (r ∷ rs) current h f = absurd (omega arith)
replay_loop-encode_all (suc fuel) [] current h f = refl
replay_loop-encode_all (suc fuel) (r ∷ rs) current h f =
    let (b, bs, e) = encode-cons r in
    ap (λ l. replay_loop (suc fuel) (l ++ encode_all rs) current) e
    ∙ loop_step fuel b (bs ++ encode_all rs) current r (encode_all rs)
        (ap (λ l. read_record (l ++ encode_all rs)) (sym e)
          ∙ read_record-encode r (encode_all rs) f.0)
        (replay_loop-encode_all fuel rs (if ltb current r.lsn then r.lsn else current) (omega arith)
          f.1)

length-encode_all : (rs : List WalRecord) → length rs ≤ length (encode_all rs)
unfolding encode_all
length-encode_all [] = omega arith
length-encode_all (r ∷ rs) =
    let (b, bs, e) = encode-cons r in
    rw (e, length-append bs (encode_all rs)) (let ih = length-encode_all rs in omega arith)

pub replay-encode_all :
    (rs : List WalRecord) (current : ℕ)
    → All Fits rs
    → replay (record { log = encode_all rs; current_lsn = current })
      ≡ (rs, length rs, record { log = encode_all rs; current_lsn = last_lsn current rs })
unfolding replay
replay-encode_all rs current f =
    rw (replay_loop-encode_all (length (encode_all rs)) rs current (length-encode_all rs) f) refl

pub encode_all-append :
    (rs : List WalRecord) (r : WalRecord) → encode_all rs ++ encode r ≡ encode_all (rs ++ r ∷ [])
unfolding encode_all
encode_all-append [] r = rw append-nil refl
encode_all-append (q ∷ rs) r =
    append_assoc (encode q) (encode_all rs) (encode r)
    ∙ ap (λ l. encode q ++ l) (encode_all-append rs r)

-- The record that an append adds to the log.
abbrev pub appended : ℕ → List ℕ → List ℕ → WalRecord
appended current key value = record { lsn = u64 (current + 1); key = key; value = value }

-- To a log of records that fit their fields, `append` a key and a value of less than 64 KB each:
-- the call returns the next sequence number, and the replay of the log, by an object that has any
-- sequence number, visits the old records and then the new one, returns how many they are, changes
-- no byte and leaves the greatest number met.
pub append-replay :
    (rs : List WalRecord) (current start : ℕ) (key value : List ℕ)
    → All Fits rs
    → length key < 2 ^ 16
    → length value < 2 ^ 16
    → ((append (record { log = encode_all rs; current_lsn = current }) key value).0
        ≡ u64 (current + 1))
      × (replay (record {
        log = (append (record { log = encode_all rs; current_lsn = current }) key value).1.log;
        current_lsn = start;
      })
          ≡ (
            rs ++ appended current key value ∷ [],
            length (rs ++ appended current key value ∷ []),
            record {
              log = encode_all (rs ++ appended current key value ∷ []);
              current_lsn = last_lsn start (rs ++ appended current key value ∷ []);
            },
          ))
unfolding append
append-replay rs current start key value f k v =
    let r = appended current key value in
    let fits : Fits r = record { lsn = omega arith; key = k; value = v } in
    (
      refl,
      ap (λ l. replay (record { log = l; current_lsn = start })) (encode_all-append rs r)
          ∙ replay-encode_all (rs ++ r ∷ []) start (All-append Fits rs (r ∷ []) f (fits, tt)),
    )

replay_loop-broken :
    (fuel : ℕ) (rs : List WalRecord) (current b : ℕ) (bs : List ℕ)
    → length rs < fuel
    → All Fits rs
    → read_record (b ∷ bs) ≡ none
    → replay_loop fuel (encode_all rs ++ b ∷ bs) current ≡ (rs, last_lsn current rs)
unfolding replay_loop encode_all last_lsn
replay_loop-broken zero rs current b bs h f broken = absurd (omega arith)
replay_loop-broken (suc fuel) [] current b bs h f broken =
    ap (after_record (replay_loop fuel) current) broken
replay_loop-broken (suc fuel) (r ∷ rs) current b bs h f broken =
    let (c, cs, e) = encode-cons r in
    let rest = encode_all rs ++ b ∷ bs in
    ap (λ l. replay_loop (suc fuel) l current) (append_assoc (encode r) (encode_all rs) (b ∷ bs))
    ∙ ap (λ l. replay_loop (suc fuel) (l ++ rest) current) e
    ∙ loop_step fuel c (cs ++ rest) current r rest
        (ap (λ l. read_record (l ++ rest)) (sym e) ∙ read_record-encode r rest f.0)
        (replay_loop-broken fuel rs (if ltb current r.lsn then r.lsn else current) b bs
          (omega arith) f.1 broken)

-- If the bytes behind the whole records of a log do not read as a record, torn or corrupt, then the
-- replay visits exactly the whole records, returns how many they are, and changes no byte.
pub replay-broken :
    (rs : List WalRecord) (start b : ℕ) (bs : List ℕ)
    → All Fits rs
    → read_record (b ∷ bs) ≡ none
    → replay (record { log = encode_all rs ++ b ∷ bs; current_lsn = start })
      ≡ (rs, length rs, record { log = encode_all rs ++ b ∷ bs; current_lsn = last_lsn start rs })
unfolding replay
replay-broken rs start b bs f broken =
    let log = encode_all rs ++ b ∷ bs in
    let enough : length rs < length log =
      omega (arith, length-append (encode_all rs) (b ∷ bs), length-encode_all rs) in
    rw (replay_loop-broken (length log) rs start b bs enough f broken) refl
