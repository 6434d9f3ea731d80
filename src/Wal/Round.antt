-- ===== src/Wal/Round.antt =====
-- One round of the replay reads back the record that `append` wrote.
use adaptive_query_accelerat.Common.Arrays.{
  to_bytes, of_bytes, values_of, of_bytes-to_bytes, length-to_bytes,
}
use adaptive_query_accelerat.Common.{
  ℕ, zero, suc, true, ◌+◌, ◌*◌, ◌/◌, ◌^◌, ◌<◌, ◌≡◌, refl, ◌∙◌, ap, subst, Option, some, List, [],
  ◌∷◌, ◌++◌, append_assoc, arith, ◌==◌, u16, u32, length, take, take_all,
}
use adaptive_query_accelerat.Wal.{
  WalRecord, encode, read, read_record, check_record, after_stored, after_lsn, after_k_len,
  after_v_len, after_key, after_value, calculate_checksum, xor, add_bytes, ◌>>=◌,
}

read-append : (xs ys : List ℕ) → read (length xs) (xs ++ ys) ≡ some (xs, ys)
unfolding read
read-append [] ys = refl
read-append (x ∷ xs) ys = rw (read-append xs ys)

read-to_bytes : (k n : ℕ) (ys : List ℕ) → read k (to_bytes k n ++ ys) ≡ some (to_bytes k n, ys)
read-to_bytes k n ys =
    subst (λ j. read j (to_bytes k n ++ ys) ≡ some (to_bytes k n, ys)) (length-to_bytes k n)
      (read-append (to_bytes k n) ys)

-- A record that the format holds as it is.
pub record Fits (r : WalRecord) : Type 0 where
  pub lsn : r.lsn < 2 ^ 64
  pub key : length r.key < 2 ^ 16
  pub value : length r.value < 2 ^ 16

unfoldable power : ℕ → ℕ
power zero = 1
power (suc bits) = 2 * power bits

xor-lt : (bits a b : ℕ) → xor bits a b < power bits
unfolding xor power
xor-lt zero a b = omega arith
xor-lt (suc bits) a b = let ih = xor-lt bits (a / 2) (b / 2) in omega arith

add_bytes-lt : (checksum : ℕ) (bs : List ℕ) → checksum < 2 ^ 32 → add_bytes checksum bs < 2 ^ 32
unfolding add_bytes
add_bytes-lt checksum [] h = h
add_bytes-lt checksum (b ∷ bs) h = add_bytes-lt (u32 (checksum + b)) bs (omega arith)

checksum-lt : (lsn : ℕ) (key value : List ℕ) → calculate_checksum lsn key value < 2 ^ 32
unfolding calculate_checksum power
checksum-lt lsn key value =
    let mixed = xor 32 (xor 32 0 (u32 lsn)) (u32 (lsn / 2 ^ 32)) in
    let small : mixed < 2 ^ 32 = xor-lt 32 (xor 32 0 (u32 lsn)) (u32 (lsn / 2 ^ 32)) in
    add_bytes-lt (add_bytes mixed key) value (add_bytes-lt mixed key small)

take-u16 : (xs : List ℕ) → length xs < 2 ^ 16 → take (u16 (length xs)) xs ≡ xs
take-u16 xs h = take_all (u16 (length xs)) xs (omega arith)

-- The length that is stored reads the bytes that were written.
read_field :
    (xs rest : List ℕ)
    → length xs < 2 ^ 16
    → read (of_bytes (to_bytes 2 (u16 (length xs)))) (xs ++ rest) ≡ some (xs, rest)
unfolding values_of
read_field xs rest h =
    let kept : u16 (length xs) ≡ length xs = omega arith in
    let stored = of_bytes-to_bytes 2 (u16 (length xs)) (omega arith) in
    rw (stored, kept) (read-append xs rest)

check_record-stored :
    (r : WalRecord) (rest : List ℕ)
    → Fits r
    → check_record
        (of_bytes (to_bytes 4 (calculate_checksum r.lsn r.key r.value)))
        (record { lsn = of_bytes (to_bytes 8 r.lsn); key = r.key; value = r.value })
        rest
      ≡ some (r, rest)
unfolding values_of
check_record-stored r rest f =
    let c = calculate_checksum r.lsn r.key r.value in
    let small = checksum-lt r.lsn r.key r.value in
    let stored = of_bytes-to_bytes 4 c (omega arith) in
    let lsn = of_bytes-to_bytes 8 r.lsn (let b = f.lsn in omega arith) in
    let same : c == c ≡ true = ground arith in rw (stored, lsn, same) refl

-- What one round reads, field by field.
read_record-fields :
    (cb lb kb vb ks vs rest : List ℕ) (out : Option (WalRecord × List ℕ))
    → ((ys : List ℕ) → read 4 (cb ++ ys) ≡ some (cb, ys))
    → ((ys : List ℕ) → read 8 (lb ++ ys) ≡ some (lb, ys))
    → ((ys : List ℕ) → read 2 (kb ++ ys) ≡ some (kb, ys))
    → ((ys : List ℕ) → read 2 (vb ++ ys) ≡ some (vb, ys))
    → read (of_bytes kb) (ks ++ (vs ++ rest)) ≡ some (ks, vs ++ rest)
    → read (of_bytes vb) (vs ++ rest) ≡ some (vs, rest)
    → check_record (of_bytes cb) (record { lsn = of_bytes lb; key = ks; value = vs }) rest ≡ out
    → read_record (cb ++ (lb ++ (kb ++ (vb ++ (ks ++ (vs ++ rest)))))) ≡ out
unfolding read_record
read_record-fields cb lb kb vb ks vs rest out c l k v key value checked =
    ap (λ o. o >>= after_stored) (c (lb ++ (kb ++ (vb ++ (ks ++ (vs ++ rest))))))
    ∙ ap (λ o. o >>= after_lsn cb) (l (kb ++ (vb ++ (ks ++ (vs ++ rest)))))
    ∙ ap (λ o. o >>= after_k_len cb lb) (k (vb ++ (ks ++ (vs ++ rest))))
    ∙ ap (λ o. o >>= after_v_len cb lb kb) (v (ks ++ (vs ++ rest)))
    ∙ ap (λ o. o >>= after_key cb lb vb) key
    ∙ ap (λ o. o >>= after_value cb lb ks) value
    ∙ checked

pub read_record-encode :
    (r : WalRecord) (rest : List ℕ) → Fits r → read_record (encode r ++ rest) ≡ some (r, rest)
unfolding encode
read_record-encode r rest f =
    let cb = to_bytes 4 (calculate_checksum r.lsn r.key r.value) in
    let lb = to_bytes 8 r.lsn in
    let kb = to_bytes 2 (u16 (length r.key)) in
    let vb = to_bytes 2 (u16 (length r.value)) in
    let fields =
      read_record-fields cb lb kb vb r.key r.value rest (some (r, rest))
        (read-to_bytes 4 (calculate_checksum r.lsn r.key r.value)) (read-to_bytes 8 r.lsn)
        (read-to_bytes 2 (u16 (length r.key))) (read-to_bytes 2 (u16 (length r.value)))
        (read_field r.key (r.value ++ rest) f.key) (read_field r.value rest f.value)
        (check_record-stored r rest f) in
    let written : encode r ++ rest ≡ cb ++ (lb ++ (kb ++ (vb ++ (r.key ++ (r.value ++ rest))))) =
      rw (take-u16 r.key f.key, take-u16 r.value f.value) (simp append_assoc) in
    ap read_record written ∙ fields
