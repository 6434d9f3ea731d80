-- ===== src/Tests/Formats.antt =====
-- The properties of the B+ tree pages and of the log at concrete inputs.
use adaptive_query_accelerat.Common.{
  ◌++◌, u64, ℕ, ◌+◌, ◌*◌, ◌≡◌, refl, none, [], ◌∷◌, true, arith, ltb,
}
use adaptive_query_accelerat.BPlusTree.{
  LeafPage, InternalPage, pos, minus_one, leaf_page, internal_page, lookup,
}
use adaptive_query_accelerat.BPlusTree.Leaf.{Inserts, insert-Inserts}
use adaptive_query_accelerat.BPlusTree.Internal.{IsChild, lookup-IsChild}
use adaptive_query_accelerat.Wal.{WalRecord, append, replay, read, read_record}
use adaptive_query_accelerat.Wal.Replay.{
  appended, encode_all, last_lsn, append-replay, replay-broken,
}

abbrev leaf : LeafPage ℕ ℕ
leaf = record {
  header = record {
    page_type = leaf_page;
    lsn = pos 0;
    size = 2;
    max_size = 4;
    parent_page_id = minus_one;
    page_id = pos 3;
  };
  next_page_id = minus_one;
  array = λ i. (10 * (i + 1), i);
}

ltb_transitive : (x y z : ℕ) → ltb x y ≡ true → ltb y z ≡ true → ltb x z ≡ true
ltb_transitive x y z p q = ground arith

insert-Inserts_example : Inserts ltb 15 7 leaf
insert-Inserts_example = insert-Inserts ltb 15 7 leaf ltb_transitive (λ i j a b. ground arith)

abbrev internal : InternalPage ℕ ℕ
internal = record {
  header = record {
    page_type = internal_page;
    lsn = pos 0;
    size = 3;
    max_size = 4;
    parent_page_id = minus_one;
    page_id = pos 5;
  };
  array = λ i. (10 * i, i + 100);
}

lookup-IsChild_example :
    (child : ℕ) × IsChild ltb 15 internal child
    × (lookup ltb 0 15 internal ≡ (internal.array child).1)
lookup-IsChild_example =
    lookup-IsChild ltb ltb_transitive internal (λ i j a b c. ground arith) (omega arith) 0 15

abbrev logged : WalRecord
logged = record { lsn = 1; key = 7 ∷ []; value = 1 ∷ 2 ∷ [] }

append-replay_example :
    ((append (record { log = encode_all (logged ∷ []); current_lsn = 1 }) (8 ∷ []) (3 ∷ [])).0
      ≡ u64 2)
    × (replay (record {
      log =
          (append
            (record { log = encode_all (logged ∷ []); current_lsn = 1 })
            (8 ∷ [])
            (3 ∷ [])).1.log;
      current_lsn = 0;
    })
        ≡ (
          logged ∷ appended 1 (8 ∷ []) (3 ∷ []) ∷ [],
          2,
          record {
            log = encode_all (logged ∷ appended 1 (8 ∷ []) (3 ∷ []) ∷ []);
            current_lsn = last_lsn 0 (logged ∷ appended 1 (8 ∷ []) (3 ∷ []) ∷ []);
          },
        ))
append-replay_example =
    append-replay (logged ∷ []) 1 0 (8 ∷ []) (3 ∷ [])
      (record { lsn = omega arith; key = omega arith; value = omega arith }, tt) (omega arith)
      (omega arith)

torn : read_record (9 ∷ 9 ∷ []) ≡ none
unfolding read_record read
torn = refl

replay-broken_example :
    replay (record { log = encode_all (logged ∷ []) ++ 9 ∷ 9 ∷ []; current_lsn = 0 }) ≡ (
      logged ∷ [],
      1,
      record {
        log = encode_all (logged ∷ []) ++ 9 ∷ 9 ∷ [];
        current_lsn = last_lsn 0 (logged ∷ []);
      },
    )
replay-broken_example =
    replay-broken (logged ∷ []) 0 9 (9 ∷ [])
      (record { lsn = omega arith; key = omega arith; value = omega arith }, tt) torn
