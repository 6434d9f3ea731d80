-- ===== src/Index.antt =====
-- src/index/index.h and index.cpp: the index from keys to record ids, and its rebuilding from a
-- scan.
pub mod Rebuild
use mathlib.Core.List.{List-discrete}
use adaptive_query_accelerat.Common.{ℕ, Option, List, [], ◌∷◌, length, ℕ_discrete}
use adaptive_query_accelerat.Common.Maps.{Map, find, assign}
use adaptive_query_accelerat.MappedFile.{Result, ok, ◌>>=◌}
use adaptive_query_accelerat.Page.{RecordId}
use adaptive_query_accelerat.PageCache.Interface.{Policies}
use adaptive_query_accelerat.StorageEngine.{StorageEngine}
use adaptive_query_accelerat.StorageReader.{Record, scan}

-- `operator==` of the byte vectors.
abbrev pub bytes_discrete : Discrete (List ℕ)
bytes_discrete = List-discrete ℕ_discrete

pub record Index : Type 0 where
  pub map : Map (List ℕ) RecordId

abbrev pub empty : Index
empty = record { map = [] }

unfoldable pub insert : List ℕ → RecordId → Index → Index
insert key rid i = record { map = assign bytes_discrete key rid i.map }

unfoldable pub lookup : List ℕ → Index → Option RecordId
lookup key i = find bytes_discrete key i.map

abbrev pub size : Index → ℕ
size i = length i.map

-- The calls of the scan's callback.
unfoldable pub insert_all : List (RecordId × Record) → Index → Index
unfolding insert
insert_all [] i = i
insert_all ((rid, r) ∷ visited) i = insert_all visited (insert r.key rid i)

-- The index has been cleared before the scan starts. What an exception of the scan leaves in the
-- index is not modelled: the caller is the database's constructor, which then fails.
unfoldable pub rebuild :
    {policies : Policies} → StorageEngine policies → Result (StorageEngine policies) Index
rebuild e = do (visited, e') ← scan e; ok (insert_all visited empty) e'
