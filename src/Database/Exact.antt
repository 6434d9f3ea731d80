-- ===== src/Database/Exact.antt =====
-- `get` where the engine sees every record.
use mathlib.Core.Option as CoreOption
use adaptive_query_accelerat.Common.{
  ℕ, ◌≡◌, inl, inr, sym, ◌∙◌, ap, Option, none, some, Option-cases, List, if_pos,
}
use adaptive_query_accelerat.MappedFile.{Result, ok, ◌>>=◌}
use adaptive_query_accelerat.Page.{RecordId}
use adaptive_query_accelerat.PageCache.Interface.{Policies}
use adaptive_query_accelerat.PageCache.View.{content}
use adaptive_query_accelerat.LruCache.Facts.{get-Gives, put-All}
use adaptive_query_accelerat.StorageEngine.{StorageEngine}
use adaptive_query_accelerat.StorageReader.{Record}
use adaptive_query_accelerat.StorageReader.Slots.{read_page}
use adaptive_query_accelerat.StorageReader.Lookup.{Holds, read_record-Looks}
use adaptive_query_accelerat.Index.{bytes_discrete, lookup}
use adaptive_query_accelerat.Database.{
  Database, get, get_cached, get_record, get_read, cached, in_database,
}
use adaptive_query_accelerat.Database.Fresh.{Store, Current, IsFresh}
use adaptive_query_accelerat.StorageReader.Lookup.{Holds}
use adaptive_query_accelerat.Index.{Index}

module _ {policies : Policies} where
  -- The index leads to the record of the store's value, if there is one.
  pub data Found (e : StorageEngine policies) (i : Index) (m : Store) (key : List ℕ) : Type 0 where
    absent : lookup key i ≡ none → m key ≡ none → Found e i m key
    present :
        (rid : RecordId) (r : Record)
        → lookup key i ≡ some rid
        → Holds (content e.cache) (rid, r)
        → r.key ≡ key
        → m key ≡ some r.value
        → Found e i m key

  abbrev Returns : Result (Database policies) (Option (List ℕ)) → Option (List ℕ) → Type 0
  Returns r o = (db' : Database policies) × (r ≡ ok o db')

  get_record-Found :
      (key : List ℕ) (db : Database policies) (m : Store)
      → IsFresh db m
      → Found db.engine db.index m key
      → Returns (get_record key db (lookup key db.index)) (m key)
  get_record-Found key db m fresh (absent gone none_there) =
      (db, ap (get_record key db) gone ∙ ap (λ o. ok o db) (sym none_there))
  get_record-Found key db m fresh (present rid r at_id held own right) =
      let looks = read_record-Looks db.engine rid fresh.served.ready fresh.served.readable in
      let (p, there, reads) = held in
      let found : some looks.result ≡ some (some r) =
        sym looks.found ∙ ap (λ o. read_page o rid.slot_id) there ∙ reads in
      let read : Database policies = record db { engine = looks.after } in
      let (c, returned, valid, current, at_hand) =
        put-All bytes_discrete none (Current m) (Current m) db.record_cache key r.value
          fresh.cache_valid fresh.cached (λ x other h. h) right in
      (
        record read { record_cache = c },
        ap (get_record key db) at_id
            ∙ ap (λ r. in_database db r >>= λ (o, db'). get_read key o db') looks.returned
            ∙ ap (λ o. get_read key o read) (CoreOption.some-injective looks.result (some r) found)
            ∙ if_pos (bytes_discrete r.key key) own _ _
            ∙ ap (λ o. cached read o >>= λ (x, db'). ok (some r.value) db') returned
            ∙ ap (λ o. ok o (record read { record_cache = c })) (sym right),
      )

  -- There `get` returns what the store has.
  pub get-Found :
      (key : List ℕ) (db : Database policies) (m : Store)
      → IsFresh db m
      → Found db.engine db.index m key
      → (db' : Database policies) × (get key db ≡ ok (m key) db')
  unfolding get
  get-Found key db m fresh found =
      let g =
        get-Gives bytes_discrete (Current m) db.record_cache key fresh.cache_valid fresh.cached in
      let used : Database policies = record db { record_cache = g.after } in
      let start = ap (get_cached key db) g.returned in
      elim (Option-cases g.result) [
        | inr (value, hit) ↦
            let (e, right, own, its) = g.source value hit in
            (
              used,
              start
                  ∙ ap (λ o. get_cached key db (some (g.after, o))) hit
                  ∙ ap (λ o. ok o used) (sym (ap m (sym own) ∙ right ∙ ap some its)),
            )
        | inl miss ↦
            let (db', rest) =
              get_record-Found key used m
                (record {
                  served = fresh.served;
                  writer = fresh.writer;
                  behind = fresh.behind;
                  cache_valid = g.valid;
                  cached = g.facts;
                })
                found in
            (db', start ∙ ap (λ o. get_cached key db (some (g.after, o))) miss ∙ rest)
      ]
