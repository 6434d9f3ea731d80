-- ===== src/Database/Get.antt =====
-- `get` on a database that holds what a store would hold.
use mathlib.Core.Option
use adaptive_query_accelerat.Common.{
  ℕ, ◌+◌, ◌^◌, ◌≤◌, ◌<◌, ◌≡◌, ◌⊎◌, inl, inr, refl, sym, ◌∙◌, ap, Option, none, some, Option-cases,
  List, length, if_pos, if_neg, arith,
}
use adaptive_query_accelerat.MappedFile.{Result, ok, ◌>>=◌}
use adaptive_query_accelerat.Page.{RecordId}
use adaptive_query_accelerat.PageCache.Interface.{Policies}
use adaptive_query_accelerat.PageCache.View.{content}
use adaptive_query_accelerat.PageCache.Progress.{length-Alike}
use adaptive_query_accelerat.LruCache.Methods.{get-Got}
use adaptive_query_accelerat.LruCache.Facts.{get-Gives, put-All}
use adaptive_query_accelerat.StorageEngine.{StorageEngine}
use adaptive_query_accelerat.StorageReader.{Record}
use adaptive_query_accelerat.StorageReader.Slots.{read_page}
use adaptive_query_accelerat.StorageReader.Lookup.{Holds, read_record-Looks}
use adaptive_query_accelerat.Index.{bytes_discrete, lookup}
use adaptive_query_accelerat.Database.{
  Database, put, get, get_cached, get_record, get_read, cached, in_database,
}
use adaptive_query_accelerat.Database.Fresh.{Store, Current, IsFresh, IsServed-Alike}
use adaptive_query_accelerat.StorageReader.Lookup.{Holds}
use adaptive_query_accelerat.Database.Put.{put-Stores}

module _ {policies : Policies} where
  read_page-Holds :
      (e : StorageEngine policies) (rid : RecordId) (r : Record)
      → read_page (content e.cache rid.page_id) rid.slot_id ≡ some (some r)
      → Holds (content e.cache) (rid, r)
  read_page-Holds e rid r found = elim (Option-cases (content e.cache rid.page_id)) [
    | inl absent ↦ let gone : some none ≡ some (some r) = rw absent at found in cc
    | inr (p, held) ↦ (p, held, rw held at found)
  ]

  -- What a `get` returns is the store's value, or nothing.
  pub record Gets (key : List ℕ) (db : Database policies) (m : Store)
      (r : Result (Database policies) (Option (List ℕ))) : Type 0 where
    pub after : Database policies
    pub result : Option (List ℕ)
    pub returned : r ≡ ok result after
    pub fresh : IsFresh after m
    pub not_stale : (result ≡ none) ⊎ (result ≡ m key)
    pub same_writer : after.writer ≡ db.writer
    pub same_wal : after.wal ≡ db.wal

  get_read-Gets :
      (key : List ℕ) (db : Database policies) (m : Store) (o : Option Record)
      → IsFresh db m
      → ((r : Record) → o ≡ some r → r.key ≡ key → m key ≡ some r.value)
      → Gets key db m (get_read key o db)
  get_read-Gets key db m none fresh its = record {
    after = db;
    result = none;
    returned = refl;
    fresh = fresh;
    not_stale = inl refl;
    same_writer = refl;
    same_wal = refl;
  }
  get_read-Gets key db m (some r) fresh its = elim (bytes_discrete r.key key) [
    | no other ↦ record {
      after = db;
      result = none;
      returned = if_neg (bytes_discrete r.key key) other _ _;
      fresh = fresh;
      not_stale = inl refl;
      same_writer = refl;
      same_wal = refl;
    }
    | yes own ↦
        let right = its r refl own in
        let (c, returned, valid, current, at_hand) =
          put-All bytes_discrete none (Current m) (Current m) db.record_cache key r.value
            fresh.cache_valid fresh.cached (λ x other h. h) right in
        record {
          after = record db { record_cache = c };
          result = some r.value;
          returned =
              if_pos (bytes_discrete r.key key) own _ _
              ∙ ap (λ o. cached db o >>= λ (x, db'). ok (some r.value) db') returned;
          fresh = record {
            served = fresh.served;
            writer = fresh.writer;
            behind = fresh.behind;
            cache_valid = valid;
            cached = current;
          };
          not_stale = inr (sym right);
          same_writer = refl;
          same_wal = refl;
        }
  ]

  get_record-Gets :
      (key : List ℕ) (db : Database policies) (m : Store) (o : Option RecordId)
      → IsFresh db m
      → lookup key db.index ≡ o
      → Gets key db m (get_record key db o)
  get_record-Gets key db m none fresh found = record {
    after = db;
    result = none;
    returned = refl;
    fresh = fresh;
    not_stale = inl refl;
    same_writer = refl;
    same_wal = refl;
  }
  get_record-Gets key db m (some rid) fresh found =
      let looks = read_record-Looks db.engine rid fresh.served.ready fresh.served.readable in
      let e' = looks.after in
      let long =
        length-Alike db.engine.cache e'.cache fresh.served.ready.valid looks.alike.valid
          looks.alike.transparent in
      let rest =
        get_read-Gets key (record db { engine = e' }) m looks.result
          (record {
            served = IsServed-Alike db.engine e' db.index m fresh.served looks.alike looks.ready;
            writer = fresh.writer;
            behind = omega (arith, long, fresh.behind);
            cache_valid = fresh.cache_valid;
            cached = fresh.cached;
          })
          (λ r is own.
            fresh.served.indexed key rid r found
              (read_page-Holds db.engine rid r (looks.found ∙ ap some is)) own) in
      record {
        after = rest.after;
        result = rest.result;
        returned =
            ap (λ r. in_database db r >>= λ (o, db'). get_read key o db') looks.returned
            ∙ rest.returned;
        fresh = rest.fresh;
        not_stale = rest.not_stale;
        same_writer = rest.same_writer;
        same_wal = rest.same_wal;
      }

  -- On a database that holds what a store would hold, `get` returns, gives the store's value of the
  -- key or nothing, and leaves such a database, with the writer and the log as they were.
  pub get-Gets :
      (key : List ℕ) (db : Database policies) (m : Store)
      → IsFresh db m
      → Gets key db m (get key db)
  unfolding get
  get-Gets key db m fresh =
      let g =
        get-Gives bytes_discrete (Current m) db.record_cache key fresh.cache_valid fresh.cached in
      let used : Database policies = record db { record_cache = g.after } in
      let still : IsFresh used m = record {
        served = fresh.served;
        writer = fresh.writer;
        behind = fresh.behind;
        cache_valid = g.valid;
        cached = g.facts;
      } in
      elim (Option-cases g.result) [
        | inr (value, hit) ↦
            let (e, right, own, its) = g.source value hit in
            record {
              after = used;
              result = some value;
              returned =
                  ap (get_cached key db) g.returned
                  ∙ ap (λ o. get_cached key db (some (g.after, o))) hit;
              fresh = still;
              not_stale = inr (sym (ap m (sym own) ∙ right ∙ ap some its));
              same_writer = refl;
              same_wal = refl;
            }
        | inl miss ↦
            let rest = get_record-Gets key used m (lookup key db.index) still refl in
            record {
              after = rest.after;
              result = rest.result;
              returned =
                  ap (get_cached key db) g.returned
                  ∙ ap (λ o. get_cached key db (some (g.after, o))) miss
                  ∙ rest.returned;
              fresh = rest.fresh;
              not_stale = rest.not_stale;
              same_writer = rest.same_writer;
              same_wal = rest.same_wal;
            }
      ]

  -- A value that fits a page is there at once: `put` returns, and the `get` of the key after it
  -- gives the value.
  pub put-get :
      (key value : List ℕ) (db : Database policies) (m : Store)
      → IsFresh db m
      → length key + length value ≤ 4021
      → length db.writer.file + 1 < 2 ^ 32
      → (db' : Database policies) × (db'' : Database policies) × (put key value db ≡ ok tt db')
        × (get key db' ≡ ok (some value) db'')
  unfolding get
  put-get key value db m fresh fits few =
      let s = put-Stores key value db m fresh fits few in
      let (c, got) = get-Got bytes_discrete key s.fresh.cache_valid in
      (
        s.after,
        record s.after { record_cache = c },
        s.returned,
        ap (get_cached key s.after)
            (got.returned ∙ ap (λ o. some (c, Option.map (λ e. e.value) o)) s.at_hand),
      )
