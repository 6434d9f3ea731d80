-- ===== src/Database/Recover.antt =====
-- The replay of a log, and the recovery behind it.
use native.Mathlib.Decide.{dec_lt}
use mathlib.Core.Option
use adaptive_query_accelerat.Common.{
  ℕ, ◌+◌, ◌^◌, ◌≤◌, ◌<◌, ◌≡◌, inl, inr, refl, sym, ◌∙◌, ap, Option, some, List, [], ◌∷◌, length,
  arith, ltb, true, false,
}
use adaptive_query_accelerat.MappedFile.{ok}
use adaptive_query_accelerat.Page.{RawPage, RecordId}
use adaptive_query_accelerat.PageCache.Interface.{Policies}
use adaptive_query_accelerat.StorageEngine.{StorageEngine}
use adaptive_query_accelerat.StorageEngine.{get_total_pages}
use adaptive_query_accelerat.PageCache.View.{content}
use adaptive_query_accelerat.PageCache.Progress.{length-Alike}
use adaptive_query_accelerat.StorageReader.{Record, read_slot}
use adaptive_query_accelerat.StorageReader.Lookup.{Holds}
use adaptive_query_accelerat.WorkloadHint.{point_lookup}
use adaptive_query_accelerat.Wal
use adaptive_query_accelerat.Wal.{WalRecord}
use adaptive_query_accelerat.Index.{lookup, bytes_discrete}
use adaptive_query_accelerat.Index
use adaptive_query_accelerat.Index.Rebuild.{latest, id_of, records_of, rebuild-latest}
use adaptive_query_accelerat.Database.Fresh.{Store, update, Indexed, IsFresh, IsServed-Alike}
use adaptive_query_accelerat.Database.Put.{store-Stores}
use adaptive_query_accelerat.Database.Exact.{Found, absent, present}
use adaptive_query_accelerat.Common.{All, Option-cases, subst}
use adaptive_query_accelerat.Database.{Database, store_all, recover}

-- The records that a replay of the log visits.
abbrev pub logged : List ℕ → List WalRecord
logged log = (Wal.replay (record { log = log; current_lsn = 0 })).0

abbrev pub replayed : List WalRecord → Store → Store
replayed [] m = m
replayed (r ∷ rs) m = replayed rs (update r.key r.value m)

abbrev pub FitsPage : WalRecord → Type 0
FitsPage r = length r.key + length r.value ≤ 4021

-- A slot holds one record.
Holds-same :
    (pages : ℕ → Option RawPage) (rid : RecordId) (r s : Record)
    → Holds pages (rid, r)
    → Holds pages (rid, s)
    → r ≡ s
Holds-same pages rid r s (p, held, read) (q, held', read') =
    let one : some p ≡ some q = sym held ∙ held' in
    let page : p ≡ q = Option.some-injective _ _ one in
    let both : some (some r) ≡ some (some s) =
      sym read ∙ ap (λ x. read_slot x rid.slot_id) page ∙ read' in
    Option.some-injective _ _ (Option.some-injective _ _ both)

module _ {policies : Policies} where
  -- An index that leads to the latest records of the pages serves the store that they make.
  latest-Indexed :
      (e : StorageEngine policies) (i : Index.Index) (m : Store)
      → ((key : List ℕ) → lookup key i ≡ id_of (latest key (records_of e)))
      → ((key : List ℕ) (v : RecordId × Record)
          → latest key (records_of e) ≡ some v
          → Holds (content e.cache) v × (v.1.key ≡ key))
      → ((key : List ℕ) → m key ≡ Option.map (λ v. v.1.value) (latest key (records_of e)))
      → Indexed e i m
  latest-Indexed e i m found holds same k rid r at_id held own =
      elim (Option-cases (latest k (records_of e))) [
        | inl lacking ↦ let gone = found k ∙ ap id_of lacking in cc
        | inr (v, last) ↦
            let there : v.0 ≡ rid =
              Option.some-injective _ _ (sym (found k ∙ ap id_of last) ∙ at_id) in
            let moved = subst (λ x. Holds (content e.cache) (x, v.1)) there (holds k v last).0 in
            let one = Holds-same (content e.cache) rid v.1 r moved held in
            same k ∙ ap (Option.map (λ v. v.1.value)) last ∙ ap (λ x. some x.value) one
      ]

  pub record Replays (rs : List WalRecord) (db : Database policies) (m : Store) : Type 0 where
    pub after : Database policies
    pub returned : store_all rs db ≡ ok tt after
    pub fresh : IsFresh after (replayed rs m)
    pub same : after.engine ≡ db.engine
    pub grown : length after.writer.file ≤ length db.writer.file + length rs

  pub store_all-Replays :
      (rs : List WalRecord) (db : Database policies) (m : Store)
      → IsFresh db m
      → All FitsPage rs
      → length db.writer.file + length rs < 2 ^ 32
      → Replays rs db m
  unfolding store_all
  store_all-Replays [] db m fresh fit few = record {
    after = db;
    returned = refl;
    fresh = fresh;
    same = refl;
    grown = omega arith;
  }
  store_all-Replays (r ∷ rs) db m fresh fit few =
      let s = store-Stores r.key r.value db m fresh fit.0 (omega arith) in
      let rest =
        store_all-Replays rs s.after (update r.key r.value m) s.fresh fit.1
          (omega (arith, s.grown)) in
      record {
        after = rest.after;
        returned = rw (s.returned, rest.returned) refl;
        fresh = rest.fresh;
        same = rest.same ∙ s.same.2;
        grown = omega (arith, rest.grown, s.grown);
      }

  latest-Found :
      (e : StorageEngine policies) (i : Index.Index) (m : Store)
      → ((key : List ℕ) → lookup key i ≡ id_of (latest key (records_of e)))
      → ((key : List ℕ) (v : RecordId × Record)
          → latest key (records_of e) ≡ some v
          → Holds (content e.cache) v × (v.1.key ≡ key))
      → ((key : List ℕ) → m key ≡ Option.map (λ v. v.1.value) (latest key (records_of e)))
      → (key : List ℕ) → Found e i m key
  latest-Found e i m found holds same key = elim (Option-cases (latest key (records_of e))) [
    | inl none_there ↦
        absent (found key ∙ ap id_of none_there)
          (same key ∙ ap (Option.map (λ v. v.1.value)) none_there)
    | inr (v, last) ↦
        present v.0 v.1 (found key ∙ ap id_of last) (holds key v last).0 (holds key v last).1
          (same key ∙ ap (Option.map (λ v. v.1.value)) last)
  ]

  moved-Found :
      (e e' : StorageEngine policies) (i : Index.Index) (m : Store)
      → ((q : ℕ) → content e'.cache q ≡ content e.cache q)
      → ((key : List ℕ) → Found e i m key)
      → (key : List ℕ) → Found e' i m key
  moved-Found e e' i m alike found key = elim (found key) [
    | absent gone none_there ↦ absent gone none_there
    | present rid r at_id (p, held, read) own right ↦
        present rid r at_id (p, alike rid.page_id ∙ held, read) own right
  ]

  -- The recovery: with pages the index is the pages' alone.
  pub record Recovers (db : Database policies) (m : Store) : Type 0 where
    pub after : Database policies
    pub returned : recover db ≡ ok tt after
    pub found :
        0 < length db.engine.cache.file.pages
        → (key : List ℕ) → lookup key after.index ≡ id_of (latest key (records_of db.engine))
    pub fresh :
        (0 < length db.engine.cache.file.pages
          → (key : List ℕ)
          → m key ≡ Option.map (λ v. v.1.value) (latest key (records_of db.engine)))
        → IsFresh after m
    pub exact :
        0 < length db.engine.cache.file.pages
        → ((key : List ℕ) → m key ≡ Option.map (λ v. v.1.value) (latest key (records_of db.engine)))
        → (key : List ℕ) → Found after.engine after.index m key

  pub recover-Recovers : (db : Database policies) (m : Store) → IsFresh db m → Recovers db m
  unfolding recover
  recover-Recovers db m fresh = elim (dec_lt 0 (length db.engine.cache.file.pages)) [
    | no empty ↦
        let none_there : ltb 0 (get_total_pages db.engine) ≡ false =
          ground (arith, fresh.served.ready.valid.file.counted) in
        record {
          after = db;
          returned = rw none_there refl;
          found = λ h. absurd (empty h);
          exact = λ h. absurd (empty h);
          fresh = λ h. fresh;
        }
    | yes some_there ↦
        let test : ltb 0 (get_total_pages db.engine) ≡ true =
          ground (arith, fresh.served.ready.valid.file.counted) in
        let (i, e', returned, alike, ready, found, holds) =
          rebuild-latest db.engine fresh.served.ready fresh.served.readable in
        let long =
          length-Alike db.engine.cache e'.cache fresh.served.ready.valid alike.valid
            alike.transparent in
        record {
          after = record db { engine = e'; index = i; hint = point_lookup };
          returned = rw (test, returned) refl;
          found = λ h. found;
          exact = λ h same.
              moved-Found db.engine e' i m alike.transparent
                (latest-Found db.engine i m found holds same);
          fresh = λ same. record {
            served =
                IsServed-Alike db.engine e' i m
                  (record {
                    ready = fresh.served.ready;
                    readable = fresh.served.readable;
                    indexed = latest-Indexed db.engine i m found holds (same some_there);
                  })
                  alike ready;
            writer = fresh.writer;
            behind = omega (arith, long, fresh.behind);
            cache_valid = fresh.cache_valid;
            cached = fresh.cached;
          };
        }
  ]
