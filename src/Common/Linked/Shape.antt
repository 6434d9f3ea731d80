-- ===== src/Common/Linked/Shape.antt =====
-- A list with an index of its nodes by key: the list and the index agree.
use Prim.Native.Nat.{ℕ, ◌+◌, ◌<◌}
use mathlib.Core.Path.{◌≡◌, sym, ◌∙◌, ap, subst}
use mathlib.Core.Logic.{◌≢◌, ite}
use mathlib.Core.Option.{none, some}
use mathlib.Core.List.{◌∷◌}
use native.Mathlib.Omega.{arith}
use adaptive_query_accelerat.Common.Lists.{All, All-weaken}
use adaptive_query_accelerat.Common.Maps
use adaptive_query_accelerat.Common.Maps.{Map, find, find-assign, find-erase}
use adaptive_query_accelerat.Common.Linked.{Nodes, at?, remove_at}
use adaptive_query_accelerat.Common.Linked.Laws.{
  DistinctAddresses, DistinctKeys, Lacks, address_of, at?-All, remove_at-All, remove_at-Avoids,
  remove_at-DistinctAddresses, remove_at-DistinctKeys, Lacks-remove_at, address_of-at?,
  address_of-remove_at, Lacks-of_none,
}

module _ {A K : Type 0} (dec : Discrete K) (key : A → K) where
  -- Addresses were handed out before `fresh`, no address and no key occurs twice, and the index
  -- gives each key the address of its node.
  pub record Shape (fresh : ℕ) (index : Map K ℕ) (ns : Nodes A) : Type 0 where
    pub below : All (λ n. n.0 < fresh) ns
    pub addresses : DistinctAddresses ns
    pub keys : DistinctKeys dec key ns
    pub indexed : (k : K) → find dec k index ≡ address_of dec key k ns

  module _ {fresh : ℕ} {index : Map K ℕ} {ns : Nodes A} (s : Shape fresh index ns) where
    -- A node moves to the front, perhaps with another element of the same key.
    pub move_front-Shape :
        {it : ℕ} {a b : A}
        → at? it ns ≡ some a
        → key b ≡ key a
        → Shape fresh index ((it, b) ∷ remove_at it ns)
    unfolding address_of
    move_front-Shape {it} {a} {b} found same = record {
      below = (
        at?-All (λ n. n.0 < fresh) it ns s.below found,
        remove_at-All (λ n. n.0 < fresh) it ns s.below,
      );
      addresses =
          (remove_at-Avoids it ns s.addresses, remove_at-DistinctAddresses it ns s.addresses);
      keys = (
        subst (λ k. Lacks dec key k (remove_at it ns)) (sym same)
            (Lacks-remove_at dec key it ns s.keys found),
        remove_at-DistinctKeys dec key it ns s.keys,
      );
      indexed = λ k. s.indexed k ∙ reindexed k;
    }
      where
        reindexed :
            (k : K)
            → address_of dec key k ns
              ≡ ite (dec (key b) k) (some it) (address_of dec key k (remove_at it ns))
        reindexed k = ground (
          arith,
          address_of-at? dec key it ns s.keys found,
          address_of-remove_at dec key it k ns s.keys found,
        )

    -- A node goes, and its key leaves the index.
    pub remove-Shape :
        (it : ℕ) {a : A}
        → at? it ns ≡ some a
        → Shape fresh (Maps.erase dec (key a) index) (remove_at it ns)
    remove-Shape it {a} found = record {
      below = remove_at-All (λ n. n.0 < fresh) it ns s.below;
      addresses = remove_at-DistinctAddresses it ns s.addresses;
      keys = remove_at-DistinctKeys dec key it ns s.keys;
      indexed = λ k.
          find-erase dec (key a) k index
          ∙ ap (ite (dec (key a) k) none) (s.indexed k)
          ∙ sym (address_of-remove_at dec key it k ns s.keys found);
    }

    -- A new node comes to the front, under a key that the index lacks.
    pub push_front-Shape :
        (a : A)
        → find dec (key a) index ≡ none
        → Shape (fresh + 1) (Maps.assign dec (key a) fresh index) ((fresh, a) ∷ ns)
    unfolding address_of
    push_front-Shape a absent = record {
      below = (
        omega arith,
        All-weaken (λ n. n.0 < fresh) (λ n. n.0 < fresh + 1) (λ n (h : n.0 < fresh). omega arith) ns
            s.below,
      );
      addresses = (
        All-weaken (λ n. n.0 < fresh) (λ n. n.0 ≢ fresh) (λ n (h : n.0 < fresh). omega arith) ns
            s.below,
        s.addresses,
      );
      keys = (Lacks-of_none dec key (key a) ns (sym (s.indexed (key a)) ∙ absent), s.keys);
      indexed = λ k.
          find-assign dec (key a) k fresh index
          ∙ ap (ite (dec (key a) k) (some fresh)) (s.indexed k);
    }

    -- A node is erased, and its element comes back at the front in a new node.
    pub renew-Shape :
        (it : ℕ) {a : A}
        → at? it ns ≡ some a
        → Shape (fresh + 1) (Maps.assign dec (key a) fresh index) ((fresh, a) ∷ remove_at it ns)
    unfolding address_of
    renew-Shape it {a} found = record {
      below = (
        omega arith,
        remove_at-All (λ n. n.0 < fresh + 1) it ns
            (All-weaken (λ n. n.0 < fresh) (λ n. n.0 < fresh + 1)
              (λ n (h : n.0 < fresh). omega arith) ns s.below),
      );
      addresses = (
        remove_at-All (λ n. n.0 ≢ fresh) it ns
            (All-weaken (λ n. n.0 < fresh) (λ n. n.0 ≢ fresh) (λ n (h : n.0 < fresh). omega arith)
              ns s.below),
        remove_at-DistinctAddresses it ns s.addresses,
      );
      keys =
          (Lacks-remove_at dec key it ns s.keys found, remove_at-DistinctKeys dec key it ns s.keys);
      indexed = λ k.
          find-assign dec (key a) k fresh index
          ∙ ap (ite (dec (key a) k) (some fresh)) (s.indexed k)
          ∙ sym (
              ap (ite (dec (key a) k) (some fresh))
                (address_of-remove_at dec key it k ns s.keys found)
              ∙ hidden k);
    }
      where
        hidden :
            (k : K)
            → ite (dec (key a) k) (some fresh) (ite (dec (key a) k) none (address_of dec key k ns))
              ≡ ite (dec (key a) k) (some fresh) (address_of dec key k ns)
        hidden k = ground arith
