-- ===== src/Common/Arrays.antt =====
-- Memory as a function of the address: assignments, and copies of bytes and of integers of a fixed
-- number of bytes, the lowest first, as on a little-endian machine.
use Prim.Native.Nat.{ℕ, zero, suc, ◌+◌, ◌*◌, ◌/◌, ◌%◌, ◌<◌, ◌≤◌}
use mathlib.Core.Path.{◌≡◌, refl, ap, ap₂, ◌∙◌, subst}
use mathlib.Core.Logic.{◌≢◌}
use mathlib.Core.List.{List, [], ◌∷◌}
use native.Mathlib.Omega.{arith}
use adaptive_query_accelerat.Common.Tests.{◌==◌, if◌then◌else◌}
use adaptive_query_accelerat.Common.Lists.{length}

abbrev pub Array : Type 0 → Type 0
Array A = ℕ → A

unfoldable pub write : {A : Type 0} → ℕ → A → Array A → Array A
write i x a j = if i == j then x else a j

pub write_self : {A : Type 0} (i : ℕ) (x : A) (a : Array A) → write i x a i ≡ x
unfolding write
write_self i x a = ground arith

pub write_ne : {A : Type 0} (i j : ℕ) (x : A) (a : Array A) → i ≢ j → write i x a j ≡ a j
unfolding write
write_ne i j x a h = ground arith

-- The bytes of an integer of that many bytes, and the integer of the bytes.
unfoldable pub to_bytes : ℕ → ℕ → List ℕ
to_bytes zero n = []
to_bytes (suc k) n = n % 256 ∷ to_bytes k (n / 256)

unfoldable pub of_bytes : List ℕ → ℕ
of_bytes [] = 0
of_bytes (b ∷ bs) = b + 256 * of_bytes bs

-- How many values that number of bytes has.
unfoldable pub values_of : ℕ → ℕ
values_of zero = 1
values_of (suc k) = 256 * values_of k

pub of_bytes-to_bytes : (k n : ℕ) → n < values_of k → of_bytes (to_bytes k n) ≡ n
unfolding to_bytes of_bytes values_of
of_bytes-to_bytes zero n h = omega arith
of_bytes-to_bytes (suc k) n h = let ih = of_bytes-to_bytes k (n / 256) (omega arith) in omega arith

pub length-to_bytes : (k n : ℕ) → length (to_bytes k n) ≡ k
unfolding to_bytes
length-to_bytes zero n = refl
length-to_bytes (suc k) n = ap suc (length-to_bytes k (n / 256))

-- `memcpy` of a list of bytes to an address, and of bytes from one.
unfoldable pub store_bytes : ℕ → List ℕ → Array ℕ → Array ℕ
store_bytes at [] a = a
store_bytes at (b ∷ bs) a = store_bytes (suc at) bs (write at b a)

unfoldable pub load_bytes : ℕ → ℕ → Array ℕ → List ℕ
load_bytes at zero a = []
load_bytes at (suc n) a = a at ∷ load_bytes (suc at) n a

pub store_bytes-below :
    (at : ℕ) (bs : List ℕ) (a : Array ℕ) (i : ℕ) → i < at → store_bytes at bs a i ≡ a i
unfolding store_bytes
store_bytes-below at [] a i h = refl
store_bytes-below at (b ∷ bs) a i h =
    store_bytes-below (suc at) bs (write at b a) i (omega arith)
    ∙ write_ne at i b a (λ e. omega arith)

pub store_bytes-behind :
    (at : ℕ) (bs : List ℕ) (a : Array ℕ) (i : ℕ) → at + length bs ≤ i → store_bytes at bs a i ≡ a i
unfolding store_bytes
store_bytes-behind at [] a i h = refl
store_bytes-behind at (b ∷ bs) a i h =
    store_bytes-behind (suc at) bs (write at b a) i (omega arith)
    ∙ write_ne at i b a (λ e. omega arith)

-- Bytes that agree are read alike.
pub load_bytes_same :
    (at n : ℕ) (a a' : Array ℕ)
    → ((i : ℕ) → at ≤ i → i < at + n → a i ≡ a' i)
    → load_bytes at n a ≡ load_bytes at n a'
unfolding load_bytes
load_bytes_same at zero a a' h = refl
load_bytes_same at (suc n) a a' h =
    ap₂ ◌∷◌ (h at (omega arith) (omega arith))
      (load_bytes_same (suc at) n a a' (λ i p q. h i (omega arith) (omega arith)))

pub load-store_self :
    (at : ℕ) (bs : List ℕ) (a : Array ℕ) → load_bytes at (length bs) (store_bytes at bs a) ≡ bs
unfolding load_bytes store_bytes
load-store_self at [] a = refl
load-store_self at (b ∷ bs) a =
    ap₂ ◌∷◌ (store_bytes-below (suc at) bs (write at b a) at (omega arith) ∙ write_self at b a)
      (load-store_self (suc at) bs (write at b a))

-- What stands before the bytes that are stored, or behind them, is read as before.
pub load-store_below :
    (at n to : ℕ) (bs : List ℕ) (a : Array ℕ)
    → at + n ≤ to
    → load_bytes at n (store_bytes to bs a) ≡ load_bytes at n a
load-store_below at n to bs a h =
    load_bytes_same at n (store_bytes to bs a) a
      (λ i p q. store_bytes-below to bs a i (omega arith))

pub load-store_behind :
    (at n to : ℕ) (bs : List ℕ) (a : Array ℕ)
    → to + length bs ≤ at
    → load_bytes at n (store_bytes to bs a) ≡ load_bytes at n a
load-store_behind at n to bs a h =
    load_bytes_same at n (store_bytes to bs a) a
      (λ i p q. store_bytes-behind to bs a i (omega arith))

-- An integer of `k` bytes.
unfoldable pub store_int : ℕ → ℕ → ℕ → Array ℕ → Array ℕ
store_int k at n a = store_bytes at (to_bytes k n) a

unfoldable pub load_int : ℕ → ℕ → Array ℕ → ℕ
load_int k at a = of_bytes (load_bytes at k a)

module _ (k : ℕ) where
  pub load-store_int_self :
      (at n : ℕ) (a : Array ℕ) → n < values_of k → load_int k at (store_int k at n a) ≡ n
  unfolding store_int load_int
  load-store_int_self at n a h =
      subst (λ j. of_bytes (load_bytes at j (store_bytes at (to_bytes k n) a)) ≡ n)
        (length-to_bytes k n)
        (ap of_bytes (load-store_self at (to_bytes k n) a) ∙ of_bytes-to_bytes k n h)

  pub load_int_same :
      (at : ℕ) (a a' : Array ℕ)
      → ((i : ℕ) → at ≤ i → i < at + k → a i ≡ a' i)
      → load_int k at a ≡ load_int k at a'
  unfolding load_int
  load_int_same at a a' h = ap of_bytes (load_bytes_same at k a a' h)

  pub store_int-below : (at n : ℕ) (a : Array ℕ) (i : ℕ) → i < at → store_int k at n a i ≡ a i
  unfolding store_int
  store_int-below at n a i h = store_bytes-below at (to_bytes k n) a i h

  pub store_int-behind : (at n : ℕ) (a : Array ℕ) (i : ℕ) → at + k ≤ i → store_int k at n a i ≡ a i
  unfolding store_int
  store_int-behind at n a i h =
      store_bytes-behind at (to_bytes k n) a i (omega (arith, length-to_bytes k n))
