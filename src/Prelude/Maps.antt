-- ===== src/Prelude/Maps.antt =====
-- Maps with number keys (std::unordered_map) as association lists, and sets of numbers
-- (std::unordered_set) as lists. The order of a list stands for the order of iteration.
use Prim.Native.Nat.{ℕ}
use mathlib.Core.Path.{◌≡◌, ◌∙◌, refl, sym, ap}
use mathlib.Core.Logic.{◌≢◌, ◌⊎◌}
use mathlib.Core.Bool.{Bool, false, ◌||◌, ◌&&◌, not}
use mathlib.Core.Option.{Option, none, some}
use mathlib.Core.List.{List, [], ◌∷◌}
use native.Mathlib.Omega.{arith}
use beyond_protocol.Prelude.Tests.{◌==◌, if◌then◌else◌}

module _ {ℓ} {V : Type ℓ} where
  unfoldable pub lookup : ℕ → List (ℕ × V) → Option V
  lookup k [] = none
  lookup k ((j, v) ∷ m) = if j == k then some v else lookup k m

  -- m[k] = v
  unfoldable pub put : ℕ → V → List (ℕ × V) → List (ℕ × V)
  put k v [] = (k, v) ∷ []
  put k v ((j, w) ∷ m) = if j == k then (k, v) ∷ m else (j, w) ∷ put k v m

  -- Erases each entry that the test holds of.
  unfoldable pub erase_if : (ℕ → V → Bool) → List (ℕ × V) → List (ℕ × V)
  erase_if test [] = []
  erase_if test ((j, w) ∷ m) = if test j w then erase_if test m else (j, w) ∷ erase_if test m

  pub lookup-put :
      (k j : ℕ) (v : V) (m : List (ℕ × V))
      → lookup j (put k v m) ≡ (if k == j then some v else lookup j m)
  unfolding lookup put
  lookup-put k j v [] = refl
  lookup-put k j v ((i, w) ∷ m) = ground (arith, lookup-put k j v m)

-- An entry after a put is the new one or an old one of another key.
pub put-cases :
    {V : Type 0} (k j : ℕ) (v w : V) (m : List (ℕ × V))
    → lookup j (put k v m) ≡ some w
    → (k ≡ j) × (v ≡ w) ⊎ (k ≢ j) × (lookup j m ≡ some w)
put-cases k j v w m h = ground (arith, lookup-put k j v m)

-- A map has each key once.
abbrev pub IsKeyed : {V : Type 0} → List (ℕ × V) → Type 0
IsKeyed [] = Unit {0}
IsKeyed ((j, w) ∷ m) = (lookup j m ≡ none) × IsKeyed m

module _ {V : Type 0} where
  pub put-IsKeyed : (k : ℕ) (v : V) (m : List (ℕ × V)) → IsKeyed m → IsKeyed (put k v m)
  unfolding lookup put
  put-IsKeyed k v [] h = (refl, tt)
  put-IsKeyed k v ((j, w) ∷ m) (new, h) = ground (arith, put-IsKeyed k v m h, lookup-put k j v m)

  -- What is left of an entry that a test may erase.
  abbrev pub unless_erased : (V → Bool) → Option V → Option V
  unless_erased test none = none
  unless_erased test (some v) = if test v then none else some v

  pub lookup-erase_if :
      (k : ℕ) (test : ℕ → V → Bool) (m : List (ℕ × V))
      → IsKeyed m
      → lookup k (erase_if test m) ≡ unless_erased (test k) (lookup k m)
  unfolding lookup erase_if
  lookup-erase_if k test [] h = refl
  lookup-erase_if k test ((j, w) ∷ m) (new, h) = ground (arith, lookup-erase_if k test m h)

  pub erased_some :
      (k : ℕ) (test : ℕ → V → Bool) (v : V) (m : List (ℕ × V))
      → IsKeyed m
      → lookup k (erase_if test m) ≡ some v
      → (lookup k m ≡ some v) × (test k v ≡ false)
  erased_some k test v m h e = go (lookup k m) refl (sym (lookup-erase_if k test m h) ∙ e)
    where
      go :
          (o : Option V)
          → lookup k m ≡ o
          → unless_erased (test k) o ≡ some v
          → (lookup k m ≡ some v) × (test k v ≡ false)
      go none was e = ground arith
      go (some x) was e = ground arith

  pub erased_kept :
      (k : ℕ) (test : ℕ → V → Bool) (v : V) (m : List (ℕ × V))
      → IsKeyed m
      → lookup k m ≡ some v
      → test k v ≡ false
      → lookup k (erase_if test m) ≡ some v
  erased_kept k test v m h was kept =
      ground (arith, lookup-erase_if k test m h, ap (unless_erased (test k)) was)

  pub erase_if-IsKeyed :
      (test : ℕ → V → Bool) (m : List (ℕ × V)) → IsKeyed m → IsKeyed (erase_if test m)
  unfolding erase_if
  erase_if-IsKeyed test [] h = h
  erase_if-IsKeyed test ((j, w) ∷ m) (new, h) =
      ground (arith, erase_if-IsKeyed test m h, lookup-erase_if j test m h)

unfoldable pub contains : ℕ → List ℕ → Bool
contains c [] = false
contains c (x ∷ xs) = x == c || contains c xs

unfoldable pub insert : ℕ → List ℕ → List ℕ
insert c xs = if contains c xs then xs else c ∷ xs

unfoldable pub insert_all : List ℕ → List ℕ → List ℕ
insert_all [] s = s
insert_all (c ∷ cs) s = insert_all cs (insert c s)

-- Erases the one entry that a set has.
unfoldable pub erase : ℕ → List ℕ → List ℕ
erase c [] = []
erase c (x ∷ xs) = if x == c then xs else x ∷ erase c xs

-- A list that stands for a set.
abbrev pub IsSetList : List ℕ → Type 0
IsSetList [] = Unit {0}
IsSetList (x ∷ xs) = (contains x xs ≡ false) × IsSetList xs

pub contains-insert : (c d : ℕ) (s : List ℕ) → contains d (insert c s) ≡ (c == d || contains d s)
unfolding insert contains
contains-insert c d s = ground arith

pub contains-insert_all :
    (d : ℕ) (cs s : List ℕ) → contains d (insert_all cs s) ≡ (contains d cs || contains d s)
unfolding insert_all contains
contains-insert_all d [] s = refl
contains-insert_all d (c ∷ cs) s =
    ground (arith, contains-insert_all d cs (insert c s), contains-insert c d s)

pub insert-IsSetList : (c : ℕ) (s : List ℕ) → IsSetList s → IsSetList (insert c s)
unfolding insert
insert-IsSetList c s h = ground arith

pub insert_all-IsSetList : (cs s : List ℕ) → IsSetList s → IsSetList (insert_all cs s)
unfolding insert_all
insert_all-IsSetList [] s h = h
insert_all-IsSetList (c ∷ cs) s h = insert_all-IsSetList cs (insert c s) (insert-IsSetList c s h)

pub contains-erase :
    (c d : ℕ) (s : List ℕ) → IsSetList s → contains d (erase c s) ≡ (not (c == d) && contains d s)
unfolding erase contains
contains-erase c d [] h = ground arith
contains-erase c d (x ∷ xs) h = ground (arith, contains-erase c d xs h.1)

pub erase-IsSetList : (c : ℕ) (s : List ℕ) → IsSetList s → IsSetList (erase c s)
unfolding erase
erase-IsSetList c [] h = tt
erase-IsSetList c (x ∷ xs) h = ground (arith, erase-IsSetList c xs h.1, contains-erase c x xs h.1)
