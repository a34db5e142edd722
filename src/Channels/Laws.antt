-- ===== src/Channels/Laws.antt =====
-- The set operators are those of sets, and the test for difference decides equality of sets.
use beyond_protocol.Prelude.{
  ℕ, suc, ◌≡◌, ◌↔◌, ◌≤◌, refl, true, false, not, ◌&&◌, ◌||◌, List, [], ◌∷◌, length, contains,
  insert, insert_all, erase, arith, contains-insert, contains-insert_all, contains-erase, IsSetList,
  erase-IsSetList,
}
use beyond_protocol.Channels.{
  intersect_into, intersect, union, difference_into, difference, some_missing, differs,
}

contains-intersect_into :
    (d : ℕ) (a b result : List ℕ)
    → contains d (intersect_into a b result) ≡ (contains d a && contains d b || contains d result)
unfolding intersect_into contains
contains-intersect_into d [] b result = refl
contains-intersect_into d (c ∷ a) b result = ground (
  arith,
  contains-intersect_into d a b (insert c result),
  contains-intersect_into d a b result,
  contains-insert c d result,
)

contains-difference_into :
    (d : ℕ) (a b result : List ℕ)
    → contains d (difference_into a b result)
      ≡ (contains d a && not (contains d b) || contains d result)
unfolding difference_into contains
contains-difference_into d [] b result = refl
contains-difference_into d (c ∷ a) b result = ground (
  arith,
  contains-difference_into d a b (insert c result),
  contains-difference_into d a b result,
  contains-insert c d result,
)

-- A channel is in `a & b` if it is in both, in `a | b` if it is in one, and in `a - b` if it is in
-- `a` and not in `b`.
pub contains-operators :
    (d : ℕ) (a b : List ℕ)
    → (contains d (intersect a b) ≡ (contains d a && contains d b))
      × (contains d (union a b) ≡ (contains d a || contains d b))
      × (contains d (difference a b) ≡ (contains d a && not (contains d b)))
unfolding intersect union difference contains
contains-operators d a b = (
  ground (arith, contains-intersect_into d a b []),
  ground (arith, contains-insert_all d b (insert_all a []), contains-insert_all d a []),
  ground (arith, contains-difference_into d a b []),
)

length-erase : (c : ℕ) (s : List ℕ) → contains c s ≡ true → suc (length (erase c s)) ≡ length s
unfolding contains erase
length-erase c [] h = ground arith
length-erase c (x ∷ s) h = ground (arith, length-erase c s)

-- Every member of `a` is a member of `b`.
abbrev pub Within : List ℕ → List ℕ → Type 0
Within a b = (d : ℕ) → contains d a ≡ true → contains d b ≡ true

Within-tail :
    (x : ℕ) (a b : List ℕ)
    → contains x a ≡ false
    → IsSetList b
    → Within (x ∷ a) b
    → Within a (erase x b)
unfolding contains
Within-tail x a b new set w d h = ground (arith, contains-erase x d b set, w d)

Within-whole :
    (a b : List ℕ) → IsSetList a → IsSetList b → length b ≤ length a → Within a b → Within b a
unfolding contains
Within-whole [] [] sa sb size w d h = ground arith
Within-whole [] (y ∷ b) sa sb size w d h = absurd (omega arith)
Within-whole (x ∷ a) b sa sb size w d h =
    let here : contains x b ≡ true = w x (ground arith) in
    let rest =
      Within-whole a (erase x b) sa.1 (erase-IsSetList x b sb)
        (omega (arith, length-erase x b here)) (Within-tail x a b sa.0 sb w) d in
    ground (arith, contains-erase x d b sb, rest)

some_missing-Within : (a b : List ℕ) → some_missing a b ≡ false → Within a b
unfolding some_missing contains
some_missing-Within [] b h d k = ground arith
some_missing-Within (x ∷ a) b h d k = ground (arith, some_missing-Within a b (ground arith) d)

Within-some_missing : (a b : List ℕ) → Within a b → some_missing a b ≡ false
unfolding some_missing contains
Within-some_missing [] b w = refl
Within-some_missing (x ∷ a) b w =
    ground (arith, w x, Within-some_missing a b (λ d h. w d (ground arith)))

length-le-Within : (a b : List ℕ) → IsSetList a → IsSetList b → Within a b → length a ≤ length b
unfolding contains
length-le-Within [] b sa sb w = omega arith
length-le-Within (x ∷ a) b sa sb w =
    let here : contains x b ≡ true = w x (ground arith) in
    omega (
      arith,
      length-erase x b here,
      length-le-Within a (erase x b) sa.1 (erase-IsSetList x b sb) (Within-tail x a b sa.0 sb w),
    )

-- For sets `a != b` is false exactly when they have the same members.
pub differs_iff :
    (a b : List ℕ)
    → IsSetList a
    → IsSetList b
    → (differs a b ≡ false) ↔ ((d : ℕ) → contains d a ≡ contains d b)
unfolding differs
differs_iff a b sa sb = (forward, backward)
  where
    forward : differs a b ≡ false → (d : ℕ) → contains d a ≡ contains d b
    forward h d =
        let size : length a ≡ length b = ground arith in
        let none : some_missing a b ≡ false = ground arith in
        let w = some_missing-Within a b none in
        ground (arith, w d, Within-whole a b sa sb (omega arith) w d)

    backward : ((d : ℕ) → contains d a ≡ contains d b) → differs a b ≡ false
    backward same =
        let ab : Within a b = λ d h. ground (arith, same d) in
        let ba : Within b a = λ d h. ground (arith, same d) in
        ground (
          arith,
          length-le-Within a b sa sb ab,
          length-le-Within b a sb sa ba,
          Within-some_missing a b ab,
        )
