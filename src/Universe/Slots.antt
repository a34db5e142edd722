-- ===== src/Universe/Slots.antt =====
-- The places of the table of peers, src/universe.cpp.
use beyond_protocol.Prelude.{
  ℕ, zero, suc, ◌+◌, ◌<◌, ◌≡◌, ◌≢◌, refl, ap, sym, ◌∙◌, subst, inl, inr, Bool-cases, Option-cases,
  arith, true, false, ◌==◌, if◌then◌else◌, List, [], ◌∷◌, Option, none, some, lookup, IsKeyed, set,
  length,
}
use mathlib.Core.Option.{some-injective}
use beyond_protocol.Universe.{slot, is_peer, find_peer, free_slot, erase_uri}

pub slot-set :
    (xs : List (Option ℕ)) (i j : ℕ) (v : Option ℕ)
    → i < length xs
    → slot (set xs i v) j ≡ (if i == j then v else slot xs j)
unfolding slot
slot-set [] i j v h = absurd (omega arith)
slot-set (x ∷ xs) zero zero v h = ground arith
slot-set (x ∷ xs) zero (suc j) v h = ground arith
slot-set (x ∷ xs) (suc i) zero v h = ground arith
slot-set (x ∷ xs) (suc i) (suc j) v h = slot-set xs i j v (omega arith) ∙ ground arith

pub slot-some : (xs : List (Option ℕ)) (i p : ℕ) → slot xs i ≡ some p → i < length xs
unfolding slot
slot-some [] i p h = absurd cc
slot-some (x ∷ xs) zero p h = omega arith
slot-some (x ∷ xs) (suc i) p h = omega (arith, slot-some xs i p h)

pub free_slot_lem :
    (xs : List (Option ℕ)) (i : ℕ) → free_slot xs ≡ some i → (i < length xs) × (slot xs i ≡ none)
unfolding free_slot slot
free_slot_lem [] i h = absurd cc
free_slot_lem (none ∷ xs) i h =
    subst (λ i. (i < suc (length xs)) × (slot (none ∷ xs) i ≡ none)) (some-injective 0 i h)
      (omega arith, refl)
free_slot_lem (some q ∷ xs) i h = elim (Option-cases (free_slot xs)) [
  | inl e ↦ absurd (ground arith)
  | inr (k, e) ↦
      let (inside, empty) = free_slot_lem xs k e in
      let same : suc k ≡ i = ground arith in
      subst (λ i. (i < suc (length xs)) × (slot (some q ∷ xs) i ≡ none)) same (omega arith, empty)
]

-- A peer in the table is found.
pub find_peer-slot :
    (p : ℕ) (xs : List (Option ℕ)) (i : ℕ) → slot xs i ≡ some p → find_peer p xs ≡ true
unfolding slot find_peer is_peer
find_peer-slot p [] i h = absurd cc
find_peer-slot p (x ∷ xs) zero h = ground arith
find_peer-slot p (x ∷ xs) (suc i) h = ground (arith, find_peer-slot p xs i h)

-- The number of peers.
abbrev pub occupied : List (Option ℕ) → ℕ
occupied [] = 0
occupied (none ∷ xs) = occupied xs
occupied (some q ∷ xs) = suc (occupied xs)

pub occupied_filled :
    (xs : List (Option ℕ)) (i p : ℕ)
    → i < length xs
    → slot xs i ≡ none
    → occupied (set xs i (some p)) ≡ occupied xs + 1
unfolding slot
occupied_filled [] i p h e = absurd (omega arith)
occupied_filled (none ∷ xs) zero p h e = omega arith
occupied_filled (some q ∷ xs) zero p h e = absurd cc
occupied_filled (none ∷ xs) (suc i) p h e = occupied_filled xs i p (omega arith) e
occupied_filled (some q ∷ xs) (suc i) p h e = omega (arith, occupied_filled xs i p (omega arith) e)

pub occupied_emptied :
    (xs : List (Option ℕ)) (i p : ℕ)
    → slot xs i ≡ some p
    → occupied (set xs i none) + 1 ≡ occupied xs
unfolding slot
occupied_emptied [] i p e = absurd cc
occupied_emptied (none ∷ xs) zero p e = absurd cc
occupied_emptied (some q ∷ xs) zero p e = omega arith
occupied_emptied (none ∷ xs) (suc i) p e = occupied_emptied xs i p e
occupied_emptied (some q ∷ xs) (suc i) p e = omega (arith, occupied_emptied xs i p e)

is_peer_iff : (p : ℕ) (o : Option ℕ) → is_peer p o ≡ true → o ≡ some p
unfolding is_peer
is_peer_iff p none h = absurd cc
is_peer_iff p (some q) h = ap some (ground arith)

is_peer_not : (p : ℕ) (o : Option ℕ) → is_peer p o ≡ false → o ≢ some p
unfolding is_peer
is_peer_not p none h e = absurd cc
is_peer_not p (some q) h e = ground arith

pub some_not_none : (j : ℕ) → some j ≢ none
some_not_none j h = cc

-- Where only one key leads to a peer, no key does once it is erased, and the others lead where they did.
pub erase_uri_lem :
    (p uri : ℕ) (peers : List (Option ℕ)) (m : List (ℕ × ℕ))
    → IsKeyed m
    → ((k j : ℕ) → lookup k m ≡ some j → slot peers j ≡ some p → k ≡ uri)
    → IsKeyed (erase_uri p peers m)
      × ((k j : ℕ)
          → lookup k (erase_uri p peers m) ≡ some j
          → (lookup k m ≡ some j) × (slot peers j ≢ some p))
unfolding erase_uri lookup
erase_uri_lem p uri peers [] keyed only = (tt, λ k j e. absurd cc)
erase_uri_lem p uri peers ((k0, j0) ∷ m) (new, keyed) only =
    elim (Bool-cases (is_peer p (slot peers j0))) [
      | inl t ↦
          let at_p = is_peer_iff p (slot peers j0) t in
          let first : k0 ≡ uri = only k0 j0 (ground arith) at_p in
          rw t (
            keyed,
            λ k j e. (
              older k j e,
              λ s. absurd (kept_key k j e (first ∙ sym (only k j (older k j e) s))),
            ),
          )
      | inr f ↦
          let (rest_keyed, rest) =
            erase_uri_lem p uri peers m keyed (λ k j e s. only k j (older k j e) s) in
          rw f (
            (gone rest (lookup k0 (erase_uri p peers m)) refl, rest_keyed),
            λ k j e. pick f rest k j e,
          )
    ]
  where
    kept_key : (k j : ℕ) → lookup k m ≡ some j → k0 ≢ k
    kept_key k j e same = absurd (some_not_none j (sym e ∙ sym (ap (λ x. lookup x m) same) ∙ new))

    older : (k j : ℕ) → lookup k m ≡ some j → (if k0 == k then some j0 else lookup k m) ≡ some j
    older k j e = ground (arith, kept_key k j e)

    gone :
        ((k j : ℕ)
          → lookup k (erase_uri p peers m) ≡ some j
          → (lookup k m ≡ some j) × (slot peers j ≢ some p))
        → (o : Option ℕ) → lookup k0 (erase_uri p peers m) ≡ o
        → lookup k0 (erase_uri p peers m) ≡ none
    gone rest none e = e
    gone rest (some j) e = absurd (some_not_none j (sym (rest k0 j e).0 ∙ new))

    pick :
        is_peer p (slot peers j0) ≡ false
        → ((k j : ℕ)
            → lookup k (erase_uri p peers m) ≡ some j
            → (lookup k m ≡ some j) × (slot peers j ≢ some p))
        → (k j : ℕ) → (if k0 == k then some j0 else lookup k (erase_uri p peers m)) ≡ some j
        → ((if k0 == k then some j0 else lookup k m) ≡ some j) × (slot peers j ≢ some p)
    pick f rest k j e = elim (Bool-cases (k0 == k)) [
      | inl t ↦
          let same : j0 ≡ j = ground arith in
          (ground arith, subst (λ x. slot peers x ≢ some p) same (is_peer_not p (slot peers j0) f))
      | inr n ↦ let (was, not_p) = rest k j (ground arith) in (ground arith, not_p)
    ]
