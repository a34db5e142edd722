-- ===== src/Universe/Cleanup.antt =====
-- The clean-up of dead peers in src/universe.cpp.
use std.Path.{ap₂}
use beyond_protocol.Prelude.{
  ℕ, zero, suc, ◌+◌, ◌≤◌, ◌≡◌, refl, sym, ◌∙◌, ap, inl, inr, Bool-cases, arith, Bool, true, false,
  ◌&&◌, ◌==◌, if◌then◌else◌, List, [], ◌∷◌, Option, none, some, length, ◌++◌, subst, leb, ltb,
}
use beyond_protocol.Rpc.Handshake.{reconnecting}
use beyond_protocol.Universe.{
  Peer, Universe, Event, disconnects, slot, is_dead, is_status, put_away, remove_peer, cleanup_from,
  cleanup_peers,
}
use beyond_protocol.Universe.Slots.{slot-set, slot-some}
use beyond_protocol.Universe.Invariant.{taken_away}

-- A place without its peer if that is dead.
abbrev pub alive : (ℕ → Peer) → Option ℕ → Option ℕ
alive store none = none
alive store (some p) = if is_dead (store p) then none else some p

pub put_away_same :
    (p : ℕ) (u : Universe)
    → ((put_away p u).peers ≡ u.peers)
      × ((put_away p u).store ≡ u.store)
      × ((put_away p u).peer_ids ≡ u.peer_ids)
unfolding put_away
put_away_same p u = go (is_status (u.store p).status reconnecting) (u.store p).tcp
  where
    away : Bool → Bool → Universe
    away b c =
        if b
        then (if c then record u { reconnects = u.reconnects ++ p ∷ [] } else u)
        else record u { garbage = u.garbage ++ p ∷ [] }

    go :
        (b c : Bool)
        → ((away b c).peers ≡ u.peers)
          × ((away b c).store ≡ u.store)
          × ((away b c).peer_ids ≡ u.peer_ids)
    go true true = (refl, refl, refl)
    go true false = (refl, refl, refl)
    go false c = (refl, refl, refl)

-- A universe whose places are those of another, where the dead peers of some are taken away.
abbrev Cleaned : (ℕ → Bool) → Universe → Universe → Type 0
Cleaned at u v =
    (v.store ≡ u.store)
    × ((j : ℕ) → slot v.peers j ≡ (if at j then alive u.store (slot u.peers j) else slot u.peers j))

removed-Cleaned :
    (i p : ℕ) (u : Universe)
    → slot u.peers i ≡ some p
    → is_dead (u.store p) ≡ true
    → Cleaned (λ j. i == j) u (put_away p (taken_away p i u))
removed-Cleaned i p u e dead =
    let (same_peers, same_store, same_ids) = put_away_same p (taken_away p i u) in
    (
      same_store,
      λ j.
          let at : i ≡ j → slot u.peers j ≡ some p = λ same. sym (ap (slot u.peers) same) ∙ e in
          rw same_peers (slot-set u.peers i j none (slot-some u.peers i p e) ∙ ground arith),
    )

kept-Cleaned :
    (i : ℕ) (u : Universe)
    → alive u.store (slot u.peers i) ≡ slot u.peers i
    → Cleaned (λ j. i == j) u u
kept-Cleaned i u same = (
  refl,
  λ j.
      let at : i ≡ j → alive u.store (slot u.peers j) ≡ slot u.peers j =
        λ e. subst (λ j. alive u.store (slot u.peers j) ≡ slot u.peers j) e same in
      elim (Bool-cases (i == j)) [ inl t ↦ rw t (sym (at (ground arith))) | inr n ↦ rw n refl ],
)

remove_peer-Cleaned : (i : ℕ) (u : Universe) → Cleaned (λ j. i == j) u (remove_peer i u).0
unfolding remove_peer
remove_peer-Cleaned i u = go (slot u.peers i) refl
  where
    go :
        (o : Option ℕ)
        → slot u.peers i ≡ o
        → Cleaned
            (λ j. i == j)
            u
            (elim o as (λ o. Universe × List Event) [
              | none ↦ (u, [])
              | some p ↦
                  if is_dead (u.store p)
                  then (put_away p (taken_away p i u), disconnects p ∷ [])
                  else (u, [])
            ]).0
    go none e = kept-Cleaned i u (rw e refl)
    go (some p) e = elim (Bool-cases (is_dead (u.store p))) [
      | inl t ↦ rw t (removed-Cleaned i p u e t)
      | inr f ↦ rw f (kept-Cleaned i u (rw e (rw f refl)))
    ]

two_ranges :
    (i left j : ℕ) (f : Option ℕ → Option ℕ) (x : Option ℕ)
    → (if leb (i + 1) j && ltb j (i + 1 + left)
        then f (if i == j then f x else x)
        else (if i == j then f x else x))
      ≡ (if leb i j && ltb j (i + suc left) then f x else x)
two_ranges i left j f x = ground arith

cleanup_from-Cleaned :
    (left i : ℕ) (u : Universe)
    → Cleaned (λ j. leb i j && ltb j (i + left)) u (cleanup_from left i u).0
unfolding cleanup_from
cleanup_from-Cleaned zero i u = (refl, λ j. ground arith)
cleanup_from-Cleaned (suc left) i u =
    let (store1, first) = remove_peer-Cleaned i u in
    let (store2, rest) = cleanup_from-Cleaned left (i + 1) (remove_peer i u).0 in
    (
      store2 ∙ store1,
      λ j.
          rest j
          ∙ ap₂
              (λ (s : ℕ → Peer) (x : Option ℕ).
                if leb (i + 1) j && ltb j (i + 1 + left) then alive s x else x)
              store1 (first j)
          ∙ two_ranges i left j (alive u.store) (slot u.peers j),
    )

past_end : (xs : List (Option ℕ)) (j : ℕ) → length xs ≤ j → slot xs j ≡ none
unfolding slot
past_end [] j h = refl
past_end (x ∷ xs) zero h = absurd (omega arith)
past_end (x ∷ xs) (suc j) h = past_end xs j (omega arith)

-- After a clean-up the table has exactly the peers that are not dead, each in its place, and the peers
-- themselves are as before.
pub cleanup_peers-alive :
    (u : Universe) (j : ℕ)
    → ((cleanup_peers u).0.store ≡ u.store)
      × (slot (cleanup_peers u).0.peers j ≡ alive u.store (slot u.peers j))
unfolding cleanup_peers
cleanup_peers-alive u j =
    let (same, places) = cleanup_from-Cleaned (length u.peers) 0 u in
    (same, places j ∙ ground (arith, past_end u.peers j))
