-- ===== src/Universe/Invariant.antt =====
-- What holds of the table of peers of src/universe.cpp after any calls.
use mathlib.Core.Option.{some-injective}
use beyond_protocol.Prelude.{
  ℕ, zero, suc, ◌+◌, ◌-◌, ◌<◌, ◌≡◌, ◌≢◌, refl, ap, sym, ◌∙◌, subst, inl, inr, Bool-cases,
  Option-cases, arith, Bool, true, false, ◌==◌, if◌then◌else◌, List, [], ◌∷◌, ◌++◌, Option, none,
  some, lookup, put, erase_if, put-IsKeyed, put-cases, IsKeyed, set, length,
}
use beyond_protocol.Rpc.Handshake.{reconnecting}
use beyond_protocol.Universe.{
  Peer, Universe, Event, disconnects, slot, find_peer, free_slot, with_local_id, insert_peer,
  is_status, is_dead, erase_uri, put_away, remove_peer, cleanup_from, cleanup_peers, notify_connect,
}
use beyond_protocol.Universe.Slots.{
  slot-set, slot-some, some_not_none, free_slot_lem, find_peer-slot, occupied, occupied_filled,
  occupied_emptied, erase_uri_lem,
}

-- Every peer in the table knows its place, every URI leads to a peer in the table that has it, and the
-- count is that of the peers in the table.
pub record WellFormed (u : Universe) : Type 0 where
  pub local : (i p : ℕ) → slot u.peers i ≡ some p → (u.store p).local_id ≡ i
  pub keyed : IsKeyed u.by_uri
  pub uris :
      (uri i : ℕ)
      → lookup uri u.by_uri ≡ some i
      → (p : ℕ) × (slot u.peers i ≡ some p) × ((u.store p).uri ≡ uri)
  pub count : u.connection_count ≡ occupied u.peers

with_local_id_lem :
    (p i : ℕ) (store : ℕ → Peer) (q : ℕ)
    → ((with_local_id p i store q).uri ≡ (store q).uri)
      × ((with_local_id p i store q).local_id ≡ (if q == p then i else (store q).local_id))
unfolding with_local_id
with_local_id_lem p i store q = ground arith

-- The universe with the peer in a free place.
abbrev pub placed : ℕ → ℕ → Universe → Universe
placed p i u = record u {
  connection_count = u.connection_count + 1;
  peers = set u.peers i (some p);
  by_uri = put (u.store p).uri i u.by_uri;
  peer_ids = put (u.store p).peerid i u.peer_ids;
  store = with_local_id p i u.store;
}

module _ (p i : ℕ) (u : Universe) (wf : WellFormed u) (new : find_peer p u.peers ≡ false)
    (inside : i < length u.peers) (free : slot u.peers i ≡ none) where
  not_there : (j : ℕ) → slot u.peers j ≢ some p
  not_there j e = ground (arith, find_peer-slot p u.peers j e)

  placed-local :
      (j q : ℕ)
      → slot (set u.peers i (some p)) j ≡ some q
      → (with_local_id p i u.store q).local_id ≡ j
  placed-local j q e = ground (
    arith,
    slot-set u.peers i j (some p) inside,
    (with_local_id_lem p i u.store q).1,
    wf.local j q,
    not_there j,
  )

  in_place :
      (j q : ℕ) → slot u.peers j ≡ some q → (if i == j then some p else slot u.peers j) ≡ some q
  in_place j q there =
      let apart : i ≢ j =
        λ same. some_not_none q (sym there ∙ sym (ap (slot u.peers) same) ∙ free) in
      ground arith

  placed-uris :
      (uri j : ℕ)
      → lookup uri (put (u.store p).uri i u.by_uri) ≡ some j
      → (q : ℕ) × (slot (set u.peers i (some p)) j ≡ some q)
        × ((with_local_id p i u.store q).uri ≡ uri)
  placed-uris uri j e = elim (put-cases (u.store p).uri uri i j u.by_uri e) [
    | inl (same, place) ↦ (
      p,
      slot-set u.peers i j (some p) inside ∙ ground arith,
      (with_local_id_lem p i u.store p).0 ∙ same,
    )
    | inr (other, old) ↦
        let (q, there, its) = wf.uris uri j old in
        (
          q,
          slot-set u.peers i j (some p) inside ∙ in_place j q there,
          (with_local_id_lem p i u.store q).0 ∙ its,
        )
  ]

  placed-WellFormed : WellFormed (placed p i u)
  placed-WellFormed = record {
    local = placed-local;
    keyed = put-IsKeyed (u.store p).uri i u.by_uri wf.keyed;
    uris = placed-uris;
    count = omega (arith, wf.count, occupied_filled u.peers i p inside free);
  }

pub insert_peer-WellFormed :
    (p : ℕ) (u v : Universe) → insert_peer p u ≡ some v → WellFormed u → WellFormed v
unfolding insert_peer
insert_peer-WellFormed p u v e wf = elim (Bool-cases (find_peer p u.peers)) [
  | inl t ↦ subst WellFormed (some-injective u v (ground arith)) wf
  | inr new ↦ elim (Option-cases (free_slot u.peers)) [
    | inl full ↦ absurd (ground arith)
    | inr (i, free) ↦
        let (inside, empty) = free_slot_lem u.peers i free in
        let same : some (placed p i u) ≡ some v = ground arith in
        subst WellFormed (some-injective (placed p i u) v same)
          (placed-WellFormed p i u wf new inside empty)
  ]
]

-- The universe without the peer in a place.
abbrev pub taken_away : ℕ → ℕ → Universe → Universe
taken_away p i u = record u {
  peer_ids = erase_if (λ id j. id == (u.store p).peerid) u.peer_ids;
  by_uri = erase_uri p u.peers u.by_uri;
  connection_count = u.connection_count - 1;
  peers = set u.peers i none;
}

put_away-WellFormed : (p : ℕ) (u : Universe) → WellFormed u → WellFormed (put_away p u)
unfolding put_away
put_away-WellFormed p u wf = go (is_status (u.store p).status reconnecting) (u.store p).tcp
  where
    go :
        (b c : Bool)
        → WellFormed (
            if b
            then (if c then record u { reconnects = u.reconnects ++ p ∷ [] } else u)
            else record u { garbage = u.garbage ++ p ∷ [] })
    go true true = record { local = wf.local; keyed = wf.keyed; uris = wf.uris; count = wf.count }
    go true false = wf
    go false c = record { local = wf.local; keyed = wf.keyed; uris = wf.uris; count = wf.count }

module _ (p i : ℕ) (u : Universe) (at : slot u.peers i ≡ some p) (wf : WellFormed u) where
  emptied : (j : ℕ) → slot (set u.peers i none) j ≡ (if i == j then none else slot u.peers j)
  emptied j = slot-set u.peers i j none (slot-some u.peers i p at)

  still :
      (j q : ℕ)
      → slot u.peers j ≢ some p
      → slot u.peers j ≡ some q
      → slot (set u.peers i none) j ≡ some q
  still j q other e =
      let apart : i ≢ j = λ same. other (sym (ap (slot u.peers) same) ∙ at) in
      emptied j ∙ ground arith

  only : (k j : ℕ) → lookup k u.by_uri ≡ some j → slot u.peers j ≡ some p → k ≡ (u.store p).uri
  only k j e s =
      let (q, there, its) = wf.uris k j e in
      sym its ∙ ap (λ x. (u.store x).uri) (some-injective q p (sym there ∙ s))

  taken_away-WellFormed : WellFormed (taken_away p i u)
  taken_away-WellFormed =
      let (keyed, rest) = erase_uri_lem p (u.store p).uri u.peers u.by_uri wf.keyed only in
      record {
        local = λ j q e. wf.local j q (ground (arith, emptied j));
        keyed = keyed;
        uris = λ k j e.
            let (was, other) = rest k j e in
            let (q, there, its) = wf.uris k j was in (q, still j q other there, its);
        count = omega (arith, wf.count, occupied_emptied u.peers i p at);
      }

pub remove_peer-WellFormed : (i : ℕ) (u : Universe) → WellFormed u → WellFormed (remove_peer i u).0
unfolding remove_peer
remove_peer-WellFormed i u wf = go (slot u.peers i) refl
  where
    away : (p : ℕ) → slot u.peers i ≡ some p → WellFormed (put_away p (taken_away p i u))
    away p e = put_away-WellFormed p (taken_away p i u) (taken_away-WellFormed p i u e wf)

    go :
        (o : Option ℕ)
        → slot u.peers i ≡ o
        → WellFormed
            (elim o as (λ o. Universe × List Event) [
              | none ↦ (u, [])
              | some p ↦
                  if is_dead (u.store p)
                  then (put_away p (taken_away p i u), disconnects p ∷ [])
                  else (u, [])
            ]).0
    go none e = wf
    go (some p) e = elim (Bool-cases (is_dead (u.store p))) [
      | inl t ↦ rw t (away p e)
      | inr f ↦ rw f wf
    ]

cleanup_from-WellFormed :
    (left i : ℕ) (u : Universe) → WellFormed u → WellFormed (cleanup_from left i u).0
unfolding cleanup_from
cleanup_from-WellFormed zero i u wf = wf
cleanup_from-WellFormed (suc left) i u wf =
    cleanup_from-WellFormed left (i + 1) (remove_peer i u).0 (remove_peer-WellFormed i u wf)

pub cleanup_peers-WellFormed : (u : Universe) → WellFormed u → WellFormed (cleanup_peers u).0
unfolding cleanup_peers
cleanup_peers-WellFormed u wf = cleanup_from-WellFormed (length u.peers) 0 u wf

pub notify_connect-WellFormed :
    (p : ℕ) (u : Universe) → WellFormed u → WellFormed (notify_connect p u).0
unfolding notify_connect
notify_connect-WellFormed p u wf = elim (Bool-cases (find_peer p u.peers)) [
  | inl t ↦ rw t (record { local = wf.local; keyed = wf.keyed; uris = wf.uris; count = wf.count })
  | inr f ↦ rw f wf
]
