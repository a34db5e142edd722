-- ===== src/Tests/UniverseTests.antt =====
-- src/universe.cpp at concrete inputs.
use beyond_protocol.Prelude.{
  ℕ, zero, suc, ◌+◌, ◌≡◌, ◌≢◌, refl, true, false, List, [], ◌∷◌, Option, none, some, lookup, put,
  erase_if, IsKeyed, arith,
}
use beyond_protocol.Rpc.Handshake.{connecting, connected, reconnecting, disconnected}
use beyond_protocol.Universe.{
  Peer, Universe, disconnects, slot, is_peer, find_peer, free_slot, is_dead, with_local_id,
  erase_uri, put_away, remove_peer, insert_peer, cleanup_from, cleanup_peers, notify_connect,
  get_peer, connected_peer, is_connected, with_status, reconnect_peer, reconnect_each,
}
use beyond_protocol.Universe.Invariant.{WellFormed}
use beyond_protocol.Universe.Reached.{
  Call, reconnects_by, inserts, cleans_up, is_told_of, changes, run_calls, run_calls-connected,
}
use beyond_protocol.Universe.Cleanup.{alive, cleanup_peers-alive}
use beyond_protocol.Universe.Stale.{get_peer-stale}

-- Peer p has the URI 10 + p and, before its handshake, the identifier 100 + p.
abbrev peer_at : ℕ → Peer
peer_at p = record {
  uri = 10 + p;
  peerid = 100 + p;
  status = connected;
  valid = true;
  tcp = true;
  local_id = 0;
}

-- A universe with places for two peers.
abbrev two_places : Universe
two_places = record {
  store = peer_at;
  peers = none ∷ none ∷ [];
  by_uri = [];
  peer_ids = [];
  connection_count = 0;
  reconnects = [];
  garbage = [];
}

nobody : (i p : ℕ) → slot two_places.peers i ≢ some p
unfolding slot
nobody zero p e = cc
nobody (suc zero) p e = cc
nobody (suc (suc i)) p e = cc

two_places-WellFormed : WellFormed two_places
unfolding slot lookup
two_places-WellFormed = record {
  local = λ i p e. absurd (nobody i p e);
  keyed = tt;
  uris = λ uri i e. absurd cc;
  count = refl;
}

-- Two peers connect, the first is given its identifier 201 and is lost.
abbrev one_is_lost : List Call
one_is_lost =
    inserts 1
    ∷ inserts 2
    ∷ changes 1 201 connected true
    ∷ is_told_of 1
    ∷ changes 1 201 disconnected true
    ∷ []

abbrev or_two_places : Option Universe → Universe
or_two_places none = two_places
or_two_places (some u) = u

abbrev lost : Universe
lost = or_two_places (run_calls one_is_lost two_places)

lost_run : run_calls one_is_lost two_places ≡ some lost
unfolding insert_peer find_peer free_slot with_local_id is_peer put notify_connect
lost_run = refl

lost_listed : is_connected 12 lost ≡ true
unfolding insert_peer find_peer free_slot with_local_id is_peer put notify_connect is_connected
    lookup
lost_listed = refl

run_calls-connected_example :
    WellFormed lost × ((p : ℕ) × (connected_peer 12 lost ≡ some p) × ((lost.store p).uri ≡ 12))
run_calls-connected_example =
    run_calls-connected 12 one_is_lost two_places lost two_places-WellFormed lost_run lost_listed

cleanup_peers-alive_example :
    ((cleanup_peers lost).0.store ≡ lost.store)
    × (slot (cleanup_peers lost).0.peers 0 ≡ alive lost.store (slot lost.peers 0))
cleanup_peers-alive_example = cleanup_peers-alive lost 0

-- The place of the lost peer is empty, the other peer stays.
cleaned-run :
    ((cleanup_peers lost).0.peers ≡ none ∷ some 2 ∷ [])
    × ((cleanup_peers lost).1 ≡ disconnects 1 ∷ [])
    × ((cleanup_peers lost).0.connection_count ≡ 1)
    × (get_peer 101 (cleanup_peers lost).0 ≡ none)
unfolding insert_peer find_peer free_slot with_local_id is_peer put notify_connect cleanup_peers
    cleanup_from remove_peer is_dead slot erase_uri put_away erase_if get_peer lookup
cleaned-run = (refl, refl, refl, refl)

-- A peer that reconnects is put away by the clean-up and comes back in its place.
abbrev back : Option Universe
back =
    run_calls
      (inserts 1 ∷ changes 1 201 reconnecting true ∷ cleans_up ∷ reconnects_by (λ uri. false) ∷ [])
      two_places

back_run :
    ((or_two_places back).peers ≡ some 1 ∷ none ∷ [])
    × ((or_two_places back).reconnects ≡ [])
    × (is_connected 11 (or_two_places back) ≡ true)
    × (((or_two_places back).store 1).status ≡ connecting)
unfolding insert_peer find_peer free_slot with_local_id is_peer put cleanup_peers cleanup_from
    remove_peer is_dead slot erase_uri put_away erase_if lookup is_connected reconnect_peer
    reconnect_each with_status
back_run = (refl, refl, refl, refl)

-- The third peer comes in its place.
abbrev replaced : Universe
replaced = or_two_places (insert_peer 3 (remove_peer 0 lost).0)

lost-IsKeyed : IsKeyed lost.peer_ids
unfolding insert_peer find_peer free_slot with_local_id is_peer put notify_connect lookup
lost-IsKeyed = (refl, (refl, (refl, tt)))

replaced_run :
    (slot lost.peers 0 ≡ some 1)
    × (is_dead (lost.store 1) ≡ true)
    × (lookup 101 lost.peer_ids ≡ some 0)
    × (find_peer 3 (remove_peer 0 lost).0.peers ≡ false)
    × (free_slot (remove_peer 0 lost).0.peers ≡ some 0)
    × (insert_peer 3 (remove_peer 0 lost).0 ≡ some replaced)
unfolding insert_peer find_peer free_slot with_local_id is_peer put notify_connect remove_peer
    is_dead slot erase_uri put_away erase_if lookup
replaced_run = (refl, refl, refl, refl, refl, refl)

not_its_own : 101 ≢ (lost.store 1).peerid
unfolding insert_peer find_peer free_slot with_local_id is_peer put notify_connect
not_its_own e = absurd (omega arith)

-- The identifier of the lost peer now gives the third.
get_peer-stale_example : get_peer 101 replaced ≡ some 3
get_peer-stale_example =
    let (at, dead, leads, new, free, inserted) = replaced_run in
    get_peer-stale 0 1 3 101 lost replaced at dead lost-IsKeyed leads not_its_own new free inserted
