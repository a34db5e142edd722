-- ===== src/Universe/Reached.antt =====
-- The table of peers after any calls of the universe, src/universe.cpp.
use mathlib.Core.Option.{some-injective}
use beyond_protocol.Prelude.{
  ℕ, ◌≡◌, subst, refl, arith, Bool, true, false, ◌==◌, if◌then◌else◌, List, [], ◌∷◌, Option, some,
  none, ◌>>=◌, >>=-eq-some, if-eq-some, inl, inr, lookup,
}
use beyond_protocol.Rpc.Handshake.{NodeStatus, connecting}
use beyond_protocol.Universe.{
  with_status, reconnect_peer, reconnect_each, reconnect, Universe, slot, insert_peer,
  cleanup_peers, notify_connect, collect_garbage, is_connected, connected_peer,
}
use beyond_protocol.Universe.Invariant.{
  WellFormed, insert_peer-WellFormed, cleanup_peers-WellFormed, notify_connect-WellFormed,
}

-- What a peer changes of itself: its identifier, its status and whether it is valid.
abbrev pub changed : ℕ → ℕ → NodeStatus → Bool → Universe → Universe
changed p id status valid u = record u {
  store = λ q.
      if q == p
      then record (u.store q) { peerid = id; status = status; valid = valid }
      else u.store q;
}

changed-WellFormed :
    (p id : ℕ) (status : NodeStatus) (valid : Bool) (u : Universe)
    → WellFormed u
    → WellFormed (changed p id status valid u)
changed-WellFormed p id status valid u wf = record {
  local = λ i q e. ground (arith, wf.local i q e);
  keyed = wf.keyed;
  uris = λ uri i e. let (q, there, its) = wf.uris uri i e in (q, there, ground arith);
  count = wf.count;
}

collect_garbage-WellFormed : (u : Universe) → WellFormed u → WellFormed (collect_garbage u)
unfolding collect_garbage
collect_garbage-WellFormed u wf = record {
  local = wf.local;
  keyed = wf.keyed;
  uris = wf.uris;
  count = wf.count;
}

reconnected-WellFormed :
    (p : ℕ) (rest : List ℕ) (u : Universe)
    → WellFormed u
    → WellFormed (record u { store = with_status p connecting u.store; reconnects = rest })
unfolding with_status
reconnected-WellFormed p rest u wf = record {
  local = λ i q e. ground (arith, wf.local i q e);
  keyed = wf.keyed;
  uris = λ uri i e. let (q, there, its) = wf.uris uri i e in (q, there, ground arith);
  count = wf.count;
}

reconnect_peer-WellFormed :
    (own : ℕ → Bool) (p : ℕ) (rest : List ℕ) (u v : Universe)
    → reconnect_peer own p rest u ≡ some v
    → WellFormed u
    → WellFormed v
unfolding reconnect_peer
reconnect_peer-WellFormed own p rest u v e wf = elim (if-eq-some (own (u.store p).uri) _ _ e) [
  | inl self ↦
      subst WellFormed (some-injective _ v self)
        (record { local = wf.local; keyed = wf.keyed; uris = wf.uris; count = wf.count })
  | inr other ↦
      let (u1, first, last) = >>=-eq-some (insert_peer p u) _ other in
      subst WellFormed (some-injective _ v last)
        (reconnected-WellFormed p rest u1 (insert_peer-WellFormed p u u1 first wf))
]

reconnect_each-WellFormed :
    (own : ℕ → Bool) (ps : List ℕ) (u v : Universe)
    → reconnect_each own ps u ≡ some v
    → WellFormed u
    → WellFormed v
unfolding reconnect_each
reconnect_each-WellFormed own [] u v e wf = subst WellFormed (some-injective u v e) wf
reconnect_each-WellFormed own (p ∷ rest) u v e wf =
    let (u1, first, last) = >>=-eq-some (reconnect_peer own p rest u) _ e in
    reconnect_each-WellFormed own rest u1 v last
      (reconnect_peer-WellFormed own p rest u u1 first wf)

-- What happens to the universe. A peer that changes is given its new identifier, status and validity.
pub data Call : Type 0 where
  inserts : ℕ → Call
  cleans_up : Call
  is_told_of : ℕ → Call
  collects : Call
  reconnects_by : (ℕ → Bool) → Call
  changes : ℕ → ℕ → NodeStatus → Bool → Call

abbrev pub run_calls : List Call → Universe → Option Universe
run_calls [] u = some u
run_calls (inserts p ∷ cs) u = do u1 ← insert_peer p u; run_calls cs u1
run_calls (cleans_up ∷ cs) u = run_calls cs (cleanup_peers u).0
run_calls (is_told_of p ∷ cs) u = run_calls cs (notify_connect p u).0
run_calls (collects ∷ cs) u = run_calls cs (collect_garbage u)
run_calls (reconnects_by own ∷ cs) u = do u1 ← reconnect own u; run_calls cs u1
run_calls (changes p id status valid ∷ cs) u = run_calls cs (changed p id status valid u)

run_calls-WellFormed :
    (cs : List Call) (u v : Universe) → WellFormed u → run_calls cs u ≡ some v → WellFormed v
run_calls-WellFormed [] u v wf e = subst WellFormed (some-injective u v e) wf
run_calls-WellFormed (inserts p ∷ cs) u v wf e =
    let (u1, first, rest) = >>=-eq-some (insert_peer p u) _ e in
    run_calls-WellFormed cs u1 v (insert_peer-WellFormed p u u1 first wf) rest
run_calls-WellFormed (cleans_up ∷ cs) u v wf e =
    run_calls-WellFormed cs (cleanup_peers u).0 v (cleanup_peers-WellFormed u wf) e
run_calls-WellFormed (is_told_of p ∷ cs) u v wf e =
    run_calls-WellFormed cs (notify_connect p u).0 v (notify_connect-WellFormed p u wf) e
run_calls-WellFormed (collects ∷ cs) u v wf e =
    run_calls-WellFormed cs (collect_garbage u) v (collect_garbage-WellFormed u wf) e
run_calls-WellFormed (reconnects_by own ∷ cs) u v wf e =
    let (u1, first, rest) = >>=-eq-some (reconnect own u) _ e in
    run_calls-WellFormed cs u1 v (reconnect_each-WellFormed own u.reconnects u u1 first wf) rest
run_calls-WellFormed (changes p id status valid ∷ cs) u v wf e =
    run_calls-WellFormed cs (changed p id status valid u) v
      (changed-WellFormed p id status valid u wf) e

connected_lem :
    (uri : ℕ) (u : Universe)
    → WellFormed u
    → is_connected uri u ≡ true
    → (p : ℕ) × (connected_peer uri u ≡ some p) × ((u.store p).uri ≡ uri)
unfolding is_connected connected_peer
connected_lem uri u wf e = go (lookup uri u.by_uri) (wf.uris uri) e
  where
    go :
        (o : Option ℕ)
        → ((i : ℕ) → o ≡ some i → (p : ℕ) × (slot u.peers i ≡ some p) × ((u.store p).uri ≡ uri))
        → elim o as (λ o. Bool) [ none ↦ false | some i ↦ true ] ≡ true
        → (p : ℕ) × (elim o as (λ o. Option ℕ) [ none ↦ none | some i ↦ slot u.peers i ] ≡ some p)
          × ((u.store p).uri ≡ uri)
    go none leads listed = absurd cc
    go (some i) leads listed = leads i refl

-- After any calls that insert peers, reconnect them and clean up, and any changes of the peers' identifiers, status
-- and validity, none of which fails for too many connections: a URI that counts as connected leads to
-- a peer in the table that has this URI, if that was so before, with every peer knowing its place, the
-- count of the connections right and no URI listed twice.
pub run_calls-connected :
    (uri : ℕ) (cs : List Call) (u v : Universe)
    → WellFormed u
    → run_calls cs u ≡ some v
    → is_connected uri v ≡ true
    → WellFormed v × ((p : ℕ) × (connected_peer uri v ≡ some p) × ((v.store p).uri ≡ uri))
run_calls-connected uri cs u v wf e listed =
    let after = run_calls-WellFormed cs u v wf e in (after, connected_lem uri v after listed)
