-- ===== src/Universe/Stale.antt =====
-- The identifiers that the clean-up of src/universe.cpp leaves behind.
use mathlib.Core.Option.{some-injective}
use beyond_protocol.Prelude.{
  ℕ, ◌≡◌, ◌≢◌, refl, ◌∙◌, ap, subst, arith, Bool, true, false, ◌==◌, Option, none, some, lookup,
  put, lookup-put, lookup-erase_if, unless_erased, IsKeyed, length, ◌<◌,
}
use beyond_protocol.Universe.{
  Universe, slot, find_peer, free_slot, is_dead, put_away, remove_peer, insert_peer, get_peer,
}
use beyond_protocol.Universe.Slots.{slot-set, free_slot_lem}
use beyond_protocol.Universe.Invariant.{placed, taken_away}
use beyond_protocol.Universe.Cleanup.{put_away_same}

removed :
    (i p : ℕ) (u : Universe)
    → slot u.peers i ≡ some p
    → is_dead (u.store p) ≡ true
    → (remove_peer i u).0 ≡ put_away p (taken_away p i u)
unfolding remove_peer
removed i p u at dead = rw (remove_peer, at) (rw dead refl)

unerased : (old id : ℕ) (o : Option ℕ) → old ≢ id → unless_erased (λ j. old == id) o ≡ o
unerased old id none other = refl
unerased old id (some i) other = ground arith

-- Only the present identifier of the peer is erased.
remove_peer-ids :
    (i p old : ℕ) (u : Universe)
    → slot u.peers i ≡ some p
    → is_dead (u.store p) ≡ true
    → IsKeyed u.peer_ids
    → old ≢ (u.store p).peerid
    → lookup old (remove_peer i u).0.peer_ids ≡ lookup old u.peer_ids
remove_peer-ids i p old u at dead keyed other =
    let (peers, store, ids) = put_away_same p (taken_away p i u) in
    let test : ℕ → ℕ → Bool = λ id j. id == (u.store p).peerid in
    ap (λ (v : Universe). lookup old v.peer_ids) (removed i p u at dead)
    ∙ ap (lookup old) ids
    ∙ lookup-erase_if old test u.peer_ids keyed
    ∙ unerased old (u.store p).peerid (lookup old u.peer_ids) other

get_peer-placed :
    (i q old : ℕ) (u : Universe)
    → i < length u.peers
    → lookup old u.peer_ids ≡ some i
    → get_peer old (placed q i u) ≡ some q
unfolding get_peer
get_peer-placed i q old u inside e =
    let leads : lookup old (put (u.store q).peerid i u.peer_ids) ≡ some i =
      lookup-put (u.store q).peerid old i u.peer_ids ∙ ground arith in
    rw (get_peer, leads) (slot-set u.peers i i (some q) inside ∙ ground arith)

-- When a dead peer is removed, another identifier that leads to its place keeps doing so: getPeer with
-- it gives the next peer that is inserted there, whatever the identifier of that peer. Such an
-- identifier is the one the peer had before its handshake, under which it was inserted. The condition
-- is that no identifier is listed twice.
pub get_peer-stale :
    (i p q old : ℕ) (u v : Universe)
    → slot u.peers i ≡ some p
    → is_dead (u.store p) ≡ true
    → IsKeyed u.peer_ids
    → lookup old u.peer_ids ≡ some i
    → old ≢ (u.store p).peerid
    → find_peer q (remove_peer i u).0.peers ≡ false
    → free_slot (remove_peer i u).0.peers ≡ some i
    → insert_peer q (remove_peer i u).0 ≡ some v
    → get_peer old v ≡ some q
unfolding insert_peer
get_peer-stale i p q old u v at dead keyed leads other new free e =
    let u1 = (remove_peer i u).0 in
    let same : some (placed q i u1) ≡ some v = ground arith in
    subst (λ v. get_peer old v ≡ some q) (some-injective (placed q i u1) v same)
      (get_peer-placed i q old u1 (free_slot_lem u1.peers i free).0
        (remove_peer-ids i p old u at dead keyed other ∙ leads))
