-- ===== src/Muxer/Reached.antt =====
-- src/streams/muxer.cpp: every state that add(), remove() and the creation of mappings reach, when no
-- stream has a fixed frameset.
use beyond_protocol.Prelude.{
  ℕ, ◌+◌, ◌/◌, ◌^◌, ◌<◌, ◌≤◌, ◌≡◌, ◌≢◌, ◌∙◌, refl, sym, subst, ◌==◌, List, [], ◌∷◌, Option, none,
  some, lookup, erase_if, arith, length, erased_some, erased_kept, erase_if-IsKeyed,
}
use beyond_protocol.FrameId.{FrameId}
use beyond_protocol.Muxer.{
  StreamEntry, Muxer, empty, map_from_input, find_or_create_local, find_entry, erase_entry, add,
  remove, new_entry,
}
use beyond_protocol.Muxer.Invariant.{IsRemote, Inv, empty-Inv, in_key}
use beyond_protocol.Muxer.Mapping.{IsMapped, map_from_input-mapped}
use beyond_protocol.Muxer.Entries.{
  IsEntries, WellFormed, deref-append, append-IsEntries, find_entry-deref, deref-erase_entry,
  erase_entry-IsEntries, key_of_other,
}

module _ (m : Muxer) (h : WellFormed m) where
  add-WellFormed : (stream : ℕ) → WellFormed (add m stream none)
  unfolding add
  add-WellFormed stream = record {
    inv = record {
      forth = h.inv.forth;
      back = h.inv.back;
      derived = h.inv.derived;
      bounded = h.inv.bounded;
      single = h.inv.single;
      live = λ n id i at.
          let (e, there) = h.inv.live n id i at in
          (e, ground (arith, deref-append i m.streams (new_entry m stream none)));
    };
    keyed_in = h.keyed_in;
    keyed_out = h.keyed_out;
    entries = append-IsEntries m.stream_ids m.streams (new_entry m stream none) h.entries refl refl;
  }

  abbrev removed : ℕ → StreamEntry → Muxer
  removed stream se = record m {
    imap = erase_if (λ key local. key / 2 ^ 32 == se.id) m.imap;
    omap = erase_if (λ local p. p.1 == se.id) m.omap;
    streams = erase_entry stream m.streams;
  }

  removed-out :
      (stream : ℕ) (se : StreamEntry) (n : ℕ) (id : FrameId) (i : ℕ)
      → lookup n (removed stream se).omap ≡ some (id, i)
      → (lookup n m.omap ≡ some (id, i)) × (i ≢ se.id)
  removed-out stream se n id i at =
      let (was, other) = erased_some n (λ local p. p.1 == se.id) (id, i) m.omap h.keyed_out at in
      (was, λ same. ground arith)

  removed-Inv :
      (stream : ℕ) (se : StreamEntry)
      → find_entry stream m.streams ≡ some se
      → Inv (removed stream se)
  removed-Inv stream se found = record {
    forth = λ i id l remote at.
        let (was, other) =
          erased_some (in_key i id) (λ key local. key / 2 ^ 32 == se.id) l m.imap h.keyed_in at in
        let owner : in_key i id / 2 ^ 32 ≡ i = omega arith in
        erased_kept l.id (λ local p. p.1 == se.id) (id, i) m.omap h.keyed_out
          (h.inv.forth i id l remote was) (ground arith);
    back = λ n id i at.
        let (was, other) = removed-out stream se n id i at in
        let (remote, there) = h.inv.back n id i was in
        (
          remote,
          erased_kept (in_key i id) (λ key local. key / 2 ^ 32 == se.id) (record { id = n }) m.imap
              h.keyed_in there (key_of_other i se.id id remote other),
        );
    derived = λ n id i at. h.inv.derived n id i (removed-out stream se n id i at).0;
    bounded = h.inv.bounded;
    single = h.inv.single;
    live = λ n id i at.
        let (was, other) = removed-out stream se n id i at in
        let (e, there) = h.inv.live n id i was in
        (e, deref-erase_entry stream i m.streams se found other ∙ there);
  }

  remove-WellFormed : (stream : ℕ) → WellFormed (remove m stream)
  unfolding remove
  remove-WellFormed stream = go (find_entry stream m.streams) refl
    where
      go :
          (o : Option StreamEntry)
          → find_entry stream m.streams ≡ o
          → WellFormed (elim o [ none ↦ m | some se ↦ removed stream se ])
      go none found = h
      go (some se) found = record {
        inv = removed-Inv stream se found;
        keyed_in = erase_if-IsKeyed (λ key local. key / 2 ^ 32 == se.id) m.imap h.keyed_in;
        keyed_out = erase_if-IsKeyed (λ local p. p.1 == se.id) m.omap h.keyed_out;
        entries = erase_entry-IsEntries m.stream_ids stream m.streams h.entries;
      }

-- The calls that change the maps, for streams without a fixed frameset.
pub data Call : Type 0 where
  adds removes : ℕ → Call
  maps : ℕ → FrameId → Call

-- The muxer after findOrCreateLocal, or before it when that throws.
abbrev or_same : Muxer → Option (Muxer × FrameId) → Muxer
or_same m none = m
or_same m (some (m', l)) = m'

unfoldable pub step : Muxer → Call → Muxer
step m (adds stream) = add m stream none
step m (removes stream) = remove m stream
step m (maps stream id) = or_same m (find_or_create_local m stream id)

abbrev pub IsCall : Call → Type 0
IsCall (adds stream) = Unit {0}
IsCall (removes stream) = Unit {0}
IsCall (maps stream id) = IsRemote id

remove_counts :
    (m : Muxer) (stream : ℕ)
    → ((remove m stream).framesets ≡ m.framesets) × ((remove m stream).stream_ids ≡ m.stream_ids)
unfolding remove
remove_counts m stream = ground arith

mapped-WellFormed :
    (m : Muxer) (s : StreamEntry) (id : FrameId)
    → WellFormed m
    → (r : Muxer × FrameId) → IsMapped m s id r
    → WellFormed r.0
mapped-WellFormed m s id h r mapped = record {
  inv = mapped.ok;
  keyed_in = (mapped.keyed h.keyed_in h.keyed_out).0;
  keyed_out = (mapped.keyed h.keyed_in h.keyed_out).1;
  entries =
      subst (λ n. IsEntries n r.0.streams) (sym mapped.numbered)
        (subst (IsEntries m.stream_ids) (sym mapped.same) h.entries);
}

maps-WellFormed :
    (m : Muxer) (stream : ℕ) (id : FrameId)
    → IsRemote id
    → m.framesets < 2 ^ 24
    → m.stream_ids ≤ 2 ^ 15
    → WellFormed m
    → let m' = step m (maps stream id) in
      WellFormed m' × (m'.framesets ≤ m.framesets + 1) × (m'.stream_ids ≤ m.stream_ids + 1)
unfolding step find_or_create_local
maps-WellFormed m stream id remote room ids h = go (find_entry stream m.streams) refl
  where
    go :
        (o : Option StreamEntry)
        → find_entry stream m.streams ≡ o
        → let made : Option (Muxer × FrameId) = elim o [
          | none ↦ none
          | some e ↦ some (map_from_input m e id)
        ] in
          WellFormed (or_same m made)
          × ((or_same m made).framesets ≤ m.framesets + 1)
          × ((or_same m made).stream_ids ≤ m.stream_ids + 1)
    go none found = (h, omega arith, omega arith)
    go (some e) found =
        let (alive, dynamic, small) =
          find_entry-deref m.stream_ids stream m.streams e h.entries found in
        let mapped = map_from_input-mapped m h.inv e (omega arith) id remote alive room dynamic in
        (
          mapped-WellFormed m e id h (map_from_input m e id) mapped,
          mapped.count,
          omega (arith, mapped.numbered),
        )

-- One call, with the framesets counted.
step-WellFormed :
    (m : Muxer) (call : Call)
    → IsCall call
    → m.framesets < 2 ^ 24
    → m.stream_ids ≤ 2 ^ 15
    → WellFormed m
    → WellFormed (step m call)
      × ((step m call).framesets ≤ m.framesets + 1)
      × ((step m call).stream_ids ≤ m.stream_ids + 1)
unfolding step add
step-WellFormed m (adds stream) ok room ids h =
    (add-WellFormed m h stream, omega arith, omega arith)
step-WellFormed m (removes stream) ok room ids h = (
  remove-WellFormed m h stream,
  omega (arith, remove_counts m stream),
  omega (arith, remove_counts m stream),
)
step-WellFormed m (maps stream id) ok room ids h = maps-WellFormed m stream id ok room ids h

unfoldable pub steps : Muxer → List Call → Muxer
steps m [] = m
steps m (call ∷ calls) = steps (step m call) calls

abbrev pub AreCalls : List Call → Type 0
AreCalls [] = Unit {0}
AreCalls (call ∷ calls) = IsCall call × AreCalls calls

steps_from :
    (m : Muxer) (calls : List Call)
    → AreCalls calls
    → m.framesets + length calls < 2 ^ 15
    → m.stream_ids + length calls < 2 ^ 15
    → WellFormed m
    → WellFormed (steps m calls)
unfolding steps
steps_from m [] ok room ids h = h
steps_from m (call ∷ calls) (first, rest) room ids h =
    let (h', count, count') = step-WellFormed m call first (omega arith) (omega arith) h in
    steps_from (step m call) calls rest (omega arith) (omega arith) h'

-- After any sequence of less than 2^15 calls that add and remove streams without a fixed frameset and
-- map remote frames of less than 2^24, the two maps are inverse to one another, distinct remote frames
-- have distinct local ones, each key is there once, and every mapping leads to a stream that the muxer
-- has: removing a stream leaves none to it.
pub steps-WellFormed :
    (calls : List Call) → AreCalls calls → length calls < 2 ^ 15 → WellFormed (steps empty calls)
steps-WellFormed calls ok room =
    steps_from empty calls ok (omega arith) (omega arith)
      (record { inv = empty-Inv; keyed_in = tt; keyed_out = tt; entries = tt })
