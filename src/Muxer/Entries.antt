-- ===== src/Muxer/Entries.antt =====
-- src/streams/muxer.cpp: the list of the streams that a muxer holds, with their local numbers.
use beyond_protocol.Prelude.{
  ℕ, ◌+◌, ◌/◌, ◌^◌, ◌<◌, ◌≡◌, ◌≢◌, ◌∙◌, refl, sym, ap, subst, false, ◌==◌, if◌then◌else◌, List, [],
  ◌∷◌, ◌++◌, none, some, arith, Bool-cases, inl, inr, IsKeyed,
}
use mathlib.Core.Option.{some-injective}
use beyond_protocol.FrameId.{FrameId}
use beyond_protocol.Muxer.{StreamEntry, Muxer, deref, find_entry, erase_entry}
use beyond_protocol.Muxer.Invariant.{IsRemote, Inv, none_not_some, in_key}

-- The entries of the streams: numbers below the next one, each once, and no fixed frameset.
abbrev pub IsEntries : ℕ → List StreamEntry → Type 0
IsEntries n [] = Unit {0}
IsEntries n (e ∷ es) = (e.id < n) × (deref e.id es ≡ none) × (e.fixed_fs ≡ none) × IsEntries n es

pub record WellFormed (m : Muxer) : Type 0 where
  pub inv : Inv m
  pub keyed_in : IsKeyed m.imap
  pub keyed_out : IsKeyed m.omap
  pub entries : IsEntries m.stream_ids m.streams

pub deref-append :
    (i : ℕ) (es : List StreamEntry) (e : StreamEntry)
    → deref i (es ++ e ∷ [])
      ≡ elim (deref i es) [ none ↦ if e.id == i then some e else none | some x ↦ some x ]
unfolding deref
deref-append i [] e = refl
deref-append i (x ∷ es) e = ground (arith, deref-append i es e)

pub append-IsEntries :
    (n : ℕ) (es : List StreamEntry) (e : StreamEntry)
    → IsEntries n es
    → e.id ≡ n
    → e.fixed_fs ≡ none
    → IsEntries (n + 1) (es ++ e ∷ [])
unfolding deref
append-IsEntries n [] e h is dynamic = (omega arith, refl, dynamic, tt)
append-IsEntries n (x ∷ es) e (below, once, fixed, h) is dynamic = (
  omega arith,
  ground (arith, deref-append x.id es e),
  fixed,
  append-IsEntries n es e h is dynamic,
)

pub find_entry-deref :
    (n stream : ℕ) (es : List StreamEntry) (e : StreamEntry)
    → IsEntries n es
    → find_entry stream es ≡ some e
    → (deref e.id es ≡ some e) × (e.fixed_fs ≡ none) × (e.id < n)
unfolding find_entry deref
find_entry-deref n stream [] e h found = ground arith
find_entry-deref n stream (x ∷ es) e (below, once, fixed, h) found =
    elim (Bool-cases (x.stream == stream)) [
      | inl is ↦
          let same : x ≡ e =
            some-injective x e
              (sym (ap (λ b. if b then some x else find_entry stream es) is) ∙ found) in
          subst (λ y. (deref y.id (x ∷ es) ≡ some y) × (y.fixed_fs ≡ none) × (y.id < n)) same
            (ground arith, fixed, below)
      | inr other ↦
          let (there, dynamic, small) = find_entry-deref n stream es e h (ground arith) in
          let apart : x.id ≢ e.id =
            λ same. none_not_some (sym once ∙ ap (λ k. deref k es) same ∙ there) in
          (ground arith, dynamic, small)
    ]

pub deref-erase_entry :
    (stream i : ℕ) (es : List StreamEntry) (se : StreamEntry)
    → find_entry stream es ≡ some se
    → i ≢ se.id
    → deref i (erase_entry stream es) ≡ deref i es
unfolding find_entry deref erase_entry
deref-erase_entry stream i [] se found other = refl
deref-erase_entry stream i (x ∷ es) se found other =
    ground (arith, deref-erase_entry stream i es se)

deref-erase_entry-none :
    (stream i : ℕ) (es : List StreamEntry)
    → deref i es ≡ none
    → deref i (erase_entry stream es) ≡ none
unfolding deref erase_entry
deref-erase_entry-none stream i [] h = refl
deref-erase_entry-none stream i (x ∷ es) h = ground (arith, deref-erase_entry-none stream i es)

pub erase_entry-IsEntries :
    (n stream : ℕ) (es : List StreamEntry) → IsEntries n es → IsEntries n (erase_entry stream es)
unfolding erase_entry
erase_entry-IsEntries n stream [] h = h
erase_entry-IsEntries n stream (x ∷ es) (below, once, fixed, h) =
    ground (arith, erase_entry-IsEntries n stream es h, deref-erase_entry-none stream x.id es once)

pub key_of_other :
    (i j : ℕ) (id : FrameId) → IsRemote id → i ≢ j → (in_key i id / 2 ^ 32 == j) ≡ false
key_of_other i j id remote other = ground arith
