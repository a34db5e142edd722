-- ===== src/Muxer/Invariant.antt =====
-- The maps of a muxer whose streams have no fixed frameset are inverse to one another, and lead to
-- streams that it still has. Remote framesets are below 2^16, the width that `frameset_key` gives
-- them, and local ones below 2^24, the width of a frame identifier.
use beyond_protocol.Prelude.{
  ℕ, ◌+◌, ◌*◌, ◌/◌, ◌%◌, ◌^◌, ◌<◌, ◌≤◌, ◌≡◌, ◌∙◌, refl, sym, ap, subst, Option, none, some, bit_or,
  lookup, put, arith, lookup-put, put-cases, or_fields, inl, inr,
}
use beyond_protocol.FrameId.{FrameId, frameset, source, make}
use beyond_protocol.Muxer.{StreamEntry, Muxer, empty, input_key, frameset_key, deref}

abbrev pub IsRemote : FrameId → Type 0
IsRemote id = id.id < 2 ^ 24

-- The keys of the two maps, as numbers.
abbrev pub in_key : ℕ → FrameId → ℕ
in_key i id = i * 2 ^ 32 + id.id

abbrev pub fs_key : ℕ → FrameId → ℕ
fs_key i id = i * 2 ^ 16 + id.id / 2 ^ 8

pub input_key-in_key :
    (s : StreamEntry) (id : FrameId) → IsRemote id → input_key s id ≡ in_key s.id id
unfolding input_key
input_key-in_key s id h = or_fields 32 s.id id.id (omega arith)

pub frameset_key-fs_key :
    (s : StreamEntry) (id : FrameId)
    → s.id < 2 ^ 15
    → IsRemote id
    → frameset_key s id ≡ fs_key s.id id
unfolding frameset_key frameset
frameset_key-fs_key s id small h =
    let whole : s.id * 2 ^ 16 % 2 ^ 32 ≡ s.id * 2 ^ 16 = omega arith in
    ap (λ k. bit_or k (id.id / 2 ^ 8)) whole ∙ or_fields 16 s.id (id.id / 2 ^ 8) (omega arith)

pub record Inv (m : Muxer) : Type 0 where
  pub forth :
      (i : ℕ) (id l : FrameId)
      → IsRemote id
      → lookup (in_key i id) m.imap ≡ some l
      → lookup l.id m.omap ≡ some (id, i)
  pub back :
      (n : ℕ) (id : FrameId) (i : ℕ)
      → lookup n m.omap ≡ some (id, i)
      → IsRemote id × (lookup (in_key i id) m.imap ≡ some (record { id = n }))
  pub derived :
      (n : ℕ) (id : FrameId) (i : ℕ)
      → lookup n m.omap ≡ some (id, i)
      → (fs : ℕ) × (lookup (fs_key i id) m.fsmap ≡ some fs) × (n ≡ (make fs (source id)).id)
  pub bounded : (k fs : ℕ) → lookup k m.fsmap ≡ some fs → fs < m.framesets
  pub single : (k k' fs : ℕ) → lookup k m.fsmap ≡ some fs → lookup k' m.fsmap ≡ some fs → k ≡ k'
  pub live :
      (n : ℕ) (id : FrameId) (i : ℕ)
      → lookup n m.omap ≡ some (id, i)
      → (e : StreamEntry) × (deref i m.streams ≡ some e)

make-injective :
    (fs fs' a b : ℕ)
    → fs < 2 ^ 24
    → fs' < 2 ^ 24
    → (make fs a).id ≡ (make fs' b).id
    → (fs ≡ fs') × (a % 2 ^ 8 ≡ b % 2 ^ 8)
unfolding make
make-injective fs fs' a b h h' e = omega arith

source-make-fields :
    (i i' : ℕ) (id id' : FrameId)
    → IsRemote id
    → IsRemote id'
    → fs_key i id ≡ fs_key i' id'
    → source id % 2 ^ 8 ≡ source id' % 2 ^ 8
    → (i ≡ i') × (id.id ≡ id'.id)
unfolding source
source-make-fields i i' id id' h h' e e' = omega arith

-- The maps after an identifier was registered.
abbrev pub registered : Muxer → ℕ → FrameId → ℕ → Muxer
registered m i id fs = record m {
  imap = put (in_key i id) (make fs (source id)) m.imap;
  omap = put (make fs (source id)).id (id, i) m.omap;
}

module _ (m : Muxer) (inv : Inv m) (i : ℕ) (id : FrameId) (fs : ℕ) (remote : IsRemote id)
    (room : m.framesets ≤ 2 ^ 24) (known : lookup (fs_key i id) m.fsmap ≡ some fs)
    (new : lookup (in_key i id) m.imap ≡ none) where
  -- A local identifier that is made for a new remote one is not in use.
  pub fresh : lookup (make fs (source id)).id m.omap ≡ none
  fresh = go (lookup (make fs (source id)).id m.omap) refl
    where
      clash : (id' : FrameId) (i' : ℕ) → lookup (make fs (source id)).id m.omap ≡ some (id', i') → ⊥
      clash id' i' e =
          let (remote', there) = inv.back (make fs (source id)).id id' i' e in
          let (fs', known', made) = inv.derived (make fs (source id)).id id' i' e in
          let below = inv.bounded (fs_key i id) fs known in
          let below' = inv.bounded (fs_key i' id') fs' known' in
          let parts =
            make-injective fs fs' (source id) (source id') (omega arith) (omega arith) made in
          let keys =
            inv.single (fs_key i id) (fs_key i' id') fs known (known' ∙ ap some (sym parts.0)) in
          let same = source-make-fields i i' id id' remote remote' keys parts.1 in
          let key : in_key i' id' ≡ in_key i id = omega arith in
          let there' = subst (λ t. lookup t m.imap ≡ some (make fs (source id))) key there in
          cc (new, there')

      go :
          (o : Option (FrameId × ℕ))
          → lookup (make fs (source id)).id m.omap ≡ o
          → lookup (make fs (source id)).id m.omap ≡ none
      go none e = e
      go (some (id', i')) e = absurd (clash id' i' e)

  abbrev pub local : FrameId
  local = make fs (source id)

  registered_forth :
      (i' : ℕ) (id' l : FrameId)
      → IsRemote id'
      → lookup (in_key i' id') (registered m i id fs).imap ≡ some l
      → lookup l.id (registered m i id fs).omap ≡ some (id', i')
  registered_forth i' id' l remote' h = ground (
    arith,
    fresh,
    lookup-put (in_key i id) (in_key i' id') local m.imap,
    lookup-put local.id l.id (id, i) m.omap,
    inv.forth i' id' l remote',
  )

  registered_back :
      (n : ℕ) (id' : FrameId) (i' : ℕ)
      → lookup n (registered m i id fs).omap ≡ some (id', i')
      → IsRemote id'
        × (lookup (in_key i' id') (registered m i id fs).imap ≡ some (record { id = n }))
  registered_back n id' i' h = elim (put-cases local.id n (id, i) (id', i') m.omap h) [
    | inl (k, v) ↦
        let there = lookup-put (in_key i id) (in_key i' id') local m.imap in
        ground (arith, remote, ap (λ p. p.0) v, ap (λ p. p.1) v)
    | inr (k, old) ↦
        let (remote', there) = inv.back n id' i' old in
        let now = lookup-put (in_key i id) (in_key i' id') local m.imap in ground arith
  ]

  registered_derived :
      (n : ℕ) (id' : FrameId) (i' : ℕ)
      → lookup n (registered m i id fs).omap ≡ some (id', i')
      → (fs' : ℕ) × (lookup (fs_key i' id') m.fsmap ≡ some fs') × (n ≡ (make fs' (source id')).id)
  registered_derived n id' i' h = elim (put-cases local.id n (id, i) (id', i') m.omap h) [
    | inl (k, v) ↦ (
      fs,
      subst (λ p. lookup (fs_key p.1 p.0) m.fsmap ≡ some fs) v known,
      sym k ∙ ap (λ p. (make fs (source p.0)).id) v,
    )
    | inr (k, old) ↦ inv.derived n id' i' old
  ]

  pub registered-Inv : (e : StreamEntry) → deref i m.streams ≡ some e → Inv (registered m i id fs)
  registered-Inv e alive = record {
    forth = registered_forth;
    back = registered_back;
    derived = registered_derived;
    bounded = inv.bounded;
    single = inv.single;
    live = λ n id' i' h. elim (put-cases local.id n (id, i) (id', i') m.omap h) [
      | inl (k, v) ↦ (e, subst (λ p. deref p.1 m.streams ≡ some e) v alive)
      | inr (k, old) ↦ inv.live n id' i' old
    ];
  }

-- A frameset number that is new leaves the maps inverse to one another.
abbrev pub with_frameset : Muxer → ℕ → Muxer
with_frameset m key = record m { fsmap = put key m.framesets m.fsmap; framesets = m.framesets + 1 }

pub with_frameset-Inv :
    (m : Muxer) → Inv m → (key : ℕ) → lookup key m.fsmap ≡ none → Inv (with_frameset m key)
with_frameset-Inv m inv key new = record {
  forth = inv.forth;
  back = inv.back;
  derived = λ n id i h.
      let (fs, known, made) = inv.derived n id i h in
      (fs, ground (arith, lookup-put key (fs_key i id) m.framesets m.fsmap), made);
  bounded = λ k fs h. ground (arith, lookup-put key k m.framesets m.fsmap, inv.bounded k fs);
  single = λ k k' fs h h'. ground (
    arith,
    lookup-put key k m.framesets m.fsmap,
    lookup-put key k' m.framesets m.fsmap,
    inv.bounded k fs,
    inv.bounded k' fs,
    inv.single k k' fs,
  );
  live = inv.live;
}

pub none_not_some : {A : Type 0} {a : A} → none ≡ some a → ⊥
none_not_some h = ground arith

pub empty-Inv : Inv empty
unfolding lookup
empty-Inv = record {
  forth = λ i id l r h. ground arith;
  back = λ n id i h. absurd (none_not_some h);
  derived = λ n id i h. absurd (none_not_some h);
  bounded = λ k fs h. ground arith;
  single = λ k k' fs h h'. ground arith;
  live = λ n id i h. absurd (none_not_some h);
}
