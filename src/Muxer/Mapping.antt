-- ===== src/Muxer/Mapping.antt =====
-- src/streams/muxer.cpp: what _mapFromInput does for a stream without a fixed frameset.
use beyond_protocol.Prelude.{
  ℕ, ◌+◌, ◌^◌, ◌<◌, ◌≤◌, ◌≡◌, ◌∙◌, refl, sym, ap, subst, none, some, lookup, put, arith, lookup-put,
  IsKeyed, put-IsKeyed, Option-cases, inl, inr,
}
use beyond_protocol.FrameId.{FrameId, source, make}
use beyond_protocol.Muxer.{
  StreamEntry, Muxer, register, local_frameset, allocate, allocate_dynamic, map_from_input, deref,
  find_from_input, map_to_output,
}
use beyond_protocol.Muxer.Invariant.{
  IsRemote, Inv, in_key, fs_key, input_key-in_key, frameset_key-fs_key, registered, registered-Inv,
  with_frameset, with_frameset-Inv, fresh,
}

-- A muxer with a frame identifier, related to the muxer before it.
pub record IsMapped (m : Muxer) (s : StreamEntry) (id : FrameId) (r : Muxer × FrameId)
    : Type 0 where
  pub ok : Inv r.0
  pub there : lookup (in_key s.id id) r.0.imap ≡ some r.1
  pub kept : (n : ℕ) (p : FrameId × ℕ) → lookup n m.omap ≡ some p → lookup n r.0.omap ≡ some p
  pub same : r.0.streams ≡ m.streams
  pub numbered : r.0.stream_ids ≡ m.stream_ids
  pub keyed : IsKeyed m.imap → IsKeyed m.omap → IsKeyed r.0.imap × IsKeyed r.0.omap
  pub count : r.0.framesets ≤ m.framesets + 1

register-registered :
    (m : Muxer) (s : StreamEntry) (id : FrameId) (fs : ℕ)
    → IsRemote id
    → register m s id (make fs (source id)) ≡ registered m s.id id fs
unfolding register
register-registered m s id fs remote =
    ap
      (λ k. record m {
        imap = put k (make fs (source id)) m.imap;
        omap = put (make fs (source id)).id (id, s.id) m.omap;
      })
      (input_key-in_key s id remote)

local_frameset_known :
    (m : Muxer) (key fs : ℕ) → lookup key m.fsmap ≡ some fs → local_frameset m key ≡ (m, fs)
unfolding local_frameset
local_frameset_known m key fs h = rw (h, local_frameset)

local_frameset_unknown :
    (m : Muxer) (key : ℕ)
    → lookup key m.fsmap ≡ none
    → local_frameset m key ≡ (with_frameset m key, m.framesets)
unfolding local_frameset
local_frameset_unknown m key h = rw (h, local_frameset)

module _ (m : Muxer) (s : StreamEntry) (small : s.id < 2 ^ 15) (id : FrameId)
    (remote : IsRemote id) where
  allocate_of :
      (m' : Muxer) (fs : ℕ)
      → local_frameset m (fs_key s.id id) ≡ (m', fs)
      → allocate_dynamic m s id ≡ (registered m' s.id id fs, make fs (source id))
  unfolding allocate_dynamic
  allocate_of m' fs e =
      ap
        (λ k.
          let (m1, fs1) = local_frameset m k in
          (register m1 s id (make fs1 (source id)), make fs1 (source id)))
        (frameset_key-fs_key s id small remote)
      ∙ ap (λ p. (register p.0 s id (make p.1 (source id)), make p.1 (source id))) e
      ∙ ap (λ r. (r, make fs (source id))) (register-registered m' s id fs remote)

module _ (m : Muxer) (inv : Inv m) (s : StreamEntry) (small : s.id < 2 ^ 15) (id : FrameId)
    (remote : IsRemote id) (alive : deref s.id m.streams ≡ some s)
    (room : m.framesets < 2 ^ 24) where
  mapped :
      (new : lookup (in_key s.id id) m.imap ≡ none) (m' : Muxer) (inv' : Inv m') (fs : ℕ)
      → lookup (fs_key s.id id) m'.fsmap ≡ some fs
      → m'.imap ≡ m.imap
      → m'.omap ≡ m.omap
      → m'.streams ≡ m.streams
      → m'.stream_ids ≡ m.stream_ids
      → m'.framesets ≤ m.framesets + 1
      → IsMapped m s id (registered m' s.id id fs, make fs (source id))
  mapped new m' inv' fs known imap omap streams numbered count =
      let new' = ap (lookup (in_key s.id id)) imap ∙ new in
      record {
        ok =
            registered-Inv m' inv' s.id id fs remote (omega arith) known new' s
              (ap (deref s.id) streams ∙ alive);
        there =
            ground
              (arith, lookup-put (in_key s.id id) (in_key s.id id) (make fs (source id)) m'.imap);
        kept = λ n p h. ground (
          arith,
          omap,
          fresh m' inv' s.id id fs remote (omega arith) known new',
          lookup-put (make fs (source id)).id n (id, s.id) m'.omap,
        );
        same = streams;
        numbered = numbered;
        keyed = λ ki ko. (
          put-IsKeyed (in_key s.id id) (make fs (source id)) m'.imap (subst IsKeyed (sym imap) ki),
          put-IsKeyed (make fs (source id)).id (id, s.id) m'.omap (subst IsKeyed (sym omap) ko),
        );
        count = count;
      }

  allocate_dynamic-mapped :
      lookup (in_key s.id id) m.imap ≡ none → IsMapped m s id (allocate_dynamic m s id)
  allocate_dynamic-mapped new = elim (Option-cases (lookup (fs_key s.id id) m.fsmap)) [
    | inl unknown ↦
        let known = lookup-put (fs_key s.id id) (fs_key s.id id) m.framesets m.fsmap in
        subst (IsMapped m s id)
          (sym (
            allocate_of m s small id remote (with_frameset m (fs_key s.id id)) m.framesets
              (local_frameset_unknown m (fs_key s.id id) unknown)))
          (mapped new (with_frameset m (fs_key s.id id))
            (with_frameset-Inv m inv (fs_key s.id id) unknown) m.framesets (ground arith) refl refl
            refl refl (omega arith))
    | inr (fs, known) ↦
        subst (IsMapped m s id)
          (sym (
            allocate_of m s small id remote m fs
              (local_frameset_known m (fs_key s.id id) fs known)))
          (mapped new m inv fs known refl refl refl refl (omega arith))
  ]

  pub map_from_input-mapped : s.fixed_fs ≡ none → IsMapped m s id (map_from_input m s id)
  unfolding map_from_input
  map_from_input-mapped dynamic = elim (Option-cases (lookup (in_key s.id id) m.imap)) [
    | inl new ↦
        let key = input_key-in_key s id remote in
        rw (key, new, map_from_input)
          (subst (λ o. IsMapped m s id (allocate m s id o)) (sym dynamic)
            (allocate_dynamic-mapped new))
    | inr (l, known) ↦
        let key = input_key-in_key s id remote in
        rw (key, known, map_from_input)
          (record {
            ok = inv;
            there = known;
            kept = λ n p h. h;
            same = refl;
            numbered = refl;
            keyed = λ ki ko. (ki, ko);
            count = omega arith;
          })
  ]

  -- The local identifier that _mapFromInput gives, for a stream of the muxer without a fixed frameset
  -- and while less than 2^24 local framesets and 2^15 stream numbers are in use, leads back to the stream and
  -- the remote frame; the lookup without creation finds it; and every local identifier that led
  -- somewhere still leads there.
  pub map_from_input-map_to_output :
      s.fixed_fs ≡ none
      → (map_to_output (map_from_input m s id).0 (map_from_input m s id).1 ≡ some (id, s.id))
        × (find_from_input (map_from_input m s id).0 s id ≡ some (map_from_input m s id).1)
        × ((l : FrameId) (p : FrameId × ℕ)
            → map_to_output m l ≡ some p
            → map_to_output (map_from_input m s id).0 l ≡ some p)
  unfolding map_to_output find_from_input
  map_from_input-map_to_output dynamic =
      let r = map_from_input-mapped dynamic in
      (
        r.ok.forth s.id id (map_from_input m s id).1 remote r.there,
        rw (input_key-in_key s id remote) r.there,
        λ l. r.kept l.id,
      )
