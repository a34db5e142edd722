-- ===== src/QuicPeer/Receive/Whole.antt =====
-- The whole of OnData, in src/quic/src/quic_peer.cpp.
use mathlib.Core.List.{flatten}
use beyond_protocol.Prelude.{
  ℕ, ◌+◌, ◌≤◌, ◌≡◌, refl, sym, ap, subst, arith, Bool, true, false, not, ◌==◌, if◌then◌else◌, List,
  [], ◌++◌, length,
}
use beyond_protocol.Websocket.Read.{Reader, Outcome, abort, undefined, returned, receive_all}
use beyond_protocol.QuicPeer.Receive.{
  Receiver, Receipt, check_failed, overrun, wrapped, undefined_span, null_stream, received,
  buffer_consumed, receive_each, sizes, finish, on_data,
}
use beyond_protocol.QuicPeer.Receive.Agree.{
  Reaches, unframed, unframed-receive_all, unframed-flatten, receive_each_lem,
}

-- How OnData ends, by whether the decoder failed.
abbrev pub Ends : Receiver → ℕ → Bool → Reader → List ℕ → Receipt → Type 0
Ends s n true r out t = t ≡ null_stream
Ends s n false r out t =
    (s1 : Receiver) × (t ≡ received s1)
    × (s1.reader ≡ r)
    × (s1.parsed ≡ s.parsed ++ out)
    × (s1.consumed ≡ s.consumed + n)

-- What OnData makes of what the decoder makes of `n` bytes.
abbrev pub Answers : Receiver → ℕ → Outcome (List ℕ) → Receipt → Type 0
Answers s n abort t = t ≡ check_failed
Answers s n undefined t = t ≡ undefined_span
Answers s n (returned r out) t = Ends s n r.error r out t

-- The end of OnData, after its loop.
abbrev then_finish : ℕ → Receipt → Receipt
then_finish n t = elim t [
  | check_failed ↦ check_failed
  | overrun ↦ overrun
  | wrapped ↦ wrapped
  | undefined_span ↦ undefined_span
  | null_stream ↦ null_stream
  | received s1 ↦ finish n s1
]

finish-Ends :
    (e : Bool) (s s1 : Receiver) (n : ℕ)
    → s1.has_stream ≡ not e
    → length s1.copied + s1.size_total ≡ n
    → s1.consumed ≡ s.consumed
    → (out : List ℕ) → s1.parsed ++ s1.copied ≡ s.parsed ++ out
    → Ends s n e s1.reader out (finish n s1)
unfolding finish buffer_consumed
finish-Ends true s s1 n closed counted told out written = rw closed refl
finish-Ends false s s1 n alive counted told out written =
    let whole : (length s1.copied + s1.size_total == n) ≡ true = ground arith in
    let s2 : Receiver = record s1 { consumed = s1.consumed + (length s1.copied + s1.size_total) } in
    (
      record (buffer_consumed s2) { size_total = 0 },
      rw (alive, whole) refl,
      refl,
      written,
      omega arith,
    )

finish_lem :
    (s : Receiver) (n : ℕ) (o : Outcome (List ℕ)) (t : Receipt)
    → Reaches s.parsed s.consumed n o t
    → Answers s n o (then_finish n t)
finish_lem s n abort t is = ap (then_finish n) is
finish_lem s n undefined t is = ap (then_finish n) is
finish_lem s n (returned r out) t (s1, is, same, written, told, counted, alive) =
    let ends = finish-Ends r.error s s1 n alive counted told out written in
    subst (λ t'. Ends s n r.error r out (then_finish n t')) (sym is)
      (subst (λ r'. Ends s n r.error r' out (finish n s1)) same ends)

expected-unframed :
    (ws : Bool) (s : Receiver) (bs : List (List ℕ))
    → unframed ws s.reader bs []
      ≡ (if ws then receive_all s.reader bs [] else returned s.reader (flatten bs))
expected-unframed true s bs = unframed-receive_all s.reader bs []
expected-unframed false s bs = unframed-flatten s.reader bs []

-- OnData gives msgpack, after what it had, the bytes that the decoder returns for the buffers, or on a stream that
-- is not framed the buffers themselves, wherever new memory is taken between them. It tells the stream of
-- every byte of the buffers. If the decoder fails, OnData calls a stream that close() has set to null. Nothing is
-- written past the memory, no size falls below 0, and a CHECK fails only where one of the decoder does. The
-- conditions are that reserve_buffer gives the room it is asked for, and that the stream is there as long as
-- the decoder has not failed.
pub on_data-receive_all :
    (reserve : ℕ → ℕ → ℕ) (bs : List (List ℕ)) (s : Receiver)
    → ((room size : ℕ) → size ≤ reserve room size)
    → s.has_stream ≡ not s.reader.error
    → Answers s
        (sizes bs)
        (if s.ws_frame then receive_all s.reader bs [] else returned s.reader (flatten bs))
        (on_data reserve bs s)
unfolding on_data
on_data-receive_all reserve bs s gives alive =
    let begun : Receiver = record s { copied = []; size_total = 0 } in
    let looped = receive_each_lem reserve gives s.parsed s.ws_frame bs begun [] refl alive refl in
    let counted : length begun.copied + 0 + sizes bs ≡ sizes bs = omega arith in
    subst (λ o. Answers s (sizes bs) o (on_data reserve bs s)) (expected-unframed s.ws_frame s bs)
      (finish_lem s (sizes bs) (unframed s.ws_frame s.reader bs []) (receive_each reserve bs begun)
        (subst
          (λ n.
            Reaches s.parsed s.consumed n (unframed s.ws_frame s.reader bs [])
              (receive_each reserve bs begun))
          counted looped))
