-- ===== src/QuicPeer/Receive/Agree.antt =====
-- OnData of src/quic/src/quic_peer.cpp and the decoder of src/quic/src/websocket.hpp.
use mathlib.Core.List.{append-nil, append_assoc, flatten}
use beyond_protocol.Prelude.{
  ℕ, ◌+◌, ◌≤◌, ◌≡◌, refl, sym, ap, subst, ◌∙◌, arith, Bool, true, false, not, List, [], ◌∷◌, ◌++◌,
  length,
}
use beyond_protocol.Websocket.Read.{
  Reader, Outcome, abort, undefined, returned, receive, receive_all,
}
use beyond_protocol.QuicPeer.Receive.{
  Receiver, Receipt, check_failed, overrun, wrapped, undefined_span, null_stream, received,
  receive_one, receive_each, sizes,
}
use beyond_protocol.QuicPeer.Receive.Taken.{unframed_one, Takes, receive_one_lem}

-- The bytes of some buffers, as the decoder gives them or as they are.
pub unframed : Bool → Reader → List (List ℕ) → List ℕ → Outcome (List ℕ)
unframed ws r [] out = returned r out
unframed ws r (b ∷ bs) out = elim (unframed_one ws r b) [
  | abort ↦ abort
  | undefined ↦ undefined
  | returned r' bytes ↦ unframed ws r' bs (out ++ bytes)
]

continue_equal :
    (f g : Reader → List ℕ → Outcome (List ℕ))
    → ((r : Reader) (bytes : List ℕ) → f r bytes ≡ g r bytes)
    → (o : Outcome (List ℕ))
    → ◌≡◌ {A = Outcome (List ℕ)}
        (elim o [ abort ↦ abort | undefined ↦ undefined | returned r bytes ↦ f r bytes ])
        (elim o [ abort ↦ abort | undefined ↦ undefined | returned r bytes ↦ g r bytes ])
continue_equal f g same abort = refl
continue_equal f g same undefined = refl
continue_equal f g same (returned r bytes) = same r bytes

pub unframed-receive_all :
    (r : Reader) (bs : List (List ℕ)) (out : List ℕ) → unframed true r bs out ≡ receive_all r bs out
unfolding unframed receive_all
unframed-receive_all r [] out = refl
unframed-receive_all r (b ∷ bs) out =
    continue_equal (λ r' bytes. unframed true r' bs (out ++ bytes))
      (λ r' bytes. receive_all r' bs (out ++ bytes))
      (λ r' bytes. unframed-receive_all r' bs (out ++ bytes)) (receive r b)

pub unframed-flatten :
    (r : Reader) (bs : List (List ℕ)) (out : List ℕ)
    → unframed false r bs out ≡ returned r (out ++ flatten bs)
unfolding unframed flatten
unframed-flatten r [] out = ap (returned r) (sym (append-nil out))
unframed-flatten r (b ∷ bs) out =
    unframed-flatten r bs (out ++ b) ∙ ap (returned r) (append_assoc out b (flatten bs))

-- All that is known after the loop, where `base` had been parsed before, and `told` bytes consumed.
abbrev pub Reaches : List ℕ → ℕ → ℕ → Outcome (List ℕ) → Receipt → Type 0
Reaches base told n abort t = t ≡ check_failed
Reaches base told n undefined t = t ≡ undefined_span
Reaches base told n (returned r out) t =
    (s1 : Receiver) × (t ≡ received s1)
    × (s1.reader ≡ r)
    × (s1.parsed ++ s1.copied ≡ base ++ out)
    × (s1.consumed ≡ told)
    × (length s1.copied + s1.size_total ≡ n)
    × (s1.has_stream ≡ not r.error)

-- The rest of the loop, after one buffer.
abbrev go_on : (ℕ → ℕ → ℕ) → List (List ℕ) → Receipt → Receipt
go_on reserve bs t = elim t [
  | check_failed ↦ check_failed
  | overrun ↦ overrun
  | wrapped ↦ wrapped
  | undefined_span ↦ undefined_span
  | null_stream ↦ null_stream
  | received s1 ↦ receive_each reserve bs s1
]

reach_next :
    (reserve : ℕ → ℕ → ℕ) (base out : List ℕ) (n : ℕ) (ws : Bool) (bs : List (List ℕ))
    (s : Receiver)
    → s.ws_frame ≡ ws
    → s.has_stream ≡ not s.reader.error
    → s.parsed ++ s.copied ≡ base ++ out
    → ((s1 : Receiver) (more : List ℕ)
        → s1.ws_frame ≡ ws
        → s1.has_stream ≡ not s1.reader.error
        → s1.parsed ++ s1.copied ≡ base ++ more
        → Reaches base s1.consumed
            (length s1.copied + s1.size_total + sizes bs)
            (unframed ws s1.reader bs more)
            (receive_each reserve bs s1))
    → (o : Outcome (List ℕ)) (t : Receipt) → Takes s n o t
    → Reaches base s.consumed
        (length s.copied + s.size_total + (n + sizes bs))
        (elim o [
          | abort ↦ abort
          | undefined ↦ undefined
          | returned r' bytes ↦ unframed ws r' bs (out ++ bytes)
        ])
        (go_on reserve bs t)
reach_next reserve base out n ws bs s framed alive start again abort t takes =
    ap (go_on reserve bs) takes
reach_next reserve base out n ws bs s framed alive start again undefined t takes =
    ap (go_on reserve bs) takes
reach_next reserve base out n ws bs s framed alive start again (returned r bytes) t (s1, is, f) =
    let now : s1.parsed ++ s1.copied ≡ base ++ (out ++ bytes) =
      f.written ∙ ap (λ w. w ++ bytes) start ∙ append_assoc base out bytes in
    let still : s1.has_stream ≡ not s1.reader.error =
      f.streams alive ∙ ap (λ r'. not r'.error) (sym f.same_reader) in
    let rest = again s1 (out ++ bytes) (f.same_frame ∙ framed) still now in
    let counted = f.counted in
    let sum : length s1.copied + s1.size_total + sizes bs
        ≡ length s.copied + s.size_total + (n + sizes bs) =
      omega arith in
    let with_reader =
      subst
        (λ r'.
          Reaches base s1.consumed (length s1.copied + s1.size_total + sizes bs)
            (unframed ws r' bs (out ++ bytes)) (receive_each reserve bs s1))
        f.same_reader rest in
    let with_told =
      subst
        (λ told.
          Reaches base told (length s1.copied + s1.size_total + sizes bs)
            (unframed ws r bs (out ++ bytes)) (receive_each reserve bs s1))
        f.same_told with_reader in
    let with_sum =
      subst
        (λ k.
          Reaches base s.consumed k (unframed ws r bs (out ++ bytes)) (receive_each reserve bs s1))
        sum with_told in
    subst
      (λ t'.
        Reaches base s.consumed (length s.copied + s.size_total + (n + sizes bs))
          (unframed ws r bs (out ++ bytes)) (go_on reserve bs t'))
      (sym is) with_sum

pub receive_each_lem :
    (reserve : ℕ → ℕ → ℕ)
    → ((room size : ℕ) → size ≤ reserve room size)
    → (base : List ℕ) (ws : Bool) (bs : List (List ℕ)) (s : Receiver) (out : List ℕ)
    → s.ws_frame ≡ ws
    → s.has_stream ≡ not s.reader.error
    → s.parsed ++ s.copied ≡ base ++ out
    → Reaches base s.consumed
        (length s.copied + s.size_total + sizes bs)
        (unframed ws s.reader bs out)
        (receive_each reserve bs s)
unfolding receive_each unframed
receive_each_lem reserve gives base ws [] s out framed alive start =
    (s, refl, refl, start, refl, omega arith, alive)
receive_each_lem reserve gives base ws (b ∷ bs) s out framed alive start =
    reach_next reserve base out (length b) ws bs s framed alive start
      (λ s1 more f op now. receive_each_lem reserve gives base ws bs s1 more f op now)
      (unframed_one ws s.reader b) (receive_one reserve b s)
      (receive_one_lem reserve b s ws gives framed)
