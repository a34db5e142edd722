-- ===== src/Rpc/Exchange.antt =====
-- A call and its answer, through both ends: src/dispatcher.cpp and src/peer.cpp.
use mathlib.Core.List.{append-nil}
use beyond_protocol.Prelude.{
  ℕ, Option-cases, inl, inr, ◌≡◌, ◌∙◌, refl, arith, true, false, ◌==◌, List, [], ◌∷◌, ◌++◌, none,
  some, lookup, put, erase_if, lookup-put,
}
use beyond_protocol.Rpc.{
  Objects, broken, rpc_response, called_back, Message, Returned, value, exception, other, Event,
  sent, set_value, set_exception, error, Callbacks, Handler, locate_handler, call_back,
  dispatch_response, async_call, answer, caught, dispatch_call, dispatch, process_message,
}

-- The messages among the events.
abbrev pub messages : {V : Type 0} → List (Event V) → List (Message V)
messages [] = []
messages (sent m ∷ events) = m ∷ messages events
messages (set_value p v ∷ events) = messages events
messages (set_exception p v ∷ events) = messages events
messages (error e ∷ events) = messages events
messages (broken p ∷ events) = messages events

-- What a handler's return is to the promise of the call: what it returned in the type of the call, or the text of its
-- exception; where that has no such form, an error is reported and the promise is broken.
abbrev pub settles : {V : Type 0} → Objects V → ℕ → Returned V → List (Event V)
settles objects promise (value v) = elim (objects.convert promise v) [
  | none ↦ error rpc_response ∷ broken promise ∷ []
  | some x ↦ set_value promise x ∷ []
]
settles objects promise (exception e) = elim (objects.convert_text e) [
  | none ↦ error rpc_response ∷ broken promise ∷ []
  | some text ↦ set_exception promise text ∷ []
]
settles objects promise other = []

-- A handler that returns, or throws a std::exception, whose text is not nil.
abbrev pub IsAnswer : {V : Type 0} → Objects V → Returned V → Type 0
IsAnswer objects (value v) = Unit {0}
IsAnswer objects (exception e) = objects.is_nil e ≡ false
IsAnswer objects other = ⊥

erase-put :
    (id p : ℕ) (cbs : Callbacks)
    → lookup id cbs ≡ none
    → erase_if (λ j q. j == id) (put id p cbs) ≡ cbs
unfolding lookup put erase_if
erase-put id p [] h = ground arith
erase-put id p ((j, q) ∷ cbs) h = ground (arith, erase-put id p cbs)

-- The callback that was just put there, found and taken out again.
taken_out :
    {V : Type 0} (objects : Objects V) (id p : ℕ) (cbs : Callbacks) (err res : V)
    → lookup id cbs ≡ none
    → dispatch_response objects id err res (put id p cbs) ≡ (cbs, called_back objects p res err)
unfolding dispatch_response
taken_out objects id p cbs err res h =
    let found : lookup id (put id p cbs) ≡ some p = lookup-put id id p cbs ∙ ground arith in
    ground (arith, found, erase-put id p cbs h)

called_back-value :
    {V : Type 0} (objects : Objects V) (p : ℕ) (v err : V)
    → objects.is_nil err ≡ true
    → called_back objects p v err ≡ settles objects p (value v)
unfolding called_back call_back
called_back-value objects p v err h =
    rw (called_back, call_back, h)
      (elim (Option-cases (objects.convert p v)) [
        | inl e ↦ rw (settles, e) refl
        | inr (x, e) ↦ rw (settles, e) refl
      ])

called_back-exception :
    {V : Type 0} (objects : Objects V) (p : ℕ) (v err : V)
    → objects.is_nil err ≡ false
    → called_back objects p v err ≡ settles objects p (exception err)
unfolding called_back call_back
called_back-exception objects p v err h =
    rw (called_back, call_back, h)
      (elim (Option-cases (objects.convert_text err)) [
        | inl e ↦ rw (settles, e) refl
        | inr (x, e) ↦ rw (settles, e) refl
      ])

module _ {V W : Type 0} (nil : V) (objects : Objects V) where
  -- The messages that arrive at an end, one after the other.
  abbrev pub arrive :
      List (List (ℕ × Handler V W))
      → List (Message V)
      → Callbacks
      → W
      → Callbacks × (W × List (Event V))
  arrive funcs [] cbs w = (cbs, (w, []))
  arrive funcs (m ∷ ms) cbs w =
      let (cbs1, (w1, (events, ending))) = process_message nil objects funcs m cbs w in
      let (cbs2, (w2, more)) = arrive funcs ms cbs1 w1 in (cbs2, (w2, events ++ more))

  -- A call is made at one end, arrives at the other, and what that sends arrives back.
  abbrev pub exchange :
      List (List (ℕ × Handler V W))
      → List (List (ℕ × Handler V W))
      → ℕ
      → V
      → ℕ
      → ℕ
      → Callbacks
      → Callbacks
      → W
      → W
      → Callbacks × (W × List (Event V))
  exchange funcs near name args promise rpcid cbs far_cbs w near_w =
      let ((next, cbs1), events) = async_call name args promise rpcid cbs in
      let (far_cbs1, (w1, replies)) = arrive funcs (messages events) far_cbs w in
      let (cbs2, (near_w1, outcome)) = arrive near (messages replies) cbs1 near_w in
      (cbs2, (w1, outcome))

  module _ (funcs near : List (List (ℕ × Handler V W))) (name rpcid promise : ℕ) (args : V)
      (cbs far_cbs : Callbacks) (w near_w : W) where
    -- The answer, back at the end that made the call.
    answered :
        (r : Returned V)
        → objects.is_nil nil ≡ true
        → lookup rpcid cbs ≡ none
        → IsAnswer objects r
        → arrive near
            (messages (((answer nil rpcid r).0 ++ caught (answer nil rpcid r).1) ++ []))
            (put rpcid promise cbs)
            near_w
          ≡ (cbs, (near_w, settles objects promise r))
    unfolding process_message dispatch answer caught
    answered (value v) nil_nil fresh ok =
        rw
          (
            taken_out objects rpcid promise cbs nil v fresh,
            called_back-value objects promise v nil nil_nil,
            append-nil (settles objects promise (value v)),
            append-nil (settles objects promise (value v)),
          )
          refl
    answered (exception e) nil_nil fresh ok =
        rw
          (
            taken_out objects rpcid promise cbs e nil fresh,
            called_back-exception objects promise nil e ok,
            append-nil (settles objects promise (exception e)),
            append-nil (settles objects promise (exception e)),
          )
          refl
    answered other nil_nil fresh ok = absurd ok

    -- A call of a name that is bound at the other end, under an identifier that is not in use, runs the handler there once,
    -- settles its promise with what the handler returned, in the type of the call, or with the text of the
    -- exception that it threw, and leaves no callback behind. If it has no such form the promise is broken and an
    -- error is reported. The handler returns, or throws a std::exception, whose text is not nil.
    pub exchange-settles :
        (h : Handler V W)
        → objects.is_nil nil ≡ true
        → lookup rpcid cbs ≡ none
        → locate_handler funcs name ≡ some h
        → IsAnswer objects (h args w).1
        → exchange funcs near name args promise rpcid cbs far_cbs w near_w
          ≡ (cbs, ((h args w).0, settles objects promise (h args w).1))
    unfolding async_call process_message dispatch dispatch_call
    exchange-settles h nil_nil fresh bound ok =
        rw (bound, answered (h args w).1 nil_nil fresh ok) refl

    -- A call of a name that is not bound at the other end is not answered: nothing comes back, and
    -- the callback stays.
    pub exchange-none :
        locate_handler funcs name ≡ none
        → exchange funcs near name args promise rpcid cbs far_cbs w near_w
          ≡ (put rpcid promise cbs, (w, []))
    unfolding async_call process_message dispatch dispatch_call caught
    exchange-none unbound = rw unbound refl
