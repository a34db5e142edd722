-- ===== src/Rpc.antt =====
-- Remote calls: src/dispatcher.cpp, which finds and calls the handler of a received message, and the part
-- of src/peer.cpp and peer.hpp that sends calls and keeps the callbacks of those that are not answered.
-- The objects of msgpack are a parameter, with which of them is nil and what they convert to; a message is given in
-- the form in which the library's conversion yields it. Names, which are only compared, are numbers.
pub mod Calls
pub mod Exchange
pub mod Handshake
use beyond_protocol.Prelude.{
  ℕ, ◌+◌, ◌%◌, ◌^◌, Bool, true, false, ◌==◌, if◌then◌else◌, List, [], ◌∷◌, ◌++◌, Option, none, some,
  lookup, put, erase_if,
}

-- Error::kDispatchFailed and Error::kRPCResponse
abbrev pub dispatch_failed : ℕ
dispatch_failed = 3

abbrev pub rpc_response : ℕ
rpc_response = 5

-- What a message converts to, with the type of a call. A message of another size is `sized`.
pub data Message (V : Type 0) : Type 0 where
  notification : ℕ → V → Message V
  call : ℕ → ℕ → ℕ → V → Message V
  response : ℕ → V → V → Message V
  bad_call : Message V
  bad_response : Message V
  bad_notification : Message V
  sized : ℕ → Message V

-- What a handler does: it returns, or it throws a std::exception, given as the object of its
-- text, or it throws something else.
pub data Returned (V : Type 0) : Type 0 where
  value : V → Returned V
  exception : V → Returned V
  other : Returned V

-- How dispatch() ends: with a std::exception, or with what is no std::exception.
pub data Ending : Type 0 where
  returned : Ending
  raised : Ending
  escaped : Ending

-- The objects of msgpack: which is nil, what one converts to for the type that the call of a promise has, and what
-- one converts to as a text. A conversion to another type throws a std::exception.
pub record Objects (V : Type 0) : Type 0 where
  pub is_nil : V → Bool
  pub convert : ℕ → V → Option V
  pub convert_text : V → Option V

-- What is sent to the peer, what becomes of the promise of a call, and notifyError_. A promise is broken when
-- the callback that keeps it is destroyed before it has a value or an exception.
pub data Event (V : Type 0) : Type 0 where
  sent : Message V → Event V
  set_value : ℕ → V → Event V
  set_exception : ℕ → V → Event V
  broken : ℕ → Event V
  error : ℕ → Event V

-- callbacks_, by the promise that each callback keeps.
abbrev pub Callbacks : Type 0
Callbacks = List (ℕ × ℕ)

module _ {H : Type 0} where
  -- _locateHandler, over the bindings of the dispatcher and of its parents.
  unfoldable pub locate_handler : List (List (ℕ × H)) → ℕ → Option H
  locate_handler [] name = none
  locate_handler (funcs ∷ parents) name = elim (lookup name funcs) [
    | none ↦ locate_handler parents name
    | some h ↦ some h
  ]

  -- bind(), which throws if the name has a binding in this dispatcher.
  unfoldable pub bind : ℕ → H → List (ℕ × H) → Option (List (ℕ × H))
  bind name h funcs = elim (lookup name funcs) [ none ↦ some (put name h funcs) | some g ↦ none ]

  unfoldable pub is_bound : ℕ → List (ℕ × H) → Bool
  is_bound name funcs = elim (lookup name funcs) [ none ↦ false | some h ↦ true ]

  unfoldable pub unbind : ℕ → List (ℕ × H) → List (ℕ × H)
  unbind name funcs = erase_if (λ j h. j == name) funcs

module _ {V : Type 0} (objects : Objects V) where
  -- The callback of asyncCall(), given the result and the error; none where a conversion throws.
  unfoldable pub call_back : ℕ → V → V → Option (Event V)
  call_back promise res err =
      if objects.is_nil err
      then (elim (objects.convert promise res) [
        | none ↦ none
        | some v ↦ some (set_value promise v)
      ])
      else (elim (objects.convert_text err) [
        | none ↦ none
        | some text ↦ some (set_exception promise text)
      ])

  -- The call of the callback in _dispatchResponse, with its catch, and the end of the callback.
  unfoldable pub called_back : ℕ → V → V → List (Event V)
  called_back promise res err = elim (call_back promise res err) [
    | some event ↦ event ∷ []
    | none ↦ error rpc_response ∷ broken promise ∷ []
  ]

  -- _dispatchResponse
  unfoldable pub dispatch_response : ℕ → V → V → Callbacks → Callbacks × List (Event V)
  dispatch_response id err res cbs = elim (lookup id cbs) [
    | some promise ↦ (erase_if (λ j p. j == id) cbs, called_back promise res err)
    | none ↦ (cbs, error rpc_response ∷ [])
  ]

-- asyncCall(), with the counter of the calls, which is an unsigned 32-bit identifier on the wire.
unfoldable pub async_call :
    {V : Type 0} → ℕ → V → ℕ → ℕ → Callbacks → (ℕ × Callbacks) × List (Event V)
async_call name args promise rpcid cbs =
    (((rpcid + 1) % 2 ^ 32, put rpcid promise cbs), sent (call 0 rpcid name args) ∷ [])

unfoldable pub cancel_call : ℕ → Callbacks → Callbacks
cancel_call id cbs = erase_if (λ j p. j == id) cbs

-- A handler, with the state that handlers share.
abbrev pub Handler : Type 0 → Type 0 → Type 0
Handler V W = V → W → W × Returned V

-- _sendResponse and _sendErrorResponse
unfoldable pub answer : {V : Type 0} → V → ℕ → Returned V → List (Event V) × Ending
answer nil id (value v) = (sent (response id nil v) ∷ [], returned)
answer nil id (exception e) = (sent (response id e nil) ∷ [], returned)
answer nil id other = ([], escaped)

-- A std::exception of the handler is thrown on with another text.
unfoldable pub notified : {V : Type 0} → Returned V → Ending
notified (value v) = returned
notified (exception e) = raised
notified other = escaped

-- What process_message_ adds for an exception that it catches.
unfoldable pub caught : {V : Type 0} → Ending → List (Event V)
caught raised = error dispatch_failed ∷ []
caught _ = []

module _ {V W : Type 0} (nil : V) where
  unfoldable pub dispatch_call :
      List (List (ℕ × Handler V W)) → ℕ → ℕ → ℕ → V → W → W × (List (Event V) × Ending)
  dispatch_call funcs type id name args w =
      if type == 0
      then elim (locate_handler funcs name) [
        | some h ↦ let (w', r) = h args w in (w', answer nil id r)
        | none ↦ (w, ([], raised))
      ]
      else (w, ([], raised))

  unfoldable pub dispatch_notification : List (List (ℕ × Handler V W)) → ℕ → V → W → W × Ending
  dispatch_notification funcs name args w = elim (locate_handler funcs name) [
    | some h ↦ let (w', r) = h args w in (w', notified r)
    | none ↦ (w, raised)
  ]

  unfoldable pub dispatch :
      Objects V
      → List (List (ℕ × Handler V W))
      → Message V
      → Callbacks
      → W
      → Callbacks × (W × (List (Event V) × Ending))
  dispatch objects funcs (notification name args) cbs w =
      let (w', ending) = dispatch_notification funcs name args w in (cbs, (w', ([], ending)))
  dispatch objects funcs (call type id name args) cbs w =
      (cbs, dispatch_call funcs type id name args w)
  dispatch objects funcs (response id err res) cbs w =
      let (cbs', events) = dispatch_response objects id err res cbs in
      (cbs', (w, (events, returned)))
  dispatch objects funcs bad_call cbs w = (cbs, (w, ([], raised)))
  dispatch objects funcs bad_response cbs w = (cbs, (w, ([], raised)))
  dispatch objects funcs bad_notification cbs w = (cbs, (w, ([], raised)))
  dispatch objects funcs (sized n) cbs w = (cbs, (w, ([], raised)))

  -- process_message_
  unfoldable pub process_message :
      Objects V
      → List (List (ℕ × Handler V W))
      → Message V
      → Callbacks
      → W
      → Callbacks × (W × (List (Event V) × Ending))
  process_message objects funcs msg cbs w =
      let (cbs', (w', (events, ending))) = dispatch objects funcs msg cbs w in
      (cbs', (w', (events ++ caught ending, ending)))
