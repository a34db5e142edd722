-- ===== src/Handle/Calls.antt =====
-- include/ftl/handle.hpp: which callbacks are called, and which are there.
use beyond_protocol.Prelude.{
  ℕ, ◌<◌, ◌≡◌, ◌∙◌, refl, ap, Bool, true, false, ◌==◌, ◌&&◌, ◌||◌, if◌then◌else◌, List, [], ◌∷◌,
  some, lookup, IsKeyed, put-IsKeyed, erase_if-IsKeyed, erased_some, put-cases, arith, inl, inr,
}
use beyond_protocol.Handle.{
  Answer, returns, throws, Callback, Handler, Fired, not_implemented, fired, on, fire, trigger,
  fire_erasing, trigger_async, remove,
}

-- The callbacks have different numbers, all given out before.
pub record IsHandler {W : Type 0} (h : Handler W) : Type 0 where
  pub keyed : IsKeyed h.callbacks
  pub given : (id : ℕ) (f : Callback W) → lookup id h.callbacks ≡ some f → id < h.next_id

module _ {W : Type 0} (h : Handler W) (ok : IsHandler h) where
  pub on-IsHandler : (f : Callback W) → IsHandler (on h f).0
  unfolding on
  on-IsHandler f = record {
    keyed = put-IsKeyed h.next_id f h.callbacks ok.keyed;
    given = λ id g at. elim (put-cases h.next_id id f g h.callbacks at) [
      | inl (same, _) ↦ omega arith
      | inr (other, was) ↦ omega (arith, ok.given id g was)
    ];
  }

  pub remove-IsHandler : (id : ℕ) → IsHandler (remove h id)
  unfolding remove
  remove-IsHandler id = record {
    keyed = erase_if-IsKeyed (λ key f. key == id) h.callbacks ok.keyed;
    given = λ k f at. ok.given k f (erased_some k (λ key f. key == id) f h.callbacks ok.keyed at).0;
  }

-- Every callback called, in order: the world after them and their answers.
abbrev pub call_all : {W : Type 0} → List (ℕ × Callback W) → W → W × List Answer
call_all [] w = (w, [])
call_all ((id, f) ∷ fs) w = let (w', answers) = call_all fs (f w).0 in (w', (f w).1 ∷ answers)

abbrev pub stays : Answer → Bool
stays (returns keep) = keep
stays throws = true

-- The callbacks whose answers let them stay.
abbrev pub staying : {W : Type 0} → List (ℕ × Callback W) → List Answer → List (ℕ × Callback W)
staying [] answers = []
staying (c ∷ cs) [] = []
staying (c ∷ cs) (a ∷ answers) = if stays a then c ∷ staying cs answers else staying cs answers

abbrev pub all_stay : List Answer → Bool
all_stay [] = true
all_stay (a ∷ answers) = stays a && all_stay answers

or_true : (b : Bool) → (b || true) ≡ true
or_true b = ground arith

or_false : (b : Bool) → (b || false) ≡ b
or_false b = ground arith

abbrev pub some_threw : List Answer → Bool
some_threw [] = false
some_threw (returns keep ∷ answers) = some_threw answers
some_threw (throws ∷ answers) = true

module _ {W : Type 0} where
  fire_erasing_lem :
      (fs : List (ℕ × Callback W)) (fault_before : Bool) (w : W)
      → fire_erasing fs fault_before w ≡ (
        (staying fs (call_all fs w).1, (call_all fs w).0),
        some_threw (call_all fs w).1 || fault_before,
      )
  unfolding fire_erasing
  fire_erasing_lem [] fault_before w = refl
  fire_erasing_lem ((id, f) ∷ fs) fault_before w =
      step ((f w).1) (fire_erasing_lem fs fault_before (f w).0) (fire_erasing_lem fs true (f w).0)
    where
      step :
          (a : Answer)
          → fire_erasing fs fault_before (f w).0 ≡ (
            (staying fs (call_all fs (f w).0).1, (call_all fs (f w).0).0),
            some_threw (call_all fs (f w).0).1 || fault_before,
          )
          → fire_erasing fs true (f w).0 ≡ (
            (staying fs (call_all fs (f w).0).1, (call_all fs (f w).0).0),
            some_threw (call_all fs (f w).0).1 || true,
          )
          → ◌≡◌ {A = (List (ℕ × Callback W) × W) × Bool}
              (elim a [
                | returns keep ↦
                    let ((kept, w'), fault') = fire_erasing fs fault_before (f w).0 in
                    ((if keep then (id, f) ∷ kept else kept, w'), fault')
                | throws ↦
                    let ((kept, w'), fault') = fire_erasing fs true (f w).0 in
                    (((id, f) ∷ kept, w'), fault')
              ])
              (
                (staying ((id, f) ∷ fs) (a ∷ (call_all fs (f w).0).1), (call_all fs (f w).0).0),
                some_threw (a ∷ (call_all fs (f w).0).1) || fault_before,
              )
      step (returns true) plain threw = ground arith
      step (returns false) plain threw = ground arith
      step throws plain threw = ground arith

  -- The job of triggerAsync() calls every callback, in order, whatever the others do; those that answer
  -- false are erased, and no others; and it throws exactly if one of them threw.
  pub trigger_async_lem :
      (h : Handler W) (w : W)
      → trigger_async h w ≡ (
        (
          record h { callbacks = staying h.callbacks (call_all h.callbacks w).1 },
          (call_all h.callbacks w).0,
        ),
        fired (some_threw (call_all h.callbacks w).1),
      )
  unfolding trigger_async
  trigger_async_lem h w = ground (arith, fire_erasing_lem h.callbacks false w)

  fire_lem :
      (fs : List (ℕ × Callback W)) (fault_before : Bool) (w : W)
      → all_stay (call_all fs w).1 ≡ true
      → fire fs fault_before w
        ≡ ((call_all fs w).0, fired (some_threw (call_all fs w).1 || fault_before))
  unfolding fire
  fire_lem [] fault_before w all = refl
  fire_lem ((id, f) ∷ fs) fault_before w all =
      step ((f w).1) all (λ h. fire_lem fs fault_before (f w).0 h) (λ h. fire_lem fs true (f w).0 h)
    where
      step :
          (a : Answer)
          → all_stay (a ∷ (call_all fs (f w).0).1) ≡ true
          → (all_stay (call_all fs (f w).0).1 ≡ true
              → fire fs fault_before (f w).0 ≡ (
                (call_all fs (f w).0).0,
                fired (some_threw (call_all fs (f w).0).1 || fault_before),
              ))
          → (all_stay (call_all fs (f w).0).1 ≡ true
              → fire fs true (f w).0
                ≡ ((call_all fs (f w).0).0, fired (some_threw (call_all fs (f w).0).1 || true)))
          → ◌≡◌ {A = W × Fired}
              (elim a [
                | returns keep ↦
                    let rest = fire fs fault_before (f w).0 in
                    if keep then rest else ((f w).0, not_implemented)
                | throws ↦ fire fs true (f w).0
              ])
              (
                (call_all fs (f w).0).0,
                fired (some_threw (a ∷ (call_all fs (f w).0).1) || fault_before),
              )
      step (returns true) all plain threw = plain all
      step (returns false) all plain threw = ground arith
      step throws all plain threw =
          threw all
          ∙ ap (λ b. ((call_all fs (f w).0).0, fired b))
              (or_true (some_threw (call_all fs (f w).0).1))

  -- When no callback answers false, trigger() calls every one of them, in order, and throws exactly if
  -- one of them threw.
  pub trigger_lem :
      (h : Handler W) (w : W)
      → all_stay (call_all h.callbacks w).1 ≡ true
      → trigger h w ≡ ((call_all h.callbacks w).0, fired (some_threw (call_all h.callbacks w).1))
  unfolding trigger
  trigger_lem h w all =
      fire_lem h.callbacks false w all
      ∙ ap (λ b. ((call_all h.callbacks w).0, fired b))
          (or_false (some_threw (call_all h.callbacks w).1))
