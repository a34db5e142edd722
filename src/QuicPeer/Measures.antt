-- ===== src/QuicPeer/Measures.antt =====
-- What is counted in the send queue of a QUIC peer, src/quic/src/quic_peer.cpp.
use beyond_protocol.Prelude.{
  ℕ, ◌+◌, ◌≡◌, refl, sym, ap, ◌∙◌, inl, inr, arith, Bool, true, false, not, ◌&&◌, ◌||◌, ◌==◌,
  if◌then◌else◌, List, [], ◌∷◌, ◌++◌, some, Bool-cases,
}
use beyond_protocol.QuicPeer.{
  SendEvent, Sender, flush_from, reverse_onto, flush_send_queue, send_last, clear_completed,
  complete_event, is_front,
}

-- The events that are not complete, the bytes of all, and their numbers.
abbrev pub left : List SendEvent → ℕ
left [] = 0
left (e ∷ es) = (if e.complete then 0 else 1) + left es

abbrev pub bytes : List SendEvent → ℕ
bytes [] = 0
bytes (e ∷ es) = e.size + bytes es

abbrev pub ids : List SendEvent → List ℕ
ids [] = []
ids (e ∷ es) = e.id ∷ ids es

abbrev pub front_open : List SendEvent → Bool
front_open [] = true
front_open (e ∷ es) = not e.complete

-- Complete events have given their buffers back.
abbrev pub emptied : List SendEvent → Bool
emptied [] = true
emptied (e ∷ es) = (not e.complete || e.size == 0) && emptied es

-- The event with a number is there and is not complete.
abbrev pub on_the_way : ℕ → List SendEvent → Bool
on_the_way id [] = false
on_the_way id (e ∷ es) = if e.id == id then not e.complete else on_the_way id es

-- An event apart from whether it is pending.
abbrev pub core : SendEvent → SendEvent
core e = record e { pending = false }

abbrev pub cores : List SendEvent → List SendEvent
cores [] = []
cores (e ∷ es) = core e ∷ cores es

pub left-cores : (q : List SendEvent) → left (cores q) ≡ left q
left-cores [] = refl
left-cores (e ∷ es) = omega (arith, left-cores es)

pub bytes-cores : (q : List SendEvent) → bytes (cores q) ≡ bytes q
bytes-cores [] = refl
bytes-cores (e ∷ es) = omega (arith, bytes-cores es)

pub ids-cores : (q : List SendEvent) → ids (cores q) ≡ ids q
ids-cores [] = refl
ids-cores (e ∷ es) = ap (λ is. e.id ∷ is) (ids-cores es)

pub front_open-cores : (q : List SendEvent) → front_open (cores q) ≡ front_open q
front_open-cores [] = refl
front_open-cores (e ∷ es) = refl

pub emptied-cores : (q : List SendEvent) → emptied (cores q) ≡ emptied q
emptied-cores [] = refl
emptied-cores (e ∷ es) = ground (arith, emptied-cores es)

pub cores-reverse_onto :
    (xs acc : List SendEvent) → cores (reverse_onto xs acc) ≡ reverse_onto (cores xs) (cores acc)
cores-reverse_onto [] acc = refl
cores-reverse_onto (e ∷ es) acc = cores-reverse_onto es (e ∷ acc)

pub reverse_twice :
    (xs acc : List SendEvent) → reverse_onto (reverse_onto xs acc) [] ≡ reverse_onto acc xs
reverse_twice [] acc = refl
reverse_twice (e ∷ es) acc = reverse_twice es (e ∷ acc)

pub cores-flush_from :
    (takes : ℕ → Bool) (q : List SendEvent) → cores (flush_from takes q) ≡ cores q
unfolding flush_from
cores-flush_from takes [] = refl
cores-flush_from takes (e ∷ es) = ground (arith, cores-flush_from takes es)

pub cores-flush_send_queue :
    (takes : ℕ → Bool) (s : Sender) → cores (flush_send_queue takes s).queue ≡ cores s.queue
unfolding flush_send_queue
cores-flush_send_queue takes s =
    cores-reverse_onto (flush_from takes (reverse_onto s.queue [])) []
    ∙ ap (λ q. reverse_onto q []) (cores-flush_from takes (reverse_onto s.queue []))
    ∙ sym (cores-reverse_onto (reverse_onto s.queue []) [])
    ∙ ap cores (reverse_twice s.queue [])

pub cores-send_last : (takes : ℕ → Bool) (q : List SendEvent) → cores (send_last takes q) ≡ cores q
unfolding send_last
cores-send_last takes [] = refl
cores-send_last takes (e ∷ []) = refl
cores-send_last takes (e ∷ f ∷ es) = ap (λ es. core e ∷ es) (cores-send_last takes (f ∷ es))

pub unseen {ℓ} :
    {A : Type ℓ} (m : List SendEvent → A) (q r : List SendEvent)
    → ((q : List SendEvent) → m (cores q) ≡ m q)
    → cores q ≡ cores r
    → m r ≡ m q
unseen m q r blind same = sym (blind r) ∙ ap m (sym same) ∙ blind q

abbrev pub queued : ℕ → ℕ → SendEvent
queued id size = record { id = id; size = size; pending = true; complete = false }

module _ (id size : ℕ) where
  pub left-queued : (q : List SendEvent) → left (q ++ queued id size ∷ []) ≡ left q + 1
  left-queued [] = omega arith
  left-queued (e ∷ es) = omega (arith, left-queued es)

  pub bytes-queued : (q : List SendEvent) → bytes (q ++ queued id size ∷ []) ≡ bytes q + size
  bytes-queued [] = omega arith
  bytes-queued (e ∷ es) = omega (arith, bytes-queued es)

  pub ids-queued : (q : List SendEvent) → ids (q ++ queued id size ∷ []) ≡ ids q ++ id ∷ []
  ids-queued [] = refl
  ids-queued (e ∷ es) = ap (λ is. e.id ∷ is) (ids-queued es)

  pub front_open-queued :
      (q : List SendEvent) → front_open q ≡ true → front_open (q ++ queued id size ∷ []) ≡ true
  front_open-queued [] h = refl
  front_open-queued (e ∷ es) h = h

  pub emptied-queued :
      (q : List SendEvent) → emptied q ≡ true → emptied (q ++ queued id size ∷ []) ≡ true
  emptied-queued [] h = refl
  emptied-queued (e ∷ es) h = ground (arith, emptied-queued es)

-- A write that is complete: what its event counted is taken off.
pub complete_event_lem :
    (id : ℕ) (q : List SendEvent)
    → on_the_way id q ≡ true
    → (r : List SendEvent) × (size : ℕ) × (complete_event id q ≡ some (r, size))
      × (left q ≡ left r + 1)
      × (bytes q ≡ bytes r + size)
      × (ids r ≡ ids q)
      × (emptied q ≡ true → emptied r ≡ true)
      × (is_front id r ≡ false → front_open q ≡ true → front_open r ≡ true)
unfolding complete_event
complete_event_lem id [] h = absurd cc
complete_event_lem id (e ∷ es) h = elim (Bool-cases (e.id == id)) [
  | inl t ↦ (
    record e { complete = true; size = 0 } ∷ es,
    e.size,
    rw t refl,
    ground arith,
    omega arith,
    refl,
    λ g. ground arith,
    λ n. absurd (ground arith),
  )
  | inr f ↦
      let (r, size, done, fewer, less, same, empty, first) =
        complete_event_lem id es (ground arith) in
      (
        e ∷ r,
        size,
        rw (f, done) refl,
        omega arith,
        omega arith,
        ap (λ is. e.id ∷ is) same,
        λ g. ground (arith, empty),
        λ n g. g,
      )
]

pub clear_completed_lem :
    (q : List SendEvent)
    → emptied q ≡ true
    → (r : List SendEvent) × (clear_completed q (ids q) ≡ some (r, ids r))
      × (left r ≡ left q)
      × (bytes r ≡ bytes q)
      × (emptied r ≡ true)
      × (front_open r ≡ true)
unfolding clear_completed
clear_completed_lem [] h = ([], refl, refl, refl, refl, refl)
clear_completed_lem (e ∷ es) h = elim (Bool-cases e.complete) [
  | inl t ↦
      let (r, done, same, size, empty, first) = clear_completed_lem es (ground arith) in
      let its_own : (e.id == e.id) ≡ true = ground arith in
      (r, rw (t, its_own, done) refl, ground arith, ground arith, empty, first)
  | inr f ↦ (e ∷ es, rw f refl, refl, refl, h, ground arith)
]
