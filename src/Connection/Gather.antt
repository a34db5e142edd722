-- ===== src/Connection/Gather.antt =====
-- src/protocol/connection.cpp: writev sends the bytes of the buffers as one stream.
use beyond_protocol.Prelude.{
  ℕ, zero, suc, ◌+◌, ◌-◌, ◌≤◌, ◌<◌, ◌≡◌, ◌∙◌, refl, sym, ap, subst, true, false, if◌then◌else◌, ltb,
  ◌==◌, List, [], ◌∷◌, ◌++◌, some, length, take, drop, arith, Bool-cases, inl, inr, length-append,
  length-drop,
}
use beyond_protocol.Connection.{
  Answer, sent, failed, Ending, returned, fatal, pending, concat, requested_of, skip, resend,
}

-- The bytes that are left of a stream, sent by the same answers: the description of writev without
-- buffers. It stops when none is left after an answer.
abbrev pub gather : List Answer → ℕ → List ℕ → List ℕ → Ending × List ℕ
gather [] all left wire = (pending, wire)
gather (failed f ∷ later) all left wire =
    let rest = gather later all left wire in
    if f then (fatal, wire) else (if length left == 0 then (returned all, wire) else rest)
gather (sent k ∷ later) all left wire =
    let wire' = wire ++ take k left in
    let rest = gather later all (drop k left) wire' in
    if length (drop k left) == 0 then (returned all, wire') else rest

-- The socket never takes more than it is given.
abbrev pub Fit : List Answer → ℕ → Type 0
Fit [] left = Unit {0}
Fit (failed f ∷ later) left = Fit later left
Fit (sent k ∷ later) left = (k ≤ left) × Fit later (left - k)

pub requested_of-concat : (iov : List (List ℕ)) → requested_of iov ≡ length (concat iov)
unfolding requested_of
requested_of-concat [] = refl
requested_of-concat (b ∷ bs) = omega (arith, requested_of-concat bs, length-append b (concat bs))

drop-append : (n : ℕ) (xs ys : List ℕ) → n ≤ length xs → drop n (xs ++ ys) ≡ drop n xs ++ ys
drop-append zero xs ys h = refl
drop-append (suc n) [] ys h = ground arith
drop-append (suc n) (x ∷ xs) ys h = drop-append n xs ys (omega arith)

drop-append_past :
    (n : ℕ) (xs ys : List ℕ) → length xs ≤ n → drop n (xs ++ ys) ≡ drop (n - length xs) ys
drop-append_past n [] ys h = ap (λ k. drop k ys) (omega arith)
drop-append_past zero (x ∷ xs) ys h = ground arith
drop-append_past (suc n) (x ∷ xs) ys h =
    drop-append_past n xs ys (omega arith) ∙ ap (λ k. drop k ys) (omega arith)

-- The buffers after the bytes sent: they hold what is left.
skip_lem :
    (iov : List (List ℕ)) (n : ℕ)
    → n < length (concat iov)
    → (iov' : List (List ℕ)) × (skip iov n ≡ some iov') × (concat iov' ≡ drop n (concat iov))
unfolding skip
skip_lem [] n h = ground arith
skip_lem (b ∷ bs) n h = elim (Bool-cases (ltb (length b) n)) [
  | inl past ↦
      let (iov', there, left) =
        skip_lem bs (n - length b) (ground (arith, past, length-append b (concat bs))) in
      (iov', rw (past, there) refl, left ∙ sym (drop-append_past n b (concat bs) (ground arith)))
  | inr within ↦ (drop n b ∷ bs, rw within refl, sym (drop-append n b (concat bs) (ground arith)))
]

resend_done :
    (later : List Answer) (requested total n : ℕ) (iov : List (List ℕ)) (wire : List ℕ)
    → requested ≤ total
    → resend later requested total n iov wire ≡ (returned requested, wire)
unfolding resend
resend_done [] requested total n iov wire h = ground arith
resend_done (failed f ∷ later) requested total n iov wire h = ground arith
resend_done (sent k ∷ later) requested total n iov wire h = ground arith

ltb-true : (a b : ℕ) → a < b → ltb a b ≡ true
ltb-true a b h = ground arith

pub zero_false : (a : ℕ) → 0 < a → (a == 0) ≡ false
zero_false a h = ground arith

-- One answer of the socket that takes bytes, given the loop after it.
sent_step :
    (later : List Answer) (requested total k : ℕ) (iov' : List (List ℕ)) (wire left : List ℕ)
    → concat iov' ≡ left
    → k ≤ requested - total
    → length left ≡ requested - total
    → (0 < requested - (total + k)
        → resend later requested (total + k) k iov' (wire ++ take k (concat iov'))
          ≡ gather later requested (drop k (concat iov')) (wire ++ take k (concat iov')))
    → resend later requested (total + k) k iov' (wire ++ take k (concat iov'))
      ≡ gather (sent k ∷ later) requested left wire
sent_step later requested total k iov' wire left rest small len again =
    elim (Bool-cases (length (drop k left) == 0)) [
      | inl done ↦ rw (done) (
          resend_done later requested (total + k) k iov' _ (ground (arith, length-drop k left))
          ∙ ap (λ l. (returned requested, wire ++ take k l)) rest)
      | inr more ↦ rw (more) (
          again (ground (arith, length-drop k left))
          ∙ ap (λ l. gather later requested (drop k l) (wire ++ take k l)) rest)
    ]

pub resend_lem :
    (later : List Answer) (requested total n : ℕ) (iov : List (List ℕ)) (wire : List ℕ)
    → Fit later (requested - total)
    → length (concat iov) ≡ n + (requested - total)
    → 0 < requested - total
    → resend later requested total n iov wire ≡ gather later requested (drop n (concat iov)) wire
unfolding resend
resend_lem [] requested total n iov wire fit len left =
    let (iov', there, rest) = skip_lem iov n (omega arith) in
    rw (ltb-true total requested (omega arith), there) refl
resend_lem (failed true ∷ later) requested total n iov wire fit len left =
    let (iov', there, rest) = skip_lem iov n (omega arith) in
    rw (ltb-true total requested (omega arith), there) refl
resend_lem (failed false ∷ later) requested total n iov wire fit len left =
    let (iov', there, rest) = skip_lem iov n (omega arith) in
    let size = length-drop n (concat iov) in
    let again =
      resend_lem later requested total 0 iov' wire fit (omega (arith, ap length rest)) left in
    rw (ltb-true total requested (omega arith), there)
      (rw (zero_false (length (drop n (concat iov))) (omega arith))
        (again ∙ ap (λ l. gather later requested l wire) rest))
resend_lem (sent k ∷ later) requested total n iov wire (small, fit) len left =
    let (iov', there, rest) = skip_lem iov n (omega arith) in
    rw (ltb-true total requested (omega arith), there)
      (sent_step later requested total k iov' wire (drop n (concat iov)) rest small
        (omega (arith, length-drop n (concat iov)))
        (λ more.
          resend_lem later requested (total + k) k iov' (wire ++ take k (concat iov'))
            (subst (Fit later) (omega arith) fit)
            (omega (arith, ap length rest, length-drop n (concat iov))) more))
