-- ===== src/Connection/Sent.antt =====
-- src/protocol/connection.cpp: what writev has sent when it ends.
use beyond_protocol.Prelude.{
  ℕ, ◌+◌, ◌-◌, ◌≤◌, ◌<◌, ◌≡◌, ◌∙◌, refl, sym, ap, subst, Bool, true, false, if◌then◌else◌, ◌==◌,
  List, [], ◌∷◌, ◌++◌, length, take, drop, arith, Bool-cases, inl, inr, length-drop,
  take-append-drop,
}
use mathlib.Core.List.{append_assoc, append-nil}
use beyond_protocol.Connection.{Answer, sent, failed, returned, concat, writev}
use beyond_protocol.Connection.Gather.{gather, Fit, requested_of-concat, resend_lem}

-- writev is the sending of one stream, the bytes of its buffers in order, whatever parts of it the
-- socket takes, as long as the socket never takes more bytes than it is given; it never leaves the
-- buffers.
pub writev-gather :
    (answers : List Answer) (iov : List (List ℕ))
    → Fit answers (length (concat iov))
    → writev answers iov ≡ gather answers (length (concat iov)) (concat iov) []
unfolding writev
writev-gather [] iov fit = refl
writev-gather (failed true ∷ later) iov fit = refl
writev-gather (failed false ∷ later) iov fit =
    let again =
      resend_lem later (length (concat iov)) 0 0 iov [] (subst (Fit later) (omega arith) fit)
        (omega arith) in
    rw (requested_of-concat iov) (elim (Bool-cases (length (concat iov) == 0)) [
      | inl done ↦ ground arith
      | inr more ↦ let whole = again (ground arith) in ground arith
    ])
writev-gather (sent k ∷ later) iov (small, fit) =
    let again =
      resend_lem later (length (concat iov)) k k iov (take k (concat iov)) fit (omega arith) in
    let size = length-drop k (concat iov) in
    rw (requested_of-concat iov) (elim (Bool-cases (k == length (concat iov))) [
      | inl done ↦ ground (arith, size)
      | inr more ↦ let whole = again (ground arith) in ground (arith, size)
    ])

-- The bytes that the answers take, and whether one of them is fatal.
abbrev pub taken : List Answer → ℕ
taken [] = 0
taken (failed f ∷ later) = taken later
taken (sent k ∷ later) = k + taken later

abbrev pub no_fatal : List Answer → Bool
no_fatal [] = true
no_fatal (failed f ∷ later) = if f then false else no_fatal later
no_fatal (sent k ∷ later) = no_fatal later

taken-Fit : (answers : List Answer) (left : ℕ) → taken answers ≤ left → Fit answers left
taken-Fit [] left h = tt
taken-Fit (failed f ∷ later) left h = taken-Fit later left h
taken-Fit (sent k ∷ later) left h = (omega arith, taken-Fit later (left - k) (omega arith))

no_elements : (xs : List ℕ) → length xs ≡ 0 → xs ≡ []
no_elements [] h = refl
no_elements (x ∷ xs) h = ground arith

sent_whole : (wire left : List ℕ) → length left ≡ 0 → wire ≡ wire ++ left
sent_whole wire left h = sym (ap (λ l. wire ++ l) (no_elements left h) ∙ append-nil wire)

split_part : (wire left : List ℕ) (k : ℕ) → (wire ++ take k left) ++ drop k left ≡ wire ++ left
split_part wire left k =
    append_assoc wire (take k left) (drop k left) ∙ ap (λ l. wire ++ l) (take-append-drop k left)

sent_part :
    (wire left : List ℕ) (k : ℕ) → length (drop k left) ≡ 0 → wire ++ take k left ≡ wire ++ left
sent_part wire left k h = sent_whole (wire ++ take k left) (drop k left) h ∙ split_part wire left k

taken_some : (later : List Answer) → 0 < taken later → 0 < length later
taken_some [] h = h
taken_some (a ∷ later) h = omega arith

gather_all :
    (answers : List Answer) (all : ℕ) (left wire : List ℕ)
    → no_fatal answers ≡ true
    → 0 < length answers
    → taken answers ≡ length left
    → gather answers all left wire ≡ (returned all, wire ++ left)
gather_all [] all left wire ok some_answer sum = ground arith
gather_all (failed true ∷ later) all left wire ok some_answer sum = ground arith
gather_all (failed false ∷ later) all left wire ok some_answer sum =
    elim (Bool-cases (length left == 0)) [
      | inl done ↦ rw (done) (ap (λ l. (returned all, l)) (sent_whole wire left (ground arith)))
      | inr more ↦
          rw (more) (gather_all later all left wire ok (taken_some later (ground arith)) sum)
    ]
gather_all (sent k ∷ later) all left wire ok some_answer sum =
    elim (Bool-cases (length (drop k left) == 0)) [
      | inl done ↦ rw (done) (ap (λ l. (returned all, l)) (sent_part wire left k (ground arith)))
      | inr more ↦
          let size = length-drop k left in
          rw (more) (
            gather_all later all (drop k left) (wire ++ take k left) ok
              (taken_some later (ground arith)) (ground arith)
            ∙ ap (λ l. (returned all, l)) (split_part wire left k))
    ]

returned_same : (all n : ℕ) → returned all ≡ returned n → n ≡ all
returned_same all n h = ground arith

gather_returned :
    (answers : List Answer) (all n : ℕ) (left wire : List ℕ)
    → (gather answers all left wire).0 ≡ returned n
    → (n ≡ all) × ((gather answers all left wire).1 ≡ wire ++ left)
gather_returned [] all n left wire h = ground arith
gather_returned (failed true ∷ later) all n left wire h = ground arith
gather_returned (failed false ∷ later) all n left wire h = elim (Bool-cases (length left == 0)) [
  | inl done ↦
      let whole = sent_whole wire left (ground arith) in
      let end = returned_same all n (
        sym (ap (λ b. (if b then (returned all, wire) else gather later all left wire).0) done)
        ∙ h) in
      rw done (end, whole)
  | inr more ↦
      let again = gather_returned later all n left wire (
        sym (ap (λ b. (if b then (returned all, wire) else gather later all left wire).0) more)
        ∙ h) in
      rw more again
]
gather_returned (sent k ∷ later) all n left wire h = elim (Bool-cases (length (drop k left) == 0)) [
  | inl done ↦
      let wire' = wire ++ take k left in
      let end = returned_same all n (
        sym (
          ap (λ b. (if b then (returned all, wire') else gather later all (drop k left) wire').0)
            done)
        ∙ h) in
      rw done (end, sent_part wire left k (ground arith))
  | inr more ↦
      let wire' = wire ++ take k left in
      let (count, bytes) = gather_returned later all n (drop k left) wire' (
        sym (
          ap (λ b. (if b then (returned all, wire') else gather later all (drop k left) wire').0)
            more)
        ∙ h) in
      rw more (count, bytes ∙ split_part wire left k)
]

-- When no answer is fatal and the answers take as many bytes as the buffers have, in whatever parts
-- and with whatever other failures between, writev returns that number, and all the bytes are sent, once
-- and in order.
pub writev_all :
    (answers : List Answer) (iov : List (List ℕ))
    → no_fatal answers ≡ true
    → 0 < length answers
    → taken answers ≡ length (concat iov)
    → writev answers iov ≡ (returned (length (concat iov)), concat iov)
writev_all answers iov ok some_answer sum =
    writev-gather answers iov (taken-Fit answers (length (concat iov)) (omega arith))
    ∙ gather_all answers (length (concat iov)) (concat iov) [] ok some_answer sum

-- Whenever writev returns a number, and the socket took no more than it was given, the number is that
-- of the buffers' bytes, and all of them are sent, once and in order.
pub writev_returned :
    (answers : List Answer) (iov : List (List ℕ)) (n : ℕ)
    → Fit answers (length (concat iov))
    → (writev answers iov).0 ≡ returned n
    → (n ≡ length (concat iov)) × ((writev answers iov).1 ≡ concat iov)
writev_returned answers iov n fit h =
    let same = writev-gather answers iov fit in
    let (count, bytes) =
      gather_returned answers (length (concat iov)) n (concat iov) []
        (sym (ap (λ p. p.0) same) ∙ h) in
    (count, ap (λ p. p.1) same ∙ bytes)
