-- ===== src/Client/Returns.antt =====
-- The loop of internal/client/client.go that waits for a change ends, and ends rightly.
use burndrop.Common.{
  ℕ, suc, ◌≤◌, Bytes, bytes_eq, true, false, Option, none, some, List, [], ◌∷◌, ltb, leb, ◌≡◌, ◌⊎◌,
  inl, inr, refl, ap, ◌∙◌, Bool-cases, arith,
}
use burndrop.Client.{
  Status, Turn, Answer, answered, failed, Waited, changed, deadline_exceeded, cancelled, gave_up,
  Step, stop, again, is_permanent, answer_step, step, after, wait_while,
}

-- A status that was seen without an end of the loop is in the state that the loop waits to end.
abbrev pub IsWaiting : Bytes → Option Status → Type 0
IsWaiting state none = Unit
IsWaiting state (some st) = bytes_eq st.state state ≡ true

-- A status is returned as changed only if its state is another, and beside an error the last status
-- is one that was still waited on.
abbrev pub IsRight : Bytes → Waited → Type 0
IsRight state (changed st) = bytes_eq st.state state ≡ false
IsRight state (deadline_exceeded last) = IsWaiting state last
IsRight state (cancelled last) = IsWaiting state last
IsRight state (gave_up last e) = IsWaiting state last

-- One of the turns reads the clock at the deadline or later.
abbrev pub IsPast : ℕ → List Turn → Type 0
IsPast deadline [] = ⊥
IsPast deadline (t ∷ ts) = (deadline ≤ t.now) ⊎ IsPast deadline ts

abbrev IsRightStep : Bytes → Step → Type 0
IsRightStep state (stop w) = IsRight state w
IsRightStep state (again last failures) = IsWaiting state last

answer_step-IsRightStep :
    (state : Bytes) (t : Turn) (a : Answer) (last : Option Status) (failures : ℕ)
    → IsWaiting state last
    → IsRightStep state (answer_step state t a last failures)
unfolding answer_step
answer_step-IsRightStep state t (answered st) last failures w =
    elim (Bool-cases (bytes_eq st.state state)) [ inl e ↦ rw e e | inr e ↦ rw e e ]
answer_step-IsRightStep state t (failed e) last failures w = elim (Bool-cases t.ended) [
  | inl a ↦ rw a w
  | inr a ↦ elim (Bool-cases (is_permanent e)) [
    | inl b ↦ rw (a, b) w
    | inr b ↦ elim (Bool-cases (ltb 5 (suc failures))) [
      | inl c ↦ rw (a, b, c) w
      | inr c ↦ elim (Bool-cases t.ended_in_pause) [
        | inl d ↦ rw (a, b, c, d) w
        | inr d ↦ rw (a, b, c, d) w
      ]
    ]
  ]
]

step-IsRightStep :
    (state : Bytes) (deadline : ℕ) (t : Turn) (last : Option Status) (failures : ℕ)
    → IsWaiting state last
    → IsRightStep state (step state deadline t last failures)
unfolding step
step-IsRightStep state deadline t last failures w = elim (Bool-cases (leb deadline t.now)) [
  | inl e ↦ rw e w
  | inr e ↦ rw e (answer_step-IsRightStep state t t.answer last failures w)
]

after-returns :
    (state : Bytes) (s : Step) (rest : Option Status → ℕ → Option Waited)
    → IsRightStep state s
    → ((last : Option Status) (failures : ℕ)
        → IsWaiting state last
        → (w : Waited) × (rest last failures ≡ some w) × IsRight state w)
    → (w : Waited) × (after s rest ≡ some w) × IsRight state w
unfolding after
after-returns state (stop w) rest h ih = (w, refl, h)
after-returns state (again last failures) rest h ih = ih last failures h

after-stop : (w : Waited) (rest : Option Status → ℕ → Option Waited) → after (stop w) rest ≡ some w
unfolding after
after-stop w rest = refl

step-past :
    (state : Bytes) (deadline : ℕ) (t : Turn) (last : Option Status) (failures : ℕ)
    → deadline ≤ t.now
    → step state deadline t last failures ≡ stop (deadline_exceeded last)
unfolding step
step-past state deadline t last failures h = ground arith

-- When one of the turns reads the clock at the deadline or later, the loop returns, after any number of
-- failures. It returns a status as changed only if its state is another than the one waited on, and
-- beside an error it returns no status or one in the state waited on.
pub wait_while-returns :
    (state : Bytes) (deadline : ℕ) (last : Option Status) (failures : ℕ) (ts : List Turn)
    → IsWaiting state last
    → IsPast deadline ts
    → (w : Waited) × (wait_while state deadline last failures ts ≡ some w) × IsRight state w
unfolding wait_while
wait_while-returns state deadline last failures [] w p = absurd p
wait_while-returns state deadline last failures (t ∷ ts) w (inl h) = (
  deadline_exceeded last,
  ap (λ s. after s (λ l n. wait_while state deadline l n ts))
        (step-past state deadline t last failures h)
      ∙ after-stop (deadline_exceeded last) (λ l n. wait_while state deadline l n ts),
  w,
)
wait_while-returns state deadline last failures (t ∷ ts) w (inr p) =
    after-returns state (step state deadline t last failures)
      (λ l n. wait_while state deadline l n ts) (step-IsRightStep state deadline t last failures w)
      (λ l n v. wait_while-returns state deadline l n ts v p)
