-- ===== src/Feed/Http.antt =====
-- attribution/source.go: `HTTPSource.Open`, with its retries. What a request meets is a parameter:
-- the answer to the attempt of each number.
pub mod Attempts
use mathlib.Core.List.{reverse}
use mathlib.Core.Path.{ap₂}
use cloudip.Base.{
  ℕ, zero, suc, ◌+◌, ◌-◌, ◌<◌, ◌≤◌, ◌≡◌, refl, ap, ◌∙◌, inl, inr, ◌⊎◌, Bool, true, false, not, ◌||◌,
  Text, codes, [], ◌∷◌, ◌++◌, Option, none, some, if◌then◌else◌, leb, ltb, ◌==◌, nat_eq, arith,
  ◌&&◌, Bool-cases,
}
use cloudip.Base.Outcome.{Outcome, ok, err}
use cloudip.Base.Texts.{decimal, trim_space}
use cloudip.Record.{Error}
use cloudip.Feed.{Reader}

-- What one attempt meets: a context that is done, a request that cannot be made, a network error,
-- or a response.
pub data Answer : Type 0 where
  cancelled : Error → Answer
  bad_request : Error → Answer
  network_error : Error → Answer
  response : ℕ → Reader → Answer

unfoldable pub retryable_status : ℕ → Bool
retryable_status code = code == 408 || code == 429 || leb 500 code

-- `strings.TrimPrefix(s, "/")`, `strings.TrimSuffix(s, "/")`
abbrev pub trim_slash : Text → Text
trim_slash [] = []
trim_slash (c ∷ s) = if c == b'/' then s else c ∷ s

abbrev pub trim_slash_suffix : Text → Text
trim_slash_suffix s = reverse (trim_slash (reverse s))

-- The URL of a reference.
unfoldable pub source_url : Text → Text → Text
source_url [] ref = ref
source_url (c ∷ base) ref = trim_slash_suffix (c ∷ base) ++ (codes "/" ++ trim_slash ref)

-- The base URL, and the one that the environment may put in its place.
unfoldable pub rezmoss_base : Text → Text
rezmoss_base env = elim (trim_space env) [
  | [] ↦ codes "https://raw.githubusercontent.com/rezmoss/cloud-provider-ip-addresses/main/"
  | c ∷ s ↦ c ∷ s
]

-- `ReputationBase`, `ASNBase`
unfoldable pub env_base : Text → Text
env_base env = trim_space env

-- `Attempts`, which is 3 where it is not positive.
unfoldable pub attempts_of : ℕ → ℕ
attempts_of attempts = if attempts == 0 then 3 else attempts

-- An attempt after which the loop goes on.
abbrev pub is_transient : Answer → Bool
is_transient (cancelled e) = false
is_transient (bad_request e) = false
is_transient (network_error e) = true
is_transient (response code body) = not (code == 200) && retryable_status code

Retries : Answer → Type 0
Retries a =
    ((e : Error) × (a ≡ network_error e))
    ⊎ ((code : ℕ) × (body : Reader) × (a ≡ response code body)
        × ((code == 200) ≡ false)
        × (retryable_status code ≡ true))

is_transient-Retries : (a : Answer) → is_transient a ≡ true → Retries a
unfolding Retries
is_transient-Retries (cancelled e) h = absurd (cc)
is_transient-Retries (bad_request e) h = absurd (cc)
is_transient-Retries (network_error e) h = inl (e, refl)
is_transient-Retries (response code body) h = inr (code, body, refl, ground arith, ground arith)

-- A network error, or a response of status 408, 429, or 500 and more.
abbrev pub IsTransient : Answer → Type 0
IsTransient (cancelled e) = ⊥
IsTransient (bad_request e) = ⊥
IsTransient (network_error e) = Unit
IsTransient (response code body) = (code ≡ 408) ⊎ ((code ≡ 429) ⊎ (500 ≤ code))

IsTransient-is_transient : (a : Answer) → IsTransient a → is_transient a ≡ true
unfolding retryable_status nat_eq
IsTransient-is_transient (cancelled e) h = absurd h
IsTransient-is_transient (bad_request e) h = absurd h
IsTransient-is_transient (network_error e) h = refl
IsTransient-is_transient (response code body) (inl h) = ground (arith, h)
IsTransient-is_transient (response code body) (inr (inl h)) = ground (arith, h)
IsTransient-is_transient (response code body) (inr (inr h)) = ground (arith, h)

retryable_status-IsTransient :
    (code : ℕ) (body : Reader) → retryable_status code ≡ true → IsTransient (response code body)
unfolding retryable_status nat_eq
retryable_status-IsTransient code body h = elim (Bool-cases (code == 408)) [
  | inl e ↦ inl (ground arith)
  | inr n ↦ elim (Bool-cases (code == 429)) [
    | inl e ↦ inr (inl (ground arith))
    | inr m ↦ inr (inr (ground arith))
  ]
]

abbrev answered : ℕ → Reader → Outcome Reader
answered code body =
    if code == 200 then ok body else err (codes "fetch: unexpected status " ++ decimal code)

-- The context is looked at before each attempt but the first.
module _ (done : ℕ → Option Error) (answers : ℕ → Answer) where
  unfoldable pub attempt_answer : ℕ → Answer
  attempt_answer attempt =
      if ltb 1 attempt
      then (elim (done attempt) [ some e ↦ cancelled e | none ↦ answers attempt ])
      else answers attempt

  -- The loop, from an attempt on, with `left` attempts to go.
  unfoldable pub open_loop : ℕ → ℕ → Error → Outcome Reader
  open_loop attempt zero last =
      err (codes "after " ++ (decimal (attempt - 1) ++ (codes " attempts: " ++ last)))
  open_loop attempt (suc left) last = elim (attempt_answer attempt) [
    | cancelled e ↦ err e
    | bad_request e ↦ err (codes "build request: " ++ e)
    | network_error e ↦ open_loop (attempt + 1) left (codes "fetch: " ++ e)
    | response code body ↦
        let rest = open_loop (attempt + 1) left (codes "fetch: status " ++ decimal code) in
        if code == 200
        then ok body
        else if retryable_status code
        then rest
        else err (codes "fetch: unexpected status " ++ decimal code)
  ]

  -- `HTTPSource.Open`
  unfoldable pub http_open : ℕ → Outcome Reader
  http_open attempts = open_loop 1 (attempts_of attempts) []

  open_loop_step :
      (left attempt : ℕ) (last : Error)
      → is_transient (attempt_answer attempt) ≡ true
      → (next : Error) × (open_loop attempt (suc left) last ≡ open_loop (attempt + 1) left next)
  unfolding open_loop Retries
  open_loop_step left attempt last h = elim (is_transient-Retries (attempt_answer attempt) h) [
    | inl (e, e1) ↦ (codes "fetch: " ++ e, rw (e1, open_loop) refl)
    | inr (code, body, e1, other, retry) ↦
        (codes "fetch: status " ++ decimal code, rw (e1, other, retry, open_loop) refl)
  ]

  -- The loop passes over transient failures.
  open_loop_reach :
      (k left attempt : ℕ) (last : Error)
      → k ≤ left
      → ((j : ℕ) → j < k → is_transient (attempt_answer (attempt + j)) ≡ true)
      → (next : Error) × (open_loop attempt left last ≡ open_loop (attempt + k) (left - k) next)
  open_loop_reach zero left attempt last h before =
      (last, ap₂ (λ i l. open_loop i l last) (omega arith) (omega arith))
  open_loop_reach (suc k) zero attempt last h before = absurd (omega (arith, h))
  open_loop_reach (suc k) (suc left) attempt last h before =
      let first =
        ap (λ i. is_transient (attempt_answer i)) (omega arith) ∙ before 0 (omega arith) in
      let (second, step) = open_loop_step left attempt last first in
      let (next, rest) = open_loop_reach k left (attempt + 1) second (omega (arith, h)) (λ j hj.
        ap (λ i. is_transient (attempt_answer i)) (omega arith)
        ∙ before (j + 1) (omega (arith, hj))) in
      (next, step ∙ rest ∙ ap₂ (λ i l. open_loop i l next) (omega arith) (omega arith))

  -- A response that is not retried ends the loop.
  open_loop_ends :
      (left attempt code : ℕ) (body : Reader) (last : Error)
      → 0 < left
      → attempt_answer attempt ≡ response code body
      → ¬ (IsTransient (response code body))
      → open_loop attempt left last ≡ answered code body
  unfolding open_loop
  open_loop_ends zero attempt code body last h at final = absurd (omega (arith, h))
  open_loop_ends (suc left) attempt code body last h at final =
      elim (Bool-cases (retryable_status code)) [
        | inl again ↦ absurd (final (retryable_status-IsTransient code body again))
        | inr never ↦ elim (Bool-cases (code == 200)) [
          | inl fine ↦ rw (at, fine, open_loop) refl
          | inr bad ↦ rw (at, bad, never, open_loop) refl
        ]
      ]

  open_loop_fails :
      (left attempt : ℕ) (last : Error)
      → ((j : ℕ) → j < left → is_transient (attempt_answer (attempt + j)) ≡ true)
      → (e : Error) × (open_loop attempt left last ≡ err e)
  unfolding open_loop
  open_loop_fails zero attempt last all = (_, refl)
  open_loop_fails (suc left) attempt last all =
      let first = ap (λ i. is_transient (attempt_answer i)) (omega arith) ∙ all 0 (omega arith) in
      let (next, step) = open_loop_step left attempt last first in
      let (e, failed) = open_loop_fails left (attempt + 1) next (λ j hj.
        ap (λ i. is_transient (attempt_answer i)) (omega arith)
        ∙ all (j + 1) (omega (arith, hj))) in
      (e, step ∙ failed)

  -- The first response that comes within the attempts, behind network errors and responses of status
  -- 408, 429, or 500 and more only, and that is none of these itself, decides: with a status of 200
  -- `Open` returns it, and with any other it fails at once.
  pub http_open_lem :
      (attempts k code : ℕ) (body : Reader)
      → k < attempts_of attempts
      → ((j : ℕ) → j < k → IsTransient (attempt_answer (1 + j)))
      → attempt_answer (1 + k) ≡ response code body
      → ¬ (IsTransient (response code body))
      → http_open attempts
        ≡ (if code == 200 then ok body else err (codes "fetch: unexpected status " ++ decimal code))
  unfolding http_open
  http_open_lem attempts k code body h before at final =
      let (next, reached) =
        open_loop_reach k (attempts_of attempts) 1 [] (omega (arith, h))
          (λ j hj. IsTransient-is_transient (attempt_answer (1 + j)) (before j hj)) in
      reached
      ∙ open_loop_ends (attempts_of attempts - k) (1 + k) code body next (omega (arith, h)) at final

  -- Where each of the attempts meets a transient failure, `Open` fails.
  pub http_open_fails :
      (attempts : ℕ)
      → ((j : ℕ) → j < attempts_of attempts → is_transient (attempt_answer (1 + j)) ≡ true)
      → (e : Error) × (http_open attempts ≡ err e)
  unfolding http_open
  http_open_fails attempts all = open_loop_fails _ 1 [] all
