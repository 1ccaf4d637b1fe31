-- ===== src/Feed/Http/Attempts.antt =====
-- attribution/source.go: which attempts `HTTPSource.Open` makes.
use cloudip.Base.{
  ℕ, zero, suc, ◌+◌, ◌<◌, ◌≡◌, refl, ◌∙◌, ◌⊎◌, inl, inr, [], codes, ◌++◌, nat_eq, Option, arith,
}
use mathlib.Core.Path.{subst}
use cloudip.Base.Texts.{decimal}
use cloudip.Record.{Error}
use cloudip.Feed.{Reader}
use cloudip.Feed.Http.{
  Answer, cancelled, bad_request, network_error, response, attempt_answer, attempts_of, open_loop,
  http_open,
}

Answer-cases :
    (a : Answer)
    → ((e : Error) × (a ≡ cancelled e))
      ⊎ ((e : Error) × (a ≡ bad_request e))
      ⊎ ((e : Error) × (a ≡ network_error e))
      ⊎ ((code : ℕ) × (body : Reader) × (a ≡ response code body))
Answer-cases (cancelled e) = inl (e, refl)
Answer-cases (bad_request e) = inr (inl (e, refl))
Answer-cases (network_error e) = inr (inr (inl (e, refl)))
Answer-cases (response code body) = inr (inr (inr (code, body, refl)))

module _ (done other_done : ℕ → Option Error) (answers others : ℕ → Answer) where
  -- The two runs meet the same at an attempt.
  abbrev Same : ℕ → Type 0
  Same i = attempt_answer done answers i ≡ attempt_answer other_done others i

  open_loop-Same :
      (left attempt : ℕ) (last : Error)
      → ((j : ℕ) → j < left → Same (attempt + j))
      → open_loop done answers attempt left last ≡ open_loop other_done others attempt left last
  unfolding open_loop
  open_loop-Same zero attempt last h = refl
  open_loop-Same (suc left) attempt last h =
      let first : Same attempt = subst Same (omega arith) (h 0 (omega arith)) in
      let rest : (e : Error)
          → open_loop done answers (attempt + 1) left e
            ≡ open_loop other_done others (attempt + 1) left e =
        λ e.
          open_loop-Same left (attempt + 1) e
            (λ j hj. subst Same (omega arith) (h (j + 1) (omega (arith, hj)))) in
      elim (Answer-cases (attempt_answer other_done others attempt)) [
        | inl (e, e1) ↦ rw (first ∙ e1, e1, open_loop) refl
        | inr (inl (e, e1)) ↦ rw (first ∙ e1, e1, open_loop) refl
        | inr (inr (inl (e, e1))) ↦ rw (first ∙ e1, e1, open_loop) (rest _)
        | inr (inr (inr (code, body, e1))) ↦
            rw (first ∙ e1, e1, open_loop) (rw (rest (codes "fetch: status " ++ decimal code)) refl)
      ]

  -- `Open` ends after as many attempts as it may make: two runs that meet the same at these, and
  -- whatever behind them, have the same result.
  pub http_open-same :
      (attempts : ℕ)
      → ((j : ℕ)
          → j < attempts_of attempts
          → attempt_answer done answers (1 + j) ≡ attempt_answer other_done others (1 + j))
      → http_open done answers attempts ≡ http_open other_done others attempts
  unfolding http_open
  http_open-same attempts h = open_loop-Same (attempts_of attempts) 1 [] h
