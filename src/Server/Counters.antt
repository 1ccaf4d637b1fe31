-- ===== src/Server/Counters.antt =====
-- What every run of a service keeps: its handles and its counters.
use cloudip.Base.{
  ℕ, ◌+◌, ◌≤◌, ◌≡◌, refl, sym, ◌∙◌, inl, inr, Bool, true, Text, Option, none, some, contains,
  nat_eq, Bool-cases, arith,
}
use cloudip.Base.Outcome.{Outcome, ok, err, ok-inj}
use cloudip.Net.Addr.{Addr}
use cloudip.Reader.{Reader}
use cloudip.Server.{
  Handle, Service, load, install, reload, close, close_handle, count_lookup, counted, after_open,
  mark_closed, swap, started, empty_service, lookup, lookup_provider, new_service,
}
use cloudip.Server.Steps.{IsSound, load_cases}
use cloudip.Server.Reload.{
  reload-IsSound, counted-IsSound, timer-IsSound, new_service-IsSound, close-IsSound,
}

-- The counters: each lookup is a hit, an error or a miss.
IsCounted : Service → Type 0
IsCounted s = s.hits + s.errors ≤ s.lookups

counted-IsCounted :
    {A : Type 0} (s : Service) (a : Outcome (Option A)) → IsCounted s → IsCounted (counted s a).0
unfolding counted count_lookup IsCounted
counted-IsCounted s (err e) i = omega (arith, i)
counted-IsCounted s (ok none) i = omega (arith, i)
counted-IsCounted s (ok (some a)) i = omega (arith, i)

counters : Service → ℕ × ℕ × ℕ
counters s = (s.lookups, s.hits, s.errors)

counters-load : (file : Outcome Reader) (s : Service) → counters (load file s).0 ≡ counters s
unfolding counters close_handle after_open
counters-load file s = elim (load_cases file s) [
  | inl (e, e1) ↦ rw e1 refl
  | inr (inl (e, e1)) ↦ rw e1 refl
  | inr (inr (d, e1)) ↦ rw e1 refl
]

counters-install : (r : Service × Outcome Handle) → counters (install r).0 ≡ counters r.0
unfolding counters install close_handle swap
counters-install (s, err e) = refl
counters-install (s, ok h) = elim (Bool-cases s.closed) [
  | inl e ↦ ground arith
  | inr e ↦ ground arith
]

counters-close : (s : Service) → counters (close s) ≡ counters s
unfolding counters close close_handle mark_closed
counters-close s = elim (Bool-cases s.closed) [ inl e ↦ ground arith | inr e ↦ ground arith ]

same-IsCounted : (s t : Service) → counters t ≡ counters s → IsCounted s → IsCounted t
unfolding IsCounted counters
same-IsCounted s t same i = ground arith

module _ (parse_addr : Text → Outcome Addr) where
  -- One call of a method, or one timer.
  pub data Step : Service → Service → Type 0 where
    step_lookup : (ip : Text) {s : Service} → Step s (lookup parse_addr ip s).0
    step_lookup_provider : (ip : Text) {s : Service} → Step s (lookup_provider parse_addr ip s).0
    step_reload : (file : Outcome Reader) {s : Service} → Step s (reload file s).0
    step_close : {s : Service} → Step s (close s)
    step_timer : (id : ℕ) {s : Service} → contains s.pending id ≡ true → Step s (close_handle id s)

  -- A run from the start of the service.
  pub data IsReachable : Service → Type 0 where
    start :
        (file : Outcome Reader) (index : Bool) {s : Service}
        → new_service file index ≡ ok s
        → IsReachable s
    then_ : {s t : Service} → IsReachable s → Step s t → IsReachable t

  step-IsSound : {s t : Service} → Step s t → IsSound s → IsSound t
  unfolding lookup lookup_provider
  step-IsSound (step_lookup ip) i = counted-IsSound _ _ i
  step-IsSound (step_lookup_provider ip) i = counted-IsSound _ _ i
  step-IsSound (step_reload file {s = s}) i = reload-IsSound file s i
  step-IsSound (step_close {s = s}) i = close-IsSound s i
  step-IsSound (step_timer id {s = s} p) i = timer-IsSound id s p i

  -- In every run, each handle that was opened is installed, or with a timer, or closed; and the
  -- installed one is neither closed nor with a timer, until the service is closed and closes it.
  pub reachable-IsSound : {s : Service} → IsReachable s → IsSound s
  reachable-IsSound (start file index h) = new_service-IsSound file index _ h
  reachable-IsSound (then_ run step) = step-IsSound step (reachable-IsSound run)

  step-IsCounted : {s t : Service} → Step s t → IsCounted s → IsCounted t
  unfolding lookup lookup_provider reload close_handle counters
  step-IsCounted (step_lookup ip) i = counted-IsCounted _ _ i
  step-IsCounted (step_lookup_provider ip) i = counted-IsCounted _ _ i
  step-IsCounted (step_reload file {s = s}) i =
      same-IsCounted s _ (counters-install _ ∙ counters-load file s) i
  step-IsCounted (step_close {s = s}) i = same-IsCounted s _ (counters-close s) i
  step-IsCounted (step_timer id {s = s} p) i = same-IsCounted s _ refl i

  start-IsCounted :
      (r : Service × Outcome Handle) (s : Service)
      → started r ≡ ok s
      → counters r.0 ≡ (0, 0, 0)
      → IsCounted s
  unfolding started IsCounted counters
  start-IsCounted (t, err e) s h zeros = absurd (cc)
  start-IsCounted (t, ok k) s h zeros = rw (sym (ok-inj h)) (unfold swap in ground arith)

  -- In every run, the lookups counted are at least the hits and the errors together.
  pub reachable-IsCounted : {s : Service} → IsReachable s → s.hits + s.errors ≤ s.lookups
  unfolding IsCounted new_service
  reachable-IsCounted (start file index {s = s} h) =
      start-IsCounted _ s h
        (counters-load file (empty_service index) ∙ unfold counters in unfold empty_service in refl)
  reachable-IsCounted (then_ run step) = step-IsCounted step (reachable-IsCounted run)
