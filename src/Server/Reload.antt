-- ===== src/Server/Reload.antt =====
-- server/service.go: `Reload`, `Close`, the counting of answers, and the start of a service.
use cloudip.Base.{
  ℕ, ◌<◌, ◌≡◌, refl, sym, ap, ◌∙◌, inl, inr, Bool, true, false, Option, none, some, if◌then◌else◌,
  ◌==◌, nat_eq, contains, arith, Bool-cases, ==-sound,
}
use cloudip.Base.Outcome.{Outcome, ok, err, ok-inj}
use cloudip.Reader.{Reader, Db}
use cloudip.Server.{
  Handle, Service, after_open, close_handle, swap, mark_closed, empty_service, new_service, started,
  install, reload, close, count_lookup, counted,
}
use cloudip.Server.Steps.{IsSound, load_cases, handle, open_close-IsSound, swap-IsSound}

if-true {ℓ} : {A : Type ℓ} (x y : A) (b : Bool) → b ≡ true → (if b then x else y) ≡ x
if-true x y b h = rw h refl

if-false {ℓ} : {A : Type ℓ} (x y : A) (b : Bool) → b ≡ false → (if b then x else y) ≡ y
if-false x y b h = rw h refl

close_once :
    (s : Service) (h : Handle)
    → s.closed ≡ false
    → s.db ≡ some h
    → close s ≡ close_handle h.id (mark_closed s)
unfolding close
close_once s h e at =
    let shut : Option Handle → Service =
      λ o. elim o [ none ↦ mark_closed s | some k ↦ close_handle k.id (mark_closed s) ] in
    if-false _ _ s.closed e ∙ ap shut at

close_again : (s : Service) → s.closed ≡ true → close s ≡ s
unfolding close
close_again s e = if-true _ _ s.closed e

closed-IsSound :
    (s : Service) (h : Handle)
    → s.db ≡ some h
    → h.id < s.opened
    → IsSound s
    → IsSound (close_handle h.id (mark_closed s))
unfolding close_handle mark_closed nat_eq
closed-IsSound s h at below i = record {
  installed = (h, at, below);
  accounted = λ id lt. let a = i.accounted id lt in ground arith;
  shut-opened = λ id c. ground (arith, i.shut-opened id);
  pending-opened = λ id c. i.pending-opened id c;
  usable = λ live. absurd (cc);
  ended = λ shut k kat. ground (arith, at);
}

-- `Close`
pub close-IsSound : (s : Service) → IsSound s → IsSound (close s)
close-IsSound s i = elim (Bool-cases s.closed) [
  | inl e ↦ rw (close_again s e) i
  | inr e ↦
      let (h, at, below) = i.installed in rw (close_once s h e at) (closed-IsSound s h at below i)
]

install_closed :
    (s : Service) (h : Handle) → s.closed ≡ true → install (s, ok h) ≡ (close_handle h.id s, none)
unfolding install
install_closed s h e = if-true _ _ s.closed e

install_open : (s : Service) (h : Handle) → s.closed ≡ false → install (s, ok h) ≡ (swap h s, none)
unfolding install
install_open s h e = if-false _ _ s.closed e

closed-after_open : (s : Service) → (after_open s).closed ≡ s.closed
unfolding after_open
closed-after_open s = refl

-- `Reload`, whatever the file at the path is by then.
pub reload-IsSound : (file : Outcome Reader) (s : Service) → IsSound s → IsSound (reload file s).0
unfolding reload
reload-IsSound file s i = elim (load_cases file s) [
  | inl (e, e1) ↦ rw e1 (unfold install in i)
  | inr (inl (e, e1)) ↦ rw e1 (unfold install in open_close-IsSound s i)
  | inr (inr (d, e1)) ↦ rw e1 (elim (Bool-cases s.closed) [
    | inl shut ↦
        rw (install_closed (after_open s) (handle s.opened d) (closed-after_open s ∙ shut))
          (open_close-IsSound s i)
    | inr live ↦
        rw (install_open (after_open s) (handle s.opened d) (closed-after_open s ∙ live))
          (swap-IsSound s d live i)
  ])
]

pub counted-IsSound :
    {A : Type 0} (s : Service) (a : Outcome (Option A)) → IsSound s → IsSound (counted s a).0
unfolding counted count_lookup
counted-IsSound s (err e) i = record {
  installed = i.installed;
  accounted = i.accounted;
  shut-opened = i.shut-opened;
  pending-opened = i.pending-opened;
  usable = i.usable;
  ended = i.ended;
}
counted-IsSound s (ok none) i = record {
  installed = i.installed;
  accounted = i.accounted;
  shut-opened = i.shut-opened;
  pending-opened = i.pending-opened;
  usable = i.usable;
  ended = i.ended;
}
counted-IsSound s (ok (some a)) i = record {
  installed = i.installed;
  accounted = i.accounted;
  shut-opened = i.shut-opened;
  pending-opened = i.pending-opened;
  usable = i.usable;
  ended = i.ended;
}

-- A timer closes a handle that was replaced.
pub timer-IsSound :
    (id : ℕ) (s : Service) → contains s.pending id ≡ true → IsSound s → IsSound (close_handle id s)
unfolding close_handle nat_eq
timer-IsSound id s p i =
    let lt = i.pending-opened id p in
    record {
      installed = i.installed;
      accounted = λ k le. let a = i.accounted k le in ground arith;
      shut-opened = λ k c. ground (arith, i.shut-opened k);
      pending-opened = λ k c. i.pending-opened k c;
      usable = λ live k kat. elim (Bool-cases (k.id == id)) [
        | inl e ↦
            absurd (let u = i.usable live k kat in let same = ==-sound k.id id e in ground arith)
        | inr e ↦ let u = i.usable live k kat in ground arith
      ];
      ended = λ shut k kat. let u = i.ended shut k kat in ground arith;
    }

first-IsSound :
    (index : Bool) (d : Db)
    → IsSound (swap (handle (empty_service index).opened d) (after_open (empty_service index)))
unfolding swap after_open empty_service nat_eq
first-IsSound index d = record {
  installed = (_, refl, omega arith);
  accounted = λ id lt. ground arith;
  shut-opened = λ id c. absurd (cc);
  pending-opened = λ id c. absurd (cc);
  usable = λ live k kat. refl;
  ended = λ shut k kat. absurd (cc);
}

pub new_service-IsSound :
    (file : Outcome Reader) (index : Bool) (s : Service) → new_service file index ≡ ok s → IsSound s
unfolding new_service started
new_service-IsSound file index s h = elim (load_cases file (empty_service index)) [
  | inl (e, e1) ↦ absurd (let h' = rw e1 at h in cc)
  | inr (inl (e, e1)) ↦ absurd (let h' = rw e1 at h in cc)
  | inr (inr (d, e1)) ↦
      let made : swap (handle (empty_service index).opened d) (after_open (empty_service index))
          ≡ s =
        ok-inj (rw e1 at h) in
      rw (sym made) (first-IsSound index d)
]
