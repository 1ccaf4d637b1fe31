-- ===== src/Cmd/Serve.antt =====
-- cmd/cloudattr/serve.go: `serve` and `runServe`, behind the parsing of the flags. The state is the
-- list of addresses that are listened on. What ends the wait, a server that fails or a context that
-- is done, is a parameter; so is what the path of the database opens as at each reload.
use cloudip.Base.{
  ℕ, ◌<◌, ◌≡◌, refl, sym, ap, ◌∙◌, inl, inr, Bool, true, ◌||◌, Text, codes, text_eq, nat_eq, ◌==◌,
  List, [], ◌∷◌, ◌++◌, Option, none, some, if◌then◌else◌, contains, Bool-cases, Option-cases, arith,
  ==-sound, ==-differs,
}
use cloudip.Base.Outcome.{Outcome, ok, err, Outcome-cases, ok-inj}
use cloudip.Record.{Error}
use cloudip.Reader.{Reader}
use cloudip.Server.{Service, new_service, reload, close, mark_closed, close_handle}
use cloudip.Server.Steps.{IsSound}
use cloudip.Server.Reload.{new_service-IsSound, reload-IsSound, close-IsSound}

-- `serveConfig`; an empty address is a server that is off.
pub record ServeConfig : Type 0 where
  pub http_addr : Text
  pub grpc_addr : Text

-- `Listener.Close`
unfoldable pub close_listener : Text → List Text → List Text
close_listener a [] = []
close_listener a (b ∷ sockets) = if a == b then sockets else b ∷ close_listener a sockets

module _ (listen : Text → List Text → Option Error) where
  -- `net.Listen` where an address is given: the listeners then open, or an error.
  unfoldable pub acquire : Text → Text → List Text → Outcome (List Text)
  acquire name [] sockets = ok sockets
  acquire name (c ∷ addr) sockets = elim (listen (c ∷ addr) sockets) [
    | none ↦ ok ((c ∷ addr) ∷ sockets)
    | some e ↦ err (name ++ (codes " listen: " ++ e))
  ]

  -- Closing one listener, if its server is on.
  unfoldable pub released : Text → List Text → List Text
  released [] sockets = sockets
  released (c ∷ addr) sockets = close_listener (c ∷ addr) sockets

  -- `shutdown`, which closes the listeners of the servers that run.
  unfoldable pub shutdown : ServeConfig → List Text → List Text
  shutdown cfg sockets = released cfg.grpc_addr (released cfg.http_addr sockets)

  -- `serve`: the listeners open at the end, and the error.
  unfoldable pub serve : ServeConfig → Option Error → List Text → List Text × Option Error
  serve cfg ended sockets = elim (acquire (codes "http") cfg.http_addr sockets) [
    | err e ↦ (sockets, some e)
    | ok one ↦ elim (acquire (codes "grpc") cfg.grpc_addr one) [
      | err e ↦ (released cfg.http_addr one, some e)
      | ok both ↦ (shutdown cfg both, ended)
    ]
  ]

  -- The reloads of the signals that come in, one after another.
  unfoldable pub reload_all : List (Outcome Reader) → Service → Service
  reload_all [] s = s
  reload_all (file ∷ files) s = reload_all files (reload file s).0

  -- `runServe`: the service that is left, if one was made, the listeners, and the error.
  unfoldable pub run_serve :
      Outcome Reader
      → Bool
      → ServeConfig
      → List (Outcome Reader)
      → Option Error
      → List Text
      → Option Service × List Text × Option Error
  run_serve file index cfg reloads ended sockets = elim (new_service file index) [
    | err e ↦ (none, sockets, some e)
    | ok s ↦
        let (left, failed) = serve cfg ended sockets in
        (some (close (reload_all reloads s)), left, failed)
  ]

  -- Closing what was opened last.
  close_listener_first : (a : Text) (sockets : List Text) → close_listener a (a ∷ sockets) ≡ sockets
  unfolding close_listener
  close_listener_first a sockets = elim (Bool-cases (a == a)) [
    | inl e ↦ rw (e, close_listener) refl
    | inr e ↦ absurd (==-differs a a e refl)
  ]

  close_listener-two :
      (a b : Text) (sockets : List Text)
      → close_listener b (close_listener a (b ∷ a ∷ sockets)) ≡ sockets
  unfolding close_listener
  close_listener-two a b sockets = elim (Bool-cases (a == b)) [
    | inl e ↦ rw (e, close_listener) (rw (==-sound a b e) (close_listener_first b sockets))
    | inr e ↦
        rw (e, close_listener)
          (ap (λ xs. close_listener b (b ∷ xs)) (close_listener_first a sockets)
            ∙ close_listener_first b sockets)
  ]

  acquire-open :
      (name : Text) (c : ℕ) (addr : Text) (sockets left : List Text)
      → acquire name (c ∷ addr) sockets ≡ ok left
      → left ≡ (c ∷ addr) ∷ sockets
  unfolding acquire
  acquire-open name c addr sockets left h = elim (Option-cases (listen (c ∷ addr) sockets)) [
    | inl e ↦ sym (ok-inj (rw (e, acquire) at h))
    | inr (x, e) ↦ absurd (let h' = rw (e, acquire) at h in cc)
  ]

  released-acquire :
      (name addr : Text) (sockets left : List Text)
      → acquire name addr sockets ≡ ok left
      → released addr left ≡ sockets
  unfolding released acquire
  released-acquire name [] sockets left h = sym (ok-inj h)
  released-acquire name (c ∷ addr) sockets left h =
      rw (acquire-open name c addr sockets left h) (close_listener_first (c ∷ addr) sockets)

  both_released :
      (n m a b : Text) (sockets one both : List Text)
      → acquire n a sockets ≡ ok one
      → acquire m b one ≡ ok both
      → released b (released a both) ≡ sockets
  unfolding released acquire
  both_released n m [] b sockets one both h k = released-acquire m b one both k ∙ sym (ok-inj h)
  both_released n m (c ∷ a) [] sockets one both h k =
      rw (sym (ok-inj k)) (released-acquire n (c ∷ a) sockets one h)
  both_released n m (c ∷ a) (d ∷ b) sockets one both h k =
      rw (acquire-open m d b one both k, acquire-open n c a sockets one h)
        (close_listener-two (c ∷ a) (d ∷ b) sockets)

  serve-sockets :
      (cfg : ServeConfig) (ended : Option Error) (sockets : List Text)
      → (serve cfg ended sockets).0 ≡ sockets
  unfolding serve shutdown
  serve-sockets cfg ended sockets =
      elim (Outcome-cases (acquire (codes "http") cfg.http_addr sockets)) [
        | inr (e, e1) ↦ rw (e1, serve) refl
        | inl (one, e1) ↦ elim (Outcome-cases (acquire (codes "grpc") cfg.grpc_addr one)) [
          | inr (e, e2) ↦ rw (e1, e2, serve) (released-acquire _ _ sockets one e1)
          | inl (both, e2) ↦
              rw (e1, e2, serve)
                (both_released _ _ cfg.http_addr cfg.grpc_addr sockets one both e1 e2)
        ]
      ]

  reload_all-IsSound :
      (files : List (Outcome Reader)) (s : Service) → IsSound s → IsSound (reload_all files s)
  unfolding reload_all
  reload_all-IsSound [] s i = i
  reload_all-IsSound (file ∷ files) s i =
      reload_all-IsSound files (reload file s).0 (reload-IsSound file s i)

  close-closed : (s : Service) → (close s).closed ≡ true
  unfolding close mark_closed close_handle
  close-closed s = ground arith

  -- Nothing of a service that was made stays open but what a timer will close.
  pub IsReleased : Option Service → Type 0
  IsReleased none = Unit
  IsReleased (some s) =
      (s.closed ≡ true)
      × ((id : ℕ) → id < s.opened → (contains s.shut id || contains s.pending id) ≡ true)

  sound-IsReleased : (s : Service) → IsSound s → s.closed ≡ true → IsReleased (some s)
  unfolding IsReleased
  sound-IsReleased s i shut =
      let (h, at, lt) = i.installed in
      let gone = i.ended shut h at in
      (
        shut,
        λ id le. elim (Bool-cases (id == h.id)) [
          | inl same ↦ let gone' = rw (sym (==-sound id h.id same)) at gone in ground arith
          | inr differs ↦ let a = rw (at, differs) at (i.accounted id le) in ground arith
        ],
      )

  -- However `runServe` ends, be it that the database or a listener cannot be opened, that a server
  -- fails, or that the context is done, after any reloads: the listeners that are open are those
  -- that were before, and a service that was made is closed, each handle that it opened being closed
  -- or handed to a timer that closes it.
  pub run_serve-IsReleased :
      (file : Outcome Reader) (index : Bool) (cfg : ServeConfig) (reloads : List (Outcome Reader))
      (ended : Option Error) (sockets : List Text)
      → ((run_serve file index cfg reloads ended sockets).1 ≡ sockets)
        × IsReleased (run_serve file index cfg reloads ended sockets).0
  unfolding run_serve IsReleased
  run_serve-IsReleased file index cfg reloads ended sockets =
      elim (Outcome-cases (new_service file index)) [
        | inr (e, e1) ↦ rw (e1, run_serve) (refl, tt)
        | inl (s, e1) ↦
            rw (e1, run_serve)
              (
                serve-sockets cfg ended sockets,
                sound-IsReleased (close (reload_all reloads s))
                    (close-IsSound _
                      (reload_all-IsSound reloads s (new_service-IsSound file index s e1)))
                    (close-closed (reload_all reloads s)),
              )
      ]
