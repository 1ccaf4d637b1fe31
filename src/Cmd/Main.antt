-- ===== src/Cmd/Main.antt =====
-- cmd/cloudattr/main.go: `main`. The commands are an argument, each with its arguments.
use cloudip.Base.{
  ℕ, Text, codes, text_eq, ◌==◌, ◌||◌, List, [], ◌∷◌, Option, none, some, if◌then◌else◌,
}
use cloudip.Record.{Error}

-- What each command returns for its arguments.
pub record Commands : Type 0 where
  pub build : List Text → Option Error
  pub lookup : List Text → Option Error
  pub export : List Text → Option Error
  pub verify : List Text → Option Error
  pub serve : List Text → Option Error

-- The status of a command that has run.
unfoldable pub exit_status : Option Error → ℕ
exit_status none = 0
exit_status (some e) = 1

-- The exit status of `main`, by `os.Args[1:]`.
unfoldable pub main : Commands → List Text → ℕ
main C [] = 2
main C (cmd ∷ args) =
    if cmd == codes "build"
    then exit_status (C.build args)
    else if cmd == codes "lookup"
    then exit_status (C.lookup args)
    else if cmd == codes "export"
    then exit_status (C.export args)
    else if cmd == codes "verify"
    then exit_status (C.verify args)
    else if cmd == codes "serve"
    then exit_status (C.serve args)
    else if cmd == codes "-h" || cmd == codes "--help" || cmd == codes "help"
    then 0
    else 2
