-- ===== src/Server/Mux.antt =====
-- What the program uses of `http.ServeMux`: patterns of one method, literal segments and wildcards
-- for one segment. The path of a request is its escaped segments; how a segment is unescaped is a
-- parameter.
use cloudip.Base.{
  Bool, true, false, not, ◌&&◌, ◌||◌, Text, codes, text_eq, nat_eq, ◌==◌, List, [], ◌∷◌, ◌++◌, map,
  Option, none, some, if◌then◌else◌, drop,
}
use cloudip.Base.Dict.{Dict, get}
use cloudip.Base.Texts.{split, cut}
use cloudip.Server.{Service}
use cloudip.Server.Http.{Run}

pub data Segment : Type 0 where
  literal : Text → Segment
  wild : Text → Segment

pub record Pattern : Type 0 where
  pub method : Text
  pub segments : List Segment

pub record Request : Type 0 where
  pub method : Text
  pub path : List Text
  pub query : List (Text × Text)

-- `r.PathValue`
abbrev pub PathValues : Type 0
PathValues = Dict Text

abbrev pub path_value : Text → PathValues → Text
path_value name values = elim (get name values) [ none ↦ [] | some v ↦ v ]

-- `r.URL.Query()[name]`
abbrev pub query_values : Text → List (Text × Text) → List Text
query_values name [] = []
query_values name ((k, v) ∷ query) =
    let rest = query_values name query in if k == name then v ∷ rest else rest

abbrev pub Handler : Type 0
Handler = PathValues → Request → Service → Service × Run

abbrev pub Mux : Type 0
Mux = List (Pattern × Handler)

-- `{name}` is a wildcard.
abbrev pub segment_of : Text → Segment
segment_of [] = literal []
segment_of (c ∷ s) = elim (if c == b'{' then cut b'}' s else none) [
  | some (name, _) ↦ wild name
  | none ↦ literal (c ∷ s)
]

-- `GET /v1/lookup/{ip}`
unfoldable pub parse_pattern : Text → Pattern
parse_pattern s = elim (cut b' ' s) [
  | none ↦ record { method = []; segments = map segment_of (drop 1 (split b'/' s)) }
  | some (method, path) ↦ record {
    method = method;
    segments = map segment_of (drop 1 (split b'/' path));
  }
]

-- Whether a path fits both patterns.
abbrev pub overlap_segments : List Segment → List Segment → Bool
overlap_segments [] [] = true
overlap_segments (literal a ∷ p) (literal b ∷ q) = a == b && overlap_segments p q
overlap_segments (wild _ ∷ p) (_ ∷ q) = overlap_segments p q
overlap_segments (literal _ ∷ p) (wild _ ∷ q) = overlap_segments p q
overlap_segments _ _ = false

-- Whether what fits the first fits the second.
abbrev pub covered_segments : List Segment → List Segment → Bool
covered_segments [] [] = true
covered_segments (literal a ∷ p) (literal b ∷ q) = a == b && covered_segments p q
covered_segments (_ ∷ p) (wild _ ∷ q) = covered_segments p q
covered_segments _ _ = false

abbrev same : Bool → Bool → Bool
same true b = b
same false b = not b

-- Two patterns of a method conflict if they overlap and neither is more specific.
unfoldable pub conflict : Pattern → Pattern → Bool
conflict p q =
    p.method == q.method
    && overlap_segments p.segments q.segments
    && same (covered_segments p.segments q.segments) (covered_segments q.segments p.segments)

abbrev pub any_conflict : Pattern → Mux → Bool
any_conflict p [] = false
any_conflict p ((q, _) ∷ mux) = conflict p q || any_conflict p mux

-- `mux.HandleFunc`, which panics where the pattern conflicts with one that is there: none.
unfoldable pub handle_func : Text → Handler → Mux → Option Mux
handle_func s h mux =
    let p = parse_pattern s in if any_conflict p mux then none else some (mux ++ (p, h) ∷ [])

-- The calls of `HandleFunc`, in order.
unfoldable pub register : List (Text × Handler) → Mux → Option Mux
register [] mux = some mux
register ((s, h) ∷ handlers) mux = elim (handle_func s h mux) [
  | none ↦ none
  | some mux' ↦ register handlers mux'
]

-- What the mux answers itself.
pub data Reply : Type 0 where
  handled : Run → Reply
  redirected : Reply
  not_found : Reply
  not_allowed : Reply

-- A path with no empty segment but the last, and none that is `.` or `..`.
abbrev pub is_dots : Text → Bool
is_dots s = s == codes "." || s == codes ".."

abbrev pub is_clean : List Text → Bool
is_clean [] = true
is_clean (s ∷ []) = not (is_dots s)
is_clean (s ∷ t ∷ path) = not (s == []) && not (is_dots s) && is_clean (t ∷ path)

-- A pattern of GET serves HEAD too.
abbrev pub takes_method : Text → Text → Bool
takes_method pattern method =
    pattern == method || (pattern == codes "GET" && method == codes "HEAD")

-- A pattern that fits, with its handler and the values of its wildcards.
abbrev pub Found : Type 0
Found = Pattern × Handler × PathValues

-- The more specific of two patterns that fit.
abbrev pub better : Found → Option Found → Option Found
better new none = some new
better new (some old) =
    if covered_segments (Pattern.segments old.0) (Pattern.segments new.0)
    then some old
    else some new

module _ (unescape : Text → Text) where
  unfoldable pub match_path : List Segment → List Text → Option PathValues
  match_path [] [] = some []
  match_path (literal t ∷ p) (s ∷ path) = elim (match_path p path) [
    | none ↦ none
    | some values ↦ if unescape s == t then some values else none
  ]
  match_path (wild name ∷ p) (s ∷ path) = elim (match_path p path) [
    | none ↦ none
    | some values ↦ if s == [] then none else some ((name, unescape s) ∷ values)
  ]
  match_path _ _ = none

  -- The most specific of the patterns that fit.
  unfoldable pub route : Mux → Request → Option Found → Option Found
  route [] req best = best
  route ((p, h) ∷ mux) req best = elim (match_path p.segments req.path) [
    | none ↦ route mux req best
    | some values ↦
        route mux req
          (if takes_method p.method req.method then better (p, h, values) best else best)
  ]

  abbrev pub any_path : Mux → List Text → Bool
  any_path [] path = false
  any_path ((p, _) ∷ mux) path = elim (match_path p.segments path) [
    | none ↦ any_path mux path
    | some _ ↦ true
  ]

  -- The handler of the pattern that is found; without one, what the mux answers itself.
  unfoldable pub served : Mux → Option Found → Request → Service → Service × Reply
  served mux (some (p, h, values)) req s = let (s', run) = h values req s in (s', handled run)
  served mux none req s = (s, if any_path mux req.path then not_allowed else not_found)

  -- `mux.ServeHTTP`
  unfoldable pub serve_mux : Mux → Request → Service → Service × Reply
  serve_mux mux req s =
      if not (req.method == codes "CONNECT") && not (is_clean req.path)
      then (s, redirected)
      else served mux (route mux req none) req s
