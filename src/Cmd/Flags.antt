-- ===== src/Cmd/Flags.antt =====
-- cmd/cloudattr/build.go: the flags of `build`, behind `flag.FlagSet.Parse`.
pub mod Names
use cloudip.Base.{
  ℕ, Bool, true, false, not, ◌&&◌, ◌||◌, Text, codes, text_eq, ◌==◌, List, [], ◌∷◌, ◌++◌, Option,
  none, some, if◌then◌else◌,
}
use cloudip.Base.Texts.{trim_space, split}
use cloudip.Record.{Error}

-- The flags, with those that `fs.Visit` finds set. The fractions of --max-drop and --max-skip stand
-- in the limits of the publication.
pub record BuildFlags : Type 0 where
  pub source : Text
  pub fixtures : Text
  pub providers : Text
  pub out : Text
  pub csv_out : Text
  pub record_size : ℕ
  pub reputation : Bool
  pub with_reputation : Bool
  pub rep_source : Text
  pub asn : Bool
  pub with_asn : Bool
  pub asn_source : Text
  pub keep_going : Bool
  pub pins : Text
  pub print_digests : Bool
  pub source_set : Bool
  pub rep_source_set : Bool
  pub asn_source_set : Bool

-- The defaults of the flags.
abbrev pub default_flags : BuildFlags
default_flags = record {
  source = codes "rezmoss";
  fixtures = [];
  providers = [];
  out = [];
  csv_out = [];
  record_size = 28;
  reputation = false;
  with_reputation = false;
  rep_source = codes "direct";
  asn = false;
  with_asn = false;
  asn_source = codes "direct";
  keep_going = true;
  pins = [];
  print_digests = false;
  source_set = false;
  rep_source_set = false;
  asn_source_set = false;
}

-- The combinations of flags that are refused, in the order of their tests.
unfoldable pub check_flags : BuildFlags → Option Error
check_flags f =
    if f.reputation && f.with_reputation
    then some (codes "--reputation and --with-reputation are mutually exclusive")
    else if f.rep_source_set && not f.with_reputation
    then some (codes "--reputation-source only applies with --with-reputation")
    else if f.asn && (f.reputation || f.with_reputation || f.with_asn)
    then some (codes "--asn cannot combine with --reputation/--with-reputation/--with-asn")
    else if f.asn && f.source_set
    then some (codes "--source does not apply to --asn builds")
    else if f.asn_source_set && not f.asn && not f.with_asn
    then some (codes "--asn-source only applies with --asn or --with-asn")
    else none

-- The default of the output path.
unfoldable pub out_path : BuildFlags → Text
out_path f =
    if f.out == []
    then if f.reputation
      then codes "reputation.mmdb"
      else if f.asn
      then codes "asn.mmdb"
      else codes "cloud.mmdb"
    else f.out

-- The loop of `splitCSV`.
unfoldable pub trimmed : List Text → List Text
trimmed [] = []
trimmed (p ∷ parts) =
    let rest = trimmed parts in let t = trim_space p in if t == [] then rest else t ∷ rest

-- `splitCSV`
unfoldable pub split_csv : Text → List Text
split_csv s = if trim_space s == [] then [] else trimmed (split b',' s)

-- `describeSource`
unfoldable pub describe_source : Text → Text → Text
describe_source source [] = source
describe_source source (c ∷ fixtures) = codes "fixtures:" ++ (c ∷ fixtures)
