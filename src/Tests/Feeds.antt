-- ===== src/Tests/Feeds.antt =====
-- Runs for the feeds: retries, digests, the registry, and the collected streams.
use cloudip.Base.{
  ℕ, zero, suc, ◌+◌, ◌≡◌, ◌<◌, refl, true, false, Text, codes, text_eq, nat_eq, List, [], ◌∷◌,
  Option, none, some, All, arith, inl, inr, if◌then◌else◌, ◌++◌, ◌==◌,
}
use cloudip.Base.Outcome.{Outcome, ok, err}
use cloudip.Base.Texts.{decimal, equal_fold, lower}
use cloudip.Base.Dict.{Dict, get}
use cloudip.Base.Streams.{Yield, each}
use cloudip.Net.Addr.{Addr, v4}
use cloudip.Net.Prefix.{Prefix, prefix_from}
use cloudip.Record.{Item, Error}
use cloudip.Feed.{
  Plugin, PluginSource, Reader, Source, no_entry, fixture_resolver, collect, collect_resilient,
}
use cloudip.Feed.Http.{
  Answer, network_error, response, attempt_answer, attempts_of, http_open, http_open_lem,
  IsTransient, is_transient, retryable_status,
}
use cloudip.Feed.Http.Attempts.{http_open-same}
use cloudip.Feed.Digest.{digest_open, digest_checked, recorded, digest_open_lem}
use cloudip.Feed.Registry.{Registry, IsNamed, select_from, select_named}
use cloudip.Feed.Collected.{
  collected, collect-each, keep, keep_failure, whole_plugins, troubled_plugins,
  collect_resilient_lem,
}
use cloudip.Feed.Rezmoss.{
  RezmossAllEntry, rezmoss_all_items, asked, IsAskedFor, rezmoss_all_items-IsAskedFor,
}

abbrev body : Reader
body = record { content = codes "ips"; failure = none }

abbrev calm : ℕ → Option Error
calm n = none

abbrev flaky : ℕ → Answer
flaky (suc (suc n)) = response 200 body
flaky _ = network_error (codes "reset")

abbrev down : ℕ → Answer
down n = response 503 body

first_flaky : (j : ℕ) → j < 1 → IsTransient (attempt_answer calm flaky (1 + j))
unfolding attempt_answer
first_flaky zero h = tt
first_flaky (suc j) h = absurd (omega (arith, h))

second_ok : attempt_answer calm flaky 2 ≡ response 200 body
unfolding attempt_answer
second_ok = refl

within : 1 < attempts_of 0
unfolding attempts_of nat_eq
within = omega arith

not-IsTransient : ¬ (IsTransient (response 200 body))
not-IsTransient (inl h) = absurd (omega (arith, h))
not-IsTransient (inr (inl h)) = absurd (omega (arith, h))
not-IsTransient (inr (inr h)) = absurd (omega (arith, h))

http_open_lem_example : http_open calm flaky 0 ≡ (
    if ◌==◌ {A = ℕ} 200 200
    then ok body
    else err (codes "fetch: unexpected status " ++ decimal 200))
http_open_lem_example =
    http_open_lem calm flaky 0 1 200 body within first_flaky second_ok not-IsTransient

always_down : (j : ℕ) → j < attempts_of 2 → is_transient (attempt_answer calm down (1 + j)) ≡ true
unfolding attempt_answer attempts_of nat_eq retryable_status
always_down j h = ground arith

abbrev digest : Text → Text
digest content = content

abbrev pins : Dict Text
pins = (codes "a", codes "IPS") ∷ []

abbrev one_source : Source
one_source ref = ok body

passes : digest_open digest one_source pins (codes "a") ≡ ok body
unfolding digest_open digest_checked get equal_fold lower text_eq
passes = refl

digest_open_lem_example :
    (one_source (codes "a") ≡ ok body)
    × (recorded digest one_source (codes "a") ≡ (codes "a", codes "ips") ∷ [])
    × ((want : Text) → get (codes "a") pins ≡ some want → equal_fold want (codes "ips") ≡ true)
digest_open_lem_example = digest_open_lem digest one_source pins (codes "a") body passes

abbrev parse_one : Text → Reader → List Item
parse_one ref r = (no_entry, none) ∷ []

abbrev parse_broken : Text → Reader → List Item
parse_broken ref r = (no_entry, none) ∷ (no_entry, some (codes "bad")) ∷ []

abbrev tor : Plugin
tor = record {
  name = codes "tor";
  refs = codes "tor/exit-list.txt" ∷ [];
  parse = parse_one;
  direct_refs = none;
  rezmoss_refs = none;
}

abbrev feodo : Plugin
feodo = record {
  name = codes "feodo";
  refs = codes "feodo/list.json" ∷ [];
  parse = parse_broken;
  direct_refs = none;
  rezmoss_refs = none;
}

abbrev two_plugins : Registry
two_plugins = (codes "tor", tor) ∷ (codes "feodo", feodo) ∷ []

two_plugins-IsNamed : IsNamed two_plugins
unfolding IsNamed get
two_plugins-IsNamed n p h = ground arith

chosen : select_from two_plugins (codes "feodo" ∷ codes "tor" ∷ []) ≡ ok (feodo ∷ tor ∷ [])
unfolding select_from select_named get text_eq
chosen = refl

abbrev resolve : PluginSource
resolve = fixture_resolver one_source

-- A consumer that stops at the third item.
abbrev three : Yield Item ℕ
three i zero = (true, 1)
three i (suc zero) = (true, 2)
three i (suc (suc n)) = (false, 3)

collect-each_example :
    collect (feodo ∷ tor ∷ []) resolve three 0 ≡ each (collected (feodo ∷ tor ∷ []) resolve) three 0
collect-each_example = collect-each three (feodo ∷ tor ∷ []) resolve 0

collect_resilient_lem_example :
    collect_resilient keep_failure (feodo ∷ tor ∷ []) resolve keep ([], []) ≡ (
      true,
      (whole_plugins (feodo ∷ tor ∷ []) resolve, troubled_plugins (feodo ∷ tor ∷ []) resolve),
    )
collect_resilient_lem_example = collect_resilient_lem (feodo ∷ tor ∷ []) resolve

abbrev one_prefix : Text → Outcome Prefix
one_prefix s = ok (prefix_from (v4 0x0a000000) 8)

abbrev one_addr : Text → Outcome Addr
one_addr s = ok (v4 0x0a000000)

abbrev aws_row : RezmossAllEntry
aws_row = record {
  cidr = codes "10.0.0.0/8";
  ip_version = codes "ipv4";
  provider = codes "aws";
  service = codes "EC2";
  region = codes "GLOBAL";
  last_updated = [];
}

rezmoss_all_items-IsAskedFor_example :
    (rezmoss_all_items one_prefix one_addr
        (λ s. none)
        (codes "aws" ∷ [])
        (codes "all")
        (ok aws_row ∷ [])
      ≡ rezmoss_all_items one_prefix one_addr
          (λ s. none)
          []
          (codes "all")
          (asked one_prefix one_addr (λ s. none) (codes "aws" ∷ []) (ok aws_row ∷ [])))
    × All (IsAskedFor one_prefix one_addr (λ s. none) (codes "aws" ∷ []) (codes "all")) (
        rezmoss_all_items one_prefix one_addr
          (λ s. none)
          (codes "aws" ∷ [])
          (codes "all")
          (ok aws_row ∷ []))
rezmoss_all_items-IsAskedFor_example =
    rezmoss_all_items-IsAskedFor one_prefix one_addr (λ s. none) (codes "aws" ∷ []) (codes "all")
      (ok aws_row ∷ [])

-- Two servers that differ behind the third attempt.
abbrev never : ℕ → Answer
never n = network_error (codes "reset")

abbrev late : ℕ → Answer
late (suc (suc (suc (suc n)))) = response 200 (record { content = []; failure = none })
late _ = network_error (codes "reset")

both_down :
    (j : ℕ)
    → j < attempts_of 3
    → attempt_answer calm never (1 + j) ≡ attempt_answer calm late (1 + j)
unfolding attempts_of attempt_answer nat_eq
both_down zero h = refl
both_down (suc zero) h = refl
both_down (suc (suc zero)) h = refl
both_down (suc (suc (suc j))) h = absurd (omega (arith, h))

http_open-same_example : http_open calm never 3 ≡ http_open calm late 3
http_open-same_example = http_open-same calm calm never late 3 both_down
