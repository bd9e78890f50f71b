-- ===== src/OracleNode/Fetch.antt =====
-- internal/oraclenode/fetch.go. What a source answers and when the context ends are parameters: the
-- delay between attempts matters only in whether the context ended during it. The goroutines of
-- `Price` append under a lock, so the order in which they finish is the only thing left open: it is
-- the list `finished`.
pub mod Majority
use aegis_protocol.Base.{
  ℕ, zero, suc, ◌+◌, ◌-◌, ◌*◌, ◌/◌, ◌%◌, ◌^◌, ◌≤◌, ◌<◌, ◌≡◌, ◌≢◌, ◌↔◌, ◌⊎◌, refl, ap, sym, ◌∙◌,
  subst, inl, inr, Bool, true, false, not, ◌&&◌, ◌||◌, List, [], ◌∷◌, ◌++◌, map, Option, none, some,
  length, take, drop, replicate, get_or, any_of, count_if, keep_if, ltb, leb, ◌==◌, if◌then◌else◌,
  Text, codes, text_eq, text_lt, text_eq_refl, text_eq→eq, text_eq_iff, Result, ok, err, World,
  Action, ◌>>=◌, ◌>>◌, pure, throw, lift, gets, modify, exec, query, returning, exec_cases, quiet,
  All, Any, All-map, arith, Bool-cases, Option-cases, ==_iff, length-append, length-replicate,
  ltb→lt, ltb→ge, lt→ltb, leb→le,
}
use aegis_protocol.Oracle.Aggregate.{median}

-- A source, and the context as it sees it: at attempt `k` it answers `fetch decimals k`;
-- `interrupted k` says that the context ended during the wait before the attempt, `ended k` that it
-- had ended after it.
pub record Source : Type 0 where
  pub name : Text
  pub fetch : ℕ → ℕ → Result Text ℕ
  pub interrupted : ℕ → Bool
  pub ended : ℕ → Bool

-- `source_failed` has no last error when no attempt is permitted.
pub data FetchError : Type 0 where
  cancelled : FetchError
  source_failed : Text → Option Text → FetchError
  too_few_sources : ℕ → ℕ → ℕ → FetchError

pub record FetcherOptions : Type 0 where
  pub min_sources : ℕ
  pub max_retries : ℕ

pub record Fetcher : Type 0 where
  pub sources : List Source
  pub min_sources : ℕ
  pub max_retries : ℕ

abbrev or_default : ℕ → ℕ → ℕ
or_default n default = if n == 0 then default else n

unfoldable pub new_fetcher : List Source → FetcherOptions → Fetcher
new_fetcher sources opts = record {
  sources = sources;
  min_sources = or_default opts.min_sources 3;
  max_retries = or_default opts.max_retries 5;
}

abbrev pub reported_zero : Text
reported_zero = codes "source reported zero"

-- The loop, with the attempts that are left, the attempt's number and the last error.
fetch_attempts : Source → ℕ → ℕ → ℕ → Option Text → Result FetchError ℕ
fetch_attempts source decimals zero attempt last_err = err (source_failed source.name last_err)
fetch_attempts source decimals (suc left) attempt last_err =
    if ltb 0 attempt && source.interrupted attempt
    then err cancelled
    else elim (source.fetch decimals attempt) [
      | ok value ↦
          if value == 0
          then fetch_attempts source decimals left (suc attempt) (some reported_zero)
          else ok value
      | err e ↦
          if source.ended attempt
          then err cancelled
          else fetch_attempts source decimals left (suc attempt) (some e)
    ]

-- `fetchWithBackoff`.
unfoldable pub fetch_with_backoff : Fetcher → ℕ → Source → Result FetchError ℕ
unfolding fetch_attempts
fetch_with_backoff f decimals source = fetch_attempts source decimals f.max_retries 0 none

pub record FetchResult : Type 0 where
  pub values : List ℕ
  pub sources : List Text
  pub failed : List (Text × FetchError)

-- `result.Failed[name] = err`.
put : Text → FetchError → List (Text × FetchError) → List (Text × FetchError)
put name e [] = (name, e) ∷ []
put name e ((n, e') ∷ rest) = if text_eq n name then (name, e) ∷ rest else (n, e') ∷ put name e rest

-- One goroutine's end, under the lock.
pub collect : Source → Result FetchError ℕ → FetchResult → FetchResult
unfolding put
collect source (ok value) r = record r {
  values = r.values ++ value ∷ [];
  sources = r.sources ++ source.name ∷ [];
}
collect source (err e) r = record r { failed = put source.name e r.failed }

collect_all : Fetcher → ℕ → List Source → FetchResult → FetchResult
unfolding collect fetch_with_backoff
collect_all f decimals [] r = r
collect_all f decimals (source ∷ finished) r =
    collect_all f decimals finished (collect source (fetch_with_backoff f decimals source) r)

abbrev pub no_result : FetchResult
no_result = record { values = []; sources = []; failed = [] }

-- `Price`, when the sources finish in the order `finished`.
unfoldable pub price : Fetcher → ℕ → List Source → Result FetchError ℕ × FetchResult
unfolding collect_all
price f decimals finished =
    let result = collect_all f decimals finished no_result in
    if ltb (length result.values) f.min_sources
    then (err (too_few_sources (length result.values) (length f.sources) f.min_sources), result)
    else (ok (median result.values), result)
