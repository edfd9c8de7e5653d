-- ===== src/Examples/Metrics.antt =====
-- The theorems on metrics.
use Prim.Native.String.{String}
use build_your_own_text2sql.Base.{ℕ, ◌+◌, leb, List, [], ◌∷◌, ◌≡◌, refl, some, or_default}
use build_your_own_text2sql.Base.Lists.{Member}
use build_your_own_text2sql.Base.Text.{decimal}
use build_your_own_text2sql.Base.Dict.{get}
use build_your_own_text2sql.Observability.Labels.{label_key, escape}
use build_your_own_text2sql.Observability.Labels.Escape.{
  read_value, quoted, flat_lines, read_value-escape,
}
use build_your_own_text2sql.Observability.Metrics.{
  Amounts, Histogram, Operation, inc, observe, reset, run_all, empty_registry, new_histogram,
}
use build_your_own_text2sql.Observability.Metrics.Values.{value_at}
use build_your_own_text2sql.Observability.Metrics.Recorded.{
  counter_value, observations, total_of, observed_in,
}
use build_your_own_text2sql.Observability.Metrics.Log.{run_all-IsLog}
use build_your_own_text2sql.Observability.Metrics.Rendered.{bucket_rows, render}
use build_your_own_text2sql.Observability.Metrics.Buckets.{bucket_rows-count}

abbrev naturals : Amounts
naturals = record {
  Amount = ℕ;
  of_nat = λ n. n;
  plus = λ m n. m + n;
  at_most = leb;
  shown = decimal;
}

abbrev labels : List (String × String)
labels = ("stage", "gate") ∷ ("ok", "yes") ∷ []

abbrev operations : List (Operation naturals)
operations =
    inc "requests" 1 []
    ∷ reset
    ∷ inc "requests" 2 labels
    ∷ observe "latency_ms" 30 labels
    ∷ inc "requests" 3 labels
    ∷ observe "latency_ms" 20000 labels
    ∷ []

operations_run :
    (counter_value naturals
        (run_all naturals empty_registry operations)
        "requests"
        (label_key labels)
      ≡ 5)
    × (observations naturals
          (run_all naturals empty_registry operations)
          "latency_ms"
          (label_key labels)
        ≡ (2, 20030))
unfolding run_all counter_value observations label_key
operations_run = (refl, refl)

render_runs :
    render naturals (run_all naturals empty_registry (inc "requests" 2 labels ∷ []))
    ≡ "# HELP requests requests\n# TYPE requests counter\nrequests{ok=\"yes\",stage=\"gate\"} 2\n"
unfolding render run_all label_key
render_runs = refl

run_all-IsLog_example :
    (counter_value naturals
        (run_all naturals empty_registry operations)
        "requests"
        (label_key labels)
      ≡ total_of naturals "requests" (label_key labels) 0 operations)
    × (observations naturals
          (run_all naturals empty_registry operations)
          "requests"
          (label_key labels)
        ≡ observed_in naturals "requests" (label_key labels) (0, 0) operations)
run_all-IsLog_example = run_all-IsLog naturals operations "requests" (label_key labels)

abbrev latency : Histogram ℕ
latency =
    or_default (new_histogram naturals "latency_ms" "" [])
      (get (run_all naturals empty_registry operations).histograms "latency_ms")

bucket_rows-count_example :
    Member
      ("+Inf", value_at 0 latency.counts (label_key labels))
      (bucket_rows naturals latency (label_key labels))
unfolding run_all get
bucket_rows-count_example =
    bucket_rows-count naturals operations "latency_ms" latency (label_key labels) refl

read_value-escape_example :
    read_value (quoted (escape "say \"hi\" \\ bye") "} 1")
    ≡ some (flat_lines "say \"hi\" \\ bye", "} 1")
read_value-escape_example = read_value-escape "say \"hi\" \\ bye" "} 1"
