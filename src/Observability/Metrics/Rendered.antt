-- ===== src/Observability/Metrics/Rendered.antt =====
-- The text exposition of src/text_to_sql/observability/metrics.py.
use build_your_own_text2sql.Base.{ℕ, ◌+◌, String, List, [], ◌∷◌, ◌++◌, map, if◌then◌else◌}
use build_your_own_text2sql.Base.Text.{◌+s◌, join, decimal}
use build_your_own_text2sql.Observability.Labels.{LabelKey, key_le, render_labels}
use build_your_own_text2sql.Observability.Metrics.{Amounts, Counter, Histogram, Registry, zeros}
use build_your_own_text2sql.Observability.Metrics.Values.{value_at}

-- `counts[-1]`
unfoldable pub last_count : List ℕ → ℕ
last_count [] = 0
last_count (n ∷ []) = n
last_count (n ∷ m ∷ ns) = last_count (m ∷ ns)

module _ {V : Type 0} where
  entry_in : LabelKey × V → List (LabelKey × V) → List (LabelKey × V)
  unfolding key_le
  entry_in e [] = e ∷ []
  entry_in e (f ∷ fs) = if key_le e.0 f.0 then e ∷ f ∷ fs else f ∷ entry_in e fs

  -- `sorted(d.items())`, whose keys differ
  sorted_entries : List (LabelKey × V) → List (LabelKey × V)
  unfolding entry_in
  sorted_entries [] = []
  sorted_entries (e ∷ es) = entry_in e (sorted_entries es)

module _ (amounts : Amounts) where
  open amounts use {Amount, of_nat, shown}

  counter_line : String → LabelKey × Amount → String
  unfolding render_labels
  counter_line name (key, value) = name +s render_labels key [] +s " " +s shown value

  -- `_Counter.render`
  counter_lines : Counter Amount → List String
  unfolding sorted_entries counter_line
  counter_lines c =
      ("# HELP " +s c.name +s " " +s c.help)
        ∷ ("# TYPE " +s c.name +s " counter")
        ∷ (elim c.values [ [] ↦ (c.name +s " 0") ∷ [] | _ ∷ _ ↦ [] ])
      ++ map (counter_line c.name) (sorted_entries c.values)

  -- the cumulative counts, with the text of each bucket's bound
  unfoldable pub cumulate : ℕ → List Amount → List ℕ → List (String × ℕ)
  unfolding last_count
  cumulate cumulative [] ns = ("+Inf", cumulative + last_count ns) ∷ []
  cumulate cumulative (b ∷ bs) [] = []
  cumulate cumulative (b ∷ bs) (n ∷ ns) =
      (shown b, cumulative + n) ∷ cumulate (cumulative + n) bs ns

  -- the cumulative counts that a histogram shows under a key
  unfoldable pub bucket_rows : Histogram Amount → LabelKey → List (String × ℕ)
  unfolding cumulate value_at zeros
  bucket_rows h key = cumulate 0 h.buckets (value_at (zeros h.buckets) h.bucket_counts key)

  bucket_line : String → LabelKey → String × ℕ → String
  unfolding render_labels decimal
  bucket_line name key (upper, cumulative) =
      name +s "_bucket" +s render_labels key (("le", upper) ∷ []) +s " " +s decimal cumulative

  key_lines : Histogram Amount → LabelKey → List String
  unfolding bucket_line bucket_rows render_labels value_at decimal
  key_lines h key =
      map (bucket_line h.name key) (bucket_rows h key)
      ++ (h.name +s "_sum" +s render_labels key [] +s " " +s shown (value_at (of_nat 0) h.sums key))
        ∷ (h.name +s "_count" +s render_labels key [] +s " " +s decimal (value_at 0 h.counts key))
        ∷ []

  -- `set(self._count) or {()}`
  keys_or_empty : List (LabelKey × ℕ) → List LabelKey
  unfolding sorted_entries
  keys_or_empty [] = [] ∷ []
  keys_or_empty (e ∷ es) = map (λ (p : LabelKey × ℕ). p.0) (sorted_entries (e ∷ es))

  all_key_lines : Histogram Amount → List LabelKey → List String
  unfolding key_lines
  all_key_lines h [] = []
  all_key_lines h (key ∷ keys) = key_lines h key ++ all_key_lines h keys

  -- `_Histogram.render`
  histogram_lines : Histogram Amount → List String
  unfolding all_key_lines keys_or_empty
  histogram_lines h =
      ("# HELP " +s h.name +s " " +s h.help)
      ∷ ("# TYPE " +s h.name +s " histogram")
      ∷ all_key_lines h (keys_or_empty h.counts)

  counters_lines : List (String × Counter Amount) → List String
  unfolding counter_lines
  counters_lines [] = []
  counters_lines ((name, c) ∷ cs) = counter_lines c ++ counters_lines cs

  histograms_lines : List (String × Histogram Amount) → List String
  unfolding histogram_lines
  histograms_lines [] = []
  histograms_lines ((name, h) ∷ hs) = histogram_lines h ++ histograms_lines hs

  -- `MetricsRegistry.render`
  unfoldable pub render : Registry Amount → String
  unfolding counters_lines histograms_lines join
  render r = join "\n" (counters_lines r.counters ++ histograms_lines r.histograms) +s "\n"
