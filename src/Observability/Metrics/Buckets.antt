-- ===== src/Observability/Metrics/Buckets.antt =====
-- The buckets of src/text_to_sql/observability/metrics.py account for every observation.
use mathlib.Core.Path.{subst}
use build_your_own_text2sql.Base.{
  or_default, if-split, ℕ, suc, ◌+◌, String, Option, none, some, List, [], ◌∷◌, ◌≡◌, refl, sym, ap,
  ◌∙◌, arith, inl, inr,
}
use build_your_own_text2sql.Base.Lists.{length, Member}
use build_your_own_text2sql.Base.Text.{◌=s=◌}
use build_your_own_text2sql.Base.Dict.{get, put, get-put}
use build_your_own_text2sql.Observability.Labels.{LabelKey, label_key}
use build_your_own_text2sql.Observability.Metrics.{
  Amounts, Histogram, Registry, Operation, counter, histogram, inc, observe, reset, perform,
  run_all, histogram_observe, histogram_of, new_histogram, default_buckets, empty_registry, zeros,
  place, bump_last,
}
use build_your_own_text2sql.Observability.Metrics.Values.{value_at, value_at-put_at}
use build_your_own_text2sql.Observability.Metrics.Rendered.{last_count, cumulate, bucket_rows}

total : List ℕ → ℕ
total [] = 0
total (n ∷ ns) = n + total ns

length-zeros : {A : Type 0} (bs : List A) → length (zeros bs) ≡ suc (length bs)
unfolding zeros
length-zeros [] = refl
length-zeros (b ∷ bs) = ap suc (length-zeros bs)

total-zeros : {A : Type 0} (bs : List A) → total (zeros bs) ≡ 0
unfolding zeros total
total-zeros [] = omega arith
total-zeros (b ∷ bs) = omega (arith, total-zeros bs)

module _ (amounts : Amounts) where
  open amounts use {Amount, of_nat, at_most}

  bump_last-total :
      (n : ℕ) (ns : List ℕ)
      → (total (bump_last amounts (n ∷ ns)) ≡ suc (total (n ∷ ns)))
        × (length (bump_last amounts (n ∷ ns)) ≡ length (n ∷ ns))
  unfolding bump_last total
  bump_last-total n [] = (omega arith, refl)
  bump_last-total n (m ∷ ns) = omega (arith, bump_last-total m ns)

  place-total :
      (bs : List Amount) (ns : List ℕ) (value : Amount)
      → length ns ≡ suc (length bs)
      → (total (place amounts bs ns value) ≡ suc (total ns))
        × (length (place amounts bs ns value) ≡ length ns)
  unfolding place total
  place-total [] [] value h = absurd (omega arith)
  place-total [] (n ∷ ns) value h = bump_last-total n ns
  place-total (b ∷ bs) [] value h = absurd (omega arith)
  place-total (b ∷ bs) (n ∷ ns) value h = ground (arith, place-total bs ns value)

  -- A histogram's buckets, one more than bounds, add up to its count, under each key.
  record Accounts (h : Histogram Amount) (key : LabelKey) : Type 0 where
    sums_up : total (value_at (zeros h.buckets) h.bucket_counts key) ≡ value_at 0 h.counts key
    sized : length (value_at (zeros h.buckets) h.bucket_counts key) ≡ suc (length h.buckets)

  observe-Accounts :
      (h : Histogram Amount) (value : Amount) (labels : List (String × String)) (key : LabelKey)
      → Accounts h key
      → Accounts h (label_key labels)
      → Accounts (histogram_observe amounts h value labels) key
  unfolding histogram_observe
  observe-Accounts h value labels key a b =
      let k = label_key labels in
      let old = value_at (zeros h.buckets) h.bucket_counts k in
      let (grown, same) = place-total h.buckets old value b.sized in
      record {
        sums_up = ground (
          arith,
          a.sums_up,
          b.sums_up,
          value_at-put_at (zeros h.buckets) h.bucket_counts k key
              (place amounts h.buckets old value),
          value_at-put_at 0 h.counts k key (suc (value_at 0 h.counts k)),
        );
        sized = ground (
          arith,
          a.sized,
          b.sized,
          value_at-put_at (zeros h.buckets) h.bucket_counts k key
              (place amounts h.buckets old value),
        );
      }

  new-Accounts :
      (name help : String) (buckets : List Amount) (key : LabelKey)
      → Accounts (new_histogram amounts name help buckets) key
  unfolding new_histogram value_at
  new-Accounts name help buckets key = record {
    sums_up = total-zeros buckets;
    sized = length-zeros buckets;
  }

  -- every histogram of a registry
  Sound : Registry Amount → Type 0
  Sound r =
      (name : String) (h : Histogram Amount) (key : LabelKey)
      → get r.histograms name ≡ some h
      → Accounts h key

  of-Accounts :
      (r : Registry Amount) (name help : String) (buckets : List Amount) (key : LabelKey)
      → Sound r
      → Accounts (histogram_of amounts r name help buckets) key
  unfolding histogram_of Sound
  of-Accounts r name help buckets key s = chosen (get r.histograms name) refl
    where
      chosen :
          (o : Option (Histogram Amount))
          → get r.histograms name ≡ o
          → Accounts (or_default (new_histogram amounts name help buckets) o) key
      chosen none e = new-Accounts name help buckets key
      chosen (some h) e = s name h key e

  put-Sound :
      (r : Registry Amount) (n : String) (h : Histogram Amount)
      → Sound r
      → ((key : LabelKey) → Accounts h key)
      → Sound (record r { histograms = put r.histograms n h })
  unfolding Sound
  put-Sound r n h s a name k key e =
      if-split (λ (o : Option (Histogram Amount)). o ≡ some k → Accounts k key) (n =s= name)
        (some h) (get r.histograms name)
        (λ same here. subst (λ x. Accounts x key) (ap (or_default h) here) (a key))
        (λ other there. s name k key there) (sym (get-put r.histograms n name h) ∙ e)

  empty-Sound : Sound empty_registry
  unfolding Sound get
  empty-Sound name h key e = cc

  perform-Sound :
      (o : Operation amounts) (r : Registry Amount) → Sound r → Sound (perform amounts r o)
  unfolding perform
  perform-Sound (counter n help) r s = unfold Sound in s
  perform-Sound (inc n amount labels) r s = unfold Sound in s
  perform-Sound (histogram n help buckets) r s =
      put-Sound r n (histogram_of amounts r n help buckets) s
        (λ key. of-Accounts r n help buckets key s)
  perform-Sound (observe n value labels) r s =
      let h = histogram_of amounts r n "" (default_buckets amounts) in
      let accounts = λ (key : LabelKey). of-Accounts r n "" (default_buckets amounts) key s in
      put-Sound r n (histogram_observe amounts h value labels) s
        (λ key. observe-Accounts h value labels key (accounts key) (accounts (label_key labels)))
  perform-Sound reset r s = empty-Sound

  run_all-Sound :
      (os : List (Operation amounts)) (r : Registry Amount) → Sound r → Sound (run_all amounts r os)
  unfolding run_all
  run_all-Sound [] r s = s
  run_all-Sound (o ∷ os) r s = run_all-Sound os (perform amounts r o) (perform-Sound o r s)

  cumulate-total :
      (c : ℕ) (bs : List Amount) (ns : List ℕ)
      → length ns ≡ suc (length bs)
      → Member ("+Inf", c + total ns) (cumulate amounts c bs ns)
  unfolding cumulate total last_count
  cumulate-total c [] [] h = absurd (omega arith)
  cumulate-total c [] (n ∷ []) h = inl (ap (λ (t : ℕ). ("+Inf", t)) (omega arith))
  cumulate-total c [] (n ∷ m ∷ ns) h = absurd (omega arith)
  cumulate-total c (b ∷ bs) [] h = absurd (omega arith)
  cumulate-total c (b ∷ bs) (n ∷ ns) h = inr (
      subst (λ (t : ℕ). Member ("+Inf", t) (cumulate amounts (c + n) bs ns)) (omega arith)
        (cumulate-total (c + n) bs ns (omega arith)))

  -- After any operations, the bucket "+Inf" that a histogram shows under a key holds its count under that key, so
  -- every observation fell into one bucket.
  pub bucket_rows-count :
      (os : List (Operation amounts)) (name : String) (h : Histogram Amount) (key : LabelKey)
      → get (run_all amounts empty_registry os).histograms name ≡ some h
      → Member ("+Inf", value_at 0 h.counts key) (bucket_rows amounts h key)
  unfolding bucket_rows Sound
  bucket_rows-count os name h key e =
      let a = run_all-Sound os empty_registry empty-Sound name h key e in
      subst
        (λ (t : ℕ).
          Member ("+Inf", t)
            (cumulate amounts 0 h.buckets (value_at (zeros h.buckets) h.bucket_counts key)))
        (omega (arith, a.sums_up))
        (cumulate-total 0 h.buckets (value_at (zeros h.buckets) h.bucket_counts key) a.sized)
