-- ===== src/Bench/Percentiles.antt =====
-- bench_firewall.py: the percentiles of `report`.
use mininet_zone_segmentatio.Base.{
  ℕ, zero, suc, ◌+◌, ◌-◌, ◌*◌, ◌/◌, ◌≤◌, ◌<◌, ◌≡◌, refl, Bool, true, some, List, [], ◌∷◌, ltb, ◌==◌,
  ==_iff, nat_eq, length, All, arith, ok,
}
use mininet_zone_segmentatio.Bench.{sorted, sum, get_elem?, Summary, percentiles, report}
use mininet_zone_segmentatio.Bench.Sorting.{
  count, IsSorted, sorted-IsSorted, count-sorted, length-sorted, sum-sorted, get_elem?-some,
}

-- The values below and above one.
abbrev pub below : ℕ → List ℕ → ℕ
below v = count (λ x. ltb x v)

abbrev pub above : ℕ → List ℕ → ℕ
above v = count (λ x. ltb v x)

count-le-length : (p : ℕ → Bool) (xs : List ℕ) → count p xs ≤ length xs
unfolding count
count-le-length p [] = omega arith
count-le-length p (x ∷ xs) = ground (arith, count-le-length p xs)

none_below : (v : ℕ) (xs : List ℕ) → All (λ y. v ≤ y) xs → below v xs ≡ 0
unfolding count
none_below v [] all = refl
none_below v (x ∷ xs) all = ground (arith, none_below v xs all.1)

All-get_elem? : (v w i : ℕ) (xs : List ℕ) → All (λ y. v ≤ y) xs → get_elem? i xs ≡ some w → v ≤ w
All-get_elem? v w i [] all e = absurd (cc e)
All-get_elem? v w zero (x ∷ xs) all e = let same : x ≡ w = cc e in omega (arith, all.0)
All-get_elem? v w (suc i) (x ∷ xs) all e = All-get_elem? v w i xs all.1 e

below-get_elem? : (v i : ℕ) (xs : List ℕ) → IsSorted xs → get_elem? i xs ≡ some v → below v xs ≤ i
unfolding count
below-get_elem? v i [] h e = absurd (cc e)
below-get_elem? v zero (x ∷ xs) h e = let same : x ≡ v = cc e in ground (arith, none_below x xs h.0)
below-get_elem? v (suc i) (x ∷ xs) h e = ground (arith, below-get_elem? v i xs h.1 e)

above-get_elem? :
    (v i : ℕ) (xs : List ℕ) → IsSorted xs → get_elem? i xs ≡ some v → above v xs + i < length xs
unfolding count
above-get_elem? v i [] h e = absurd (cc e)
above-get_elem? v zero (x ∷ xs) h e =
    let same : x ≡ v = cc e in ground (arith, count-le-length (λ y. ltb v y) xs)
above-get_elem? v (suc i) (x ∷ xs) h e =
    ground (arith, above-get_elem? v i xs h.1 e, All-get_elem? x v i xs h.0 e)

get_elem?-mono :
    (v w i j : ℕ) (xs : List ℕ)
    → IsSorted xs
    → i ≤ j
    → get_elem? i xs ≡ some v
    → get_elem? j xs ≡ some w
    → v ≤ w
get_elem?-mono v w i j [] h le e f = absurd (cc e)
get_elem?-mono v w zero zero (x ∷ xs) h le e f = let same : v ≡ w = cc (e, f) in omega arith
get_elem?-mono v w zero (suc j) (x ∷ xs) h le e f =
    let same : x ≡ v = cc e in omega (arith, All-get_elem? x w j xs h.0 f)
get_elem?-mono v w (suc i) zero (x ∷ xs) h le e f = absurd (omega arith)
get_elem?-mono v w (suc i) (suc j) (x ∷ xs) h le e f =
    get_elem?-mono v w i j xs h.1 (omega arith) e f

count-get_elem? :
    (p : ℕ → Bool) (v i : ℕ) (xs : List ℕ) → get_elem? i xs ≡ some v → p v ≡ true → 0 < count p xs
unfolding count
count-get_elem? p v i [] e h = absurd (cc e)
count-get_elem? p v zero (x ∷ xs) e h = let same : x ≡ v = cc e in ground arith
count-get_elem? p v (suc i) (x ∷ xs) e h = ground (arith, count-get_elem? p v i xs e h)

-- The value is a sample; at most `q` parts in `d` of the samples are less, and fewer than the
-- `d - q` other parts are greater.
pub record IsQuantile (q d v : ℕ) (samples : List ℕ) : Type 0 where
  pub taken : 0 < count (λ x. x == v) samples
  pub less : d * below v samples ≤ q * length samples
  pub greater : d * above v samples < (d - q) * length samples

-- What `report` promises on its samples.
pub record Summarises (samples : List ℕ) (s : Summary) : Type 0 where
  pub count : s.count ≡ length samples
  pub total : s.total ≡ sum samples
  pub median : IsQuantile 1 2 s.p50 samples
  pub tail : IsQuantile 99 100 s.p99 samples
  pub ordered : s.p50 ≤ s.p99

-- What the sorted list holds at an index.
record At (i v : ℕ) (samples : List ℕ) : Type 0 where
  taken : 0 < count (λ x. x == v) samples
  less : below v samples ≤ i
  greater : above v samples + i < length samples

get_elem?-At : (v i : ℕ) (samples : List ℕ) → get_elem? i (sorted samples) ≡ some v → At i v samples
get_elem?-At v i samples e = record {
  taken =
      rw (← count-sorted (λ x. x == v) samples)
        (count-get_elem? (λ x. x == v) v i (sorted samples) e ((==_iff v v).1 refl));
  less =
      rw (← count-sorted (λ x. ltb x v) samples)
        (below-get_elem? v i (sorted samples) (sorted-IsSorted samples) e);
  greater =
      rw (← count-sorted (λ x. ltb v x) samples, ← length-sorted samples)
        (above-get_elem? v i (sorted samples) (sorted-IsSorted samples) e);
}

At-median :
    (v : ℕ) (samples : List ℕ) → At (length samples / 2) v samples → IsQuantile 1 2 v samples
At-median v samples a = record {
  taken = a.taken;
  less = omega (arith, a.less);
  greater = omega (arith, a.greater);
}

At-tail :
    (v : ℕ) (samples : List ℕ)
    → At (length samples * 99 / 100) v samples
    → IsQuantile 99 100 v samples
At-tail v samples a = record {
  taken = a.taken;
  less = omega (arith, a.less);
  greater = omega (arith, a.greater);
}

-- With one sample at least, `report` raises nothing, its indices are in range, and its numbers are
-- those of the samples: their number and sum; a sample that at most half of the samples are less than
-- and fewer than half are greater than; and a sample, not less than the first, that fewer than one in
-- a hundred are greater than.
pub report-Summarises :
    (samples : List ℕ)
    → 0 < length samples
    → (s : Summary) × (report samples ≡ ok s) × Summarises samples s
unfolding report percentiles
report-Summarises samples some_ =
    let n = length samples in
    let (p50, e50) =
      get_elem?-some (n / 2) (sorted samples) (omega (arith, length-sorted samples)) in
    let (p99, e99) =
      get_elem?-some (n * 99 / 100) (sorted samples) (omega (arith, length-sorted samples)) in
    (
      record { total = sum samples; count = n; p50 = p50; p99 = p99 },
      rw (length-sorted samples, sum-sorted samples, e50, e99) (ground arith),
      record {
        count = refl;
        total = refl;
        median = At-median p50 samples (get_elem?-At p50 (n / 2) samples e50);
        tail = At-tail p99 samples (get_elem?-At p99 (n * 99 / 100) samples e99);
        ordered =
            get_elem?-mono p50 p99 (n / 2) (n * 99 / 100) (sorted samples) (sorted-IsSorted samples)
              (omega arith) e50 e99;
      },
    )
