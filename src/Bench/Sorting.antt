-- ===== src/Bench/Sorting.antt =====
-- bench_firewall.py: `report` sorts, and what is at an index of the sorted samples.
use mininet_zone_segmentatio.Base.{
  ℕ, zero, suc, ◌+◌, ◌≤◌, ◌<◌, ◌≡◌, refl, Bool, some, List, [], ◌∷◌, leb, nat_eq, length, All,
  arith, Bool-cases, inl, inr, if◌then◌else◌,
}
use mininet_zone_segmentatio.Bench.{insert_sorted, sorted, sum, get_elem?}

-- How many values pass a test.
unfoldable pub count : (ℕ → Bool) → List ℕ → ℕ
count p [] = 0
count p (x ∷ xs) = (if p x then 1 else 0) + count p xs

abbrev pub IsSorted : List ℕ → Type 0
IsSorted [] = Unit
IsSorted (x ∷ xs) = All (λ y. x ≤ y) xs × IsSorted xs

All-weaken : (x y : ℕ) (ys : List ℕ) → x ≤ y → All (λ z. y ≤ z) ys → All (λ z. x ≤ z) ys
All-weaken x y [] h all = tt
All-weaken x y (z ∷ ys) h all = (omega (arith, all.0), All-weaken x y ys h all.1)

All-insert_sorted :
    (x y : ℕ) (ys : List ℕ) → x ≤ y → All (λ z. x ≤ z) ys → All (λ z. x ≤ z) (insert_sorted y ys)
unfolding insert_sorted
All-insert_sorted x y [] h all = (h, tt)
All-insert_sorted x y (z ∷ ys) h all = elim (Bool-cases (leb y z)) [
  | inl e ↦ rw e (h, all)
  | inr e ↦ rw e (all.0, All-insert_sorted x y ys h all.1)
]

insert_sorted-IsSorted : (x : ℕ) (xs : List ℕ) → IsSorted xs → IsSorted (insert_sorted x xs)
unfolding insert_sorted
insert_sorted-IsSorted x [] h = (tt, tt)
insert_sorted-IsSorted x (y ∷ ys) h = elim (Bool-cases (leb x y)) [
  | inl e ↦ rw e ((ground arith, All-weaken x y ys (ground arith) h.0), h)
  | inr e ↦ rw e (All-insert_sorted y x ys (ground arith) h.0, insert_sorted-IsSorted x ys h.1)
]

pub sorted-IsSorted : (xs : List ℕ) → IsSorted (sorted xs)
unfolding sorted
sorted-IsSorted [] = tt
sorted-IsSorted (x ∷ xs) = insert_sorted-IsSorted x (sorted xs) (sorted-IsSorted xs)

count-insert_sorted :
    (p : ℕ → Bool) (x : ℕ) (xs : List ℕ) → count p (insert_sorted x xs) ≡ count p (x ∷ xs)
unfolding insert_sorted count
count-insert_sorted p x [] = refl
count-insert_sorted p x (y ∷ ys) = ground (arith, count-insert_sorted p x ys)

pub count-sorted : (p : ℕ → Bool) (xs : List ℕ) → count p (sorted xs) ≡ count p xs
unfolding sorted count
count-sorted p [] = refl
count-sorted p (x ∷ xs) = omega (arith, count-insert_sorted p x (sorted xs), count-sorted p xs)

length-insert_sorted : (x : ℕ) (xs : List ℕ) → length (insert_sorted x xs) ≡ suc (length xs)
unfolding insert_sorted
length-insert_sorted x [] = refl
length-insert_sorted x (y ∷ ys) = ground (arith, length-insert_sorted x ys)

pub length-sorted : (xs : List ℕ) → length (sorted xs) ≡ length xs
unfolding sorted
length-sorted [] = refl
length-sorted (x ∷ xs) = omega (arith, length-insert_sorted x (sorted xs), length-sorted xs)

sum-insert_sorted : (x : ℕ) (xs : List ℕ) → sum (insert_sorted x xs) ≡ x + sum xs
unfolding insert_sorted sum
sum-insert_sorted x [] = refl
sum-insert_sorted x (y ∷ ys) = ground (arith, sum-insert_sorted x ys)

pub sum-sorted : (xs : List ℕ) → sum (sorted xs) ≡ sum xs
unfolding sorted sum
sum-sorted [] = refl
sum-sorted (x ∷ xs) = omega (arith, sum-insert_sorted x (sorted xs), sum-sorted xs)

pub get_elem?-some : (i : ℕ) (xs : List ℕ) → i < length xs → (x : ℕ) × (get_elem? i xs ≡ some x)
get_elem?-some i [] h = absurd (omega arith)
get_elem?-some zero (x ∷ xs) h = (x, refl)
get_elem?-some (suc i) (x ∷ xs) h = get_elem?-some i xs (omega arith)
