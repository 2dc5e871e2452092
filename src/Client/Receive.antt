-- ===== src/Client/Receive.antt =====
-- firewall_client.py: `_recv_exact` returns the bytes that were asked for, however they arrive.
use Prim.Native.Nat.{min}
use mininet_zone_segmentatio.Base.{
  ℕ, zero, suc, ◌-◌, ◌≤◌, ◌<◌, ◌≡◌, refl, ◌∙◌, ap, sym, List, [], ◌∷◌, ◌++◌, nat_eq, length, take,
  drop, length-append, arith,
}
use mathlib.Core.List.{append_assoc, append-nil}
use native.Mathlib.Nat.{sub-zero, suc-sub-suc}
use mininet_zone_segmentatio.Client.{
  bytes, broken, Stream, rest_of, recv, Received, got, failed, os_error, recv_loop, recv_exact,
}

-- The bytes that arrive before an error, or before the other end closes.
abbrev pub flat : Stream → List ℕ
flat [] = []
flat (broken ∷ s) = []
flat (bytes bs ∷ s) = bs ++ flat s

-- An arrival has a byte at least.
abbrev pub NonEmpty : Stream → Type 0
NonEmpty [] = Unit
NonEmpty (broken ∷ s) = NonEmpty s
NonEmpty (bytes bs ∷ s) = (0 < length bs) × NonEmpty s

-- A read and the reads after it take what one long read takes.
take-split :
    (n : ℕ) (bs more : List ℕ)
    → take n (bs ++ more) ≡ take n bs ++ take (n - length (take n bs)) (drop n bs ++ more)
take-split zero bs more = refl
take-split (suc n) [] more = rw sub-zero refl
take-split (suc n) (b ∷ bs) more = rw suc-sub-suc (ap (λ l. b ∷ l) (take-split n bs more))

drop-split :
    (n : ℕ) (bs more : List ℕ)
    → drop n (bs ++ more) ≡ drop (n - length (take n bs)) (drop n bs ++ more)
drop-split zero bs more = refl
drop-split (suc n) [] more = rw sub-zero refl
drop-split (suc n) (b ∷ bs) more = rw suc-sub-suc (drop-split n bs more)

drop_all : (n : ℕ) (bs : List ℕ) → length bs ≤ n → drop n bs ≡ []
drop_all zero [] h = refl
drop_all zero (b ∷ bs) h = absurd (omega arith)
drop_all (suc n) [] h = refl
drop_all (suc n) (b ∷ bs) h = drop_all n bs (omega arith)

pub length-drop : (n : ℕ) (bs : List ℕ) → length (drop n bs) ≡ length bs - n
length-drop zero bs = omega arith
length-drop (suc n) [] = omega arith
length-drop (suc n) (b ∷ bs) = omega (arith, length-drop n bs)

length-take : (n : ℕ) (bs : List ℕ) → length (take n bs) ≡ min n (length bs)
length-take zero bs = omega arith
length-take (suc n) [] = omega arith
length-take (suc n) (b ∷ bs) = omega (arith, length-take n bs)

flat-rest_of : (n : ℕ) (bs : List ℕ) (s : Stream) → flat (rest_of n bs s) ≡ drop n bs ++ flat s
flat-rest_of n bs s = ground (arith, drop_all n bs)

NonEmpty-rest_of : (n : ℕ) (bs : List ℕ) (s : Stream) → NonEmpty s → NonEmpty (rest_of n bs s)
NonEmpty-rest_of n bs s h = ground (arith, length-drop n bs)

-- The first `n` bytes and the rest.
pub record Reads (n : ℕ) (chunks : List ℕ) (s : Stream) (r : Received) : Type 0 where
  pub rest : Stream
  pub result : r ≡ got (chunks ++ take n (flat s)) rest
  pub left : flat rest ≡ drop n (flat s)
  pub fine : NonEmpty rest

enough-left :
    (n : ℕ) (bs : List ℕ) (s : Stream)
    → n ≤ length (flat (bytes bs ∷ s))
    → n - length (take n bs) ≤ length (flat (rest_of n bs s))
enough-left n bs s h = rw flat-rest_of (
    omega (
      arith,
      length-append (drop n bs) (flat s),
      length-append bs (flat s),
      length-drop n bs,
      length-take n bs,
    ))

recv_loop-Reads :
    (fuel n : ℕ) (chunks : List ℕ) (s : Stream)
    → n < fuel
    → n ≤ length (flat s)
    → NonEmpty s
    → Reads n chunks s (recv_loop fuel n chunks s)
unfolding recv_loop recv
recv_loop-Reads zero n chunks s f h ne = elim f [ ]
recv_loop-Reads (suc fuel) zero chunks s f h ne = record {
  rest = s;
  result = ap (λ l. got l s) (sym (append-nil chunks));
  left = refl;
  fine = ne;
}
recv_loop-Reads (suc fuel) (suc n) chunks [] f h ne = absurd (omega arith)
recv_loop-Reads (suc fuel) (suc n) chunks (broken ∷ s) f h ne = absurd (omega arith)
recv_loop-Reads (suc fuel) (suc n) chunks (bytes [] ∷ s) f h ne = absurd (omega arith)
recv_loop-Reads (suc fuel) (suc n) chunks (bytes (b ∷ bs) ∷ s) f h ne =
    let chunk : List ℕ = b ∷ take n bs in
    let s' : Stream = rest_of (suc n) (b ∷ bs) s in
    let more =
      recv_loop-Reads fuel (suc n - length chunk) (chunks ++ chunk) s' (omega arith)
        (enough-left (suc n) (b ∷ bs) s h) (NonEmpty-rest_of (suc n) (b ∷ bs) s ne.1) in
    record {
      rest = more.rest;
      result =
          more.result
          ∙ ap (λ l. got l more.rest)
              (append_assoc chunks chunk _
                ∙ ap (λ l. chunks ++ l)
                    (ap (λ l. chunk ++ take (suc n - length chunk) l)
                        (flat-rest_of (suc n) (b ∷ bs) s)
                      ∙ sym (take-split (suc n) (b ∷ bs) (flat s))));
      left =
          more.left
          ∙ ap (drop (suc n - length chunk)) (flat-rest_of (suc n) (b ∷ bs) s)
          ∙ sym (drop-split (suc n) (b ∷ bs) (flat s));
      fine = more.fine;
    }

-- If at least `n` bytes arrive before the connection ends, and every arrival has a byte, then
-- `_recv_exact(n)` returns the first `n` of them, wherever the boundaries of the arrivals fall, and
-- leaves the others to be read.
pub recv_exact-Reads :
    (n : ℕ) (s : Stream) → n ≤ length (flat s) → NonEmpty s → Reads n [] s (recv_exact n s)
unfolding recv_exact
recv_exact-Reads n s h ne = recv_loop-Reads (suc n) n [] s (omega arith) h ne

-- Less than what was asked for.
few-left :
    (n : ℕ) (bs : List ℕ) (s : Stream)
    → length (flat (bytes bs ∷ s)) < n
    → length (flat (rest_of n bs s)) < n - length (take n bs)
few-left n bs s h = rw flat-rest_of (
    omega (
      arith,
      length-append (drop n bs) (flat s),
      length-append bs (flat s),
      length-drop n bs,
      length-take n bs,
    ))

recv_loop-short :
    (fuel n : ℕ) (chunks : List ℕ) (s : Stream)
    → n < fuel
    → length (flat s) < n
    → recv_loop fuel n chunks s ≡ failed os_error
unfolding recv_loop recv
recv_loop-short zero n chunks s f h = elim f [ ]
recv_loop-short (suc fuel) zero chunks s f h = elim h [ ]
recv_loop-short (suc fuel) (suc n) chunks [] f h = refl
recv_loop-short (suc fuel) (suc n) chunks (broken ∷ s) f h = refl
recv_loop-short (suc fuel) (suc n) chunks (bytes [] ∷ s) f h = refl
recv_loop-short (suc fuel) (suc n) chunks (bytes (b ∷ bs) ∷ s) f h =
    let chunk : List ℕ = b ∷ take n bs in
    recv_loop-short fuel (suc n - length chunk) (chunks ++ chunk) (rest_of (suc n) (b ∷ bs) s)
      (omega arith) (few-left (suc n) (b ∷ bs) s h)

-- If fewer than `n` bytes arrive before an error or the end, `_recv_exact(n)` raises.
pub recv_exact-short : (n : ℕ) (s : Stream) → length (flat s) < n → recv_exact n s ≡ failed os_error
unfolding recv_exact
recv_exact-short n s h = recv_loop-short (suc n) n [] s (omega arith) h
