-- ===== src/Daemon/Plumbing.antt =====
-- cpp/firewall_daemon.cpp: `ReadFull` and `WriteFull` move all their bytes.
use mininet_zone_segmentatio.Base.{
  ℕ, zero, suc, ◌+◌, ◌-◌, ◌≤◌, ◌<◌, ◌≡◌, refl, ◌∙◌, ap, Bool, true, Option, none, some, List, [],
  ◌∷◌, ◌++◌, nat_eq, length, take, drop, All, arith,
}
use mininet_zone_segmentatio.Client.{
  bytes, broken, Stream, recv, Received, got, failed, recv_loop, recv_exact,
}
use mininet_zone_segmentatio.Daemon.Loop.{read_loop, read_full, Writes, write_full}

-- `ReadFull` and `_recv_exact` of the client are the same loop.
abbrev pub bytes_got : Received → Option (List ℕ × Stream)
bytes_got (got bs s) = some (bs, s)
bytes_got (failed e) = none

read_loop-recv_loop :
    (fuel n : ℕ) (buf : List ℕ) (s : Stream)
    → read_loop fuel n buf s ≡ bytes_got (recv_loop fuel n buf s)
unfolding read_loop recv_loop recv
read_loop-recv_loop zero n buf s = refl
read_loop-recv_loop (suc fuel) zero buf s = refl
read_loop-recv_loop (suc fuel) (suc n) buf [] = refl
read_loop-recv_loop (suc fuel) (suc n) buf (broken ∷ s) = refl
read_loop-recv_loop (suc fuel) (suc n) buf (bytes [] ∷ s) = refl
read_loop-recv_loop (suc fuel) (suc n) buf (bytes (b ∷ bs) ∷ s) =
    read_loop-recv_loop fuel (suc n - length (b ∷ take n bs)) (buf ++ (b ∷ take n bs)) _

pub read_full-recv_exact : (n : ℕ) (s : Stream) → read_full n s ≡ bytes_got (recv_exact n s)
unfolding read_full recv_exact
read_full-recv_exact n s = read_loop-recv_loop (suc n) n [] s

abbrev pub Positive : Writes → Type 0
Positive ws = All (λ k. 0 < k) ws

-- Everything is written.
pub record Wrote (bs : List ℕ) (ws : Writes) (r : Bool × List ℕ × Writes) : Type 0 where
  pub left : Writes
  pub result : r ≡ (true, bs, left)
  pub fine : Positive left
  pub cost : length ws ≤ length left + length bs

take-drop : (n : ℕ) (bs : List ℕ) → take n bs ++ drop n bs ≡ bs
take-drop zero bs = refl
take-drop (suc n) [] = refl
take-drop (suc n) (b ∷ bs) = ap (λ l. b ∷ l) (take-drop n bs)

length-drop-le : (n : ℕ) (bs : List ℕ) → length (drop n bs) ≤ length bs
length-drop-le zero bs = omega arith
length-drop-le (suc n) [] = omega arith
length-drop-le (suc n) (b ∷ bs) = omega (arith, length-drop-le n bs)

pub write_full-Wrote :
    (bs : List ℕ) (ws : Writes)
    → Positive ws
    → length bs ≤ length ws
    → Wrote bs ws (write_full bs ws)
unfolding write_full
write_full-Wrote [] ws p h = record { left = ws; result = refl; fine = p; cost = omega arith }
write_full-Wrote (b ∷ bs) [] p h = absurd (omega arith)
write_full-Wrote (b ∷ bs) (zero ∷ ws) p h = absurd (omega (arith, p.0))
write_full-Wrote (b ∷ bs) (suc k ∷ ws) p h =
    let shorter = length-drop-le k bs in
    let rest = write_full-Wrote (drop k bs) ws p.1 (omega arith) in
    record {
      left = rest.left;
      result =
          ap (λ (r : Bool × List ℕ × Writes). (r.0, b ∷ take k bs ++ r.1, r.2)) rest.result
          ∙ ap (λ (l : List ℕ). (true, b ∷ l, rest.left)) (take-drop k bs);
      fine = rest.fine;
      cost = omega (arith, rest.cost);
    }
