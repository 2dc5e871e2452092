-- ===== src/Client/Unbroken.antt =====
-- firewall_client.py: `_recv_exact` on a connection that no error ends.
use mininet_zone_segmentatio.Base.{
  ℕ, zero, suc, ◌<◌, ◌≡◌, refl, ap, ◌∙◌, List, [], ◌∷◌, nat_eq, length, take, drop, arith,
}
use mininet_zone_segmentatio.Client.{
  bytes, broken, Stream, rest_of, recv, recv_loop, recv_exact, got,
}
use mininet_zone_segmentatio.Client.Receive.{flat, NonEmpty, recv_exact-Reads, length-drop}

-- Arrivals of a byte at least each, and no error of the connection.
abbrev pub Unbroken : Stream → Type 0
Unbroken [] = Unit
Unbroken (broken ∷ s) = ⊥
Unbroken (bytes bs ∷ s) = (0 < length bs) × Unbroken s

pub Unbroken-NonEmpty : (s : Stream) → Unbroken s → NonEmpty s
Unbroken-NonEmpty [] u = tt
Unbroken-NonEmpty (broken ∷ s) u = elim u [ ]
Unbroken-NonEmpty (bytes bs ∷ s) u = (u.0, Unbroken-NonEmpty s u.1)

Unbroken-drained : (s : Stream) → Unbroken s → flat s ≡ [] → s ≡ []
Unbroken-drained [] u e = refl
Unbroken-drained (broken ∷ s) u e = elim u [ ]
Unbroken-drained (bytes [] ∷ s) u e = absurd (omega (arith, u.0))
Unbroken-drained (bytes (b ∷ bs) ∷ s) u e = absurd (cc e)

Unbroken-rest_of : (n : ℕ) (bs : List ℕ) (s : Stream) → Unbroken s → Unbroken (rest_of n bs s)
Unbroken-rest_of n bs s u = ground (arith, length-drop n bs)

recv_loop-Unbroken :
    (fuel n : ℕ) (chunks result : List ℕ) (s rest : Stream)
    → Unbroken s
    → recv_loop fuel n chunks s ≡ got result rest
    → Unbroken rest
unfolding recv_loop recv
recv_loop-Unbroken zero n chunks result s rest u e = absurd (cc e)
recv_loop-Unbroken (suc fuel) zero chunks result s rest u e =
    let same : s ≡ rest = cc e in rw (← same) u
recv_loop-Unbroken (suc fuel) (suc n) chunks result [] rest u e = absurd (cc e)
recv_loop-Unbroken (suc fuel) (suc n) chunks result (broken ∷ s) rest u e = absurd (cc e)
recv_loop-Unbroken (suc fuel) (suc n) chunks result (bytes [] ∷ s) rest u e = absurd (cc e)
recv_loop-Unbroken (suc fuel) (suc n) chunks result (bytes (b ∷ bs) ∷ s) rest u e =
    recv_loop-Unbroken fuel _ _ result (rest_of (suc n) (b ∷ bs) s) rest
      (Unbroken-rest_of (suc n) (b ∷ bs) s u.1) e

recv_exact-Unbroken :
    (n : ℕ) (result : List ℕ) (s rest : Stream)
    → Unbroken s
    → recv_exact n s ≡ got result rest
    → Unbroken rest
unfolding recv_exact
recv_exact-Unbroken n result s rest u e = recv_loop-Unbroken (suc n) n [] result s rest u e

-- Two bytes are read, and nothing is left.
pub recv_exact-drains :
    (s : Stream) (v r : ℕ) → flat s ≡ v ∷ r ∷ [] → Unbroken s → recv_exact 2 s ≡ got (v ∷ r ∷ []) []
recv_exact-drains s v r e u =
    let reads = recv_exact-Reads 2 s (rw e (omega arith)) (Unbroken-NonEmpty s u) in
    let left : flat reads.rest ≡ [] = reads.left ∙ ap (drop 2) e in
    let rest = recv_exact-Unbroken 2 _ s reads.rest u reads.result in
    reads.result
    ∙ ap (λ (l : List ℕ). got (take 2 l) reads.rest) e
    ∙ ap (got (v ∷ r ∷ [])) (Unbroken-drained reads.rest rest left)
