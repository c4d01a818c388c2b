-- ===== src/Tcp/Queue/Map.antt =====
-- The forward queue as a finite map from sequence numbers to segments, in ascending order.
use native.Mathlib.Nat.{lt_trans}
use violet.Base.{
  ℕ, ◌+◌, ◌≤◌, ◌<◌, ◌≡◌, refl, ◌⊎◌, inl, inr, Bool, false, ◌&&◌, not, Bool-cases, Option, none,
  some, List, [], ◌∷◌, arith, ltb, ◌==◌, if◌then◌else◌, All, All-mono,
}
use violet.Util.Serial.{Cmp, less, same, greater, compare_u32}
use violet.Util.Serial.Laws.{flip, compare_u32-signed}
use violet.Tcp.Types.{Segment, TcpSession}
use violet.Tcp.Queue.{segment, merge, is_less, insert, queue_tcp}

-- Sequence numbers in a window of 2 ^ 31 - 1 from `base` on, none of them past 0x7FFFFFFF if `base`
-- is not: where compare_u32 is an order.
pub record Near (base seq : ℕ) : Type 0 where
  pub word : seq < 4294967296
  pub from_base : flip base ≤ flip seq
  pub within : flip seq < flip base + 2147483647

-- What compare_u32 says in the window.
abbrev near_order : ℕ → ℕ → Cmp
near_order a b = if a == b then same else (if ltb (flip a) (flip b) then less else greater)

compare_u32-Near : (base a b : ℕ) → Near base a → Near base b → compare_u32 a b ≡ near_order a b
compare_u32-Near base a b na nb = ground (arith, compare_u32-signed a b na.word nb.word)

Near-cases :
    (base a b : ℕ)
    → Near base a
    → Near base b
    → ((compare_u32 a b ≡ less) × (flip a < flip b))
      ⊎ (((compare_u32 a b ≡ same) × (a ≡ b)) ⊎ ((compare_u32 a b ≡ greater) × (flip b < flip a)))
Near-cases base a b na nb = ground (arith, compare_u32-Near base a b na nb)

abbrev pub Below : ℕ → List Segment → Type 0
Below seq rest = All (λ t. flip seq < flip t.seq) rest

abbrev pub IsAscending : ℕ → List Segment → Type 0
IsAscending base [] = Unit {0}
IsAscending base (s ∷ rest) = Near base s.seq × Below s.seq rest × IsAscending base rest

unfoldable pub find : ℕ → List Segment → Option Segment
find k [] = none
find k (s ∷ rest) = if s.seq == k then some s else find k rest

-- What the map holds at `seq` after a segment has come in: the new one, or the longer one.
abbrev pub merged : ℕ → ℕ → Bool → List ℕ → Option Segment → Segment
merged seq datalen psh bytes none = segment seq datalen psh bytes
merged seq datalen psh bytes (some s) =
    if ltb s.len datalen then record s { len = datalen; bytes = bytes } else s

module _ (base seq datalen : ℕ) (psh : Bool) (bytes : List ℕ) (ns : Near base seq) where
  merge-seq : (s : Segment) → (merge s datalen bytes).seq ≡ s.seq
  merge-seq s = ground arith

  Below-insert :
      (k : ℕ) (xs : List Segment)
      → flip k < flip seq
      → Below k xs
      → Below k (insert seq datalen psh bytes xs)
  unfolding insert
  Below-insert k [] lt b = (lt, tt)
  Below-insert k (s ∷ rest) lt b = ground (arith, Below-insert k rest lt b.1)

  insert-IsAscending :
      (xs : List Segment) → IsAscending base xs → IsAscending base (insert seq datalen psh bytes xs)
  unfolding insert
  insert-IsAscending [] h = (ns, tt, tt)
  insert-IsAscending (s ∷ rest) (n, b, h) = elim (Near-cases base s.seq seq n ns) [
    | inl (e, lt) ↦ rw e (n, Below-insert s.seq rest lt b, insert-IsAscending rest h)
    | inr (inl (e, eq)) ↦ rw e (rw (merge-seq s) (n, b, h))
    | inr (inr (e, gt)) ↦ rw e (ns, (gt, All-mono rest (λ t l. lt_trans gt l) b), (n, b, h))
  ]

  find-above : (k : ℕ) (xs : List Segment) → Below k xs → find k xs ≡ none
  unfolding find
  find-above k [] b = refl
  find-above k (s ∷ rest) b = ground (arith, find-above k rest b.1)

  find-insert :
      (k : ℕ) (xs : List Segment)
      → IsAscending base xs
      → find k (insert seq datalen psh bytes xs)
        ≡ (if seq == k then some (merged seq datalen psh bytes (find seq xs)) else find k xs)
  unfolding insert find
  find-insert k [] h = refl
  find-insert k (s ∷ rest) (n, b, h) = elim (Near-cases base s.seq seq n ns) [
    | inl (e, lt) ↦ rw e (ground (arith, find-insert k rest h))
    | inr (inl (e, eq)) ↦ rw e (ground (arith))
    | inr (inr (e, gt)) ↦
        rw e (ground (arith, find-above seq rest (All-mono rest (λ t l. lt_trans gt l) b)))
  ]

-- queue_tcp is an update of a finite map. Take a queue in ascending order, and a new segment, with
-- every number in one window of 2 ^ 31 - 1 that compare_u32 orders. Nothing of the session but the
-- queue changes, and if the new number is behind what has been forwarded, nothing at all. The queue is
-- still in ascending order. If the new number is not behind, the queue holds there the new segment, or
-- the longer of the two if there was one, and what it holds at any other number is unchanged.
pub queue_tcp-find :
    (base seq datalen : ℕ) (psh : Bool) (bytes : List ℕ) (cur : TcpSession) (k : ℕ)
    → Near base seq
    → IsAscending base cur.forward
    → let cur' = queue_tcp seq datalen psh bytes cur in
      let fresh = not (is_less (compare_u32 seq cur.remote_seq)) in
      (fresh ≡ false → cur' ≡ cur)
      × (cur' ≡ record cur { forward = cur'.forward })
      × IsAscending base cur'.forward
      × (find k cur'.forward ≡ (
          if fresh && seq == k
          then some (merged seq datalen psh bytes (find seq cur.forward))
          else find k cur.forward))
unfolding queue_tcp
queue_tcp-find base seq datalen psh bytes cur k ns h =
    elim (Bool-cases (is_less (compare_u32 seq cur.remote_seq))) [
      | inl e ↦ rw e ((λ _. refl), refl, h, refl)
      | inr e ↦ rw e (
        (λ f. cc),
        refl,
        insert-IsAscending base seq datalen psh bytes ns cur.forward h,
        find-insert base seq datalen psh bytes ns k cur.forward h,
      )
    ]
