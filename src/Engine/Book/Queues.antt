-- ===== src/Engine/Book/Queues.antt =====
-- The queues of the price levels of crates/engine/src/order_book.rs: which keys they hold, and how much
-- the orders under them still want.
use high_perf_trading.Base.{
  ℕ, ◌+◌, ◌≤◌, ℤ, pos, pos_part, false, Option, none, some, List, [], ◌∷◌, ◌++◌, ltb_ℤ, ◌≡◌, refl,
  ap, sym, ◌∙◌, subst, ◌⊎◌, inl, inr, arith, ◌==◌, ==_iff, Bool-cases, Option-cases,
}
use high_perf_trading.Engine.Slab.{SlabApi, Order}
use high_perf_trading.Engine.Matching.{pop_live_front}

abbrev pub In : ℕ → List ℕ → Type 0
In j [] = ⊥
In j (k ∷ queue) = (k ≡ j) ⊎ In j queue

-- No key stands twice.
abbrev pub Single : List ℕ → Type 0
Single [] = Unit
Single (k ∷ queue) = (¬ In k queue) × Single queue

pub In-cases : (j : ℕ) (queue : List ℕ) → In j queue ⊎ (¬ In j queue)
In-cases j [] = inr λ h. h
In-cases j (k ∷ queue) = elim (Bool-cases (k == j)) [
  | inl same ↦ inl (inl ((==_iff k j).0 same))
  | inr other ↦ elim (In-cases j queue) [
    | inl h ↦ inl (inr h)
    | inr h ↦ inr elim [ inl e ↦ ground arith | inr i ↦ h i ]
  ]
]

-- A key pushed at the back.
pub In-push : (j n : ℕ) (queue : List ℕ) → In j (queue ++ n ∷ []) → In j queue ⊎ (n ≡ j)
In-push j n [] (inl e) = inr e
In-push j n [] (inr h) = absurd h
In-push j n (k ∷ queue) (inl e) = inl (inl e)
In-push j n (k ∷ queue) (inr h) = elim (In-push j n queue h) [ inl i ↦ inl (inr i) | inr e ↦ inr e ]

pub push-In : (j n : ℕ) (queue : List ℕ) → In j queue → In j (queue ++ n ∷ [])
push-In j n [] h = absurd h
push-In j n (k ∷ queue) (inl e) = inl e
push-In j n (k ∷ queue) (inr h) = inr (push-In j n queue h)

pub pushed-In : (n : ℕ) (queue : List ℕ) → In n (queue ++ n ∷ [])
pushed-In n [] = inl refl
pushed-In n (k ∷ queue) = inr (pushed-In n queue)

pub push-Single : (n : ℕ) (queue : List ℕ) → Single queue → ¬ In n queue → Single (queue ++ n ∷ [])
push-Single n [] s h = (λ i. i, tt)
push-Single n (k ∷ queue) (s, t) h = (
  λ i. elim (In-push k n queue i) [ inl j ↦ s j | inr e ↦ h (inl (sym e)) ],
  push-Single n queue t (λ i. h (inr i)),
)

-- What the orders of a store want: an order that is gone or used up wants nothing.
abbrev pub Store : Type 0
Store = ℕ → Option Order

abbrev pub live_qty : Option Order → ℕ
live_qty none = 0
live_qty (some o) = pos_part o.qty_rem

abbrev pub depth : Store → List ℕ → ℕ
depth g [] = 0
depth g (k ∷ queue) = live_qty (g k) + depth g queue

pub depth_congr :
    (g h : Store) (queue : List ℕ)
    → ((j : ℕ) → In j queue → h j ≡ g j)
    → depth h queue ≡ depth g queue
depth_congr g h [] e = refl
depth_congr g h (k ∷ queue) e =
    let here = ap live_qty (e k (inl refl)) in
    omega (arith, here, depth_congr g h queue (λ j i. e j (inr i)))

pub depth-push :
    (g : Store) (n : ℕ) (queue : List ℕ)
    → depth g (queue ++ n ∷ []) ≡ depth g queue + live_qty (g n)
depth-push g n [] = omega arith
depth-push g n (k ∷ queue) = omega (arith, depth-push g n queue)

pub live_qty-depth :
    (g : Store) (j : ℕ) (queue : List ℕ) → In j queue → live_qty (g j) ≤ depth g queue
live_qty-depth g j [] h = absurd h
live_qty-depth g j (k ∷ queue) (inl e) = let same = ap (λ i. live_qty (g i)) e in omega arith
live_qty-depth g j (k ∷ queue) (inr h) = omega (arith, live_qty-depth g j queue h)

-- A key whose order changes takes its part of the depth along.
pub depth_change :
    (g h : Store) (j : ℕ) (queue : List ℕ)
    → Single queue
    → In j queue
    → ((i : ℕ) → ¬ (j ≡ i) → h i ≡ g i)
    → depth h queue + live_qty (g j) ≡ depth g queue + live_qty (h j)
depth_change g h j [] s i e = absurd i
depth_change g h j (k ∷ queue) (new, s) (inl same) e =
    let here = ap (λ i. live_qty (g i)) same in
    let there = ap (λ i. live_qty (h i)) same in
    let rest =
      depth_congr g h queue
        λ i found. e i (λ x. new (subst (λ y. In y queue) (sym (same ∙ x)) found)) in
    omega arith
depth_change g h j (k ∷ queue) (new, s) (inr i) e =
    let here = ap live_qty (e k (λ x. new (subst (λ y. In y queue) x i))) in
    let rest = depth_change g h j queue s i e in omega arith

-- What is left of a queue from a key on, when all before it wants nothing.
pub record Front (g : Store) (queue : List ℕ) (rest : List ℕ) : Type 0 where
  pub within : (j : ℕ) → In j rest → In j queue
  pub left_out : (j : ℕ) → In j queue → In j rest ⊎ (live_qty (g j) ≡ 0)
  pub single : Single queue → Single rest
  pub same_depth : depth g queue ≡ depth g rest

pub Front-refl : (g : Store) (queue : List ℕ) → Front g queue queue
Front-refl g queue = record {
  within = λ j i. i;
  left_out = λ j i. inl i;
  single = λ s. s;
  same_depth = refl;
}

pub Front-skip :
    (g : Store) (k : ℕ) (queue rest : List ℕ)
    → live_qty (g k) ≡ 0
    → Front g queue rest
    → Front g (k ∷ queue) rest
Front-skip g k queue rest z f = record {
  within = λ j i. inr (f.within j i);
  left_out =
      λ j. elim [ inl e ↦ inr (subst (λ x. live_qty (g x) ≡ 0) e z) | inr i ↦ f.left_out j i ];
  single = λ s. f.single s.1;
  same_depth = omega (arith, f.same_depth);
}

module _ ⦃slab : SlabApi⦄ where
  abbrev pub found_queue : Option ℕ × List ℕ → List ℕ
  found_queue (none, rest) = []
  found_queue (some k, rest) = k ∷ rest

  -- `pop_live_front` skips only orders that want nothing.
  pub pop_live_front-Front :
      (orders : slab.Slab) (queue : List ℕ)
      → Front (slab.get orders) queue (found_queue (pop_live_front orders queue))
  unfolding pop_live_front
  pop_live_front-Front orders [] = Front-refl (slab.get orders) []
  pop_live_front-Front orders (k ∷ queue) = elim (Option-cases (slab.get orders k)) [
    | inl e ↦
        rw (e, pop_live_front)
          (Front-skip (slab.get orders) k queue _ (ap live_qty e)
            (pop_live_front-Front orders queue))
    | inr (o, e) ↦ elim (Bool-cases (ltb_ℤ (pos 0) o.qty_rem)) [
      | inl live ↦ rw (e, pop_live_front) (rw live (Front-refl (slab.get orders) (k ∷ queue)))
      | inr dead ↦
          rw (e, pop_live_front)
            (rw dead (
              Front-skip (slab.get orders) k queue _ (ap live_qty e ∙ nothing o.qty_rem dead)
                (pop_live_front-Front orders queue)))
    ]
  ]
    where
      nothing : (q : ℤ) → ltb_ℤ (pos 0) q ≡ false → pos_part q ≡ 0
      nothing q h = ground arith

  -- A queue without a live order has no depth.
  pub dead_depth :
      (orders : slab.Slab) (queue : List ℕ)
      → (pop_live_front orders queue).0 ≡ none
      → depth (slab.get orders) queue ≡ 0
  dead_depth orders queue = go (pop_live_front orders queue) (pop_live_front-Front orders queue)
    where
      go :
          (r : Option ℕ × List ℕ)
          → Front (slab.get orders) queue (found_queue r)
          → r.0 ≡ none
          → depth (slab.get orders) queue ≡ 0
      go (none, rest) f e = f.same_depth
      go (some k, rest) f e = cc e
