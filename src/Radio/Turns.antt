-- ===== src/Radio/Turns.antt =====
-- The listeners are dealt to the sender threads in turn.
use caligo_engine.Base.{
  ℕ, zero, suc, ◌+◌, ◌-◌, ◌/◌, ◌%◌, ◌≤◌, ◌<◌, ◌≡◌, refl, ap, ◌∙◌, subst, List, [], ◌∷◌, length, set,
  get_or, replicate, arith, length-set, get_or-set_self, get_or-set_ne,
}
use native.Mathlib.Decide.{ℕ_discrete}
use caligo_engine.Radio.{RadioClient, Listeners, sender_threads, no_listeners, add_listener}

-- After `n` listeners: twelve lists, of which the i-th has every twelfth listener from the i-th on.
pub record IsDealt (n : ℕ) (l : Listeners) : Type 0 where
  pub threads : length l.lists ≡ sender_threads
  pub turn : l.current ≡ n % sender_threads
  pub share :
      (i : ℕ) → i < sender_threads → length (get_or l.lists i []) ≡ (n + 11 - i) / sender_threads

add_listener-IsDealt :
    (n fd index : ℕ) (l : Listeners) → IsDealt n l → IsDealt (suc n) (add_listener fd index l)
unfolding add_listener
add_listener-IsDealt n fd index l v = record {
  threads = length-set l.lists l.current _ ∙ v.threads;
  turn = omega (arith, v.turn);
  share = λ i h. elim (ℕ_discrete l.current i) [
    | yes same ↦ taken i h same
    | no other ↦
        ap length (get_or-set_ne l.lists l.current i _ [] other)
        ∙ (v.share i h ∙ omega (arith, v.turn, v.threads, other, h))
  ];
}
  where
    taken :
        (i : ℕ)
        → i < sender_threads
        → l.current ≡ i
        → length (
            get_or
              (set l.lists l.current
                (record { fd = fd; read_index = index } ∷ get_or l.lists l.current []))
              i
              [])
          ≡ (suc n + 11 - i) / sender_threads
    taken i h same =
        rw
          (
            same,
            get_or-set_self l.lists i (record { fd = fd; read_index = index } ∷ get_or l.lists i [])
                [] (omega (arith, v.threads, h)),
          )
          (omega (arith, v.share i h, v.turn, h, same))

no_listeners-IsDealt : IsDealt 0 no_listeners
unfolding no_listeners
no_listeners-IsDealt = record {
  threads = refl;
  turn = refl;
  share = λ i h. empty 12 i ∙ omega (arith, h);
}
  where
    empty : (n i : ℕ) → length (get_or (replicate {A = List RadioClient} n []) i []) ≡ 0
    empty zero i = refl
    empty (suc n) zero = refl
    empty (suc n) (suc i) = empty n i

-- The connections in their order: a descriptor, and the write index when it connects.
unfoldable pub add_listeners : List (ℕ × ℕ) → Listeners → Listeners
add_listeners [] l = l
add_listeners ((fd, index) ∷ rest) l = add_listeners rest (add_listener fd index l)

add_listeners-IsDealt :
    (n : ℕ) (connections : List (ℕ × ℕ)) (l : Listeners)
    → IsDealt n l
    → IsDealt (n + length connections) (add_listeners connections l)
unfolding add_listeners
add_listeners-IsDealt n [] l v = let e : n ≡ n + 0 = omega arith in subst (λ k. IsDealt k l) e v
add_listeners-IsDealt n ((fd, index) ∷ rest) l v =
    let e : suc n + length rest ≡ n + suc (length rest) = omega arith in
    subst (λ k. IsDealt k (add_listeners rest (add_listener fd index l))) e
      (add_listeners-IsDealt (suc n) rest (add_listener fd index l)
        (add_listener-IsDealt n fd index l v))

-- While no listener leaves, any two of the twelve sender threads have as many listeners, or one more
-- or less.
pub add_listeners_balance :
    (connections : List (ℕ × ℕ)) (i j : ℕ)
    → i < sender_threads
    → j < sender_threads
    → length (get_or (add_listeners connections no_listeners).lists i [])
      ≤ suc (length (get_or (add_listeners connections no_listeners).lists j []))
add_listeners_balance connections i j h k =
    let v = add_listeners-IsDealt 0 connections no_listeners no_listeners-IsDealt in
    omega (arith, v.share i h, v.share j k)
