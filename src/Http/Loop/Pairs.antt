-- ===== src/Http/Loop/Pairs.antt =====
-- Peers of the event loop point at each other, and cleanup_client keeps that.
use caligo_engine.Base.{
  ℕ, ◌≡◌, ◌≢◌, refl, sym, ap, ◌∙◌, subst, Option, none, some, List, [], ◌∷◌, ◌++◌, Option-cases,
  inl, inr,
}
use caligo_engine.Base.Store.{Store, put, put_self, put_other}
use mathlib.Core.Option.{some-injective}
use native.Mathlib.Decide.{ℕ_discrete}
use caligo_engine.Http.Loop.{
  ClientState, Call, World, unregisters, closes, shutdown, detach, close_client, cleanup_client,
}

abbrev pub peer_of : Option ClientState → Option ℕ
peer_of none = none
peer_of (some client) = client.peer

-- A client that is there has a descriptor.
abbrev pub IsOpen : Option ClientState → Type 0
IsOpen none = Unit
IsOpen (some client) = (fd : ℕ) × (client.fd ≡ some fd)

-- Every client has a descriptor, and its peer is another one that has it as its peer.
pub record IsPaired (heap : Store ClientState) : Type 0 where
  pub is_open : (at : ℕ) → IsOpen (heap at)
  pub matched : (at p : ℕ) → peer_of (heap at) ≡ some p → (peer_of (heap p) ≡ some at) × (p ≢ at)

abbrev pub unpeer : Option ClientState → Option ClientState
unpeer none = none
unpeer (some client) = some (record client { peer = none })

peer_of-unpeer : (x : Option ClientState) → peer_of (unpeer x) ≡ none
peer_of-unpeer none = refl
peer_of-unpeer (some client) = refl

unpeer-IsOpen : (x : Option ClientState) → IsOpen x → IsOpen (unpeer x)
unpeer-IsOpen none h = h
unpeer-IsOpen (some client) h = h

-- The client at `at` is gone, its peer has lost it, and the others are as they were.
record IsCut (heap heap' : Store ClientState) (at : ℕ) : Type 0 where
  gone : heap' at ≡ none
  unpeered : (p : ℕ) → peer_of (heap at) ≡ some p → heap' p ≡ unpeer (heap p)
  same : (b : ℕ) → b ≢ at → peer_of (heap at) ≢ some b → heap' b ≡ heap b

cut_opens :
    (heap heap' : Store ClientState) (at : ℕ)
    → IsPaired heap
    → IsCut heap heap' at
    → (b : ℕ) → IsOpen (heap' b)
cut_opens heap heap' at v c b = elim (ℕ_discrete b at) [
  | yes f ↦ subst IsOpen (sym (ap heap' f ∙ c.gone)) tt
  | no f ↦ elim (Option-cases (peer_of (heap at))) [
    | inl e ↦ subst IsOpen (sym (c.same b f (λ g. let h = e in cc))) (v.is_open b)
    | inr (p, e) ↦ elim (ℕ_discrete b p) [
      | yes g ↦
          subst IsOpen (sym (ap heap' g ∙ c.unpeered p e)) (unpeer-IsOpen (heap p) (v.is_open p))
      | no g ↦
          subst IsOpen (sym (c.same b f (λ h. g (sym (some-injective p b (sym e ∙ h))))))
            (v.is_open b)
    ]
  ]
]

cut-IsPaired :
    (heap heap' : Store ClientState) (at : ℕ) → IsPaired heap → IsCut heap heap' at → IsPaired heap'
cut-IsPaired heap heap' at v c = record { is_open = cut_opens heap heap' at v c; matched = pairs }
  where
    pairs : (b q : ℕ) → peer_of (heap' b) ≡ some q → (peer_of (heap' q) ≡ some b) × (q ≢ b)
    pairs b q e =
        let b_at : b ≢ at =
          λ f. let g = ap (λ x. peer_of (heap' x)) f in let h = ap peer_of c.gone in cc in
        let b_peer : peer_of (heap at) ≢ some b =
          λ f. let g = ap peer_of (c.unpeered b f) ∙ peer_of-unpeer (heap b) in cc in
        let m = v.matched b q (ap peer_of (sym (c.same b b_at b_peer)) ∙ e) in
        let q_at : q ≢ at = λ f. b_peer (ap (λ x. peer_of (heap x)) (sym f) ∙ m.0) in
        let q_peer : peer_of (heap at) ≢ some q =
          λ f. b_at (some-injective b at (sym m.0 ∙ (v.matched at q f).0)) in
        (ap peer_of (c.same q q_at q_peer) ∙ m.0, m.1)

-- What cleanup_client does to a client: it is gone, and the others are paired.
pub record IsCleaned (at : ℕ) (w w' : World) : Type 0 where
  pub gone : w'.heap at ≡ none
  pub paired : IsPaired w'.heap
  pub waiting : w'.queued ≡ w.queued

abbrev Cleans : ℕ → World → Option World → Type 0
Cleans at w o = (w' : World) × (o ≡ some w') × IsCleaned at w w'

alone-IsCut :
    (heap : Store ClientState) (at : ℕ) (cell : Option ClientState)
    → peer_of (heap at) ≡ none
    → IsCut heap (put at none (put at cell heap)) at
alone-IsCut heap at cell e = record {
  gone = put_self at none (put at cell heap);
  unpeered = λ p f. absurd (apart (sym f ∙ e));
  same = λ b f g. put_other at b none (put at cell heap) f ∙ put_other at b cell heap f;
}
  where
    apart : {p : ℕ} → some p ≢ none
    apart e = cc

pair-IsCut :
    (heap : Store ClientState) (at p : ℕ) (cell : Option ClientState) (other : ClientState)
    → peer_of (heap at) ≡ some p
    → p ≢ at
    → heap p ≡ some other
    → IsCut heap (put at none (put p (some (record other { peer = none })) (put at cell heap))) at
pair-IsCut heap at p cell other e far there = record {
  gone = put_self at none (put p lost (put at cell heap));
  unpeered = λ q f.
      subst (λ k. put at none (put p lost (put at cell heap)) k ≡ unpeer (heap k))
        (some-injective p q (sym e ∙ f)) at_peer;
  same = λ b f g.
      put_other at b none (put p lost (put at cell heap)) f
      ∙ (put_other p b lost (put at cell heap) (λ h. g (e ∙ ap (λ k. some k) (sym h)))
          ∙ put_other at b cell heap f);
}
  where
    lost : Option ClientState
    lost = some (record other { peer = none })

    at_peer : put at none (put p lost (put at cell heap)) p ≡ unpeer (heap p)
    at_peer =
        put_other at p none (put p lost (put at cell heap)) far
        ∙ (put_self p lost (put at cell heap) ∙ sym (ap unpeer there))

pub peer_there :
    (heap : Store ClientState) (at p : ℕ)
    → IsPaired heap
    → peer_of (heap at) ≡ some p
    → (other : ClientState) × (heap p ≡ some other)
peer_there heap at p v e = elim (Option-cases (heap p)) [
  | inl none_there ↦
      let f = (v.matched at p e).0 in let g = ap peer_of none_there in absurd (apart (sym f ∙ g))
  | inr found ↦ found
]
  where
    apart : {p : ℕ} → some p ≢ none
    apart e = cc

detach-Cleans :
    (at : ℕ) (w : World) (cell : Option ClientState) (peer : Option ℕ) (calls : List Call)
    → IsPaired w.heap
    → peer_of (w.heap at) ≡ peer
    → Cleans at w (detach at peer (record w { heap = put at cell w.heap; calls = calls }))
unfolding detach
detach-Cleans at w cell none calls v e =
    let cut = alone-IsCut w.heap at cell e in
    (
      record w { heap = put at none (put at cell w.heap); calls = calls },
      refl,
      record {
        gone = cut.gone;
        paired = cut-IsPaired w.heap (put at none (put at cell w.heap)) at v cut;
        waiting = refl;
      },
    )
detach-Cleans at w cell (some p) calls v e =
    let (other, there) = peer_there w.heap at p v e in
    let far = (v.matched at p e).1 in
    let cut = pair-IsCut w.heap at p cell other e far there in
    let heap' : Store ClientState =
      put at none (put p (some (record other { peer = none })) (put at cell w.heap)) in
    rw (put_other at p cell w.heap far ∙ there, detach)
      (
        record w { heap = heap'; calls = calls ++ shutdown other.fd },
        refl,
        record { gone = cut.gone; paired = cut-IsPaired w.heap heap' at v cut; waiting = refl },
      )

pub cleanup_client-IsCleaned :
    (at : ℕ) (w : World) (client : ClientState)
    → IsPaired w.heap
    → w.heap at ≡ some client
    → (w' : World) × (cleanup_client at w ≡ some w') × IsCleaned at w w'
unfolding cleanup_client close_client
cleanup_client-IsCleaned at w client v here =
    let (fd, e) = subst IsOpen here (v.is_open at) in
    rw (here, cleanup_client, e, close_client)
      (detach-Cleans at w (some (record client { fd = none })) client.peer
        (w.calls ++ unregisters fd ∷ closes fd ∷ []) v (ap peer_of here))
