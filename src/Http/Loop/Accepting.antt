-- ===== src/Http/Loop/Accepting.antt =====
-- Accepting keeps every peer matched.
use caligo_engine.Base.{
  ℕ, ◌≡◌, ◌≢◌, refl, sym, ap, ◌∙◌, subst, Bool, true, false, Option, none, some, List, [], ◌∷◌,
}
use caligo_engine.Base.Store.{Store, put, put_self, put_other}
use native.Mathlib.Decide.{ℕ_discrete}
use caligo_engine.Http.Loop.{
  ClientState, World, create_client_state, Accepted, accept_client, accept_loop,
}
use caligo_engine.Http.Loop.Pairs.{peer_of, IsOpen, IsPaired}

-- At a free address, which no client has as its peer, may stand an open client with no peer.
put_alone :
    (heap : Store ClientState) (at : ℕ) (cell : Option ClientState)
    → IsPaired heap
    → heap at ≡ none
    → peer_of cell ≡ none
    → IsOpen cell
    → IsPaired (put at cell heap)
put_alone heap at cell v free unpeered opened = record { is_open = opens; matched = pairs }
  where
    opens : (b : ℕ) → IsOpen (put at cell heap b)
    opens b = elim (ℕ_discrete b at) [
      | yes f ↦ subst IsOpen (sym (ap (put at cell heap) f ∙ put_self at cell heap)) opened
      | no f ↦ subst IsOpen (sym (put_other at b cell heap f)) (v.is_open b)
    ]

    pairs :
        (b q : ℕ)
        → peer_of (put at cell heap b) ≡ some q
        → (peer_of (put at cell heap q) ≡ some b) × (q ≢ b)
    pairs b q e =
        let here = ap peer_of (put_self at cell heap) ∙ unpeered in
        let b_at : b ≢ at = λ f. let g = ap (λ k. peer_of (put at cell heap k)) f in cc in
        let m = v.matched b q (sym (ap peer_of (put_other at b cell heap b_at)) ∙ e) in
        let q_at : q ≢ at =
          λ f. let g = ap (λ k. peer_of (heap k)) f ∙ ap peer_of free in let h = m.0 in cc in
        (ap peer_of (put_other at q cell heap q_at) ∙ m.0, m.1)

accept_client-IsPaired :
    (a : Accepted) (w : World)
    → IsPaired w.heap
    → w.heap a.address ≡ none
    → IsPaired (accept_client a w).heap
unfolding accept_client create_client_state
accept_client-IsPaired a w v free = by_answer a.registers
  where
    by_answer :
        (registers : Bool) → IsPaired (accept_client (record a { registers = registers }) w).heap
    by_answer true =
        put_alone w.heap a.address (some (create_client_state a.fd)) v free refl (a.fd, refl)
    by_answer false = put_alone w.heap a.address none v free refl tt

-- The addresses are free when calloc gives them.
abbrev pub AreFree : List Accepted → World → Type 0
AreFree [] w = Unit
AreFree (a ∷ more) w = (w.heap a.address ≡ none) × AreFree more (accept_client a w)

-- Accepting any number of connections, each at a free address, keeps every client open and matched
-- with its peer.
pub accept_loop-IsPaired :
    (accepted : List Accepted) (w : World)
    → IsPaired w.heap
    → AreFree accepted w
    → IsPaired (accept_loop accepted w).heap
unfolding accept_loop
accept_loop-IsPaired [] w v free = v
accept_loop-IsPaired (a ∷ more) w v free =
    accept_loop-IsPaired more (accept_client a w) (accept_client-IsPaired a w v free.0) free.1
