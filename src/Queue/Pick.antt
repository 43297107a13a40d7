-- ===== src/Queue/Pick.antt =====
-- The loop of tryReceive that takes messages off the ready heap.
use mathlib.Core.List.{
  mem-cons, mem-cons_of_mem, mem-append_left, mem-append_right, append_assoc, append-nil,
  not-mem-nil,
}
use mathlib.Core.List.Perm
use mathlib.Core.Logic.Or
use mathlib.Core.Path.{subst}
use mathlib.Core.Bool.{Bool-set}
use artie_takehome.Base.{
  ℕ, zero, suc, ◌+◌, ◌<◌, ◌≡◌, refl, sym, ◌∙◌, ap, List, [], ◌∷◌, ◌++◌, Mem, Perm, arith, Bool,
  true, false, ◌⊎◌, inl, inr, Returns, returns, Returns-bind, Returns-map, Returns-if, Option-cases,
  ℤ, pos, ltb_ℤ, ◌≤ℤ◌, length, length-perm, length-append,
}
use artie_takehome.MsgHeap.{peek}
use artie_takehome.Queue.{Queue, ready_less}
use artie_takehome.Queue.Consume.{pick}
use artie_takehome.Queue.Core.{Core, held}
use artie_takehome.Queue.Pull.{pop_ready_lem, peek-none}

-- No entry sorts before one that stands ahead of it.
abbrev pub InOrder : (ℕ → ℕ → Bool) → List ℕ → Type 0
InOrder less [] = Unit {0}
InOrder less (x ∷ xs) = ((y : ℕ) → Mem y xs → less y x ≡ false) × InOrder less xs

module _ {W : Type 0} where
  -- The messages `taken` beyond those picked before.
  pub record Picked (q : Queue W) (max : ℤ) (picked : List ℕ) (r : Queue W × List ℕ) : Type 0 where
    pub taken : List ℕ
    pub split : r.1 ≡ picked ++ taken
    pub core : Core r.0
    pub keeps :
        (ready : List ℕ) × (index : ℕ → ℤ) × (r.0 ≡ record q { ready = ready; index = index })
    pub drawn : Perm (taken ++ r.0.ready) q.ready
    pub same : Perm (taken ++ held r.0) (held q)
    pub ordered : InOrder (ready_less q) taken
    pub ahead : (x y : ℕ) → Mem x r.0.ready → Mem y taken → ready_less q x y ≡ false
    pub bounded : pos (length picked) ≤ℤ max → pos (length r.1) ≤ℤ max
    pub enough : (r.0.ready ≡ []) ⊎ (max ≤ℤ pos (length r.1))

  done :
      (q : Queue W) (max : ℤ) (picked : List ℕ)
      → Core q
      → (q.ready ≡ []) ⊎ (max ≤ℤ pos (length picked))
      → Picked q max picked (q, picked)
  done q max picked c e = record {
    taken = [];
    split = sym (append-nil picked);
    core = c;
    keeps = (q.ready, q.index, refl);
    drawn = Perm.rfl;
    same = Perm.rfl;
    ordered = tt;
    ahead = λ x y k a. absurd (not-mem-nil a);
    bounded = λ b. b;
    enough = e;
  }

  -- `m` is taken first, and the rest of the loop runs on `s`.
  more :
      (q s : Queue W) (max : ℤ) (picked : List ℕ) (m : ℕ) (ready : List ℕ) (index : ℕ → ℤ)
      → s ≡ record q { ready = ready; index = index }
      → Perm (m ∷ held s) (held q)
      → Perm (m ∷ ready) q.ready
      → ((x : ℕ) → Mem x q.ready → ready_less q x m ≡ false)
      → ltb_ℤ (pos (length picked)) max ≡ true
      → (r : Queue W × List ℕ) → Picked s max (picked ++ m ∷ []) r
      → Picked q max picked r
  more q s max picked m ready index e all old first room r p =
      let (a, i, f) = p.keeps in
      record {
        taken = m ∷ p.taken;
        split = p.split ∙ append_assoc picked (m ∷ []) p.taken;
        core = p.core;
        keeps = (a, i, f ∙ ap (λ (t : Queue W). record t { ready = a; index = i }) e);
        drawn = Perm.trans (Perm.cons m inner) old;
        same = Perm.trans (Perm.cons m p.same) all;
        ordered = (
          (λ y k. first y (within (mem-append_left r.0.ready k))),
          subst (λ less. InOrder less p.taken) same-less p.ordered,
        );
        ahead = λ x y k a.
            Or.elim (Bool-set _ _) (mem-cons.0 a)
              (λ d. rw d (first x (within (mem-append_right p.taken k))))
              (λ b. subst (λ less. less x y ≡ false) same-less (p.ahead x y k b));
        bounded = λ b. p.bounded (grown (length-append picked (m ∷ [])) room);
        enough = p.enough;
      }
    where
      inner : Perm (p.taken ++ r.0.ready) ready
      inner = rw (ap (λ (t : Queue W). t.ready) e) at p.drawn

      within : {x : ℕ} → Mem x (p.taken ++ r.0.ready) → Mem x q.ready
      within k = (Perm.mem_iff old).0 (mem-cons_of_mem m ((Perm.mem_iff inner).0 k))

      same-less : ready_less s ≡ ready_less q
      same-less = ap ready_less e

      grown :
          {n : ℕ} → n ≡ length picked + 1 → ltb_ℤ (pos (length picked)) max ≡ true → pos n ≤ℤ max
      grown e room = ground arith

  pub pick_lem :
      (fuel : ℕ) (q : Queue W) (max : ℤ) (picked : List ℕ)
      → Core q
      → length q.ready < fuel
      → Returns (Picked q max picked) (pick fuel q max picked)
  unfolding pick
  pick_lem zero q max picked c f = absurd (omega arith)
  pick_lem (suc fuel) q max picked c f = elim (Option-cases (peek q.ready)) [
    | inl e ↦ rw (e, pick) (returns (done q max picked c (inl (peek-none q.ready e))))
    | inr (m, e) ↦
        rw (e, pick)
          (Returns-if (ltb_ℤ (pos (length picked)) max)
            (λ room. Returns-bind (pop_ready_lem q m c e) λ s ((h, same, c', all, old), first).
              Returns-map
                (pick_lem fuel s max (picked ++ m ∷ []) c'
                  (omega (arith, ap (λ (t : Queue W). length t.ready) same, length-perm old)))
                (more q s max picked m h.items h.index same all old first room))
            λ full. returns (done q max picked c (inr (ground arith))))
  ]
