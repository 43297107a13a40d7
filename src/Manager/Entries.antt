-- ===== src/Manager/Entries.antt =====
-- The staged messages of a compacted queue as a list: each message once, under its id.
use mathlib.Core.List.{
  mem-cons_self, mem-cons_of_mem, mem-append_left, mem-append_right, perm_middle, append_assoc,
  append-nil, Nodup-append, Nodup-cons, map-append, perm_append_comm,
}
use mathlib.Core.List.Perm
use artie_takehome.Base.{
  ℕ, ◌≡◌, refl, sym, ap, ◌∙◌, Bool, true, false, not, String, List, [], ◌∷◌, ◌++◌, map, Mem, Perm,
  Nodup, arith, none, str_eq, str_eq_iff, Bool-cases, inl, inr,
}
use artie_takehome.Maps.{find, insert, erase, erase_absent}
use artie_takehome.Msg.{Msg}
use artie_takehome.Queue.{Queue, clear_lease}
use artie_takehome.Queue.Core.{held, IsConsistent}
use artie_takehome.Manager.{Staging, new_staging, stage, emit, dead_records, live_records}
use artie_takehome.Manager.Staged.{
  staged, id_of, IsNamed, emit-live, mark, mark-live, staged-append,
}
use artie_takehome.Manager.Rebuild.{
  front, held-front, opening, opening-fields, Rebuilt, live_records-Rebuilt,
}
use artie_takehome.Manager.Recover.{is_dead, staged_part}

-- The pointers in the order in which the stagings hold them: the last comes first.
piled : List ℕ → List ℕ → List ℕ
piled [] ks = ks
piled (p ∷ ps) ks = piled ps (p ∷ ks)

piled-perm : (ps ks : List ℕ) → Perm (piled ps ks) (ps ++ ks)
unfolding piled
piled-perm [] ks = Perm.rfl
piled-perm (p ∷ ps) ks = Perm.trans (piled-perm ps (p ∷ ks)) (perm_middle ps ks)

piled-append : (ps ks : List ℕ) → piled ps ks ≡ piled ps [] ++ ks
unfolding piled
piled-append [] ks = refl
piled-append (p ∷ ps) ks =
    piled-append ps (p ∷ ks)
    ∙ (sym (append_assoc (piled ps []) (p ∷ []) ks)
        ∙ ap (λ (xs : List ℕ). xs ++ ks) (sym (piled-append ps (p ∷ []))))

module _ {W : Type 0} (q : Queue W) where
  abbrev pub cleared : ℕ → Msg
  cleared p = clear_lease (q.msgs p)

  abbrev pub entry : ℕ → String × Msg
  entry p = (id_of q p, cleared p)

  -- The messages that a compacted queue's records name.
  abbrev AreHeld : List ℕ → Type 0
  AreHeld ps = (x : ℕ) → Mem x ps → Mem x (held q)

  staged_part-append :
      (b : Bool) (s : Staging) (xs ys : List (String × Msg))
      → staged_part b s (xs ++ ys) ≡ staged_part b s xs ++ staged_part b s ys
  unfolding staged_part
  staged_part-append b s [] ys = refl
  staged_part-append b s ((id, m) ∷ xs) ys = ground (arith, staged_part-append b s xs ys)

  -- The parts of entries that all are dead letters, or all are none.
  staged_part-own :
      (b : Bool) (s : Staging) (ps : List ℕ)
      → ((p : ℕ) → Mem p ps → is_dead s (id_of q p) ≡ b)
      → staged_part b s (map entry ps) ≡ map cleared ps
  unfolding staged_part
  staged_part-own b s [] own = refl
  staged_part-own b s (p ∷ ps) own =
      ground
        (arith, own p mem-cons_self, staged_part-own b s ps (λ x m. own x (mem-cons_of_mem p m)))

  staged_part-other :
      (b : Bool) (s : Staging) (ps : List ℕ)
      → ((p : ℕ) → Mem p ps → is_dead s (id_of q p) ≡ not b)
      → staged_part b s (map entry ps) ≡ []
  unfolding staged_part
  staged_part-other b s [] other = refl
  staged_part-other b s (p ∷ ps) other = ground (
    arith,
    other p mem-cons_self,
    staged_part-other b s ps (λ x m. other x (mem-cons_of_mem p m)),
  )

  module _ (named : IsNamed q) where
    find-absent :
        (x : ℕ) (ks : List ℕ)
        → Mem x (held q)
        → AreHeld ks
        → ¬ Mem x ks
        → find (id_of q x) (map entry ks) ≡ none
    unfolding find
    find-absent x [] hx hk out = refl
    find-absent x (k ∷ ks) hx hk out = elim (Bool-cases (str_eq (id_of q k) (id_of q x))) [
      | inl e ↦
          let same : k ≡ x =
            named k x (hk k mem-cons_self) hx ((str_eq_iff (id_of q k) (id_of q x)).0 e) in
          absurd (out (rw same mem-cons_self))
      | inr e ↦
          rw e
            (find-absent x ks hx (λ y m. hk y (mem-cons_of_mem k m)) λ m. out (mem-cons_of_mem k m))
    ]

    emit-entries :
        (s : Staging) (x : ℕ) (ks : List ℕ)
        → Mem x (held q)
        → AreHeld ks
        → ¬ Mem x ks
        → s.live ≡ map entry ks
        → (stage s (emit q x)).live ≡ map entry (x ∷ ks)
    unfolding insert
    emit-entries s x ks hx hk out e =
        emit-live q s x
        ∙ ap (λ (l : List (String × Msg)). entry x ∷ l)
            (ap (erase (id_of q x)) e
              ∙ erase_absent (id_of q x) (map entry ks) (find-absent x ks hx hk out))

    emits-entries :
        (s : Staging) (ps ks : List ℕ)
        → AreHeld (ps ++ ks)
        → Nodup (ps ++ ks)
        → s.live ≡ map entry ks
        → (staged s (map (emit q) ps)).live ≡ map entry (piled ps ks)
    unfolding staged piled
    emits-entries s [] ks h n e = e
    emits-entries s (p ∷ ps) ks h n e =
        let moved = Perm.symm (perm_middle {a = p} ps ks) in
        emits-entries (stage s (emit q p)) ps (p ∷ ks) (λ x m. h x ((Perm.mem_iff moved).1 m))
          (Perm.nodup moved n)
          (emit-entries s p ks (h p mem-cons_self) (λ x m. h x (mem-append_right (p ∷ ps) m))
            (λ m. (Nodup-cons.0 n).0 (mem-append_right ps m)) e)

    deads-entries :
        (s : Staging) (ps ks : List ℕ)
        → AreHeld (ps ++ ks)
        → Nodup (ps ++ ks)
        → s.live ≡ map entry ks
        → (staged s (dead_records q ps)).live ≡ map entry (piled ps ks)
    unfolding staged piled dead_records
    deads-entries s [] ks h n e = e
    deads-entries s (p ∷ ps) ks h n e =
        let moved = Perm.symm (perm_middle {a = p} ps ks) in
        deads-entries (stage (stage s (emit q p)) (mark q p)) ps (p ∷ ks)
          (λ x m. h x ((Perm.mem_iff moved).1 m)) (Perm.nodup moved n)
          (mark-live q (stage s (emit q p)) p
            ∙ emit-entries s p ks (h p mem-cons_self) (λ x m. h x (mem-append_right (p ∷ ps) m))
                (λ m. (Nodup-cons.0 n).0 (mem-append_right ps m)) e)

    -- The parts of the staging of a compacted queue.
    pub record Parted (s : Staging) : Type 0 where
      pub dead : Perm (staged_part true s s.live) (map cleared q.dlq)
      pub live : Perm (staged_part false s s.live) (map cleared (front q))

    parted :
        (s : Staging)
        → Rebuilt q s
        → s.live ≡ map entry (piled q.dlq (piled (front q) []))
        → Parted s
    unfolding front
    parted s r e =
        let ds = piled q.dlq [] in
        let fs = piled (front q) [] in
        let split : map entry (piled q.dlq fs) ≡ map entry ds ++ map entry fs =
          ap (map entry) (piled-append q.dlq fs) ∙ map-append entry ds fs in
        let dead_ones : (p : ℕ) → Mem p ds → is_dead s (id_of q p) ≡ true = λ p m.
          rw
            (
              r.dead p (rw (append-nil q.dlq) at ((Perm.mem_iff (piled-perm q.dlq [])).0 m)),
              is_dead,
            )
            refl in
        let live_ones : (p : ℕ) → Mem p fs → is_dead s (id_of q p) ≡ false = λ p m.
          rw
            (
              r.spared_ids p
                  (rw (append-nil (front q)) at ((Perm.mem_iff (piled-perm (front q) [])).0 m)),
              is_dead,
            )
            refl in
        let parts : (b : Bool)
            → staged_part b s s.live
              ≡ staged_part b s (map entry ds) ++ staged_part b s (map entry fs) =
          λ b.
            ap (staged_part b s) (e ∙ split)
            ∙ staged_part-append b s (map entry ds) (map entry fs) in
        record {
          dead =
              rw
                (
                  parts true,
                  staged_part-own true s ds dead_ones,
                  staged_part-other true s fs live_ones,
                  append-nil (map cleared ds),
                )
                (Perm.map cleared (rw (append-nil q.dlq) at (piled-perm q.dlq [])));
          live =
              rw
                (
                  parts false,
                  staged_part-other false s ds dead_ones,
                  staged_part-own false s fs live_ones,
                )
                (Perm.map cleared (rw (append-nil (front q)) at (piled-perm (front q) [])));
        }

    live_records-entries :
        IsConsistent q
        → (staged new_staging (live_records q)).live ≡ map entry (piled q.dlq (piled (front q) []))
    unfolding live_records staged opening front
    live_records-entries v =
        let (empty, unmarked, high) = opening-fields q in
        let n = rw (held-front q) at v.core.apart in
        let moved : Perm (front q ++ q.dlq) (q.dlq ++ piled (front q) []) =
          Perm.trans (perm_append_comm (front q) q.dlq) (
            Perm.append_left q.dlq
              (Perm.symm (rw (append-nil (front q)) at (piled-perm (front q) [])))) in
        let front_held : AreHeld (front q ++ []) =
          λ x m. rw (held-front q) (mem-append_left q.dlq (rw (append-nil (front q)) at m)) in
        let front_once : Nodup (front q ++ []) = rw (append-nil (front q)) (Nodup-append.0 n).0 in
        rw (staged-append q (opening q) (map (emit q) (front q)) (dead_records q q.dlq)) (
          deads-entries (staged (opening q) (map (emit q) (front q))) q.dlq (piled (front q) [])
            (λ x m. rw (held-front q) ((Perm.mem_iff moved).1 m)) (Perm.nodup moved n)
            (emits-entries (opening q) (front q) [] front_held front_once empty))

    -- The staging of its records is parted as the queue is.
    pub live_records-Parted : IsConsistent q → Parted (staged new_staging (live_records q))
    live_records-Parted v =
        parted (staged new_staging (live_records q)) (live_records-Rebuilt q v named)
          (live_records-entries v)
