-- ===== src/Manager/Installed.antt =====
-- install of queue/manager.go's recover: every queue that recovery has read gets its messages.
use artie_takehome.Base.{
  ◌≡◌, ◌≢◌, refl, ◌∙◌, true, false, String, List, [], ◌∷◌, some, none, str_eq, str_eq_iff,
  str_eq_refl, Bool-cases, Option-cases, inl, inr, sort_by, Returns, returns, Returns-bind,
  Returns-map,
}
use artie_takehome.Maps.{find, insert, find-insert, IsUnique}
use artie_takehome.Msg.{Time}
use artie_takehome.Record.{Result, ok}
use artie_takehome.Queue.{Queue}
use artie_takehome.Manager.{Staging}
use artie_takehome.Manager.Managed.{AllConsistent, find-IsConsistent, insert-AllConsistent}
use artie_takehome.Manager.Recover.{install, staged_part, seq_less}
use artie_takehome.Manager.Restored.{Restored, restore-Returns}
use artie_takehome.Manager.Covered.{IsCovered}

module _ {W : Type 0} where
  -- The queue as its staging has it.
  abbrev pub IsFilled : Queue W → Staging → Queue W → Type 0
  IsFilled q s r =
      Restored (record q { seq = s.max_seq }) (sort_by seq_less (staged_part true s s.live))
        (sort_by seq_less (staged_part false s s.live)) r

  -- Every queue that was read is filled, and the others are as they were.
  pub record Installed (queues : List (String × Queue W)) (pending : List (String × Staging))
      (r : Result (List (String × Queue W))) : Type 0 where
    pub end : List (String × Queue W)
    pub good : r ≡ ok end
    pub other : (name : String) → find name pending ≡ none → find name end ≡ find name queues
    pub own :
        (name : String) (s : Staging) (q : Queue W)
        → find name pending ≡ some s
        → find name queues ≡ some q
        → (r : Queue W) × (find name end ≡ some r) × IsFilled q s r

  -- The first staging and then the others.
  after_one :
      (queues : List (String × Queue W)) (name : String) (s : Staging) (q q' : Queue W)
      (pending : List (String × Staging)) (r : Result (List (String × Queue W)))
      → find name pending ≡ none
      → find name queues ≡ some q
      → IsFilled q s q'
      → Installed (insert name q' queues) pending r
      → Installed queues ((name, s) ∷ pending) r
  unfolding find
  after_one queues name s q q' pending r out e filled t = record {
    end = t.end;
    good = t.good;
    other = λ n f. elim (Bool-cases (str_eq name n)) [
      | inl same ↦ absurd (cc (rw same at f))
      | inr away ↦ t.other n (rw away at f) ∙ past n q' queues away
    ];
    own = λ n u p f g. elim (Bool-cases (str_eq name n)) [
      | inr away ↦ t.own n u p (rw away at f) (past n q' queues away ∙ g)
      | inl same ↦
          let here : name ≡ n = (str_eq_iff name n).0 same in
          let staging : s ≡ u = cc (rw same at f) in
          let queue : q ≡ p = cc (e, rw (← here) at g) in
          rw (← here, ← staging, ← queue) (q', t.other name out ∙ found q' queues, filled)
    ];
  }
    where
      past :
          (n : String) (q' : Queue W) (queues : List (String × Queue W))
          → str_eq name n ≡ false
          → find n (insert name q' queues) ≡ find n queues
      past n q' queues away = rw (find-insert n name q' queues, away) refl

      found :
          (q' : Queue W) (queues : List (String × Queue W))
          → find name (insert name q' queues) ≡ some q'
      found q' queues = rw (find-insert name name q' queues, str_eq_refl name) refl

  still-IsCovered :
      (queues : List (String × Queue W)) (name : String) (s : Staging) (q' : Queue W)
      (pending : List (String × Staging))
      → IsCovered queues ((name, s) ∷ pending)
      → IsCovered (insert name q' queues) pending
  unfolding find
  still-IsCovered queues name s q' pending c n there bad = elim (Bool-cases (str_eq name n)) [
    | inl same ↦ cc (rw (find-insert n name q' queues, same) at bad)
    | inr away ↦ c n (λ f. there (rw away at f)) (rw (find-insert n name q' queues, away) at bad)
  ]

  no_gap :
      (queues : List (String × Queue W)) (name : String) (s : Staging)
      (pending : List (String × Staging))
      → IsCovered queues ((name, s) ∷ pending)
      → find name queues ≢ none
  unfolding find
  no_gap queues name s pending c = c name λ f. cc (rw (str_eq_refl name) at f)

  pub install-Installed :
      (queues : List (String × Queue W)) (pending : List (String × Staging)) (now : Time)
      → AllConsistent queues
      → IsUnique pending
      → IsCovered queues pending
      → Returns (Installed queues pending) (install queues pending now)
  unfolding install find
  install-Installed queues [] now v u c =
      returns
        record { end = queues; good = refl; other = λ n f. refl; own = λ n s q f g. absurd (cc) }
  install-Installed queues ((name, s) ∷ pending) now v (out, u) c =
      elim (Option-cases (find name queues)) [
        | inl e ↦ absurd (no_gap queues name s pending c e)
        | inr (q, e) ↦
            rw (e, install)
              (Returns-bind
                (restore-Returns q (sort_by seq_less (staged_part false s s.live))
                  (sort_by seq_less (staged_part true s s.live)) s.max_seq now
                  (find-IsConsistent name queues q v e))
                λ q' t.
                  Returns-map
                    (install-Installed (insert name q' queues) pending now
                      (insert-AllConsistent name q' queues t.consistent v) u
                      (still-IsCovered queues name s q' pending c))
                    λ r h. after_one queues name s q q' pending r out e t h)
      ]
