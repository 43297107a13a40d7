-- ===== src/Manager/Roster.antt =====
-- The queues of a manager together: their names, their order, and the recovery of their records.
use mathlib.Core.List.{append-nil, Memᴰ}
use mathlib.Core.Path.{subst}
use artie_takehome.Base.{
  ◌≡◌, ◌≢◌, refl, sym, ap, ◌∙◌, false, String, List, [], ◌∷◌, ◌++◌, some, none, str_eq, str_eq_iff,
  Bool-cases, inl, inr, sort_by, insert_by,
}
use artie_takehome.Maps.{find}
use artie_takehome.Queue.{Queue, new}
use artie_takehome.Manager.{live_records}
use artie_takehome.Manager.Recover.{Recovery}
use artie_takehome.Manager.Separate.{
  recovered, live_records-Bears, Without, of_name, of_name-own, of_name-other, of_name-append,
  of_name-Without,
}
use artie_takehome.Manager.Reread.{recovered-append, recovered-other, recovered-found}
use artie_takehome.Manager.Covered.{own-found, own-IsCovered, IsCovered, recovered-kept, own-read}
use artie_takehome.Manager.Calls.{all_records, by_name}

str_eq-sym : (a b : String) → str_eq a b ≡ false → str_eq b a ≡ false
str_eq-sym a b e = elim (Bool-cases (str_eq b a)) [
  | inr f ↦ f
  | inl f ↦ let same = (str_eq_iff b a).0 f in absurd (cc ((str_eq_iff a b).1 (sym same), e))
]

module _ {W : Type 0} where
  -- No name of the queues is taken, and none is there twice.
  abbrev pub AreFree : Recovery W → List (String × Queue W) → Type 0
  AreFree st [] = Unit {0}
  AreFree st ((key, q) ∷ qs) = (find q.cfg.name st.queues ≡ none) × AreFree st qs

  abbrev pub AreNamed : List (String × Queue W) → Type 0
  AreNamed [] = Unit {0}
  AreNamed ((key, q) ∷ qs) = Without q.cfg.name qs × AreNamed qs

  Without-Memᴰ :
      (name key : String) (q : Queue W) (qs : List (String × Queue W))
      → Without name qs
      → Memᴰ (key, q) qs
      → str_eq q.cfg.name name ≡ false
  Without-Memᴰ name key q [] out m = elim m [ ]
  Without-Memᴰ name key q ((j, p) ∷ qs) (e, out) (Memᴰ.head same) =
      ap (λ (x : String × Queue W). str_eq x.1.cfg.name name) same ∙ e
  Without-Memᴰ name key q ((j, p) ∷ qs) (e, out) (Memᴰ.tail m) = Without-Memᴰ name key q qs out m

  -- Sorting keeps the entries and their names apart.
  Without-insert_by :
      (name : String) (x : String × Queue W) (qs : List (String × Queue W))
      → str_eq x.1.cfg.name name ≡ false
      → Without name qs
      → Without name (insert_by by_name x qs)
  unfolding insert_by
  Without-insert_by name x [] e out = (e, tt)
  Without-insert_by name x (y ∷ qs) e (f, out) = elim (Bool-cases (by_name y x)) [
    | inl l ↦ rw l (f, Without-insert_by name x qs e out)
    | inr l ↦ rw l (e, (f, out))
  ]

  AreNamed-insert_by :
      (x : String × Queue W) (qs : List (String × Queue W))
      → Without x.1.cfg.name qs
      → AreNamed qs
      → AreNamed (insert_by by_name x qs)
  unfolding insert_by
  AreNamed-insert_by x [] out named = (tt, tt)
  AreNamed-insert_by x (y ∷ qs) (e, out) (away, named) = elim (Bool-cases (by_name y x)) [
    | inl l ↦ rw l (
      Without-insert_by y.1.cfg.name x qs (str_eq-sym y.1.cfg.name x.1.cfg.name e) away,
      AreNamed-insert_by x qs out named,
    )
    | inr l ↦ rw l ((e, out), (away, named))
  ]

  Memᴰ-insert_by :
      (x y : String × Queue W) (qs : List (String × Queue W))
      → Memᴰ x (y ∷ qs)
      → Memᴰ x (insert_by by_name y qs)
  unfolding insert_by
  Memᴰ-insert_by x y [] m = m
  Memᴰ-insert_by x y (z ∷ qs) m = elim (Bool-cases (by_name z y)) [
    | inr l ↦ rw l m
    | inl l ↦ rw l (go m λ k. Memᴰ-insert_by x y qs k)
  ]
    where
      go :
          Memᴰ x (y ∷ z ∷ qs)
          → (Memᴰ x (y ∷ qs) → Memᴰ x (insert_by by_name y qs))
          → Memᴰ x (z ∷ insert_by by_name y qs)
      go (Memᴰ.head e) rest = Memᴰ.tail (rest (Memᴰ.head e))
      go (Memᴰ.tail (Memᴰ.head e)) rest = Memᴰ.head e
      go (Memᴰ.tail (Memᴰ.tail k)) rest = Memᴰ.tail (rest (Memᴰ.tail k))

  pub Without-sort_by :
      (name : String) (qs : List (String × Queue W))
      → Without name qs
      → Without name (sort_by by_name qs)
  unfolding sort_by
  Without-sort_by name [] out = tt
  Without-sort_by name (x ∷ qs) (e, out) =
      Without-insert_by name x (sort_by by_name qs) e (Without-sort_by name qs out)

  pub AreNamed-sort_by :
      (qs : List (String × Queue W)) → AreNamed qs → AreNamed (sort_by by_name qs)
  unfolding sort_by
  AreNamed-sort_by [] named = tt
  AreNamed-sort_by (x ∷ qs) (out, named) =
      AreNamed-insert_by x (sort_by by_name qs) (Without-sort_by x.1.cfg.name qs out)
        (AreNamed-sort_by qs named)

  pub Memᴰ-sort_by :
      (x : String × Queue W) (qs : List (String × Queue W))
      → Memᴰ x qs
      → Memᴰ x (sort_by by_name qs)
  unfolding sort_by
  Memᴰ-sort_by x [] m = elim m [ ]
  Memᴰ-sort_by x (y ∷ qs) (Memᴰ.head e) = Memᴰ-insert_by x y (sort_by by_name qs) (Memᴰ.head e)
  Memᴰ-sort_by x (y ∷ qs) (Memᴰ.tail m) =
      Memᴰ-insert_by x y (sort_by by_name qs) (Memᴰ.tail (Memᴰ-sort_by x qs m))

  -- The records of one of the queues among those of all.
  pub of_name-Memᴰ :
      (qs : List (String × Queue W)) (key : String) (q : Queue W)
      → AreNamed qs
      → Memᴰ (key, q) qs
      → of_name q.cfg.name (all_records qs) ≡ live_records q
  unfolding all_records
  of_name-Memᴰ [] key q named m = elim m [ ]
  of_name-Memᴰ ((j, p) ∷ qs) key q (out, named) (Memᴰ.head same) =
      let e : q ≡ p = ap (λ (x : String × Queue W). x.1) same in
      subst
        (λ (r : Queue W). of_name r.cfg.name (live_records p ++ all_records qs) ≡ live_records r)
        (sym e)
        (of_name-append p.cfg.name (live_records p) (all_records qs)
          ∙ rw
              (
                of_name-own p.cfg.name (live_records p) (live_records-Bears p),
                of_name-Without p.cfg.name qs out,
              )
              (append-nil (live_records p)))
  of_name-Memᴰ ((j, p) ∷ qs) key q (out, named) (Memᴰ.tail m) =
      let apart = str_eq-sym q.cfg.name p.cfg.name (Without-Memᴰ p.cfg.name key q qs out m) in
      of_name-append q.cfg.name (live_records p) (all_records qs)
      ∙ rw (of_name-other p.cfg.name q.cfg.name (live_records p) (live_records-Bears p) apart)
          (of_name-Memᴰ qs key q named m)

  module _ (w : W) where
    -- The names stay free under the records of another queue.
    others-AreFree :
        (q : Queue W) (st : Recovery W) (qs : List (String × Queue W))
        → Without q.cfg.name qs
        → AreFree st qs
        → AreFree (recovered w st (live_records q)) qs
    others-AreFree q st [] out free = tt
    others-AreFree q st ((key, p) ∷ qs) (e, out) (f, free) = (
      recovered-other w q.cfg.name p.cfg.name st (live_records q) (live_records-Bears q)
            (str_eq-sym p.cfg.name q.cfg.name e)
          ∙ f,
      others-AreFree q st qs out free,
    )

    -- Recovery of the records of all queues gives each of them its queue, new.
    pub all-IsCovered :
        (st : Recovery W) (qs : List (String × Queue W))
        → AreNamed qs
        → AreFree st qs
        → IsCovered st.queues st.pending
        → IsCovered
            (recovered w st (all_records qs)).queues
            (recovered w st (all_records qs)).pending
    unfolding all_records recovered
    all-IsCovered st [] named free v = v
    all-IsCovered st ((key, q) ∷ qs) (out, named) (f, free) v =
        rw (recovered-append w st (live_records q) (all_records qs)) (
          all-IsCovered (recovered w st (live_records q)) qs named (others-AreFree q st qs out free)
            (own-IsCovered w q st f v))

    pub all-found :
        (st : Recovery W) (qs : List (String × Queue W)) (key : String) (q : Queue W)
        → AreNamed qs
        → AreFree st qs
        → Memᴰ (key, q) qs
        → find q.cfg.name (recovered w st (all_records qs)).queues ≡ some (new q.cfg w)
    unfolding all_records
    all-found st [] key q named free m = elim m [ ]
    all-found st ((j, p) ∷ qs) key q (out, named) (f, free) (Memᴰ.head same) =
        let e : q ≡ p = ap (λ (x : String × Queue W). x.1) same in
        rw (recovered-append w st (live_records p) (all_records qs)) (
          recovered-found w q.cfg.name (recovered w st (live_records p)) (all_records qs)
            (new q.cfg w)
            (subst
              (λ (r : Queue W).
                find r.cfg.name (recovered w st (live_records p)).queues ≡ some (new r.cfg w))
              (sym e) (own-found w p st f)))
    all-found st ((j, p) ∷ qs) key q (out, named) (f, free) (Memᴰ.tail m) =
        rw (recovered-append w st (live_records p) (all_records qs)) (
          all-found (recovered w st (live_records p)) qs key q named
            (others-AreFree p st qs out free) m)

    pub all-read :
        (st : Recovery W) (qs : List (String × Queue W)) (key : String) (q : Queue W)
        → Memᴰ (key, q) qs
        → find q.cfg.name (recovered w st (all_records qs)).pending ≢ none
    unfolding all_records
    all-read st [] key q m = elim m [ ]
    all-read st ((j, p) ∷ qs) key q (Memᴰ.head same) =
        let e : q ≡ p = ap (λ (x : String × Queue W). x.1) same in
        rw (recovered-append w st (live_records p) (all_records qs), e)
          (recovered-kept w p.cfg.name (recovered w st (live_records p)) (all_records qs)
            (own-read w p st))
    all-read st ((j, p) ∷ qs) key q (Memᴰ.tail m) =
        rw (recovered-append w st (live_records p) (all_records qs))
          (all-read (recovered w st (live_records p)) qs key q m)

    -- A name that no queue has is not there.
    pub all-absent :
        (name : String) (st : Recovery W) (qs : List (String × Queue W))
        → Without name qs
        → find name (recovered w st (all_records qs)).queues ≡ find name st.queues
    unfolding all_records recovered
    all-absent name st [] out = refl
    all-absent name st ((j, p) ∷ qs) (e, out) =
        rw (recovered-append w st (live_records p) (all_records qs)) (
          all-absent name (recovered w st (live_records p)) qs out
          ∙ recovered-other w p.cfg.name name st (live_records p) (live_records-Bears p) e)
