-- ===== src/Manager/Restored.antt =====
-- restore: the messages that recovery found go into a queue.
use mathlib.Core.List.{
  mem-cons_self, mem-cons_of_mem, perm_middle, append_assoc, append-nil, map-append,
  mem-append_right,
}
use mathlib.Core.List.Perm
use mathlib.Core.Path.{subst}
use artie_takehome.Base.{
  ℕ, ◌+◌, ◌≡◌, refl, sym, ap, ◌∙◌, List, [], ◌∷◌, ◌++◌, map, Mem, Perm, arith, Returns, returns,
  Returns-bind, Returns-map,
}
use artie_takehome.MsgHeap.{update}
use artie_takehome.Msg.{Msg, Time}
use artie_takehome.Queue.{Queue, clear_lease}
use artie_takehome.Queue.Core.{IsConsistent, held, held-dlq}
use artie_takehome.Queue.Arrive.{
  logged, written, fresh, logged-Core, logged-leases, bounded, filed-IsConsistent,
}
use artie_takehome.Queue.Push.{place_locked_lem}
use artie_takehome.Manager.{restore_live, restore_dead, restore}

-- Maps that agree on a list give the same messages.
map-same : (f g : ℕ → Msg) (xs : List ℕ) → ((x : ℕ) → Mem x xs → f x ≡ g x) → map f xs ≡ map g xs
map-same f g [] e = refl
map-same f g (x ∷ xs) e = rw (e x mem-cons_self, map-same f g xs (λ y k. e y (mem-cons_of_mem x k)))

module _ {W : Type 0} where
  -- The messages that a queue holds, as they are.
  abbrev pub messages : Queue W → List Msg
  messages q = map q.msgs (held q)

  -- The queue `r` holds the messages `dead` and `live`, without their leases, on top of those of
  -- `q`, and `dead` are its last dead letters.
  pub record Restored (q : Queue W) (dead live : List Msg) (r : Queue W) : Type 0 where
    pub consistent : IsConsistent r
    pub same : Perm (messages r) (map clear_lease (dead ++ live) ++ messages q)
    pub parked : map r.msgs r.dlq ≡ map q.msgs q.dlq ++ map clear_lease dead
    pub kept : (r.seq ≡ q.seq) × (r.inflight ≡ q.inflight) × (r.leases ≡ q.leases)
    pub config : r.cfg ≡ q.cfg

  -- One message more, filed anywhere.
  arrived :
      (q : Queue W) (v : IsConsistent q) (msg : Msg) (r : Queue W)
      → r.msgs ≡ update q.msgs q.next msg
      → Perm (held r) (q.next ∷ held q)
      → Perm (messages r) (msg ∷ messages q)
  arrived q v msg r e p = Perm.trans (Perm.map r.msgs p) (
      subst (λ (f : ℕ → Msg). Perm (map f (q.next ∷ held q)) (msg ∷ messages q)) (sym e)
        (rw (here, map-same (update q.msgs q.next msg) q.msgs (held q) (written q v msg)) Perm.rfl))
    where
      here : update q.msgs q.next msg q.next ≡ msg
      here = ground arith

  -- The first message of all, and then the others.
  after_first :
      (q s r : Queue W) (m : Msg) (dead live dead' live' : List Msg)
      → dead' ++ live' ≡ m ∷ (dead ++ live)
      → map s.msgs s.dlq ++ map clear_lease dead ≡ map q.msgs q.dlq ++ map clear_lease dead'
      → Perm (messages s) (clear_lease m ∷ messages q)
      → (s.seq ≡ q.seq) × (s.inflight ≡ q.inflight) × (s.leases ≡ q.leases)
      → s.cfg ≡ q.cfg
      → Restored s dead live r
      → Restored q dead' live' r
  after_first q s r m dead live dead' live' more parked p (a, b, c) cfg t = record {
    consistent = t.consistent;
    same = rw more (
        Perm.trans t.same (
          Perm.trans (Perm.append_left (map clear_lease (dead ++ live)) p)
            (perm_middle (map clear_lease (dead ++ live)) (messages q))));
    parked = t.parked ∙ parked;
    kept = (t.kept.0 ∙ a, t.kept.1 ∙ b, t.kept.2 ∙ c);
    config = t.config ∙ cfg;
  }

  idle-Restored : (q : Queue W) → IsConsistent q → Restored q [] [] q
  idle-Restored q v = record {
    consistent = v;
    same = Perm.rfl;
    parked = sym (append-nil (map q.msgs q.dlq));
    kept = (refl, refl, refl);
    config = refl;
  }

  -- The dead letters are not written to when a message is allocated.
  dead-written :
      (q : Queue W) (v : IsConsistent q) (msg : Msg)
      → map (update q.msgs q.next msg) q.dlq ≡ map q.msgs q.dlq
  dead-written q v msg = map-same (update q.msgs q.next msg) q.msgs q.dlq λ x k.
      written q v msg x
        (mem-append_right q.ready (mem-append_right q.delayed (mem-append_right q.inflight k)))

  restore_live_lem :
      (q : Queue W) (ms : List Msg) (now : Time)
      → IsConsistent q
      → Returns (Restored q [] ms) (restore_live q ms now)
  unfolding restore_live
  restore_live_lem q [] now v = returns (idle-Restored q v)
  restore_live_lem q (m ∷ ms) now v =
      let msg = clear_lease m in
      Returns-bind
        (place_locked_lem (logged q v msg q.seq q.wal) q.next (logged-Core q v msg q.seq q.wal)
          (fresh q v msg) now)
        λ s p.
          let (a, b, i, e) = p.keeps in
          Returns-map (restore_live_lem s ms now (filed-IsConsistent q v msg now q.seq q.wal s p))
            λ r t.
              after_first q s r m [] ms [] (m ∷ ms) refl
                (rw e (ap (λ (l : List Msg). l ++ []) (dead-written q v msg)))
                (arrived q v msg s (ap (λ (t : Queue W). t.msgs) e) p.same)
                (rw e (refl, refl, refl)) (rw e refl) t

  parked-IsConsistent :
      (q : Queue W) (v : IsConsistent q) (msg : Msg)
      → IsConsistent (record (logged q v msg q.seq q.wal) { dlq = q.dlq ++ q.next ∷ [] })
  parked-IsConsistent q v msg =
      let core = logged-Core q v msg q.seq q.wal in
      record {
        core = record {
          ready_valid = core.ready_valid;
          delayed_valid = core.delayed_valid;
          inflight_valid = core.inflight_valid;
          apart = Perm.nodup (Perm.symm (held-dlq q q.next)) (fresh q v msg);
        };
        leases = logged-leases q v msg;
        allocated = λ x k. bounded q v msg x ((Perm.mem_iff (held-dlq q q.next)).0 k);
      }

  restore_dead_lem :
      (q : Queue W) (ms : List Msg) → IsConsistent q → Restored q ms [] (restore_dead q ms)
  unfolding restore_dead
  restore_dead_lem q [] v = idle-Restored q v
  restore_dead_lem q (m ∷ ms) v =
      let msg = clear_lease m in
      let s : Queue W = record q {
        msgs = update q.msgs q.next msg;
        next = q.next + 1;
        dlq = q.dlq ++ q.next ∷ [];
      } in
      let here : update q.msgs q.next msg q.next ≡ msg = ground arith in
      let parked : map s.msgs s.dlq ≡ map q.msgs q.dlq ++ msg ∷ [] =
        map-append s.msgs q.dlq (q.next ∷ []) ∙ rw (dead-written q v msg, here) refl in
      after_first q s (restore_dead s ms) m ms [] (m ∷ ms) [] refl
        (ap (λ (l : List Msg). l ++ map clear_lease ms) parked
          ∙ append_assoc (map q.msgs q.dlq) (msg ∷ []) (map clear_lease ms))
        (arrived q v msg s refl (held-dlq q q.next)) (refl, refl, refl) refl
        (restore_dead_lem s ms (parked-IsConsistent q v msg))

  -- restore of a consistent queue returns a consistent queue that holds exactly the messages found,
  -- none of them leased, on top of those that it held; the dead letters found come, in their order,
  -- after those that it had. The sequence number is the highest one that was found, the
  -- configuration is kept, and no message becomes inflight.
  pub restore-Returns :
      (q : Queue W) (live dead : List Msg) (max_seq : ℕ) (now : Time)
      → IsConsistent q
      → Returns
          (λ r. Restored (record q { seq = max_seq }) dead live r)
          (restore q live dead max_seq now)
  unfolding restore
  restore-Returns q live dead max_seq now v =
      Returns-bind
        (restore_live_lem (record q { seq = max_seq }) live now
          (record { core = v.core; leases = v.leases; allocated = v.allocated }))
        λ s t. returns (both (record q { seq = max_seq }) s live dead t)
    where
      both :
          (q s : Queue W) (live dead : List Msg)
          → Restored q [] live s
          → Restored q dead live (restore_dead s dead)
      both q s live dead t =
          let u = restore_dead_lem s dead t.consistent in
          record {
            consistent = u.consistent;
            same = Perm.trans u.same (
                Perm.trans (Perm.append_left (map clear_lease (dead ++ [])) t.same) (
                  rw
                    (
                      append-nil dead,
                      map-append clear_lease dead live,
                      append_assoc (map clear_lease dead) (map clear_lease live) (messages q),
                    )
                    Perm.rfl));
            parked =
                u.parked
                ∙ ap (λ (l : List Msg). l ++ map clear_lease dead)
                    (t.parked ∙ append-nil (map q.msgs q.dlq));
            kept = (u.kept.0 ∙ t.kept.0, u.kept.1 ∙ t.kept.1, u.kept.2 ∙ t.kept.2);
            config = u.config ∙ t.config;
          }
