-- ===== src/Server/Exits.antt =====
-- How the process ends.
use mathlib.Core.Path.{subst}
use artie_takehome.Base.{
  ◌>>=◌, arith, ◌++◌, ◌⊎◌, Returns-inv, ap, sym, ◌∙◌, ℕ, ◌≡◌, refl, ◌↔◌, List, [], ◌∷◌, Option,
  none, some, false, Returns, returns, Returns-bind, Option-cases, inl, inr,
}
use artie_takehome.Msg.{Time}
use artie_takehome.Record.{Error, ok, Result-cases}
use artie_takehome.Wal.{Codec, Wal, Io, success, head_io, tail_io}
use artie_takehome.Wal.Writes.{Io-cases}
use artie_takehome.Wal.Service.{close}
use artie_takehome.Manager.{Manager}
use artie_takehome.Manager.Calls.{close_manager}
use artie_takehome.Manager.Managed.{IsManaged, pump_tick-Returns}
use artie_takehome.Manager.Recover.{open_manager}
use artie_takehome.Manager.Opened.{open_manager-Returns}
use artie_takehome.Api.Routes.{log_at}
use artie_takehome.Api.Managed.{IsRunnable, handle-Returns}
use artie_takehome.Server.{
  Flags, Event, request, pumped, flushed, Stop, listen_failed, signalled, Life, Exit, serve_event,
  serve_events, shut_down, exit_of, close_exit, stop_server, run_server, main,
}

module _ (codec : Codec) where
  -- What an event, and events one after another, assume of their environment.
  abbrev IsPossible : Manager Wal → Event → Type 0
  IsPossible m (request r) = IsRunnable m r
  IsPossible m e = Unit {0}

  abbrev pub ArePossible : Manager Wal → List Event → Type 0
  ArePossible m [] = Unit {0}
  ArePossible m (e ∷ es) =
      IsPossible m e × ((m' : Manager Wal) → serve_event codec m e ≡ some m' → ArePossible m' es)

  serve_event-Returns :
      (m : Manager Wal) (e : Event)
      → IsManaged m
      → IsPossible m e
      → Returns (λ n. IsManaged n) (serve_event codec m e)
  unfolding serve_event
  serve_event-Returns m (request r) v k =
      Returns-bind (handle-Returns codec m v r k) λ (m', reply) u. returns u
  serve_event-Returns m (pumped now) v k =
      Returns-bind (pump_tick-Returns (log_at codec now) m.queues m.wal now v)
        λ (qs, w) u. returns u
  serve_event-Returns m flushed v k = returns v

  serve_events-Returns :
      (m : Manager Wal) (es : List Event)
      → IsManaged m
      → ArePossible m es
      → Returns (λ n. IsManaged n) (serve_events codec m es)
  unfolding serve_events
  serve_events-Returns m [] v k = returns v
  serve_events-Returns m (e ∷ es) v (here, rest) =
      let (m', f, u) = Returns-inv (serve_event-Returns m e v here) in
      rw (f, serve_events) (serve_events-Returns m' es u (rest m' f))

  ArePossible-served :
      (m : Manager Wal) (es fs : List Event) → ArePossible m (es ++ fs) → ArePossible m es
  ArePossible-served m [] fs k = tt
  ArePossible-served m (e ∷ es) fs (here, rest) =
      (here, λ n f. ArePossible-served n es fs (rest n f))

  -- The events of the shutdown.
  abbrev pub stopping : Life → List Event
  stopping life = elim life.timed_out [
    | none ↦ life.draining
    | some e ↦ life.draining ++ life.closing
  ]

  serve_events-append :
      (m : Manager Wal) (es fs : List Event)
      → serve_events codec m (es ++ fs) ≡ (serve_events codec m es >>= λ n. serve_events codec n fs)
  unfolding serve_events
  serve_events-append m [] fs = refl
  serve_events-append m (e ∷ es) fs = elim (Option-cases (serve_event codec m e)) [
    | inl f ↦ rw f refl
    | inr (n, f) ↦ rw f (serve_events-append n es fs)
  ]

  shut_down-serves :
      (m : Manager Wal) (life : Life)
      → shut_down codec m life ≡ serve_events codec m (stopping life)
  unfolding shut_down
  shut_down-serves m life = elim (Option-cases life.timed_out) [
    | inr (x, e) ↦ rw (e, shut_down, serve_events-append m life.draining life.closing) refl
    | inl e ↦ elim (Option-cases (serve_events codec m life.draining)) [
      | inl f ↦ rw (e, f, shut_down) refl
      | inr (n, f) ↦ rw (e, f, shut_down) refl
    ]
  ]

  module _ (flags : Flags) (file : List ℕ) (io : List Io) (now : Time) (life : Life) where
    -- The events of the life are possible ones, whatever the log held.
    pub record IsLively : Type 0 where
      pub serving :
          (m : Manager Wal)
          → open_manager codec file flags.fsync_every io now ≡ some (ok m)
          → ArePossible m (life.served ++ stopping life)

    -- The log opened, a signal came, and after the last event the final fsync and the closing of
    -- the file succeeded.
    pub record IsClean : Type 0 where
      pub signal : life.stop ≡ signalled
      pub start : Manager Wal
      pub end : Manager Wal
      pub opened : open_manager codec file flags.fsync_every io now ≡ some (ok start)
      pub served : serve_events codec start (life.served ++ stopping life) ≡ some end
      pub forced : head_io end.wal.io ≡ success
      pub released : head_io (tail_io end.wal.io) ≡ success

    -- The manager but for the two calls of the file system that Close makes.
    abbrev pub closed : Manager Wal → Manager Wal
    closed m = record m { wal = record m.wal { io = tail_io (tail_io m.wal.io) } }

    pub record IsExit (r : Exit) : Type 0 where
      pub status : (r.status ≡ 0) ⊎ (r.status ≡ 1)
      pub managed : (m : Manager Wal) → r.left ≡ some m → IsManaged m
      pub clean : (r.status ≡ 0) ↔ IsClean
      pub left : (c : IsClean) → r.left ≡ some (closed c.end)

    failing :
        (left : Option (Manager Wal))
        → ((m : Manager Wal) → left ≡ some m → IsManaged m)
        → (IsClean → ⊥)
        → Returns IsExit (some (record { status = 1; left = left }))
    failing left v never = returns record {
      status = inr refl;
      managed = v;
      clean = (λ e. absurd (omega (arith, e)), λ c. absurd (never c));
      left = λ c. absurd (never c);
    }

    only : (m : Manager Wal) → IsManaged m → (n : Manager Wal) → some m ≡ some n → IsManaged n
    only m v n e = subst (λ (x : Manager Wal). IsManaged x) {x = m} {y = n} (cc) v

    close_exit-closed :
        (m : Manager Wal)
        → head_io m.wal.io ≡ success
        → head_io (tail_io m.wal.io) ≡ success
        → close_exit codec m ≡ record { status = 0; left = some (closed m) }
    unfolding close_exit close_manager close
    close_exit-closed m g h =
        let released : close false m.wal
            ≡ (record m.wal { io = tail_io (tail_io m.wal.io) }, none) =
          rw (g, h, close) refl in
        ap (λ (c : Wal × Option Error). exit_of (record m { wal = c.0 }) c.1) released

    module _ (start end : Manager Wal)
        (o : open_manager codec file flags.fsync_every io now ≡ some (ok start))
        (e : serve_events codec start (life.served ++ stopping life) ≡ some end) where
      same_end : (c : IsClean) → c.end ≡ end
      same_end c = let same : c.start ≡ start = cc (c.opened, o) in cc (rw same at c.served, e)

      closing-Returns :
          life.stop ≡ signalled → IsManaged end → Returns IsExit (some (close_exit codec end))
      unfolding close_exit close_manager close
      closing-Returns s v = elim (Io-cases (head_io end.wal.io)) [
        | inr (j, x, g) ↦
            rw (g, exit_of, close_exit, close_manager, close)
              (failing _ (only _ v) λ c. cc (c.forced, same_end c, g))
        | inl g ↦ elim (Io-cases (head_io (tail_io end.wal.io))) [
          | inr (j, x, h) ↦
              rw (g, h, exit_of, close_exit, close_manager, close)
                (failing _ (only _ v) λ c. cc (c.released, same_end c, h))
          | inl h ↦ rw (close_exit-closed end g h) (
              returns record {
                status = inl refl;
                managed = only _ v;
                clean = (
                  λ _. record {
                    signal = s;
                    start = start;
                    end = end;
                    opened = o;
                    served = e;
                    forced = g;
                    released = h;
                  },
                  λ c. refl,
                );
                left = λ c. ap (λ m. some (closed m)) (sym (same_end c));
              })
        ]
      ]

    stop_server-Returns :
        (start m : Manager Wal)
        → life.stop ≡ signalled
        → open_manager codec file flags.fsync_every io now ≡ some (ok start)
        → serve_events codec start life.served ≡ some m
        → IsManaged start
        → ArePossible start (life.served ++ stopping life)
        → Returns IsExit (stop_server codec m life)
    unfolding stop_server
    stop_server-Returns start m s o e v k =
        let (end, f, u) =
          Returns-inv (serve_events-Returns start (life.served ++ stopping life) v k) in
        let split = serve_events-append start life.served (stopping life) in
        let rest : shut_down codec m life ≡ some end =
          shut_down-serves m life ∙ cc (rw e at split, f) in
        rw (rest, stop_server) (closing-Returns start end o f s u)

    run_server-Returns :
        (m : Manager Wal)
        → open_manager codec file flags.fsync_every io now ≡ some (ok m)
        → IsManaged m
        → ArePossible m (life.served ++ stopping life)
        → Returns IsExit (run_server codec m life)
    unfolding run_server
    run_server-Returns m e v k =
        let k1 = ArePossible-served m life.served (stopping life) k in
        let (n, f, u) = Returns-inv (serve_events-Returns m life.served v k1) in
        rw (f, run_server) (ended n f u life.stop refl)
      where
        ended :
            (n : Manager Wal)
            → serve_events codec m life.served ≡ some n
            → IsManaged n
            → (s : Stop) → life.stop ≡ s
            → Returns IsExit (elim s [
              | listen_failed x ↦ some (record { status = 1; left = some n })
              | signalled ↦ stop_server codec n life
            ])
        ended n f u (listen_failed x) s = failing _ (only n u) λ c. cc (c.signal, s)
        ended n f u signalled s = stop_server-Returns m n s e f v k

    -- Whatever the log's file holds: if the process opens it, then of each receive in its life, in
    -- the manager that it finds, the tokens of each round are unused in the queue that the round
    -- finds and the other clients leave the queue consistent, which is asked of consistent queues
    -- with no more receipts than the round before found. Then the process ends, with status 0 or 1,
    -- and the queues of a manager that it leaves are consistent. The status is 0 exactly if the log
    -- opened, a signal came, and the fsync and the closing of the file after the last event
    -- succeeded; then that is what Close has left.
    pub main-Returns :
        ((m : Manager Wal)
          → open_manager codec file flags.fsync_every io now ≡ some (ok m)
          → ArePossible m (life.served ++ stopping life))
        → Returns IsExit (main codec flags file io now life)
    unfolding main
    main-Returns possible =
        let (r, e, h) = Returns-inv (open_manager-Returns codec file flags.fsync_every io now) in
        elim (Result-cases r) [
          | inr (x, bad) ↦
              rw (e, bad, main) (failing none (λ m f. absurd (cc)) λ c. cc (c.opened, e, bad))
          | inl (m, good) ↦
              let o = e ∙ ap some good in
              rw (e, good, main) (run_server-Returns m o (h m good) (possible m o))
        ]
