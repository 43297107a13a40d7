-- ===== src/Api/Status.antt =====
-- The statuses of the responses: dead receipts and what passes the check of a new
-- queue.
use artie_takehome.Base.{
  ℕ, ◌*◌, ◌^◌, ◌<◌, ◌≤◌, ◌≡◌, refl, ◌∙◌, arith, String, ℤ, pos, ◌<ℤ◌, false, Option, some, none,
  if◌then◌else◌, str_eq, mul_int64, mul_int64_small, mul_int64_negative, ltb, ap,
}
use artie_takehome.Msg.{Time}
use artie_takehome.Record.{Config, visibility, Log, no_lease, ok}
use artie_takehome.Queue.{Queue, new}
use artie_takehome.Queue.Leases.{lookup}
use artie_takehome.Queue.Settle.{settle-no_lease}
use artie_takehome.Manager
use artie_takehome.Manager.{Manager, get}
use artie_takehome.Manager.Calls.{store}
use artie_takehome.Api.{
  Reply, value, of_queue, outside, fail, max_delay, max_visibility, millisecond,
}
use artie_takehome.Api.Replies.{with_queue-found, with_good-bounded}
use artie_takehome.Api.Messages
use artie_takehome.Api.Messages.{EnqueueReq, ReceiveReq, AckReq, NackReq, ExtendReq}
use artie_takehome.Api.Admin
use artie_takehome.Api.Admin.{ReplayReq, create_reply, is_refused}

module _ {W : Type 0} (m : Manager W) (name : String) where
  -- The queue of the name has no lease under the receipt, and the milliseconds k of the requests
  -- are within twelve hours. Then ack, nack and extend all answer 409 and put the queue back as it
  -- was.
  pub settle_conflict :
      (log : Log W) (q : Queue W) (receipt : String) (k : ℕ) (now : Time)
      → get m name ≡ ok q
      → lookup receipt q.leases ≡ none
      → k * millisecond ≤ max_visibility
      → let conflict : Option (Manager W × Reply) =
          some (store m name q, fail 409 (of_queue no_lease)) in
        (Messages.ack log m name (value (record { receipt = receipt })) ≡ conflict)
        × (Messages.nack log m name (value (record { receipt = receipt; delay_ms = pos k })) now
            ≡ conflict)
        × (Messages.extend m name (value (record { receipt = receipt; visibility_ms = pos k })) now
            ≡ conflict)
  unfolding Messages.ack Messages.nack Messages.extend Messages.finish
  settle_conflict log q receipt k now e f l =
      let (a, n, x) = settle-no_lease log q receipt (pos (k * millisecond)) now f in
      let found = with_queue-found m name q in
      (
        found _ e ∙ rw (a, Messages.finish) refl,
        found _ e
            ∙ (with_good-bounded m k max_delay "delay_ms" _ (omega arith) (omega (arith, l))
                ∙ rw (n, Messages.finish) refl),
        found _ e
            ∙ (with_good-bounded m k max_visibility "visibility_ms" _ (omega arith) l
                ∙ rw (x, Messages.finish) refl),
      )

-- What the check of a new queue's visibility timeout lets through.
pub record Guarded {W : Type 0} (log : Log W) (m : Manager W) (c : Config) (k : ℕ) : Type 0 where
  -- The configuration that goes to Create.
  pub passed :
      k * millisecond ≤ max_visibility
      → Admin.create_queue log m (value c) ≡ some (create_reply (Manager.create log m c))
  pub refused :
      max_visibility < k * millisecond
      → k * millisecond < 2 ^ 63
      → Admin.create_queue log m (value c)
        ≡ some (m, fail 400 (outside "visibility_timeout_ms" 43_200_000))
  pub wrapped :
      2 ^ 63 ≤ k * millisecond
      → k * millisecond < 2 ^ 64
      → (Admin.create_queue log m (value c) ≡ some (create_reply (Manager.create log m c)))
        × (visibility (new c m.wal).cfg <ℤ pos 0)

-- The branches of the handler for a configuration that names a mode.
create_branches :
    {W : Type 0} (log : Log W) (m : Manager W) (c : Config)
    → str_eq c.mode "" ≡ false
    → Admin.create_queue log m (value c) ≡ (
        if is_refused c
        then some (m, fail 400 (outside "visibility_timeout_ms" 43_200_000))
        else some (create_reply (Manager.create log m c)))
unfolding Admin.create_queue
create_branches log m c e = rw e refl

module _ (c : Config) (k : ℕ) (f : c.visibility_timeout_ms ≡ pos k) where
  nanoseconds : visibility c ≡ mul_int64 (pos k) millisecond
  unfolding visibility
  nanoseconds = ap (λ (ms : ℤ). mul_int64 ms millisecond) f

  fits-is_refused : k * millisecond < 2 ^ 63 → is_refused c ≡ ltb max_visibility (k * millisecond)
  unfolding is_refused
  fits-is_refused h = rw (nanoseconds, mul_int64_small k h, f, is_refused) (ground arith)

  wraps-is_refused : 2 ^ 63 ≤ k * millisecond → k * millisecond < 2 ^ 64 → is_refused c ≡ false
  unfolding is_refused
  wraps-is_refused l h = rw (nanoseconds, f, is_refused) (ground (arith, mul_int64_negative k l h))

  kept-visibility :
      {W : Type 0} (w : W) → 0 < k → visibility (new c w).cfg ≡ mul_int64 (pos k) millisecond
  unfolding visibility new
  kept-visibility w h = rw f (ground (arith, h))

-- The configuration names a mode and a visibility timeout of k milliseconds. Up to twelve hours it
-- goes on to Create. A longer timeout is refused as long as its nanoseconds fit in an int64. From
-- there on, up to 2 ^ 64 nanoseconds, it goes on to Create too, and the new queue has a negative
-- visibility.
pub create_guard :
    {W : Type 0} (log : Log W) (m : Manager W) (c : Config) (k : ℕ)
    → str_eq c.mode "" ≡ false
    → c.visibility_timeout_ms ≡ pos k
    → Guarded log m c k
create_guard log m c k e f = record {
  passed = λ l.
      create_branches log m c e ∙ rw (fits-is_refused c k f (omega (arith, l))) (ground (arith, l));
  refused = λ l h. create_branches log m c e ∙ rw (fits-is_refused c k f h) (ground (arith, l));
  wrapped = λ l h. (
    create_branches log m c e ∙ rw (wraps-is_refused c k f l h) refl,
    rw (kept-visibility c k f m.wal (omega (arith, l))) (mul_int64_negative k l h),
  );
}
