-- ===== src/Manager/Reread.antt =====
-- What recovery makes of one record after another.
use artie_takehome.Base.{
  ◌≡◌, refl, sym, ap, ◌∙◌, Bool, true, false, String, ℤ, List, [], ◌∷◌, ◌++◌, Option, some, none,
  arith, if◌then◌else◌, str_eq, str_eq_iff, Option-cases, inl, inr, ◌⊎◌, eqb_ℤ, pos,
}
use artie_takehome.Maps.{find, insert, find-insert, IsUnique, insert-IsUnique}
use artie_takehome.Record.{Record, Op, Config}
use artie_takehome.Queue.{Queue, new}
use artie_takehome.Wal.{Codec, stamped}
use artie_takehome.Wal.Scan.{is_epoch}
use artie_takehome.Wal.Scan.Rewrite.{all_stamped}
use artie_takehome.Wal.Recovery.{replayed}
use artie_takehome.Manager.{stage}
use artie_takehome.Manager.Recover.{Recovery, created, touches, staging_of, recover_record}
use artie_takehome.Manager.Separate.{recovered, Bears}

module _ {W : Type 0} (w : W) where
  recover_record-stamped :
      (codec : Codec) (st : Recovery W) (rec : Record) (now : ℤ)
      → recover_record w st (stamped codec rec now) ≡ recover_record w st rec
  unfolding recover_record stage
  recover_record-stamped codec st rec now = go (eqb_ℤ rec.at (pos 0))
    where
      go :
          (b : Bool)
          → recover_record w st (if b then record rec { at = now } else rec)
            ≡ recover_record w st rec
      go true = refl
      go false = refl

  recover_record-epoch :
      (st : Recovery W) (rec : Record) → is_epoch rec.op ≡ true → recover_record w st rec ≡ st
  unfolding recover_record
  recover_record-epoch st rec e = go rec.op e
    where
      go : (op : Op) → is_epoch op ≡ true → recover_record w st (record rec { op = op }) ≡ st
      go Op.epoch e = refl
      go Op.create_queue e = absurd (cc)
      go Op.enqueue e = absurd (cc)
      go Op.lease e = absurd (cc)
      go Op.ack e = absurd (cc)
      go Op.nack e = absurd (cc)
      go Op.dlq e = absurd (cc)
      go Op.replay e = absurd (cc)
      go (Op.unknown t) e = absurd (cc)

  -- The times of the records and the epochs do not matter to recovery.
  pub replayed-recovered :
      (codec : Codec) (st : Recovery W) (recs : List Record) (now : ℤ)
      → replayed (recover_record w) st (all_stamped codec recs now) ≡ recovered w st recs
  unfolding replayed recovered all_stamped
  replayed-recovered codec st [] now = refl
  replayed-recovered codec st (rec ∷ recs) now =
      ap (λ (s : Recovery W). replayed (recover_record w) s (all_stamped codec recs now))
        (skip (is_epoch (stamped codec rec now).op) refl ∙ recover_record-stamped codec st rec now)
      ∙ replayed-recovered codec (recover_record w st rec) recs now
    where
      skip :
          (b : Bool)
          → is_epoch (stamped codec rec now).op ≡ b
          → (if b then st else recover_record w st (stamped codec rec now))
            ≡ recover_record w st (stamped codec rec now)
      skip true e = sym (recover_record-epoch st (stamped codec rec now) e)
      skip false e = refl

  pub recovered-append :
      (st : Recovery W) (a b : List Record)
      → recovered w st (a ++ b) ≡ recovered w (recovered w st a) b
  unfolding recovered
  recovered-append st [] b = refl
  recovered-append st (rec ∷ a) b = recovered-append (recover_record w st rec) a b

  created-cases :
      (qs : List (String × Queue W)) (rec : Record)
      → (created w qs rec ≡ qs)
        ⊎ ((c : Config) × (find rec.queue qs ≡ none)
            × (created w qs rec ≡ insert rec.queue (new c w) qs))
  created-cases qs rec = go rec.op rec.config (Option-cases (find rec.queue qs))
    where
      go :
          (op : Op) (c : Option Config)
          → (find rec.queue qs ≡ none) ⊎ ((q : Queue W) × (find rec.queue qs ≡ some q))
          → let r = record rec { op = op; config = c } in
            (created w qs r ≡ qs)
            ⊎ ((c : Config) × (find rec.queue qs ≡ none)
                × (created w qs r ≡ insert rec.queue (new c w) qs))
      go Op.create_queue none o = inl refl
      go Op.create_queue (some c) (inl e) = inr (c, e, rw (e, created) refl)
      go Op.create_queue (some c) (inr (q, e)) = inl (rw (e, created) refl)
      go Op.enqueue c o = inl refl
      go Op.lease c o = inl refl
      go Op.ack c o = inl refl
      go Op.nack c o = inl refl
      go Op.dlq c o = inl refl
      go Op.replay c o = inl refl
      go Op.epoch c o = inl refl
      go (Op.unknown t) c o = inl refl

  pub created-found :
      (name : String) (qs : List (String × Queue W)) (rec : Record) (q : Queue W)
      → find name qs ≡ some q
      → find name (created w qs rec) ≡ some q
  created-found name qs rec q e = elim (created-cases qs rec) [
    | inl same ↦ rw same e
    | inr (c, free, more) ↦
        rw (more, find-insert name rec.queue (new c w) qs)
          (ground (arith, e, free, str_eq_iff rec.queue name))
  ]

  pub created-other :
      (name : String) (qs : List (String × Queue W)) (rec : Record)
      → str_eq rec.queue name ≡ false
      → find name (created w qs rec) ≡ find name qs
  created-other name qs rec e = elim (created-cases qs rec) [
    | inl same ↦ rw same refl
    | inr (c, free, more) ↦ rw (more, find-insert name rec.queue (new c w) qs, e) refl
  ]

  -- Over many records: what was created stays, and another name's records do not matter.
  pub recovered-found :
      (name : String) (st : Recovery W) (recs : List Record) (q : Queue W)
      → find name st.queues ≡ some q
      → find name (recovered w st recs).queues ≡ some q
  unfolding recovered recover_record
  recovered-found name st [] q e = e
  recovered-found name st (rec ∷ recs) q e =
      recovered-found name (recover_record w st rec) recs q (created-found name st.queues rec q e)

  pub recovered-other :
      (key name : String) (st : Recovery W) (recs : List Record)
      → Bears key recs
      → str_eq key name ≡ false
      → find name (recovered w st recs).queues ≡ find name st.queues
  unfolding recovered recover_record
  recovered-other key name st [] b e = refl
  recovered-other key name st (rec ∷ recs) (same, b) e =
      recovered-other key name (recover_record w st rec) recs b e
      ∙ created-other name st.queues rec (ap (λ (k : String). str_eq k name) same ∙ e)

  pub recovered-IsUnique :
      (st : Recovery W) (recs : List Record)
      → IsUnique st.pending
      → IsUnique (recovered w st recs).pending
  unfolding recovered recover_record
  recovered-IsUnique st [] u = u
  recovered-IsUnique st (rec ∷ recs) u =
      recovered-IsUnique (recover_record w st rec) recs (step (touches rec))
    where
      step :
          (b : Bool)
          → IsUnique (
              if b
              then insert rec.queue (stage (staging_of rec.queue st.pending) rec) st.pending
              else st.pending)
      step true = insert-IsUnique rec.queue _ st.pending u
      step false = u
