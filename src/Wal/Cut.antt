-- ===== src/Wal/Cut.antt =====
-- The bytes of records, cut off at any place.
use mathlib.Core.List.{append_assoc, Sublist, nil-sublist}
use mathlib.Core.List.Sublist
use artie_takehome.Base.{
  ℕ, zero, suc, leb, ◌-◌, ◌≤◌, ◌≡◌, refl, sym, ◌∙◌, ap, List, [], ◌∷◌, ◌++◌, Bool-cases, inl, inr,
  arith, length, take,
}
use artie_takehome.Record.{Record}
use artie_takehome.Wal.{Codec}
use artie_takehome.Wal.Recovery.{Written, nothing, record_written, IsTorn}

take-nil : (n : ℕ) → Path (List ℕ) (take n []) []
take-nil zero = refl
take-nil (suc n) = refl

pub take-within : (n : ℕ) (xs ys : List ℕ) → n ≤ length xs → take n (xs ++ ys) ≡ take n xs
take-within zero xs ys h = refl
take-within (suc n) [] ys h = absurd (omega arith)
take-within (suc n) (x ∷ xs) ys h = ap (◌∷◌ x) (take-within n xs ys (omega arith))

pub take-past :
    (n : ℕ) (xs ys : List ℕ) → length xs ≤ n → take n (xs ++ ys) ≡ xs ++ take (n - length xs) ys
take-past n [] ys h = let none_off : n ≡ n - 0 = omega arith in ap (λ (k : ℕ). take k ys) none_off
take-past zero (x ∷ xs) ys h = absurd (omega arith)
take-past (suc n) (x ∷ xs) ys h =
    let fewer : suc n - suc (length xs) ≡ n - length xs = omega arith in
    rw fewer (ap (◌∷◌ x) (take-past n xs ys (omega arith)))

module _ (codec : Codec) where
  -- Bytes of records one after another are the bytes of the first and those of the others.
  pub Written-split :
      (recs more : List Record) (bytes : List ℕ)
      → Written codec (recs ++ more) bytes
      → (front : List ℕ) × (back : List ℕ) × (bytes ≡ front ++ back)
        × Written codec recs front
        × Written codec more back
  Written-split [] more bytes w = ([], bytes, refl, nothing, w)
  Written-split (rec ∷ recs) more bytes (record_written {buf = buf} {bytes = bytes'} e w) =
      let (front, back, f, a, b) = Written-split recs more bytes' w in
      (
        buf ++ front,
        back,
        ap (◌++◌ buf) f ∙ sym (append_assoc buf front back),
        record_written e a,
        b,
      )

  pub Written-same :
      {recs : List Record} {a b : List ℕ} → Written codec recs a → Written codec recs b → a ≡ b
  Written-same nothing nothing = refl
  Written-same (record_written {buf = x} e w) (record_written {buf = y} f v) =
      let same : x ≡ y = cc in rw (same, Written-same w v) refl

  -- A part of the bytes of records: whole records, and a torn tail.
  pub record Cut (recs : List Record) (bytes : List ℕ) : Type 0 where
    pub kept : List Record
    pub front : List ℕ
    pub tail : List ℕ
    pub split : bytes ≡ front ++ tail
    pub whole : Written codec kept front
    pub torn : IsTorn codec tail
    pub among : Sublist kept recs

  pub take-Cut :
      {recs : List Record} {bytes : List ℕ} (n : ℕ)
      → Written codec recs bytes
      → Cut recs (take n bytes)
  take-Cut n nothing = record {
    kept = [];
    front = [];
    tail = [];
    split = take-nil n;
    whole = nothing;
    torn = IsTorn.clean refl;
    among = nil-sublist _;
  }
  take-Cut zero (record_written e w) = record {
    kept = [];
    front = [];
    tail = [];
    split = refl;
    whole = nothing;
    torn = IsTorn.clean refl;
    among = nil-sublist _;
  }
  take-Cut (suc n) (record_written {rec = rec} {buf = buf} {bytes = bytes} e w) =
      elim (Bool-cases (leb (length buf) (suc n))) [
        | inr short ↦ record {
          kept = [];
          front = [];
          tail = take (suc n) buf;
          split = take-within (suc n) buf bytes (ground (arith, short));
          whole = nothing;
          torn = IsTorn.cut rec buf (suc n) e (omega arith) (ground (arith, short)) refl;
          among = nil-sublist _;
        }
        | inl long ↦
            let t = take-Cut (suc n - length buf) w in
            record {
              kept = rec ∷ t.kept;
              front = buf ++ t.front;
              tail = t.tail;
              split =
                  take-past (suc n) buf bytes (ground (arith, long))
                  ∙ ap (◌++◌ buf) t.split
                  ∙ sym (append_assoc buf t.front t.tail);
              whole = record_written e t.whole;
              torn = t.torn;
              among = Sublist.append (Sublist.refl (rec ∷ [])) t.among;
            }
      ]
