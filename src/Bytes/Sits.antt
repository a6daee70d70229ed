-- ===== src/Bytes/Sits.antt =====
-- Where bytes stand in a memory, and what keeps them there.
use elfrc.Base.{
  ℕ, zero, suc, ◌+◌, ◌≤◌, ◌≡◌, refl, sym, ap, ◌∙◌, arith, List, [], ◌∷◌, ◌++◌, some, length, take,
  drop, length-append, length-drop, append_assoc, take-append, drop-append,
}
use elfrc.Bytes.{read, string_at, with_nul}
use elfrc.Bytes.Laws.{read-append, IsCString, string_at-append}

-- `bytes` stand at `off`.
pub record Sits (mem : List ℕ) (off : ℕ) (bytes : List ℕ) : Type 0 where
  pub front : List ℕ
  pub back : List ℕ
  pub split : mem ≡ front ++ (bytes ++ back)
  pub here : off ≡ length front

pub Sits-behind : (front bytes back : List ℕ) → Sits (front ++ (bytes ++ back)) (length front) bytes
Sits-behind front bytes back = record { front = front; back = back; split = refl; here = refl }

pub drop-within : (k : ℕ) (xs ys : List ℕ) → k ≤ length xs → drop k (xs ++ ys) ≡ drop k xs ++ ys
drop-within zero xs ys h = refl
drop-within (suc k) [] ys h = absurd (omega arith)
drop-within (suc k) (x ∷ xs) ys h = drop-within k xs ys (omega arith)

module _ {mem : List ℕ} {off : ℕ} where
  pub Sits-room : {bytes : List ℕ} → Sits mem off bytes → off + length bytes ≤ length mem
  Sits-room {bytes} s = omega (
    arith,
    s.here,
    ap length s.split,
    length-append s.front (bytes ++ s.back),
    length-append bytes s.back,
  )

  pub Sits-append :
      {bytes : List ℕ} (more : List ℕ) → Sits mem off bytes → Sits (mem ++ more) off bytes
  Sits-append {bytes} more s = record {
    front = s.front;
    back = s.back ++ more;
    split =
        ap (λ m. m ++ more) s.split
        ∙ append_assoc s.front (bytes ++ s.back) more
        ∙ ap (λ m. s.front ++ m) (append_assoc bytes s.back more);
    here = s.here;
  }

  pub Sits-left : (xs ys : List ℕ) → Sits mem off (xs ++ ys) → Sits mem off xs
  Sits-left xs ys s = record {
    front = s.front;
    back = ys ++ s.back;
    split = s.split ∙ ap (λ m. s.front ++ m) (append_assoc xs ys s.back);
    here = s.here;
  }

  pub Sits-right : (xs ys : List ℕ) → Sits mem off (xs ++ ys) → Sits mem (off + length xs) ys
  Sits-right xs ys s = record {
    front = s.front ++ xs;
    back = s.back;
    split =
        s.split
        ∙ ap (λ m. s.front ++ m) (append_assoc xs ys s.back)
        ∙ sym (append_assoc s.front xs (ys ++ s.back));
    here = omega (arith, s.here, length-append s.front xs);
  }

  -- The bytes before them may be replaced.
  pub Sits-replace :
      {bytes : List ℕ} (new : List ℕ)
      → length new ≤ off
      → Sits mem off bytes
      → Sits (new ++ drop (length new) mem) off bytes
  Sits-replace {bytes} new room s =
      let k = length new in
      record {
        front = new ++ drop k s.front;
        back = s.back;
        split =
            ap (λ m. new ++ drop k m) s.split
            ∙ ap (λ m. new ++ m) (drop-within k s.front (bytes ++ s.back) (omega (arith, s.here)))
            ∙ sym (append_assoc new (drop k s.front) (bytes ++ s.back));
        here = omega (arith, s.here, length-append new (drop k s.front), length-drop k s.front);
      }

  pub read-Sits :
      (bytes : List ℕ) {n : ℕ} → n ≡ length bytes → Sits mem off bytes → read mem off n ≡ some bytes
  read-Sits bytes {n} e s =
      ap (λ m. read m off n) s.split ∙ read-append s.front bytes s.back off n s.here e

  pub slice-Sits :
      (bytes : List ℕ) {n : ℕ}
      → n ≡ length bytes
      → Sits mem off bytes
      → take n (drop off mem) ≡ bytes
  slice-Sits bytes {n} e s =
      ap (λ m. take n (drop off m)) s.split
      ∙ ap (take n) (drop-append s.front (bytes ++ s.back) off s.here)
      ∙ take-append bytes s.back n e

  pub string_at-Sits :
      (text : List ℕ)
      → IsCString text
      → Sits mem off (with_nul text)
      → string_at mem off ≡ some text
  string_at-Sits text ok s =
      ap (λ m. string_at m off) s.split ∙ string_at-append s.front text s.back off s.here ok
