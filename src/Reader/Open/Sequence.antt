-- ===== src/Reader/Open/Sequence.antt =====
-- Three calls in a row: how `open_base` is put together.
use elfrc.Base.{◌≡◌, ◌≢◌, ◌⊎◌, inl, inr, refl}
use elfrc.Reader.Outcome.{ErfError, Outcome, ok, err, fault, ◌>>=◌, ◌>>◌}

module _ {T R C : Type 0} (f : T → R → C) where
  -- Three calls in a row, the last two with a result.
  abbrev pub three : Outcome (Unit {0}) → Outcome T → Outcome R → Outcome C
  three m n k = m >> (do t ← n; r ← k; ok (f t r))

  pub three_inversion :
      (m : Outcome (Unit {0})) (n : Outcome T) (k : Outcome R) {c : C}
      → three m n k ≡ ok c
      → (t : T) × (r : R) × (m ≡ ok tt) × (n ≡ ok t) × (k ≡ ok r) × (f t r ≡ c)
  three_inversion (ok tt) (ok t) (ok r) e = (t, r, refl, refl, refl, cc)
  three_inversion (ok tt) (ok t) (err x) e = cc
  three_inversion (ok tt) (ok t) fault e = cc
  three_inversion (ok tt) (err x) k e = cc
  three_inversion (ok tt) fault k e = cc
  three_inversion (err x) n k e = cc
  three_inversion fault n k e = cc

  pub three-ne-fault :
      (m : Outcome (Unit {0})) (n : Outcome T) (k : Outcome R)
      → m ≢ fault
      → (m ≡ ok tt → (n ≢ fault) × (k ≢ fault))
      → three m n k ≢ fault
  three-ne-fault (ok tt) (ok t) (ok r) p q e = cc
  three-ne-fault (ok tt) (ok t) (err x) p q e = cc
  three-ne-fault (ok tt) (ok t) fault p q e = (q refl).1 refl
  three-ne-fault (ok tt) (err x) k p q e = cc
  three-ne-fault (ok tt) fault k p q e = (q refl).0 refl
  three-ne-fault (err x) n k p q e = cc
  three-ne-fault fault n k p q e = p refl

  -- An error is that of the first call that fails.
  pub three_error :
      (m : Outcome (Unit {0})) (n : Outcome T) (k : Outcome R) {x : ErfError}
      → three m n k ≡ err x
      → (m ≡ err x) ⊎ ((m ≡ ok tt) × ((n ≡ err x) ⊎ (k ≡ err x)))
  three_error (ok tt) (ok t) (ok r) e = cc
  three_error (ok tt) (ok t) (err x) e = inr (refl, inr (cc))
  three_error (ok tt) (ok t) fault e = cc
  three_error (ok tt) (err x) k e = inr (refl, inl (cc))
  three_error (ok tt) fault k e = cc
  three_error (err x) n k e = inl (cc)
  three_error fault n k e = cc

pub three_ok :
    {T R C : Type 0} (f : T → R → C) {m : Outcome (Unit {0})} {n : Outcome T} {k : Outcome R}
    {t : T} {r : R}
    → m ≡ ok tt
    → n ≡ ok t
    → k ≡ ok r
    → three f m n k ≡ ok (f t r)
three_ok f p q s = rw (p, q, s) refl

pub three_stops :
    {T R C : Type 0} (f : T → R → C) {m : Outcome (Unit {0})} (n : Outcome T) (k : Outcome R)
    {x : ErfError}
    → m ≡ err x
    → three f m n k ≡ err x
three_stops f n k p = rw p refl
