-- ===== src/Reader/Open/Verdict.antt =====
-- What `erf_open_memory` makes of a memory, in every case.
use elfrc.Base.{
  ℕ, ◌^◌, ◌≤◌, ◌<◌, ◌≡◌, ◌≢◌, refl, sym, subst, dec_lt, ◌∙◌, arith, List, some, true, false,
  Bool-cases, inl, inr, ℕ_discrete, length, ltb, ◌==◌,
}
use elfrc.Bytes.{bytes_eq}
use elfrc.Format.{erf_magic, sizeof_header}
use elfrc.Reader.Outcome.{
  bad_magic, unsupported_version, truncated, bad_offset, invalid_argument, Outcome, ok, err, fault,
}
use elfrc.Reader.Container.{Container}
use elfrc.Reader.Open.{erf_open_memory}
use elfrc.Reader.Open.Errors.{erf_open_memory_errors}
use elfrc.Reader.Open.Sound.{
  stored_header, Acceptable, IsOpened, erf_open_memory-ne-fault, erf_open_memory-IsOpened,
  erf_open_memory_accepts,
}

-- The results, each with what the memory is then. The conditions exclude each other.
pub data Verdict (b : List ℕ) (size : ℕ) : Outcome Container → Type 0 where
  no_bytes : size ≡ 0 → Verdict b size (err invalid_argument)
  no_header : 0 < size → size < sizeof_header → Verdict b size (err truncated)
  other_magic :
      sizeof_header ≤ size
      → bytes_eq (stored_header b).magic erf_magic ≡ false
      → Verdict b size (err bad_magic)
  other_version :
      sizeof_header ≤ size
      → bytes_eq (stored_header b).magic erf_magic ≡ true
      → (stored_header b).version_major ≢ 1
      → Verdict b size (err unsupported_version)
  out_of_range :
      sizeof_header ≤ size
      → bytes_eq (stored_header b).magic erf_magic ≡ true
      → (stored_header b).version_major ≡ 1
      → (Acceptable b size → ⊥)
      → Verdict b size (err bad_offset)
  accepted : (c : Container) → Acceptable b size → IsOpened b size c → Verdict b size (ok c)

short-Verdict :
    (b : List ℕ) (size : ℕ) → size < sizeof_header → Verdict b size (erf_open_memory (some b) size)
unfolding erf_open_memory
short-Verdict b size short =
    let test : ltb size sizeof_header ≡ true = ground arith in
    elim (ℕ_discrete size 0) [
      | yes none_there ↦
          let zero_size : (size == 0) ≡ true = ground arith in
          rw (erf_open_memory, test, zero_size) (no_bytes none_there)
      | no some_there ↦
          let some_size : (size == 0) ≡ false = ground arith in
          rw (erf_open_memory, test, some_size) (no_header (omega arith) short)
    ]

module _ (b : List ℕ) (size : ℕ) (fits : size ≤ length b) (word : size < 2 ^ 64) where
  ranges-Verdict :
      (o : Outcome Container)
      → sizeof_header ≤ size
      → bytes_eq (stored_header b).magic erf_magic ≡ true
      → (stored_header b).version_major ≡ 1
      → erf_open_memory (some b) size ≡ o
      → Verdict b size o
  ranges-Verdict (ok c) long magic version e =
      let (a, o) = erf_open_memory-IsOpened b size fits word e in accepted c a o
  ranges-Verdict (err x) long magic version e =
      let known = (erf_open_memory_errors b size fits long).2 x magic version e in
      subst (λ y. Verdict b size (err y)) (sym known)
        (out_of_range long magic version (λ a.
          let (c, opens) = erf_open_memory_accepts b size fits word a in
          let clash : ◌≡◌ {A = Outcome Container} (err x) (ok c) = sym e ∙ opens in cc))
  ranges-Verdict fault long magic version e = absurd (erf_open_memory-ne-fault b size fits word e)

  -- If the memory holds at least the `size` bytes it is opened with, and `size` is a 64-bit word,
  -- then `erf_open_memory` reports an invalid argument for no bytes, TRUNCATED for fewer than a
  -- header's, and otherwise first a wrong magic, then a wrong major version; of the others it opens
  -- exactly the acceptable ones, with the header and the resources that the memory encodes, and
  -- reports BAD_OFFSET for all the rest, also where the header claims more bytes than there are.
  -- Acceptable are those whose header fields, directory, hash table, names and data are in range;
  -- the metadata, signature and data offsets of the header and the metadata offsets of the entries
  -- are not tested.
  pub erf_open_memory-Verdict : Verdict b size (erf_open_memory (some b) size)
  erf_open_memory-Verdict = elim (dec_lt size sizeof_header) [
    | yes short ↦ short-Verdict b size short
    | no long ↦
        let fits_header : sizeof_header ≤ size = omega arith in
        let (wrong_magic, wrong_version, _) = erf_open_memory_errors b size fits fits_header in
        elim (Bool-cases (bytes_eq (stored_header b).magic erf_magic)) [
          | inr other ↦
              subst (Verdict b size) (sym (wrong_magic other)) (other_magic fits_header other)
          | inl magic ↦ elim (ℕ_discrete (stored_header b).version_major 1) [
            | no other ↦
                subst (Verdict b size) (sym (wrong_version magic other))
                  (other_version fits_header magic other)
            | yes version ↦
                ranges-Verdict (erf_open_memory (some b) size) fits_header magic version refl
          ]
        ]
  ]
