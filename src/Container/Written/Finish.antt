-- ===== src/Container/Written/Finish.antt =====
-- The header and the directory are written into their places.
use elfrc.Base.{
  ℕ, ◌+◌, ◌≤◌, ◌≡◌, ap, subst, ◌∙◌, arith, List, ◌++◌, length, take, drop, length-append,
  length-take, length-drop, append_assoc,
}
use elfrc.Bytes.Sits.{Sits, Sits-behind, Sits-replace}
use elfrc.Container.Build.{overwrite}

module _ (buf : List ℕ) (off : ℕ) (bytes : List ℕ) (room : off + length bytes ≤ length buf) where
  pub length-overwrite : length (overwrite buf off bytes) ≡ length buf
  length-overwrite = omega (
    arith,
    length-append (take off buf) (bytes ++ drop (off + length bytes) buf),
    length-append bytes (drop (off + length bytes) buf),
    length-take off buf,
    length-drop (off + length bytes) buf,
  )

  front_length : length (take off buf) ≡ off
  front_length = omega (arith, length-take off buf)

  pub overwrite-Sits : Sits (overwrite buf off bytes) off bytes
  overwrite-Sits =
      subst (λ k. Sits (overwrite buf off bytes) k bytes) front_length
        (Sits-behind (take off buf) bytes (drop (off + length bytes) buf))

  -- What stands behind stays.
  pub overwrite-kept :
      {o : ℕ} {kept : List ℕ}
      → off + length bytes ≤ o
      → Sits buf o kept
      → Sits (overwrite buf off bytes) o kept
  overwrite-kept {o} {kept} behind s =
      let new = take off buf ++ bytes in
      let long : length new ≡ off + length bytes =
        omega (arith, length-append (take off buf) bytes, front_length) in
      subst (λ m. Sits m o kept)
        (ap (λ (k : ℕ). new ++ drop k buf) long
          ∙ append_assoc (take off buf) bytes (drop (off + length bytes) buf))
        (Sits-replace new (omega (arith, long, behind)) s)

-- The buffer does not get shorter, wherever the bytes go.
pub overwrite-le :
    (buf : List ℕ) (off : ℕ) (bytes : List ℕ) → length buf ≤ length (overwrite buf off bytes)
overwrite-le buf off bytes = omega (
  arith,
  length-append (take off buf) (bytes ++ drop (off + length bytes) buf),
  length-append bytes (drop (off + length bytes) buf),
  length-take off buf,
  length-drop (off + length bytes) buf,
)
