-- ===== src/Container/Written/Total.antt =====
-- When `elfrc_container_build` returns a container.
use elfrc.Base.{ℕ, ◌^◌, ◌≤◌, ◌<◌, ◌≡◌, refl, ap, List, [], ◌∷◌, some, All, length, get_elem?}
use elfrc.ByteBuf.Refine.{buf_append, buf_align}
use elfrc.Format.{HashBucket}
use elfrc.Manifest.{Resource, Manifest}
use elfrc.Container.HashTable.Insert.{build_buckets-total}
use elfrc.Container.Sections.{
  Files, BuildError, Loaded, loaded, failed, load_file, DataSlot, data_slot, write_data,
}
use elfrc.Container.Build.{Layout, lay_out, finish, elfrc_container_build}

-- The resource's file can be read to its end.
abbrev pub IsReadable : Files → Resource → Type 0
IsReadable files r = (content : List ℕ) × (load_file files r ≡ loaded content)

write_data-total :
    (files : Files) (buf : List ℕ) (rs : List Resource)
    → All (IsReadable files) rs
    → (p : List DataSlot × List ℕ) × (write_data files buf rs ≡ loaded p)
unfolding write_data
write_data-total files buf [] a = (([], buf), refl)
write_data-total files buf (r ∷ rs) ((content, got), a) =
    let (p, rest) = write_data-total files (buf_append (buf_align buf 16) content) rs a in
    ((data_slot (buf_align buf 16) content ∷ p.0, p.1), rw (got, rest) refl)

mapped :
    {A B : Type 0} (m : Loaded A) (g : A → B) {a : A}
    → m ≡ loaded a
    → (b : B) × (elim m [ failed e ↦ failed e | loaded x ↦ loaded (g x) ] ≡ loaded b)
mapped (failed e) g f = cc
mapped (loaded x) g f = (g x, refl)

lay_out-total :
    (files : Files) (t : List HashBucket) (rs : List Resource)
    → All (IsReadable files) rs
    → (l : Layout) × (lay_out files t rs ≡ loaded l)
unfolding lay_out
lay_out-total files t rs a =
    let (p, wrote) = write_data-total files _ rs a in mapped (write_data files _ rs) _ wrote

-- The first resource whose file cannot be read, and the error that this is.
pub record FirstError (files : Files) (rs : List Resource) (e : BuildError) : Type 0 where
  pub index : ℕ
  pub resource : Resource
  pub at : get_elem? rs index ≡ some resource
  pub error : load_file files resource ≡ failed e
  pub before : (i : ℕ) (r : Resource) → i < index → get_elem? rs i ≡ some r → IsReadable files r

pub elfrc_container_build-loaded :
    (files : Files) (m : Manifest)
    → length m.resources ≤ 2 ^ 30
    → All (IsReadable files) m.resources
    → (mem : List ℕ) × (elfrc_container_build files m ≡ some (loaded mem))
unfolding elfrc_container_build
elfrc_container_build-loaded files m few a =
    let (t, built, _, _, _, _) = build_buckets-total m.resources few in
    let (l, lays) = lay_out-total files t m.resources a in
    let (mem, made) = mapped (lay_out files t m.resources) (finish m.resources) lays in
    (mem, rw (elfrc_container_build, built) (ap some made))
