-- ===== src/Km/File.antt =====
-- The proc file's `open`, `write` and `release`: each open file has a page of its own.
use thesis_b_cs_tu_berlin.Prelude.{
  ℕ, ◌≤◌, min, ◌==◌, if◌then◌else◌, ==_iff, Bool-cases, ◌≡◌, refl, ◌⊎◌, inl, inr, Option, some,
  List, [], ◌∷◌, arith,
}
use thesis_b_cs_tu_berlin.Prelude.Int.{ℤ, pos, negsuc}
use thesis_b_cs_tu_berlin.Params.{buffer_size}
use thesis_b_cs_tu_berlin.Memory.{Bytes, zeros, mem_copy, ◌>>=◌}

-- What the code uses of the kernel's `copy_from_user dst src n`: the number of bytes that it could not
-- copy, and the memory at `dst` afterwards.
pub record UserMemory : Type 0 where
  pub copy_from_user : Bytes → Bytes → ℕ → ℕ × Bytes
  pub copies :
      (dst src : Bytes) (n : ℕ)
      → (copy_from_user dst src n).0 ≡ 0
      → (copy_from_user dst src n).1 ≡ mem_copy dst 0 src n
  pub stays_inside : (dst src : Bytes) (n a : ℕ) → n ≤ a → (copy_from_user dst src n).1 a ≡ dst a

-- `struct mmap_info` behind `filp->private_data`: its own address, and its page with that address.
pub record MmapInfo : Type 0 where
  pub info : ℕ
  pub page : ℕ
  pub page_data : Bytes

-- "asdf"
abbrev pub asdf : Bytes
asdf a = if a == 0 then 97 else (if a == 1 then 115 else (if a == 2 then 100 else 102))

-- `open`, with the answers of `kmalloc` and of `get_zeroed_page`: a use of NULL is `none`.
unfoldable pub open_file : Option ℕ → Option ℕ → Option MmapInfo
open_file kmalloc get_zeroed_page = do
  info ← kmalloc
  page ← get_zeroed_page
  some (record { info = info; page = page; page_data = mem_copy zeros 0 asdf 4 })

module _ (k : UserMemory) where
  -- `write`: its return value, with `-EFAULT` for -14.
  unfoldable pub write_file : Bytes → ℕ → MmapInfo → ℤ × MmapInfo
  write_file buf len f =
      let r = k.copy_from_user f.page_data buf (min len buffer_size) in
      let f' : MmapInfo = record f { page_data = r.1 } in
      if r.0 == 0 then (pos len, f') else (negsuc 13, f')

  -- A write never leaves the file's page, and changes neither pointer. It returns the whole length, and
  -- then the page starts with the first `BUFFER_SIZE` bytes of the user's at most, however many it has
  -- reported; or it returns -EFAULT.
  pub write_file_lem :
      (buf : Bytes) (len : ℕ) (f : MmapInfo)
      → ((a : ℕ) → buffer_size ≤ a → (write_file buf len f).1.page_data a ≡ f.page_data a)
        × ((write_file buf len f).1.info ≡ f.info)
        × ((write_file buf len f).1.page ≡ f.page)
        × (((write_file buf len f).0 ≡ negsuc 13)
            ⊎ (((write_file buf len f).0 ≡ pos len)
                × ((write_file buf len f).1.page_data
                    ≡ mem_copy f.page_data 0 buf (min len buffer_size))))
  unfolding write_file
  write_file_lem buf len f =
      let r = k.copy_from_user f.page_data buf (min len buffer_size) in
      let inside = λ (a : ℕ) (h : buffer_size ≤ a).
        k.stays_inside f.page_data buf (min len buffer_size) a (omega arith) in
      elim (Bool-cases (r.0 == 0)) [
        | inl all ↦
            let whole = k.copies f.page_data buf (min len buffer_size) ((==_iff r.0 0).0 all) in
            rw all (inside, refl, refl, inr (refl, whole))
        | inr bad ↦ rw bad (inside, refl, refl, inl refl)
      ]

-- `release`: the freed page and `mmap_info`.
unfoldable pub release_file : MmapInfo → List ℕ
release_file f = f.page ∷ f.info ∷ []
