-- ===== src/Km/Mapping.antt =====
-- The proc file's `mmap` and the fault of its area.
use thesis_b_cs_tu_berlin.Prelude.{
  ℕ, ◌≢◌, ◌+◌, ◌==◌, if◌then◌else◌, ◌≡◌, Bool, true, Option, none, some, arith,
}
use thesis_b_cs_tu_berlin.Prelude.Int.{ℤ, pos}
use thesis_b_cs_tu_berlin.Km.File.{MmapInfo}

-- `struct vm_area_struct`: what `mmap` sets. The flags are `VM_DONTEXPAND` and `VM_DONTDUMP`.
pub record Vma : Type 0 where
  pub has_vm_ops : Bool
  pub dont_expand : Bool
  pub dont_dump : Bool
  pub vm_private_data : MmapInfo

-- `mmap`, on an area that the kernel has just made; `vm_open` prints a message.
unfoldable pub mmap : MmapInfo → ℤ × Vma
mmap private_data = (
  pos 0,
  record {
    has_vm_ops = true;
    dont_expand = true;
    dont_dump = true;
    vm_private_data = private_data;
  },
)

-- `vm_fault`: the page that the kernel is to map, and the count after `get_page`. An address of 0 is no
-- page.
unfoldable pub vm_fault : Vma → ℕ → Option ℕ × ℕ
vm_fault vma refs =
    if vma.vm_private_data.page == 0
    then (none, refs)
    else (some vma.vm_private_data.page, refs + 1)

-- A fault on an area of the proc file maps the file's page, and gives it one more reference.
mmap-vm_fault :
    (f : MmapInfo) (refs : ℕ) → f.page ≢ 0 → vm_fault (mmap f).1 refs ≡ (some f.page, refs + 1)
unfolding mmap vm_fault
mmap-vm_fault f refs h = ground arith
