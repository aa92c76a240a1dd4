-- ===== src/Bpf.antt =====
-- What the eBPF programs use of the kernel: maps of type BPF_MAP_TYPE_ARRAY. The kernel implements
-- them, so they are a parameter with the documented behaviour as laws.
use thesis_b_cs_tu_berlin.Prelude.{
  ℕ, ◌≤◌, ◌<◌, ltb, ◌==◌, if◌then◌else◌, ◌≡◌, ◌&&◌, Option, none, some, arith,
}

-- `lookup m k` is `bpf_map_lookup_elem`: the value at key `k`, or `none` for NULL or an error.
-- `update m k v` is `bpf_map_update_elem` with BPF_ANY, and also a write through the pointer that a
-- lookup at `k` has returned. A key from `max_entries` on is no key.
pub record BpfArray (V : Type 0) : Type 1 where
  pub Map : Type 0
  pub max_entries : ℕ
  pub lookup : Map → ℕ → Option V
  pub update : Map → ℕ → V → Map
  pub lookup_in : (m : Map) (k : ℕ) → k < max_entries → (v : V) × (lookup m k ≡ some v)
  pub lookup_out : (m : Map) (k : ℕ) → max_entries ≤ k → lookup m k ≡ none
  pub lookup-update :
      (m : Map) (k j : ℕ) (v : V)
      → lookup (update m k v) j ≡ (if j == k && ltb k max_entries then some v else lookup m j)

-- A function, cut off at the size: it has these laws.
module _ (V : Type 0) (size : ℕ) where
  abbrev pub fun_lookup : (ℕ → V) → ℕ → Option V
  fun_lookup m k = if ltb k size then some (m k) else none

  abbrev pub fun_update : (ℕ → V) → ℕ → V → ℕ → V
  fun_update m k v j = if j == k then v else m j

  pub fun_lookup_in : (m : ℕ → V) (k : ℕ) → k < size → (v : V) × (fun_lookup m k ≡ some v)
  fun_lookup_in m k h = (m k, ground arith)

  pub fun_lookup_out : (m : ℕ → V) (k : ℕ) → size ≤ k → fun_lookup m k ≡ none
  fun_lookup_out m k h = ground arith

  pub fun_lookup-update :
      (m : ℕ → V) (k j : ℕ) (v : V)
      → fun_lookup (fun_update m k v) j ≡ (if j == k && ltb k size then some v else fun_lookup m j)
  fun_lookup-update m k j v = ground arith

  abbrev pub fun_array : BpfArray V
  fun_array = record {
    Map = ℕ → V;
    max_entries = size;
    lookup = fun_lookup;
    update = fun_update;
    lookup_in = fun_lookup_in;
    lookup_out = fun_lookup_out;
    lookup-update = fun_lookup-update;
  }
