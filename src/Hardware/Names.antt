-- ===== src/Hardware/Names.antt =====
-- What `cpuid_vendor` and `get_storage_info` of src/lib/hardware.c return.
use my_dos.Base.{
  ℕ, ◌+◌, ◌*◌, ◌-◌, ◌/◌, ◌%◌, ◌^◌, ◌≤◌, ◌<◌, ◌≡◌, refl, arith, true, List, some, get_or, length,
}
use my_dos.FatFs.{fr_ok}
use my_dos.Hardware.{cpuid_vendor, FreeSpace, get_storage_info}

-- The 32-bit number of four bytes from an index on, the lowest first.
abbrev pub word_at : List ℕ → ℕ → ℕ
word_at s i =
    get_or s i 0
    + get_or s (i + 1) 0 * 256
    + get_or s (i + 2) 0 * 65536
    + get_or s (i + 3) 0 * 16777216

-- The name holds the three registers in the order ebx, edx, ecx, and ends with a zero.
pub cpuid_vendor-words :
    (ebx ecx edx : ℕ)
    → ebx < 2 ^ 32
    → ecx < 2 ^ 32
    → edx < 2 ^ 32
    → (let name = cpuid_vendor ebx ecx edx in
        (word_at name 0 ≡ ebx)
        × (word_at name 4 ≡ edx)
        × (word_at name 8 ≡ ecx)
        × (get_or name 12 1 ≡ 0)
        × (length name ≡ 13))
unfolding cpuid_vendor
cpuid_vendor-words ebx ecx edx hb hc hd = (omega arith, omega arith, omega arith, refl, refl)

-- The bytes of all clusters, of the free ones and of the others, for clusters of b bytes.
cluster-bytes :
    (n f b : ℕ)
    → n < 2 ^ 32
    → f ≤ n
    → b ≤ 65536
    → (n * b < 2 ^ 49) × (f * b ≤ n * b) × ((n - f) * b ≡ n * b - f * b)
cluster-bytes n f b hn hf hb = (grind arith, grind arith, grind arith)

no_wrap :
    (t f : ℕ)
    → t < 2 ^ 49
    → f ≤ t
    → ((t % 2 ^ 64 + 2 ^ 64 - f % 2 ^ 64) % 2 ^ 64 / 1048576 % 2 ^ 32 ≡ (t - f) / 1048576)
      × (t % 2 ^ 64 / 1048576 % 2 ^ 32 ≡ t / 1048576)
no_wrap t f ht hf = (omega arith, omega arith)

-- For a volume within the limits of FAT32, the sizes are those of all its clusters and of those that
-- are not free, in whole megabytes; nothing wraps around.
pub get_storage_info-sizes :
    (volume : FreeSpace)
    → volume.csize ≤ 128
    → 2 ≤ volume.n_fatent
    → volume.n_fatent < 2 ^ 32
    → volume.free_clusters ≤ volume.n_fatent - 2
    → get_storage_info true fr_ok volume ≡ (
      fr_ok,
      some (
        (volume.n_fatent - 2 - volume.free_clusters) * (volume.csize * 512) / 1048576,
        (volume.n_fatent - 2) * (volume.csize * 512) / 1048576,
      ),
    )
unfolding get_storage_info
get_storage_info-sizes volume hc hn hw hf =
    let n = volume.n_fatent - 2 in
    let b = volume.csize * 512 in
    let count : (volume.n_fatent + 2 ^ 32 - 2) % 2 ^ 32 ≡ n = omega arith in
    let (small, le, rest) = cluster-bytes n volume.free_clusters b (omega arith) hf (omega arith) in
    let (used, total) = no_wrap (n * b) (volume.free_clusters * b) small le in
    rw (count, used, total, rest) refl
