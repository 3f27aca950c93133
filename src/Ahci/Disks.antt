-- ===== src/Ahci/Disks.antt =====
-- The disks that `ahci_init` of src/kernel/drivers/ahci.c finds, and the calls that it refuses.
use my_dos.Base.{
  ℕ, zero, suc, ◌+◌, ◌/◌, ◌%◌, ◌^◌, ltb→lt, ◌≤◌, ◌<◌, ◌≡◌, refl, arith, Bool, true, false, not,
  ◌||◌, List, [], Option, none, some, ltb, leb, ◌==◌, if◌then◌else◌, Bool-cases, inl, inr,
}
use my_dos.Ahci.Machine.{Machine}
use my_dos.Ahci.Pci.{find_ahci_controller}
use my_dos.Ahci.Port.{port_stop, port_start}
use my_dos.Ahci.Command.{issue_command}
use my_dos.Ahci.Driver.{
  set_up_port, Disks, add_disk, identify_sectors, keep_disk, start_controller, identify_port,
  is_disk, try_port, try_ports, ahci_init, ahci_read, ahci_write, ahci_flush, refuses,
}

-- At most four disks, each at a port below n, with at least one sector; the ports stand in their order,
-- so no two disks share one.
pub record Found (n : ℕ) (d : Disks) : Type 0 where
  pub few : d.disk_total ≤ 4
  pub at_port : (i : ℕ) → i < d.disk_total → d.disk_ports i < n
  pub not_empty : (i : ℕ) → i < d.disk_total → 0 < d.disk_sectors i
  pub ordered : (i j : ℕ) → i < j → j < d.disk_total → d.disk_ports i < d.disk_ports j

Found-weaken : (n k : ℕ) (d : Disks) → n ≤ k → Found n d → Found k d
Found-weaken n k d h f = record {
  few = f.few;
  at_port = λ i l. omega (arith, f.at_port i l);
  not_empty = f.not_empty;
  ordered = f.ordered;
}

Found-later : (n : ℕ) (d : Disks) → Found n d → Found (suc n) d
Found-later n d f = Found-weaken n (suc n) d (omega arith) f

add_disk-Found :
    (n : ℕ) (identify : List ℕ) (d : Disks)
    → Found n d
    → d.disk_total < 4
    → 0 < identify_sectors identify
    → Found (suc n) (add_disk n identify d)
unfolding add_disk
add_disk-Found n identify d f room some_sectors = record {
  few = omega arith;
  at_port = λ i h. ground (arith, f.at_port i);
  not_empty = λ i h. ground (arith, f.not_empty i);
  ordered = λ i j h k. ground (arith, f.ordered i j, f.at_port i);
}

module _ (m : Machine) where
  open m use {World, transfer_buffer, hba_read, hba_write}

  Found-if :
      (n : ℕ) (b : Bool) (x y : Disks × World)
      → Found n x.0
      → Found n y.0
      → Found n (if b then x else y).0
  Found-if n true x y h k = h
  Found-if n false x y h k = k

  keep_disk-Found :
      (n : ℕ) (identified : Bool) (identify : List ℕ) (d : Disks) (left w : World)
      → Found n d
      → d.disk_total < 4
      → Found (suc n) (keep_disk m n identified identify d left w).0
  keep_disk-Found n identified identify d left w f room =
      elim (Bool-cases (not identified || identify_sectors identify == 0)) [
        | inl e ↦ rw e (Found-later n d f)
        | inr e ↦ rw e (add_disk-Found n identify d f room (ground arith))
      ]

  identify_port-Found :
      (n : ℕ) (d : Disks) (w : World)
      → Found n d
      → d.disk_total < 4
      → Found (suc n) (identify_port m n (d, w)).0
  unfolding identify_port
  identify_port-Found n d w f room =
      let (stopped, w1) = port_stop m d.hba n w in
      let (started, w2) = port_start m d.hba n (set_up_port m d.hba n w1) in
      let (identified, w3) = issue_command m d.hba n 0xEC 0 1 true false w2 in
      let same = Found-later n d f in
      Found-if (suc n) (not stopped) (d, w1) _ same
        (Found-if (suc n) (not started) (d, w2) _ same
          (keep_disk-Found n identified (transfer_buffer w3) d (port_stop m d.hba n w3).1 w3 f
            room))

  try_port-Found :
      (implemented n : ℕ) (s : Disks × World)
      → Found n s.0
      → s.0.disk_total < 4
      → Found (suc n) (try_port m implemented n s).0
  unfolding try_port
  try_port-Found implemented n (d, w) f room =
      let same = Found-later n d f in
      let (present, w') = is_disk m d.hba n w in
      Found-if (suc n) (implemented / 2 ^ n % 2 == 0) (d, w) _ same
        (Found-if (suc n) (not present) (d, w') _ same (identify_port-Found n d w' f room))

  try_ports-Found :
      (rounds n implemented : ℕ) (s : Disks × World)
      → Found n s.0
      → Found (n + rounds) (try_ports m rounds n implemented s).0
  unfolding try_ports
  try_ports-Found zero n implemented s f = let none_left : n + 0 ≡ n = omega arith in rw none_left f
  try_ports-Found (suc rounds) n implemented s f = elim (Bool-cases (ltb s.0.disk_total 4)) [
    | inl e ↦
        let next : n + suc rounds ≡ suc n + rounds = omega arith in
        rw (e, next, try_ports)
          (try_ports-Found rounds (suc n) implemented (try_port m implemented n s)
            (try_port-Found implemented n s f (ltb→lt s.0.disk_total 4 e)))
    | inr e ↦ rw (e, try_ports) (Found-weaken n (n + suc rounds) s.0 (omega arith) f)
  ]

  none-Found : (d : Disks) → d.disk_total ≡ 0 → Found 0 d
  none-Found d e = record {
    few = omega arith;
    at_port = λ i h. absurd (omega arith);
    not_empty = λ i h. absurd (omega arith);
    ordered = λ i j h k. absurd (omega arith);
  }

  start_controller-Found :
      (d : Disks) (found : Option ℕ) (w : World) → Found 32 (start_controller m d found w).0
  start_controller-Found d none w = Found-weaken 0 32 _ (omega arith) (none-Found _ refl)
  start_controller-Found d (some hba) w = try_ports-Found 32 0 _ _ (none-Found _ refl)

  -- Whatever the machine answers, and whatever was known before, the driver finds at most four
  -- disks, each at a port of its own below 32 and with at least one sector.
  pub ahci_init-Found : (d : Disks) (w : World) → Found 32 (ahci_init m (d, w)).0
  unfolding ahci_init
  ahci_init-Found d w =
      start_controller-Found d (find_ahci_controller m w).0 (find_ahci_controller m w).1

  -- A call on a disk that was not found, or past the last sector of one, is refused and does nothing; so
  -- is a flush of a disk that was not found, and that of a disk without the command succeeds.
  pub ahci_refuses :
      (disk sector : ℕ) (bytes : List ℕ) (d : Disks) (w : World)
      → (refuses disk sector d ≡ true
          → (ahci_read m disk sector (d, w) ≡ (false, [], (d, w)))
            × (ahci_write m disk sector bytes (d, w) ≡ (false, (d, w))))
        × (d.disk_total ≤ disk → ahci_flush m disk (d, w) ≡ (false, (d, w)))
        × (disk < d.disk_total
            → d.disk_flush_supported disk ≡ false
            → ahci_flush m disk (d, w) ≡ (true, (d, w)))
  unfolding ahci_read ahci_write ahci_flush
  ahci_refuses disk sector bytes d w = (
    λ e. (rw e refl, rw e refl),
    λ h. let out : leb d.disk_total disk ≡ true = ground arith in rw out refl,
    λ h e. let inside : leb d.disk_total disk ≡ false = ground arith in rw (inside, e) refl,
  )
