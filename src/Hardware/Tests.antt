-- ===== src/Hardware/Tests.antt =====
-- Runs of src/lib/hardware.c, and the theorems at these inputs.
use my_dos.Base.{◌≡◌, refl, codes, ◌++◌, [], ◌∷◌, ◌==◌, if◌then◌else◌}
use my_dos.Hardware.{cpuid_vendor, FreeSpace, Ram}
use my_dos.Hardware.Memory.{MapEntry}

vendor_run : cpuid_vendor 0x756E6547 0x6C65746E 0x49656E69 ≡ codes "GenuineIntel" ++ 0 ∷ []
unfolding cpuid_vendor
vendor_run = refl

abbrev volume : FreeSpace
volume = record { csize = 8; n_fatent = 262146; free_clusters = 131072 }

-- A map of two entries at the address 4096, 64 usable and 128 reserved megabytes, without the two
-- sizes.
abbrev ram : Ram
ram address =
    if address == 0
    then 0x40
    else if address == 44
    then 48
    else if address == 48
    then 4096
    else if address == 4096
    then 20
    else if address == 4108
    then 0x4000000
    else if address == 4116
    then 1
    else if address == 4120
    then 20
    else if address == 4132
    then 0x8000000
    else if address == 4140
    then 2
    else 0

abbrev entry : MapEntry
entry = record { size = 20; len_low = 0x4000000; kind = 1 }

abbrev reserved : MapEntry
reserved = record { size = 20; len_low = 0x8000000; kind = 2 }
