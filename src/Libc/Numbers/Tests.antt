-- ===== src/Libc/Numbers/Tests.antt =====
-- Numbers printed and read, for src/kernel/libc/src/stdlib.c.
use larva_os.Base.{ℕ, ◌≡◌, refl, arith, Ram, Option, some, none, List, [], ◌∷◌, map}
use larva_os.Disk.Stream.Round.{Off}
use larva_os.Memory.Heap.Small.{zeros}
use larva_os.Libc.Numbers.{atoi, itoa, reverse_from, write_digits}
use larva_os.Libc.Numbers.Decimal.{atoi-itoa}

atoi-itoa_example :
    (r : Ram) × (itoa 10 zeros 25600 64 10 ≡ some r)
    × (atoi 11 r 64 ≡ some 25600)
    × ((q : ℕ) → Off 64 11 q → r q ≡ zeros q)
atoi-itoa_example = atoi-itoa zeros 64 25600 (omega arith)

bytes_of : Option Ram → List ℕ
bytes_of none = []
bytes_of (some m) = map m (64 ∷ 65 ∷ 66 ∷ 67 ∷ [])

printed_hex : bytes_of (itoa 8 zeros 0xb8 64 16) ≡ b'b' ∷ b'8' ∷ 0 ∷ 0 ∷ []
unfolding bytes_of itoa write_digits reverse_from
printed_hex = refl

-- -7: the remainder is -7, and its character is 7 below '0'.
printed_negative : bytes_of (itoa 8 zeros 0xfffffff9 64 10) ≡ 41 ∷ 0 ∷ 0 ∷ 0 ∷ []
unfolding bytes_of itoa write_digits reverse_from
printed_negative = refl
