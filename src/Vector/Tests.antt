-- ===== src/Vector/Tests.antt =====
-- kern/common.c: the theorems on vectors of numbers.
use pebpeb_os.Base.{ℕ, refl, [], ◌∷◌, arith, ltb, if◌then◌else◌}
use pebpeb_os.Vector.{Vector, Smalloc, vector_remove}
use pebpeb_os.Vector.Elements.{IsVector}
use pebpeb_os.Vector.Contents.{vector_remove-append}

-- A memory that grants at most 1000 bytes.
abbrev small_memory : Smalloc ℕ
small_memory = record { succeeds = (λ n. ltb n 1000); fresh = (λ i. 0) }

abbrev two_of_two : Vector ℕ
two_of_two = record {
  current = 2;
  size = 2;
  elem_size = 4;
  array = (λ i. if ltb i 1 then 5 else 6);
}

two_of_two-IsVector : IsVector two_of_two (5 ∷ 6 ∷ [])
two_of_two-IsVector = (refl, omega arith, omega arith, (refl, (refl, tt)))

vector_remove-append_example : IsVector (vector_remove small_memory 0 two_of_two) (6 ∷ [])
vector_remove-append_example =
    vector_remove-append small_memory two_of_two [] 5 (6 ∷ []) two_of_two-IsVector
