-- ===== src/Vector.antt =====
-- kern/common.c: the growing array `vector_t`, with elements of any type in place of elements of
-- `elem_size` bytes. The kernel's heap is a parameter: whether `smalloc` succeeds, and what the new
-- memory holds. The callers pop only a vector that has an element.
pub mod Contents
pub mod Elements
mod Tests
use pebpeb_os.Base.{
  Bool, true, false, Option, none, some, ◌&&◌, leb, ℕ, ◌+◌, ◌-◌, ◌*◌, ◌/◌, ◌==◌, ltb, if◌then◌else◌,
}

pub record Vector {ℓ} (A : Type ℓ) : Type ℓ where
  pub current : ℕ
  pub size : ℕ
  pub elem_size : ℕ
  pub array : ℕ → A

abbrev pub vector_minimum_size : ℕ
vector_minimum_size = 8

abbrev pub vector_shink_ratio : ℕ
vector_shink_ratio = 3

-- What `smalloc` answers to a number of bytes, and what stands in the memory it returns.
pub record Smalloc {ℓ} (A : Type ℓ) : Type ℓ where
  pub succeeds : ℕ → Bool
  pub fresh : ℕ → A

module _ {ℓ} {A : Type ℓ} (mem : Smalloc A) where
  -- memcpy of the first `n` elements into new memory
  abbrev pub memcpy : (n : ℕ) (array : ℕ → A) → ℕ → A
  memcpy n array i = if ltb i n then array i else mem.fresh i

  -- The result is 0 or -1, here true or false.
  unfoldable pub vector_init : (elem_size init_size : ℕ) → Bool × Vector A
  vector_init elem_size init_size =
      let v : Vector A = record {
        current = 0;
        size = init_size;
        elem_size = elem_size;
        array = mem.fresh;
      } in
      (mem.succeeds (init_size * elem_size), v)

  -- The array with room for one element more, where the memory suffices.
  unfoldable pub grow : Vector A → Option (Vector A)
  grow v =
      if v.current == v.size
      then if mem.succeeds (v.size * v.elem_size * 2)
        then some (record v { size = v.size * 2; array = memcpy v.current v.array })
        else none
      else some v

  unfoldable pub put_last : A → Vector A → Vector A
  put_last elem v = record v {
    array = (λ i. if i == v.current then elem else v.array i);
    current = v.current + 1;
  }

  unfoldable pub vector_push : (elem : A) → Vector A → Bool × Vector A
  vector_push elem v = elim (grow v) [ none ↦ (false, v) | some v' ↦ (true, put_last elem v') ]

  unfoldable pub vector_try_shink : Vector A → Vector A
  vector_try_shink v =
      if ltb v.current (v.size / vector_shink_ratio)
      then if ltb (v.size / 2) vector_minimum_size
        then v
        else if mem.succeeds ((v.size / 2) * v.elem_size)
        then record v { size = v.size / 2; array = memcpy v.current v.array }
        else v
      else v

  unfoldable pub vector_pop : Vector A → Vector A
  vector_pop v = vector_try_shink (record v { current = v.current - 1 })

  -- memmove of the elements behind `index`
  unfoldable pub vector_remove : (index : ℕ) → Vector A → Vector A
  vector_remove index v =
      let moved =
        λ (i : ℕ). if leb index i && ltb i (v.current - 1) then v.array (i + 1) else v.array i in
      vector_try_shink (record v { array = moved; current = v.current - 1 })

unfoldable pub vector_at {ℓ} : {A : Type ℓ} → Vector A → (index : ℕ) → A
vector_at v index = v.array index
