-- ===== src/FixedCapacityVector.antt =====
-- include/picolibrary/fixed_capacity_vector.h. A storage slot holds an object or none; `width` is the
-- width of `std::size_t`, and `capacity` is `N`. An iterator is the index that it is ahead of
-- `begin()`. The loops of `insert` and `emplace` go down to the element before `begin()`, so they
-- are by the index of the element after theirs.
pub mod Slots
pub mod Stored
pub mod Sequence
pub mod Holding
pub mod Ranges
pub mod Refinement
pub mod Elements
pub mod Copies
mod Tests
use picolibrary.Common.{
  ℕ, zero, suc, ◌+◌, ◌-◌, ◌%◌, ◌^◌, Bool, true, false, not, ◌&&◌, ◌==◌, ltb, leb, if◌then◌else◌,
  Option, none, some, List, [], ◌∷◌, length, get_or, set, replicate,
}
use picolibrary.Expectation.{
  Checked, done, ◌>>=◌, ◌>>◌, expect, insufficient_capacity, out_of_range,
}

pub record FixedCapacityVector {ℓ} (A : Type ℓ) : Type ℓ where
  pub m_storage : List (Option A)
  pub m_size : ℕ

-- `while ( n-- ) { new ( &m_storage[ n ] ) Value{ value }; }`
unfoldable pub fill_down {ℓ} : {A : Type ℓ} → ℕ → A → List (Option A) → List (Option A)
fill_down zero value storage = storage
fill_down (suc n) value storage = fill_down n value (set storage n (some value))

-- `for_each` of a range with `new ( storage++ ) Value{ value }`.
unfoldable pub fill_up {ℓ} : {A : Type ℓ} → List A → ℕ → List (Option A) → List (Option A)
fill_up [] i storage = storage
fill_up (value ∷ values) i storage = fill_up values (suc i) (set storage i (some value))

-- The loops over `n` elements from element `i` on that construct them from a value, and that
-- destroy them.
unfoldable pub construct_loop {ℓ} : {A : Type ℓ} → ℕ → ℕ → A → List (Option A) → List (Option A)
construct_loop zero i value storage = storage
construct_loop (suc n) i value storage = construct_loop n (suc i) value (set storage i (some value))

unfoldable pub destroy_loop {ℓ} : {A : Type ℓ} → ℕ → ℕ → List (Option A) → List (Option A)
destroy_loop zero i storage = storage
destroy_loop (suc n) i storage = destroy_loop n (suc i) (set storage i none)

-- The object at `source` is moved to `target` and destroyed.
abbrev pub relocate {ℓ} : {A : Type ℓ} → List (Option A) → ℕ → ℕ → List (Option A)
relocate storage source target = set (set storage target (get_or storage source none)) source none

-- The loop of `insert` by `n` places, with `element + 1` for `element`.
unfoldable pub move_up {ℓ} : {A : Type ℓ} → ℕ → ℕ → ℕ → List (Option A) → List (Option A) × ℕ
move_up n position zero storage = (storage, zero)
move_up n position (suc element) storage =
    let rest = move_up n position element (relocate storage element (element + n)) in
    if leb position element then rest else (storage, suc element)

-- The loop of `erase`, for `n` elements from `element` on.
unfoldable pub move_down {ℓ} : {A : Type ℓ} → ℕ → ℕ → List (Option A) → List (Option A)
move_down zero element storage = storage
move_down (suc n) element storage =
    move_down n (suc element) (relocate storage element (element - 1))

module _ {ℓ} {A : Type ℓ} (width capacity : ℕ) where
  unfoldable pub new_vector : FixedCapacityVector A
  new_vector = record { m_storage = replicate capacity none; m_size = 0 }

  unfoldable pub vector_of_n : ℕ → A → Checked (FixedCapacityVector A)
  unfolding fill_down
  vector_of_n n value = do
    expect (leb n capacity) insufficient_capacity
    done (record { m_storage = fill_down n value (replicate capacity none); m_size = n })

  unfoldable pub vector_of : List A → Checked (FixedCapacityVector A)
  unfolding fill_up
  vector_of values = do
    expect (leb (length values) capacity) insufficient_capacity
    done (record { m_storage = fill_up values 0 (replicate capacity none); m_size = length values })

  unfoldable pub size : FixedCapacityVector A → ℕ
  size v = v.m_size

  unfoldable pub empty : FixedCapacityVector A → Bool
  unfolding size
  empty v = size v == 0

  unfoldable pub full : FixedCapacityVector A → Bool
  unfolding size
  full v = size v == capacity

  -- `none` within `done` is an element that holds no object.
  unfoldable pub at : FixedCapacityVector A → ℕ → Checked (Option A)
  unfolding size
  at v position = do
    expect (ltb position (size v)) out_of_range
    done (get_or v.m_storage position none)

  unfoldable pub front : FixedCapacityVector A → Option A
  front v = get_or v.m_storage 0 none

  unfoldable pub back : FixedCapacityVector A → Option A
  unfolding size
  back v = get_or v.m_storage (size v - 1) none

  unfoldable pub clear : FixedCapacityVector A → FixedCapacityVector A
  unfolding destroy_loop
  clear v = record { m_storage = destroy_loop v.m_size 0 v.m_storage; m_size = 0 }

  unfoldable pub assign_n : FixedCapacityVector A → ℕ → A → Checked (FixedCapacityVector A)
  unfolding clear fill_down
  assign_n v n value = do
    expect (leb n capacity) insufficient_capacity
    done (record { m_storage = fill_down n value (clear v).m_storage; m_size = n })

  unfoldable pub assign : FixedCapacityVector A → List A → Checked (FixedCapacityVector A)
  unfolding clear fill_up
  assign v values = do
    expect (leb (length values) capacity) insufficient_capacity
    done (record { m_storage = fill_up values 0 (clear v).m_storage; m_size = length values })

  -- The vector and the index of the first inserted element.
  unfoldable pub insert_moved :
      FixedCapacityVector A → List (Option A) × ℕ → List A → FixedCapacityVector A × ℕ
  unfolding fill_up
  insert_moved v (storage, element) values = (
    record {
      m_storage = fill_up values element storage;
      m_size = (v.m_size + length values) % 2 ^ width;
    },
    element,
  )

  unfoldable pub insert_bypass : FixedCapacityVector A → ℕ → List A → FixedCapacityVector A × ℕ
  unfolding move_up insert_moved
  insert_bypass v position values =
      insert_moved v (move_up (length values) position v.m_size v.m_storage) values

  -- `insert` of one value, and `emplace`.
  unfoldable pub insert : FixedCapacityVector A → ℕ → A → Checked (FixedCapacityVector A × ℕ)
  unfolding insert_bypass full
  insert v position value = do
    expect (not (full v)) insufficient_capacity
    done (insert_bypass v position (value ∷ []))

  -- `insert` of a range.
  unfoldable pub insert_range :
      FixedCapacityVector A → ℕ → List A → Checked (FixedCapacityVector A × ℕ)
  unfolding insert_bypass size
  insert_range v position values = do
    expect
        (ltb (size v) ((size v + length values) % 2 ^ width)
          && leb ((size v + length values) % 2 ^ width) capacity)
        insufficient_capacity
    done (insert_bypass v position values)

  -- The vector and the index of the element behind the removed one.
  unfoldable pub erase : FixedCapacityVector A → ℕ → FixedCapacityVector A × ℕ
  unfolding move_down
  erase v position = (
    record {
      m_storage =
          move_down (v.m_size - suc position) (suc position) (set v.m_storage position none);
      m_size = v.m_size - 1;
    },
    position,
  )

  unfoldable pub push_back_bypass : FixedCapacityVector A → A → FixedCapacityVector A
  push_back_bypass v value = record {
    m_storage = set v.m_storage v.m_size (some value);
    m_size = (v.m_size + 1) % 2 ^ width;
  }

  unfoldable pub push_back : FixedCapacityVector A → A → Checked (FixedCapacityVector A)
  unfolding full push_back_bypass
  push_back v value = do
    expect (not (full v)) insufficient_capacity
    done (push_back_bypass v value)

  unfoldable pub pop_back : FixedCapacityVector A → FixedCapacityVector A
  pop_back v = record {
    m_storage = set v.m_storage (v.m_size - 1) none;
    m_size = (v.m_size + (2 ^ width - 1)) % 2 ^ width;
  }

  unfoldable pub resize_bypass : FixedCapacityVector A → ℕ → A → FixedCapacityVector A
  unfolding destroy_loop construct_loop
  resize_bypass v n value =
      let shrunk =
        if ltb n v.m_size then destroy_loop (v.m_size - n) n v.m_storage else v.m_storage in
      let grown =
        if ltb v.m_size n then construct_loop (n - v.m_size) v.m_size value shrunk else shrunk in
      record { m_storage = grown; m_size = n }

  unfoldable pub resize : FixedCapacityVector A → ℕ → A → Checked (FixedCapacityVector A)
  unfolding resize_bypass
  resize v n value = do
    expect (leb n capacity) insufficient_capacity
    done (resize_bypass v n value)
