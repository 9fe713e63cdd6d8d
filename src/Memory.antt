-- ===== src/Memory.antt =====
-- The memory that a `char*` points into. An object is a list of cells; a cell that was never
-- written is `none`. A read or write outside the object, or the use of an unwritten cell's value,
-- is undefined behaviour (`fault`). Offsets are of type size_t, so they wrap at 2 ^ 64.

pub mod Writes
pub mod Spelling
use ipk_project.Prelude.{
  ℕ, ◌+◌, ◌-◌, ◌%◌, ◌^◌, ◌≡◌, Option, none, some, List, ltb, if◌then◌else◌, get_elem?, set, length,
  Bool, true, false,
}
use ipk_project.Outcome.{Outcome, ok, fault, ◌>>=◌}

abbrev pub Cell : Type 0
Cell = Option ℕ

abbrev pub Object : Type 0
Object = List Cell

-- size_t addition
abbrev pub add_size : ℕ → ℕ → ℕ
add_size a b = (a + b) % 2 ^ 64

-- size_t subtraction, which wraps
abbrev pub sub_size : ℕ → ℕ → ℕ
sub_size a b = (a + 2 ^ 64 - b) % 2 ^ 64

-- (size_t) -1, also the long value -1
abbrev pub minus_one : ℕ
minus_one = 2 ^ 64 - 1

-- `char*` that is not NULL: the object and the offset in it
pub record CharPtr : Type 0 where
  pub object : Object
  pub offset : ℕ

abbrev pub or_fault : {A : Type 0} → Option A → Outcome A
or_fault none = fault
or_fault (some a) = ok a

-- the cell `p[i]`, copied as it is
unfoldable pub read_cell : CharPtr → ℕ → Outcome Cell
read_cell p i = or_fault (get_elem? p.object (add_size p.offset i))

-- the value of `p[i]`
unfoldable pub read : CharPtr → ℕ → Outcome ℕ
unfolding read_cell
read p i = read_cell p i >>= or_fault

-- `&p[i]`
abbrev pub advance : CharPtr → ℕ → CharPtr
advance p i = record p { offset = add_size p.offset i }

-- `object[i] = c`
unfoldable pub store : Object → ℕ → Cell → Outcome Object
store m i c = if ltb i (length m) then ok (set m i c) else fault

-- `pointer == NULL`
abbrev pub is_null {ℓ} : {A : Type ℓ} → Option A → Bool
is_null none = true
is_null (some a) = false
