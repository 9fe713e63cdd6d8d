-- ===== src/Protocol/Blocks.antt =====
-- struct ProtocolBlocks, string literals, and strncmp() against a literal.
use Prim.Native.Char.{code}
use Prim.Native.String.{String}
use ipk_project.Prelude.{
  ℕ, ◌+◌, ◌-◌, Bool, true, false, List, [], ◌∷◌, ◌++◌, map, Option, none, some, ◌==◌, if◌then◌else◌,
}
use ipk_project.Outcome.{Outcome, ok, ◌>>=◌}
use ipk_project.Memory.{CharPtr, read}
use ipk_project.Utils.{BytesBlock}
use ipk_project.Buffer.{Buffer}

-- Each union of blocks is the field of its first member. The bool in the union of the third block
-- is `reply_result_bool`: no code reads one of the two after writing the other.
pub record ProtocolBlocks : Type 0 where
  pub type : ℕ
  pub zeroth : BytesBlock
  pub first : BytesBlock
  pub second : BytesBlock
  pub third : BytesBlock
  pub reply_result_bool : Bool

abbrev pub null_block : BytesBlock
null_block = record { start = none; len = 0 }

abbrev pub reset_protocol_blocks : ProtocolBlocks → ProtocolBlocks
reset_protocol_blocks blocks = record blocks {
  zeroth = null_block;
  first = null_block;
  second = null_block;
  third = null_block;
}

-- blocks of the declaration `ProtocolBlocks pBlocks = {0}`
abbrev pub zero_blocks : ProtocolBlocks
zero_blocks = record {
  type = 0;
  zeroth = null_block;
  first = null_block;
  second = null_block;
  third = null_block;
  reply_result_bool = false;
}

-- The bytes of a literal, which is ASCII.
abbrev pub codes : String → List ℕ
codes String.[] = []
codes (String.◌∷◌ c s) = code c ∷ codes s

-- a pointer to the first of some characters that a zero byte ends
abbrev pub literal : List ℕ → CharPtr
literal text = record { object = map some text ++ some 0 ∷ []; offset = 0 }

-- `buffer->data` as a pointer
abbrev pub start_of : Buffer → Option CharPtr
start_of b = elim b.bytes [ none ↦ none | some m ↦ some (record { object = m; offset = 0 }) ]

-- whether strncmp(&p[i], text, n) is 0, for a literal `text` with no zero byte in it
unfoldable pub strncmp_equal : CharPtr → ℕ → List ℕ → ℕ → Outcome Bool
strncmp_equal p i [] n = if n == 0 then ok true else do c ← read p i; ok (c == 0)
strncmp_equal p i (x ∷ text) n = elim (n == 0) [
  | true ↦ ok true
  | false ↦ do
    c ← read p i
    let rest = strncmp_equal p (i + 1) text (n - 1)
    if c == x then rest else ok false
]
