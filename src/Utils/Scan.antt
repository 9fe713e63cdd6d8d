-- ===== src/Utils/Scan.antt =====
-- The searches and the copying of utils.c, on strings that a pointer spells out.
use ipk_project.Prelude.{
  ℕ, zero, suc, ◌+◌, ◌<◌, ◌≤◌, ◌≡◌, refl, ap, ◌∙◌, ◌⊎◌, inl, inr, Bool, true, false, List, [], ◌∷◌,
  ◌++◌, arith, length, All, ◌==◌, if◌then◌else◌, Bool-cases,
}
use ipk_project.Outcome.{ok, error, ErrorCode, ◌>>=◌, >>=-Between}
use ipk_project.Memory.{Object, Cell, CharPtr, read, minus_one, store}
use ipk_project.Memory.Writes.{Holds, Spells, write_all}
use ipk_project.Utils.{
  scan, is_blank, is_line_end, find_blank_char_in_string, find_new_line_in_string, zero_loop,
  find_zero_in_string, copy_loop,
}

-- A scan stops at the first character that it looks for.
pub scan-first :
    (stop : ℕ → Bool) (p : CharPtr) (rounds i : ℕ) (l : List ℕ) (c : ℕ)
    → Spells p i (l ++ c ∷ [])
    → All (λ x. stop x ≡ false) l
    → stop c ≡ true
    → length l < rounds
    → scan stop p rounds i ≡ ok (i + length l)
unfolding scan
scan-first stop p zero i l c s a e h = absurd (omega arith)
scan-first stop p (suc rounds) i [] c s a e h = rw (s.0, e) (ap ok (omega arith))
scan-first stop p (suc rounds) i (x ∷ l) c s a e h =
    rw (s.0, a.0)
      (scan-first stop p rounds (i + 1) l c s.1 a.1 e (omega arith) ∙ ap ok (omega arith))

-- The search for a blank returns the length of the word before it, if the limit reaches the blank.
pub find_blank_char_in_string-word :
    (p : CharPtr) (len : ℕ) (l : List ℕ) (c : ℕ)
    → Spells p 0 (l ++ c ∷ [])
    → All (λ x. is_blank x ≡ false) l
    → is_blank c ≡ true
    → length l ≤ len
    → find_blank_char_in_string p len ≡ ok (length l)
unfolding find_blank_char_in_string
find_blank_char_in_string-word p len l c s a e h =
    scan-first is_blank p (len + 1) 0 l c s a e (omega arith) ∙ ap ok (omega arith)

-- The search for a line end returns the length of the line before it, if the limit reaches the end.
pub find_new_line_in_string-line :
    (p : CharPtr) (len : ℕ) (l : List ℕ) (c : ℕ)
    → Spells p 0 (l ++ c ∷ [])
    → All (λ x. is_line_end x ≡ false) l
    → is_line_end c ≡ true
    → length l ≤ len
    → find_new_line_in_string p len ≡ ok (length l)
unfolding find_new_line_in_string
find_new_line_in_string-line p len l c s a e h =
    scan-first is_line_end p (len + 1) 0 l c s a e (omega arith) ∙ ap ok (omega arith)

-- What a result of a scan says: either it is -1 and no round met a character that `stop` accepts,
-- or such a character stands at the result, and none before it.
abbrev pub Found : (ℕ → Bool) → CharPtr → ℕ → ℕ → ℕ → Type 0
Found stop p from rounds r =
    ((r ≡ minus_one)
      × ((j c : ℕ) → from ≤ j → j < from + rounds → read p j ≡ ok c → stop c ≡ false))
    ⊎ ((c : ℕ) × (read p r ≡ ok c)
        × (stop c ≡ true)
        × (from ≤ r)
        × (r < from + rounds)
        × ((j d : ℕ) → from ≤ j → j < r → read p j ≡ ok d → stop d ≡ false))

scan_step :
    (stop : ℕ → Bool) (p : CharPtr) (rounds i r c : ℕ)
    → read p i ≡ ok c
    → stop c ≡ false
    → Found stop p (i + 1) rounds r
    → Found stop p i (suc rounds) r
scan_step stop p rounds i r c e n (inl (m, none_left)) = inl (
  m,
  λ j d lo hi at. elim (Bool-cases (j == i)) [
    | inl same ↦ ground arith
    | inr other ↦ none_left j d (ground arith) (omega arith) at
  ],
)
scan_step stop p rounds i r c e n (inr (d, at_r, yes_r, lo, hi, before)) = inr (
  d,
  at_r,
  yes_r,
  omega arith,
  omega arith,
  λ j x low high at. elim (Bool-cases (j == i)) [
    | inl same ↦ ground arith
    | inr other ↦ before j x (ground arith) high at
  ],
)

pub scan-Found :
    (stop : ℕ → Bool) (p : CharPtr) (rounds i : ℕ) {r : ℕ}
    → scan stop p rounds i ≡ ok r
    → Found stop p i rounds r
unfolding scan
scan-Found stop p zero i h = inl (ground arith, λ j c lo hi. absurd (omega arith))
scan-Found stop p (suc rounds) i {r} h =
    go (>>=-Between (read p i) _ h) (λ k. scan-Found stop p rounds (i + 1) k)
  where
    go :
        (c : ℕ) × (read p i ≡ ok c) × ((if stop c then ok i else scan stop p rounds (i + 1)) ≡ ok r)
        → (scan stop p rounds (i + 1) ≡ ok r → Found stop p (i + 1) rounds r)
        → Found stop p i (suc rounds) r
    go (c, e, k) later = elim (Bool-cases (stop c)) [
      | inl y ↦ inr (
        c,
        rw (← result y k) e,
        y,
        ground arith,
        ground arith,
        λ j d lo hi. absurd (ground arith),
      )
      | inr n ↦ scan_step stop p rounds i r c e n (later (rw n at k))
    ]
      where
        result :
            stop c ≡ true → (if stop c then ok i else scan stop p rounds (i + 1)) ≡ ok r → i ≡ r
        result y k = ground arith

-- Whatever the search for a blank returns: if it is not -1, a blank, a line end or a zero byte
-- stands there, at an index that the limit includes, and none of those before it; if it is -1, none
-- stands up to the limit. The comment of the function says otherwise: the index of the last character
-- before a space or tab.
pub find_blank_char_in_string-Found :
    (p : CharPtr) (len : ℕ) {r : ℕ}
    → find_blank_char_in_string p len ≡ ok r
    → Found is_blank p 0 (len + 1) r
unfolding find_blank_char_in_string
find_blank_char_in_string-Found p len h = scan-Found is_blank p (len + 1) 0 h

zero_loop-length :
    (p : CharPtr) (rounds i : ℕ) (l : List ℕ)
    → Spells p i (l ++ 0 ∷ [])
    → All (λ x. (x == 0) ≡ false) l
    → length l < rounds
    → zero_loop p rounds i ≡ ok (i + length l)
unfolding zero_loop
zero_loop-length p zero i l s a h = absurd (omega arith)
zero_loop-length p (suc rounds) i [] s a h = rw s.0 (ap ok (omega arith))
zero_loop-length p (suc rounds) i (x ∷ l) s a h =
    rw (s.0, a.0) (zero_loop-length p rounds (i + 1) l s.1 a.1 (omega arith) ∙ ap ok (omega arith))

-- The search for the zero byte returns the length of a string that is not empty, and ends the
-- program on an empty one.
pub find_zero_in_string-length :
    (p : CharPtr) (len : ℕ) (l : List ℕ)
    → Spells p 0 (l ++ 0 ∷ [])
    → All (λ x. (x == 0) ≡ false) l
    → length l < len
    → find_zero_in_string p len
      ≡ (if length l == 0 then error ErrorCode.internal_bad_arg else ok (length l))
unfolding find_zero_in_string
find_zero_in_string-length p len l s a h = rw (zero_loop-length p len 0 l s a h) (ground arith)

-- Copying what a pointer shows is writing those cells.
pub copy_loop-write_all :
    (dst : Object) (pos : ℕ) (src : CharPtr) (from : ℕ) (cs : List Cell)
    → Holds src from cs
    → copy_loop dst pos src from (length cs) ≡ write_all dst pos cs
unfolding copy_loop write_all
copy_loop-write_all dst pos src from [] h = refl
copy_loop-write_all dst pos src from (c ∷ cs) h =
    rw h.0 (
      ap (◌>>=◌ (store dst pos c)) (λ i m. copy_loop-write_all m (pos + 1) src (from + 1) cs h.1 i))
