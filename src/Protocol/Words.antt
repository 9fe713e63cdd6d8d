-- ===== src/Protocol/Words.antt =====
-- controlWord() of src/libs/ipk24protocol.c: which words of the user are accepted.
use ipk_project.Prelude.{
  ℕ, ◌+◌, ◌≡◌, ◌<◌, ◌≤◌, ◌↔◌, refl, true, arith, List, [], ◌∷◌, length, All, none, some, Bool-cases,
  inl, inr,
}
use ipk_project.Outcome.{ok}
use ipk_project.Memory.{CharPtr}
use ipk_project.Memory.Writes.{Spells}
use ipk_project.Utils.{BytesBlock}
use ipk_project.Protocol.Input.{WordType, allowed, control_word, check_loop, read_chars}

-- Every character is one that the type of word allows.
abbrev pub AllAllowed : WordType → List ℕ → Type 0
AllAllowed type cs = All (λ c. allowed type c ≡ true) cs

check_loop-AllAllowed :
    (type : WordType) (p : CharPtr) (i : ℕ) (cs : List ℕ)
    → Spells p i cs
    → AllAllowed type cs
    → check_loop type p i (length cs) ≡ ok none
unfolding check_loop
check_loop-AllAllowed type p i [] s a = refl
check_loop-AllAllowed type p i (c ∷ cs) s a =
    rw (s.0, a.0) (check_loop-AllAllowed type p (i + 1) cs s.1 a.1)

AllAllowed-check_loop :
    (type : WordType) (p : CharPtr) (i : ℕ) (cs : List ℕ)
    → Spells p i cs
    → check_loop type p i (length cs) ≡ ok none
    → AllAllowed type cs
unfolding check_loop
AllAllowed-check_loop type p i [] s h = tt
AllAllowed-check_loop type p i (c ∷ cs) s h = elim (Bool-cases (allowed type c)) [
  | inl fine ↦ (fine, AllAllowed-check_loop type p (i + 1) cs s.1 (rw (s.0, fine) at h))
  | inr wrong ↦ absurd (stopped i (rw (s.0, wrong) at h))
]
  where
    stopped : (i : ℕ) → ok (some i) ≡ ok none → ⊥
    stopped i h = ground arith

pub read_chars-Spells :
    (p : CharPtr) (i : ℕ) (cs : List ℕ) → Spells p i cs → read_chars p i (length cs) ≡ ok cs
unfolding read_chars
read_chars-Spells p i [] s = refl
read_chars-Spells p i (c ∷ cs) s = rw (s.0, read_chars-Spells p (i + 1) cs s.1) refl

-- A word is accepted, without a complaint, if and only if it is not empty, not longer than its
-- limit, and every character of it is allowed for its type.
pub control_word_iff :
    (word : BytesBlock) (p : CharPtr) (cs : List ℕ) (max : ℕ) (type : WordType)
    → word.start ≡ some p
    → word.len ≡ length cs
    → Spells p 0 cs
    → (control_word word max type ≡ ok (true, []))
      ↔ ((0 < length cs) × (length cs ≤ max) × AllAllowed type cs)
unfolding control_word
control_word_iff word p cs max type e l s = (accepted, accepts)
  where
    accepted :
        control_word word max type ≡ ok (true, [])
        → (0 < length cs) × (length cs ≤ max) × AllAllowed type cs
    accepted h =
        let at = read_chars-Spells p 0 cs s in
        let none_wrong : check_loop type p 0 (length cs) ≡ ok none = ground arith in
        (ground arith, ground arith, AllAllowed-check_loop type p 0 cs s none_wrong)

    accepts :
        (0 < length cs) × (length cs ≤ max) × AllAllowed type cs
        → control_word word max type ≡ ok (true, [])
    accepts (pos, fits, all) = let at = check_loop-AllAllowed type p 0 cs s all in ground arith
