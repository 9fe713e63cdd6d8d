-- ===== src/Tests/Buffers.antt =====
-- Examples for buffer.c.
use ipk_project.Prelude.{◌≡◌, refl, arith, [], ◌∷◌, some, false}
use ipk_project.Outcome.{fault}
use ipk_project.Memory.{Object}
use ipk_project.Memory.Writes.{overwrite}
use ipk_project.Utils.{is_ending_character}
use ipk_project.Buffer.{Buffer, buffer_resize, load_buffer_from_stdin}
use ipk_project.Buffer.Laws.{IsValid, Resized, buffer_resize-Resized}
use ipk_project.Buffer.Loading.{load_buffer_from_stdin-full}
use ipk_project.Tests.Data.{full}

abbrev four : Buffer
four = full (1 ∷ 2 ∷ 3 ∷ 4 ∷ [])

abbrev cells_of_four : Object
cells_of_four = some 1 ∷ some 2 ∷ some 3 ∷ some 4 ∷ []

four-IsValid : IsValid four
four-IsValid = record { counted = refl; within = omega arith; small = omega arith }

buffer_resize-Resized_example : (m : Object) × Resized four (buffer_resize four 9) 9 m
buffer_resize-Resized_example = buffer_resize-Resized four 9 refl (omega arith)

load_buffer_from_stdin-full_example :
    load_buffer_from_stdin four false (b'h' ∷ b'i' ∷ b'h' ∷ b'i' ∷ 10 ∷ []) ≡ fault
unfolding is_ending_character overwrite
load_buffer_from_stdin-full_example =
    load_buffer_from_stdin-full four cells_of_four (b'h' ∷ b'i' ∷ b'h' ∷ b'i' ∷ []) 10 [] false refl
      refl (omega arith) (omega arith) (refl, (refl, (refl, (refl, tt)))) refl
