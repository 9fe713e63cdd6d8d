-- ===== src/Network/Address.antt =====
-- The option -s of processArguments() in src/main.c: the server address, stored with its zero byte in
-- a buffer and read as a string by findServer() of src/libs/networkCom.c.
use ipk_project.Prelude.{
  ◌≡◌, refl, sym, ◌∙◌, ap, ℕ, suc, ◌+◌, ◌^◌, ◌<◌, ◌==◌, false, List, [], ◌∷◌, ◌++◌, map, some, All,
  length, arith, take, set, length-map, length-set, length-append, ap₂,
}
use ipk_project.Outcome.{ok}
use ipk_project.Memory.{Object}
use ipk_project.Memory.Writes.{overwrite, store-ok, length-overwrite, write_all-ok}
use ipk_project.Utils.{string_replace, copy_loop}
use ipk_project.Utils.Scan.{copy_loop-write_all}
use ipk_project.Protocol.Assemble.Writing.{literal-Holds, overwrite-append, take-overwrite}
use ipk_project.Protocol.Blocks.{literal}
use ipk_project.Buffer.{Buffer, buffer_resize, put_byte}
use ipk_project.Buffer.Laws.{IsValid, buffer_resize-Resized, buffer_resize-IsValid}
use ipk_project.Main.{set_address}
use ipk_project.Network.{c_string}

-- A string whose characters and zero byte begin a block is read back.
c_string-take :
    (a : List ℕ) (o : Object)
    → All (λ c. (c == 0) ≡ false) a
    → take (suc (length a)) o ≡ map some a ++ some 0 ∷ []
    → c_string o ≡ ok a
unfolding c_string
c_string-take [] [] h e = absurd (ground (arith, e))
c_string-take [] (x ∷ o) h e = let first : x ≡ some 0 = ground (arith, e) in rw first refl
c_string-take (c ∷ a) [] h e = absurd (ground (arith, e))
c_string-take (c ∷ a) (x ∷ o) h e =
    let first : x ≡ some c = ground (arith, e) in
    let more : take (suc (length a)) o ≡ map some a ++ some 0 ∷ [] = ground (arith, e) in
    rw (first, h.0, c_string-take a o h.1 more) refl

pub record Addressed (b : Buffer) (a : List ℕ) : Type 0 where
  pub valid : IsValid b
  pub text : (m : Object) × (b.bytes ≡ some m) × (c_string m ≡ ok a)

pub set_address-Addressed :
    (b : Buffer) (a : List ℕ)
    → IsValid b
    → All (λ c. (c == 0) ≡ false) a
    → length a + 1 < 2 ^ 63
    → (b' : Buffer) × (set_address b a ≡ ok b') × Addressed b' a
unfolding set_address put_byte string_replace overwrite
set_address-Addressed b a v z small =
    let n = length a + 1 in
    let (m, r) = buffer_resize-Resized b n v.counted (omega arith) in
    let v' = buffer_resize-IsValid b n v small in
    let size : length (map some a) ≡ length a = length-map some a in
    let shown = literal-Holds a (omega arith) in
    let copied : copy_loop m 0 (literal a) 0 (length a) ≡ ok (overwrite m 0 (map some a)) =
      ap (copy_loop m 0 (literal a) 0) (sym size)
      ∙ copy_loop-write_all m 0 (literal a) 0 (map some a) shown
      ∙ write_all-ok m 0 (map some a) (omega (arith, size, r.fits)) in
    let ended =
      store-ok (overwrite m 0 (map some a)) (length a) (some 0)
        (omega (arith, length-overwrite m 0 (map some a), r.fits)) in
    let m' = set (overwrite m 0 (map some a)) (length a) (some 0) in
    let place : length a ≡ 0 + length (map some a) = omega (arith, size) in
    let all : m' ≡ overwrite m 0 (map some a ++ some 0 ∷ []) =
      ap (λ k. overwrite (overwrite m 0 (map some a)) k (some 0 ∷ [])) place
      ∙ overwrite-append m 0 (map some a) (some 0 ∷ []) in
    let whole : suc (length a) ≡ length (map some a ++ some 0 ∷ []) =
      omega (arith, size, length-append (map some a) (some 0 ∷ [])) in
    (
      record (buffer_resize b n) { bytes = some m'; used = n },
      rw (r.block, copied, ended) refl,
      record {
        valid = record {
          counted =
              r.counted
              ∙ sym (
                  length-set (overwrite m 0 (map some a)) (length a) (some 0)
                  ∙ length-overwrite m 0 (map some a));
          within = omega (arith, r.fits, r.counted);
          small = v'.small;
        };
        text = (
          m',
          refl,
          c_string-take a m' z (
              ap₂ take whole all
              ∙ take-overwrite m (map some a ++ some 0 ∷ []) (omega (arith, whole, r.fits))),
        );
      },
    )
