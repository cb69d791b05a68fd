-- ===== src/Cache/Manifest/Footer.antt =====
-- The footer that the identity of a Parquet file hashes.
use hftbacktest_tw.Prelude.{
  ℕ, ◌+◌, ◌-◌, ◌*◌, ◌/◌, ◌%◌, ◌^◌, ◌<◌, ◌≡◌, refl, ap, ◌∙◌, arith, List, [], ◌∷◌, ◌++◌, length,
  length-append, leb, ltb,
}
use native.Mathlib.Decide.{ℕ_discrete}
use mathlib.Core.List.{append_assoc}
use hftbacktest_tw.Prelude.{list_beq, some, true, false, subst}
use hftbacktest_tw.Values.{codes}
use hftbacktest_tw.Errors.{ok, bind_ok}
use hftbacktest_tw.Cache.Manifest.{drop, take, seek_end, footer_length, read_footer, parquet_footer}

-- A length in four little-endian bytes, and the closing mark of a Parquet file.
abbrev pub trailer : ℕ → List ℕ
trailer n = (n % 256) ∷ (n / 256 % 256) ∷ (n / 65536 % 256) ∷ (n / 16777216 % 256) ∷ codes "PAR1"

drop-append : {A : Type 0} (xs ys : List A) → drop (length xs) (xs ++ ys) ≡ ys
unfolding drop
drop-append [] ys = refl
drop-append (x ∷ xs) ys = drop-append xs ys

take-append : {A : Type 0} (xs ys : List A) → take (length xs) (xs ++ ys) ≡ xs
unfolding take
take-append [] ys = refl
take-append (x ∷ xs) ys = ap (λ zs. x ∷ zs) (take-append xs ys)

seek_end-append : (xs ys : List ℕ) → seek_end (length ys) (xs ++ ys) ≡ ok ys
unfolding seek_end
seek_end-append xs ys =
    let before : length (xs ++ ys) - length ys ≡ length xs = omega (arith, length-append xs ys) in
    let fits : leb (length ys) (length (xs ++ ys)) ≡ true = ground (arith, length-append xs ys) in
    rw (fits, before) (ap ok (drop-append xs ys))

footer_length-trailer : (n : ℕ) → n < 2 ^ 32 → footer_length (take 8 (trailer n)) ≡ some n
unfolding footer_length take list_beq ℕ_discrete
footer_length-trailer n h =
    let value : n % 256
          + 256 * (n / 256 % 256)
          + 65536 * (n / 65536 % 256)
          + 16777216 * (n / 16777216 % 256)
        ≡ n =
      omega arith in
    ap some value

read_footer-trailer :
    (body footer after : List ℕ)
    → length after ≡ 8
    → read_footer (body ++ (footer ++ after)) (some (length footer)) ≡ ok footer
unfolding read_footer
read_footer-trailer body footer after h =
    let size : length (footer ++ after) ≡ length footer + 8 =
      omega (arith, h, length-append footer after) in
    let found : seek_end (length footer + 8) (body ++ (footer ++ after)) ≡ ok (footer ++ after) =
      subst (λ n. seek_end n (body ++ (footer ++ after)) ≡ ok (footer ++ after)) size
        (seek_end-append body (footer ++ after)) in
    let all_read : ltb (length footer) (length footer) ≡ false = ground arith in
    bind_ok _ found ∙ rw (take-append footer after, all_read) refl

-- Of a file that ends in a footer below 4 GiB, its length and the Parquet mark, exactly the footer
-- is read.
pub parquet_footer-trailer :
    (body footer : List ℕ)
    → length footer < 2 ^ 32
    → parquet_footer (body ++ (footer ++ trailer (length footer))) ≡ ok footer
unfolding parquet_footer
parquet_footer-trailer body footer h =
    let after = trailer (length footer) in
    let found : seek_end 8 (body ++ (footer ++ after)) ≡ ok after =
      subst (λ bs. seek_end 8 bs ≡ ok after) (append_assoc body footer after)
        (seek_end-append (body ++ footer) after) in
    bind_ok _ found
    ∙ ap (read_footer (body ++ (footer ++ after))) (footer_length-trailer (length footer) h)
    ∙ read_footer-trailer body footer after refl
