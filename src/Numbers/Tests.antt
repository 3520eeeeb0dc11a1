-- ===== src/Numbers/Tests.antt =====
-- Numbers put out and read back.
use os.Base.{◌≡◌, ◌&&◌, refl, true, false, leb, if◌then◌else◌, codes, arith}
use os.Numbers.Defs.{fill_digits, backwards, printint, atoi}
use os.Numbers.Decimal.{atoi-printint}

minus_test : printint 4294967254 10 true ≡ codes "-42"
unfolding printint fill_digits backwards
minus_test = refl

hex_test : printint 48879 16 false ≡ codes "BEEF"
unfolding printint fill_digits backwards
hex_test = refl

atoi_example : atoi (printint 1907 10 true) ≡ (if true && leb 2147483648 1907 then 0 else 1907)
atoi_example = atoi-printint 1907 true (omega arith)
