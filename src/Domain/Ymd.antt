-- ===== src/Domain/Ymd.antt =====
-- `parseYmd` of cpp/include/Record311.hpp on dates as they are written.
use Prim.Native.Char.{Char, code}
use mini2_aaa.Base.{suc, ◌||◌, ℕ, ◌+◌, ◌*◌, ◌%◌, ◌^◌, ◌<◌, ◌≡◌, String, ltb, false, arith, length}
use mini2_aaa.Domain.{parse_ymd, bytes, digit_value}

-- A character that is the digit of a number.
pub record IsDigit (c : Char) (d : ℕ) : Type 0 where
  pub coded : code c ≡ 48 + d
  pub small : d < 10

digit_value-IsDigit : (c : Char) (d : ℕ) → IsDigit c d → digit_value (code c) ≡ d
digit_value-IsDigit c d h = rw h.coded (let s = h.small in ground arith)

long_enough : (n : ℕ) → ltb (suc (suc (suc (suc (suc (suc (suc (suc (suc (suc n)))))))))) 10 ≡ false
long_enough n = ground arith

starts_with_digit :
    (c : Char) (d : ℕ) → IsDigit c d → (ltb (code c) b'0' || ltb b'9' (code c)) ≡ false
starts_with_digit c d h = rw h.coded (let s = h.small in ground arith)

-- The number of a date fits 32 bits.
no_wrap :
    (year month day : ℕ)
    → year < 10000
    → month < 100
    → day < 100
    → ((year % 2 ^ 32 * 10000) % 2 ^ 32 + (month % 2 ^ 32 * 100) % 2 ^ 32 + day % 2 ^ 32) % 2 ^ 32
      ≡ year * 10000 + month * 100 + day
no_wrap year month day y m d = omega arith

-- A text that starts with a date, `YYYY-MM-DD` with any separators, is read as
-- the number YYYYMMDD, whatever follows the date.
pub parse_ymd_digits :
    (y1 y2 y3 y4 m1 m2 d1 d2 sep sep' : Char) (rest : String) (a b c d e f g h : ℕ)
    → IsDigit y1 a
    → IsDigit y2 b
    → IsDigit y3 c
    → IsDigit y4 d
    → IsDigit m1 e
    → IsDigit m2 f
    → IsDigit d1 g
    → IsDigit d2 h
    → parse_ymd (
        String.◌∷◌ y1 (
          String.◌∷◌ y2 (
            String.◌∷◌ y3 (
              String.◌∷◌ y4 (
                String.◌∷◌ sep (
                  String.◌∷◌ m1
                    (String.◌∷◌ m2 (String.◌∷◌ sep' (String.◌∷◌ d1 (String.◌∷◌ d2 rest))))))))))
      ≡ (a * 1000 + b * 100 + c * 10 + d) * 10000 + (e * 10 + f) * 100 + (g * 10 + h)
unfolding parse_ymd
parse_ymd_digits y1 y2 y3 y4 m1 m2 d1 d2 sep sep' rest a b c d e f g h ha hb hc hd he hf hg hh =
    rw
      (
        long_enough (length (bytes rest)),
        starts_with_digit y1 a ha,
        digit_value-IsDigit y1 a ha,
        digit_value-IsDigit y2 b hb,
        digit_value-IsDigit y3 c hc,
        digit_value-IsDigit y4 d hd,
        digit_value-IsDigit m1 e he,
        digit_value-IsDigit m2 f hf,
        digit_value-IsDigit d1 g hg,
        digit_value-IsDigit d2 h hh,
      )
      (no_wrap (a * 1000 + b * 100 + c * 10 + d) (e * 10 + f) (g * 10 + h)
        (let i = ha.small in
          let j = hb.small in let k = hc.small in let l = hd.small in omega arith)
        (let i = he.small in let j = hf.small in omega arith)
        (let i = hg.small in let j = hh.small in omega arith))
