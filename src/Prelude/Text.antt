-- ===== src/Prelude/Text.antt =====
-- Text of the program: decimal numbers in f-strings, and the order of `sorted` on strings.
use Prim.Native.Nat.{ℕ, zero, suc, ◌+◌, ◌-◌, ◌*◌, ◌/◌, ◌%◌, ◌<◌, Ordering}
use Prim.Native.Char.{Char, code}
use Prim.Native.String.{String, compare, ◌++◌}
use text.Mathlib.TextLemmas.{
  append_cancel_left, append_cancel_right, append-nil, cons≢nil, append-eq-nil_iff,
}
use text.Mathlib.TextPositions.{compare_refl}
use mathlib.Core.Path.{◌≡◌, refl, sym, ap, ◌∙◌}
use mathlib.Core.Logic.{◌≢◌, inl, inr}
use mathlib.Core.Bool.{Bool, true, false}
use native.Mathlib.Omega.{arith}
use agent_code_optimize_plug.Prelude.Tests.{ltb, ltb→lt, if◌then◌else◌, Bool-cases}
pub use Prim.Native.String.{◌++◌ as ◌^^◌}

digit : ℕ → Char
digit zero = "0"
digit (suc zero) = "1"
digit (suc (suc zero)) = "2"
digit (suc (suc (suc zero))) = "3"
digit (suc (suc (suc (suc zero)))) = "4"
digit (suc (suc (suc (suc (suc zero))))) = "5"
digit (suc (suc (suc (suc (suc (suc zero)))))) = "6"
digit (suc (suc (suc (suc (suc (suc (suc zero))))))) = "7"
digit (suc (suc (suc (suc (suc (suc (suc (suc zero)))))))) = "8"
digit _ = "9"

decimal_from : ℕ → ℕ → String → String
unfolding digit
decimal_from zero n acc = acc
decimal_from (suc fuel) n acc =
    let more = decimal_from fuel (n / 10) (String.◌∷◌ (digit (n % 10)) acc) in
    if ltb n 10 then String.◌∷◌ (digit (n % 10)) acc else more

-- `str(n)`
unfoldable pub decimal : ℕ → String
unfolding decimal_from
decimal n = decimal_from (suc n) n ""

code-digit : (k : ℕ) → k < 10 → code (digit k) ≡ 48 + k
unfolding digit
code-digit zero h = refl
code-digit (suc zero) h = refl
code-digit (suc (suc zero)) h = refl
code-digit (suc (suc (suc zero))) h = refl
code-digit (suc (suc (suc (suc zero)))) h = refl
code-digit (suc (suc (suc (suc (suc zero))))) h = refl
code-digit (suc (suc (suc (suc (suc (suc zero)))))) h = refl
code-digit (suc (suc (suc (suc (suc (suc (suc zero))))))) h = refl
code-digit (suc (suc (suc (suc (suc (suc (suc (suc zero)))))))) h = refl
code-digit (suc (suc (suc (suc (suc (suc (suc (suc (suc zero))))))))) h = refl
code-digit (suc (suc (suc (suc (suc (suc (suc (suc (suc (suc k)))))))))) h = absurd (omega arith)

-- The number that a run of digits stands for, after `v`.
read_from : ℕ → String → ℕ
read_from v String.[] = v
read_from v (String.◌∷◌ c s) = read_from (v * 10 + (code c - 48)) s

read_from-decimal_from :
    (fuel n : ℕ) (acc : String) → n < fuel → read_from 0 (decimal_from fuel n acc) ≡ read_from n acc
unfolding decimal_from read_from
read_from-decimal_from zero n acc h = absurd (omega arith)
read_from-decimal_from (suc fuel) n acc h = elim (Bool-cases (ltb n 10)) [
  | inl small ↦ rw small (
      ap (λ v. read_from v acc)
        (omega (arith, ltb→lt n 10 small, code-digit (n % 10) (omega arith))))
  | inr big ↦ rw big (
      read_from-decimal_from fuel (n / 10) (String.◌∷◌ (digit (n % 10)) acc) (ground arith)
      ∙ ap (λ v. read_from v acc) (omega (arith, code-digit (n % 10) (omega arith))))
]

-- Two numbers that print alike are equal.
pub decimal-injective : (n m : ℕ) → decimal n ≡ decimal m → n ≡ m
unfolding decimal read_from
decimal-injective n m e =
    sym (read_from-decimal_from (suc n) n "" (omega arith))
    ∙ ap (read_from 0) e
    ∙ read_from-decimal_from (suc m) m "" (omega arith)

decimal_of_1205 : decimal 1205 ≡ "1205"
unfolding decimal
decimal_of_1205 = refl

-- Nothing but the empty text can stand behind `s` and leave it as it is.
pub nil_of_append_self : (s t u : String) → s ++ (t ++ u) ≡ s → t ≡ ""
nil_of_append_self s t u e =
    (append-eq-nil_iff.0 (append_cancel_left s (t ++ u) "" (e ∙ sym (append-nil s)))).0

pub char-ne-nil : (c : Char) (s : String) → ◌≢◌ {A = String} (String.◌∷◌ c s) ""
char-ne-nil c s e = cons≢nil e

-- `a <= b` of two strings: by code points, as in Python.
unfoldable pub text_le : String → String → Bool
text_le a b = elim (compare a b) [ Ordering.gt ↦ false | _ ↦ true ]

pub text_le_refl : (s : String) → text_le s s ≡ true
unfolding text_le
text_le_refl s = rw (compare_refl s, text_le)

pub cancel_front : (s : String) {t u : String} → s ++ t ≡ s ++ u → t ≡ u
cancel_front s {t} {u} e = append_cancel_left s t u e

pub cancel_back : (t : String) {s u : String} → s ++ t ≡ u ++ t → s ≡ u
cancel_back t {s} {u} e = append_cancel_right s u t e
