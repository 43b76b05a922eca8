-- ===== src/Base/Decimal.antt =====
-- `printf("%d")` and `atoi` on 32-bit patterns.
use Prim.Native.Nat.{ℕ, zero, suc, ◌+◌, ◌-◌, ◌*◌, ◌/◌, ◌%◌, ◌^◌, ◌≤◌, ◌<◌}
use mathlib.Core.Path.{◌≡◌, refl, ap, ◌∙◌}
use mathlib.Core.Logic.{◌≢◌, ◌⊎◌}
use mathlib.Core.Bool.{Bool, ◌&&◌, ◌||◌}
use mathlib.Core.Option.{Option, none, some}
use mathlib.Core.List.{[], ◌∷◌, ◌++◌, append_assoc, append-nil}
use native.Mathlib.Omega.{arith}
use native.Mathlib.Nat.{pow-suc}
use ece.Base.Tests.{◌==◌, if◌then◌else◌, ltb, leb}
use ece.Base.Lists.{length, All, All-append, length-append}
use ece.Base.Str.{Bytes}

abbrev pub u32_mod : ℕ
u32_mod = 2 ^ 32

abbrev pub int_max : ℕ
int_max = 2 ^ 31 - 1

-- At most `f + 1` decimal digits, the most significant first.
unfoldable pub digits : ℕ → ℕ → Bytes
digits zero n = (b'0' + n % 10) ∷ []
digits (suc f) n =
    let front = digits f (n / 10) in
    if ltb n 10 then (b'0' + n) ∷ [] else front ++ (b'0' + n % 10) ∷ []

-- `%d` of the `unsigned int` `n`, which is read as an `int`.
unfoldable pub print_int : ℕ → Bytes
unfolding digits
print_int n = if leb n int_max then digits 9 n else b'-' ∷ digits 9 (u32_mod - n)

unfoldable pub is_digit : ℕ → Bool
is_digit c = leb b'0' c && leb c b'9'

unfoldable pub is_space : ℕ → Bool
is_space c = c == 32 || (leb 9 c && leb c 13)

unfoldable pub skip_spaces : Bytes → Bytes
unfolding is_space
skip_spaces [] = []
skip_spaces (c ∷ s) = if is_space c then skip_spaces s else c ∷ s

-- The digits at the front, behind a number that was read already.
unfoldable pub scan : ℕ → Bytes → ℕ
unfolding is_digit
scan acc [] = acc
scan acc (c ∷ s) = if is_digit c then scan (acc * 10 + (c - b'0')) s else acc

-- The value of an `int` as a 32-bit pattern; `none` where the number does not fit.
unfoldable pub signed : Bytes → Option ℕ
unfolding scan
signed [] = some 0
signed (c ∷ s) =
    if c == b'-'
    then (if leb (scan 0 s) (int_max + 1) then some ((u32_mod - scan 0 s) % u32_mod) else none)
    else if c == b'+'
    then (if leb (scan 0 s) int_max then some (scan 0 s) else none)
    else if leb (scan 0 (c ∷ s)) int_max
    then some (scan 0 (c ∷ s))
    else none

-- `atoi`, stored in an `unsigned int`.
unfoldable pub atoi : Bytes → Option ℕ
unfolding skip_spaces signed
atoi s = signed (skip_spaces s)

atoi_tests :
    (atoi (b' ' ∷ b'4' ∷ b'2' ∷ b':' ∷ []) ≡ some 42) × (atoi (b'-' ∷ b'1' ∷ []) ≡ some 0xffffffff)
unfolding atoi
atoi_tests = (refl, refl)

print_int_test : print_int 1204 ≡ b'1' ∷ b'2' ∷ b'0' ∷ b'4' ∷ []
unfolding print_int
print_int_test = refl

abbrev pub IsDigit : ℕ → Type 0
IsDigit c = (b'0' ≤ c) × (c ≤ b'9')

pub digits-IsDigit : (f n : ℕ) → All IsDigit (digits f n)
unfolding digits
digits-IsDigit zero n = omega arith
digits-IsDigit (suc f) n = ground (
  arith,
  All-append IsDigit (digits f (n / 10)) ((b'0' + n % 10) ∷ []) (digits-IsDigit f (n / 10))
      (omega arith),
)

pub length-digits-le : (f n : ℕ) → length (digits f n) ≤ f + 1
unfolding digits
length-digits-le zero n = omega arith
length-digits-le (suc f) n =
    ground
      (arith, length-digits-le f (n / 10), length-append (digits f (n / 10)) ((b'0' + n % 10) ∷ []))

scan_step :
    (acc d : ℕ) (rest : Bytes) → d < 10 → scan acc ((b'0' + d) ∷ rest) ≡ scan (acc * 10 + d) rest
unfolding scan
scan_step acc d rest h = ground arith

pub scan-digits :
    (f n : ℕ) (rest : Bytes) → n < 10 ^ suc f → scan 0 (digits f n ++ rest) ≡ scan n rest
unfolding digits
scan-digits zero n rest h = ground (arith, scan_step 0 (n % 10) rest (omega arith))
scan-digits (suc f) n rest h = ground (
  arith,
  pow-suc 10 (suc f),
  scan-digits f (n / 10) ((b'0' + n % 10) ∷ rest),
  scan_step (n / 10) (n % 10) rest (omega arith),
  scan_step 0 n rest,
  append_assoc (digits f (n / 10)) ((b'0' + n % 10) ∷ []) rest,
)

-- A number that an `int` holds is read from the digits at the front, if no digit follows them.
signed-digits :
    (s rest : Bytes) (n : ℕ)
    → scan 0 (s ++ rest) ≡ n
    → n ≤ int_max
    → All IsDigit s
    → s ≢ []
    → atoi (s ++ rest) ≡ some n
unfolding atoi signed is_digit
signed-digits [] rest n e h d ne = absurd (ne refl)
signed-digits (c ∷ s) rest n e h d ne = ground arith

digits-ne-nil : (f n : ℕ) → digits f n ≢ []
unfolding digits
digits-ne-nil zero n h = cc
digits-ne-nil (suc f) n h =
    ground (arith, length-append (digits f (n / 10)) ((b'0' + n % 10) ∷ []), ap length h)

module _ (n : ℕ) (h : n ≤ int_max) where
  pub print_int-digits : print_int n ≡ digits 9 n
  unfolding print_int
  print_int-digits = ground arith

  pub atoi-print_int-append : (rest : Bytes) → scan n rest ≡ n → atoi (print_int n ++ rest) ≡ some n
  atoi-print_int-append rest e = rw print_int-digits (
      signed-digits (digits 9 n) rest n (scan-digits 9 n rest (omega arith) ∙ e) h
        (digits-IsDigit 9 n) (digits-ne-nil 9 n))

  pub atoi-print_int : atoi (print_int n) ≡ some n
  unfolding scan
  atoi-print_int = rw (append-nil (print_int n)) at (atoi-print_int-append [] refl)

  pub print_int-IsDigit : All IsDigit (print_int n)
  print_int-IsDigit = rw print_int-digits (digits-IsDigit 9 n)

  pub length-print_int-le : length (print_int n) ≤ 10
  length-print_int-le = rw print_int-digits (length-digits-le 9 n)

pub IsDigit-ne : (k : ℕ) (s : Bytes) → (k < b'0') ⊎ (b'9' < k) → All IsDigit s → All (λ c. c ≢ k) s
IsDigit-ne k [] h d = tt
IsDigit-ne k (c ∷ s) h d = (omega arith, IsDigit-ne k s h d.1)
