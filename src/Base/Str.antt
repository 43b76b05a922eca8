-- ===== src/Base/Str.antt =====
-- C strings and byte arrays. A string is the list of its bytes before the NUL; an array is the
-- list of the bytes that were written, and every byte behind them is 0.
use Prim.Native.Nat.{ℕ, zero, suc, ◌+◌, ◌≤◌, ◌<◌}
use Prim.Native.Char.{code}
use Prim.Native.String.{String}
use mathlib.Core.Path.{◌≡◌, refl, ap}
use mathlib.Core.Logic.{◌≢◌, ◌↔◌}
use mathlib.Core.Bool.{Bool, true, false, ◌&&◌}
use mathlib.Core.Option.{Option, none, some}
use mathlib.Core.List.{List, [], ◌∷◌, ◌++◌}
use native.Mathlib.Omega.{arith}
use native.Mathlib.Nat.{zero-add, suc-add}
use ece.Base.Tests.{◌==◌, if◌then◌else◌, ltb}
use ece.Base.Lists.{length, All, take, drop, take_all}

abbrev pub Bytes : Type 0
Bytes = List ℕ

abbrev pub codes : String → Bytes
codes String.[] = []
codes (String.◌∷◌ c s) = code c ∷ codes s

-- `strcmp(a, b) == 0`.
unfoldable pub str_eq : Bytes → Bytes → Bool
str_eq [] [] = true
str_eq [] (b ∷ bs) = false
str_eq (a ∷ xs) [] = false
str_eq (a ∷ xs) (b ∷ bs) = a == b && str_eq xs bs

pub str_eq_sound : (a b : Bytes) → str_eq a b ≡ true → a ≡ b
unfolding str_eq
str_eq_sound [] [] h = refl
str_eq_sound [] (b ∷ bs) h = cc
str_eq_sound (a ∷ xs) [] h = cc
str_eq_sound (a ∷ xs) (b ∷ bs) h = ground (arith, str_eq_sound xs bs)

pub str_eq_refl : (a : Bytes) → str_eq a a ≡ true
unfolding str_eq
str_eq_refl [] = refl
str_eq_refl (a ∷ xs) = ground (arith, str_eq_refl xs)

pub str_eq_iff : (a b : Bytes) → (str_eq a b ≡ true) ↔ (a ≡ b)
str_eq_iff a b = (str_eq_sound a b, λ e. rw e (str_eq_refl b))

pub str_eq_comm : (a b : Bytes) → str_eq a b ≡ str_eq b a
unfolding str_eq
str_eq_comm [] [] = refl
str_eq_comm [] (b ∷ bs) = refl
str_eq_comm (a ∷ xs) [] = refl
str_eq_comm (a ∷ xs) (b ∷ bs) = ground (arith, str_eq_comm xs bs)

-- What a string function reads of an array: the bytes before the first NUL.
unfoldable pub c_str : Bytes → Bytes
c_str [] = []
c_str (c ∷ s) = if c == 0 then [] else c ∷ c_str s

-- The first `n` bytes of an array.
unfoldable pub read_bytes : ℕ → Bytes → Bytes
read_bytes zero s = []
read_bytes (suc n) [] = 0 ∷ read_bytes n []
read_bytes (suc n) (c ∷ s) = c ∷ read_bytes n s

-- `recv` of at most `n` bytes into an array that holds something already.
unfoldable pub overlay : ℕ → Bytes → Bytes → Bytes
overlay n datagram buffer = let got = take n datagram in got ++ drop (length got) buffer

pub overlay-append :
    (n : ℕ) (datagram buffer : Bytes)
    → length datagram ≤ n
    → overlay n datagram buffer ≡ datagram ++ drop (length datagram) buffer
unfolding overlay
overlay-append n datagram buffer h = rw (take_all n datagram h) refl

-- `strcpy` into an array of `cap` bytes, which must hold the NUL as well; `none` is a write behind
-- its end.
unfoldable pub strcpy : ℕ → Bytes → Option Bytes
strcpy cap s = if ltb (length s) cap then some s else none

-- A string that has no NUL inside.
abbrev pub NoNul : Bytes → Type 0
NoNul = All (λ c. c ≢ 0)

abbrev pub Lacks : ℕ → Bytes → Type 0
Lacks b = All (λ c. c ≢ b)

pub c_str-NoNul : (s : Bytes) → NoNul s → c_str s ≡ s
unfolding c_str
c_str-NoNul [] h = refl
c_str-NoNul (c ∷ s) h = ground (arith, c_str-NoNul s h.1)

pub c_str-append : (s t : Bytes) → NoNul s → c_str (s ++ t) ≡ s ++ c_str t
unfolding c_str
c_str-append [] t h = refl
c_str-append (c ∷ s) t h = ground (arith, c_str-append s t h.1)

pub c_str-is-NoNul : (s : Bytes) → NoNul (c_str s)
unfolding c_str
c_str-is-NoNul [] = tt
c_str-is-NoNul (c ∷ s) = ground (arith, c_str-is-NoNul s)

pub length-c_str-le : (s : Bytes) → length (c_str s) ≤ length s
unfolding c_str
length-c_str-le [] = omega arith
length-c_str-le (c ∷ s) = ground (arith, length-c_str-le s)

pub length-read_bytes : (n : ℕ) (s : Bytes) → length (read_bytes n s) ≡ n
unfolding read_bytes
length-read_bytes zero s = refl
length-read_bytes (suc n) [] = ap suc (length-read_bytes n [])
length-read_bytes (suc n) (c ∷ s) = ap suc (length-read_bytes n s)

pub read_bytes_all : (s : Bytes) → read_bytes (length s) s ≡ s
unfolding read_bytes
read_bytes_all [] = refl
read_bytes_all (c ∷ s) = ap (λ r. c ∷ r) (read_bytes_all s)

pub read_bytes_front : (s t : Bytes) → read_bytes (length s) (s ++ t) ≡ s
unfolding read_bytes
read_bytes_front [] t = refl
read_bytes_front (c ∷ s) t = ap (λ r. c ∷ r) (read_bytes_front s t)

-- Reading more than was written gives the written bytes and then zeros.
pub read_bytes-append :
    (s : Bytes) (n : ℕ) (t : Bytes) → read_bytes (length s + n) (s ++ t) ≡ s ++ read_bytes n t
unfolding read_bytes
read_bytes-append [] n t = rw zero-add
read_bytes-append (c ∷ s) n t = rw suc-add (ap (λ r. c ∷ r) (read_bytes-append s n t))

-- Zeros that are read behind the written bytes make no difference.
pub read_bytes-zeros :
    (n : ℕ) (d : Bytes) (k : ℕ)
    → n ≤ length d + k
    → read_bytes n (d ++ read_bytes k []) ≡ read_bytes n d
unfolding read_bytes
read_bytes-zeros zero d k h = refl
read_bytes-zeros (suc n) [] zero h = absurd (omega arith)
read_bytes-zeros (suc n) [] (suc k) h = ap (λ r. 0 ∷ r) (read_bytes-zeros n [] k (omega arith))
read_bytes-zeros (suc n) (c ∷ d) k h = ap (λ r. c ∷ r) (read_bytes-zeros n d k (omega arith))

pub strcpy_fits : (cap : ℕ) (s : Bytes) → length s < cap → strcpy cap s ≡ some s
unfolding strcpy
strcpy_fits cap s h = ground arith

pub strcpy_overflow : (cap : ℕ) (s : Bytes) → cap ≤ length s → strcpy cap s ≡ none
unfolding strcpy
strcpy_overflow cap s h = ground arith

pub strcpy_sound :
    (cap : ℕ) (s : Bytes) {t : Bytes} → strcpy cap s ≡ some t → (t ≡ s) × (length s < cap)
unfolding strcpy
strcpy_sound cap s h = ground arith
