-- ===== src/Stdlib.antt =====
-- user_programs/stdlib/src/stdlib.c and string.c: the printing of numbers and the splitting of a text
-- by user programs. A buffer for a number is a function from indices to characters; it has room for
-- what is written.
pub mod Reverse
pub mod Digits
pub mod Numerals
pub mod Tokens
pub mod Stdio
pub mod Formats
use conifer_os.Common.{
  ℕ, zero, suc, ◌+◌, ◌-◌, ◌/◌, ◌%◌, ◌^◌, ◌==◌, ltb, if◌then◌else◌, Option, none, some, ℤ, pos,
  negsuc, Bool, true, false, List, [], ◌∷◌, ◌>>=◌,
}
use conifer_os.CString.{strlen}

abbrev pub Buffer : Type 0
Buffer = ℕ → ℕ

-- `str[i] = c`
unfoldable pub set_char : Buffer → ℕ → ℕ → Buffer
set_char str i c j = if j == i then c else str j

-- The loop of `reverse_str`, on fuel.
unfoldable pub reverse_loop : ℕ → Buffer → ℕ → ℕ → Buffer
unfolding set_char
reverse_loop zero str l r = str
reverse_loop (suc fuel) str l r =
    let rest = reverse_loop fuel (set_char (set_char str l (str r)) r (str l)) (l + 1) (r - 1) in
    if ltb l r then rest else str

-- Half as many rounds as characters are enough. For no characters `r` would be -1, and the loop ends
-- at once as it does here.
unfoldable pub reverse_str : Buffer → ℕ → Buffer
unfolding reverse_loop
reverse_str str len = reverse_loop len str 0 (len - 1)

-- The loop over the digits, on fuel, for a number that is not negative. It returns the buffer and `i`.
unfoldable pub write_digits : ℕ → ℕ → Buffer → ℕ → Buffer × ℕ
unfolding set_char
write_digits zero num buffer i = (buffer, i)
write_digits (suc fuel) zero buffer i = (buffer, i)
write_digits (suc fuel) (suc n) buffer i =
    write_digits fuel (suc n / 10) (set_char buffer i (48 + suc n % 10)) (i + 1)

-- The end of the text and its reversal.
unfoldable pub finish : Buffer × ℕ → Buffer
unfolding set_char reverse_str
finish (buffer, i) = reverse_str (set_char buffer i 0) i

unfoldable pub add_sign : Buffer × ℕ → Buffer × ℕ
unfolding set_char
add_sign (buffer, i) = (set_char buffer i 45, i + 1)

-- Each round divides the number by ten, so as many rounds as the number are enough. The behaviour for
-- -2147483648, whose negation is no `int`, is not defined.
unfoldable pub itoa : ℤ → Buffer → Option Buffer
unfolding set_char write_digits finish add_sign
itoa (pos zero) buffer = some (set_char (set_char buffer 0 48) 1 10)
itoa (pos (suc n)) buffer = some (finish (write_digits (suc n) (suc n) buffer 0))
itoa (negsuc n) buffer =
    if suc n == 2 ^ 31
    then none
    else some (finish (add_sign (write_digits (suc n) (suc n) buffer 0)))

-- The loop of `strtok`, from the index `i` on, at which the pointers `remainder` and `out_tok` are
-- given. It returns what `out_tok` points to and the new `remainder`, which may be null.
unfoldable pub strtok_loop : List ℕ → ℕ → List ℕ → Option (List ℕ × Option (List ℕ))
strtok_loop [] delim out_tok = none
strtok_loop (c ∷ s) delim [] = none
strtok_loop (c ∷ s) delim (o ∷ out_tok) =
    let rest = strtok_loop s delim out_tok >>= λ (out, r). some (c ∷ out, r) in
    if c == 0
    then some (0 ∷ out_tok, none)
    else if c == delim
    then some (0 ∷ out_tok, some s)
    else rest

-- The rest of `strtok` for a `remainder` that is not null. The length of `str` is the size of an array
-- that is not used.
unfoldable pub cut : List ℕ → List ℕ → ℕ → List ℕ → Option (Bool × (List ℕ × Option (List ℕ)))
unfolding strtok_loop
cut str remainder delim out_tok =
    strlen str >>= λ size. strtok_loop remainder delim out_tok >>= λ r. some (true, r)

-- `null_string` is the memory at address 0, whose length is taken when `str` is null. Memory is given
-- as for the kernel's functions on strings: from where the pointer points on, with a fault behind its
-- end. The results are whether `out_tok` is returned and not null, what it points to, and `remainder`.
unfoldable pub strtok :
    List ℕ
    → Option (List ℕ)
    → Option (List ℕ)
    → ℕ
    → List ℕ
    → Option (Bool × (List ℕ × Option (List ℕ)))
unfolding cut
strtok null_string remainder (some s) delim out_tok = cut s s delim out_tok
strtok null_string (some s) none delim out_tok = cut null_string s delim out_tok
strtok null_string none none delim out_tok = some (false, (out_tok, none))
