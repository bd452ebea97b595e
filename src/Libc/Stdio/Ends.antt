-- ===== src/Libc/Stdio/Ends.antt =====
-- `printf` of libc/stdio/printf.c ends.
use comet_os.Base.{
  if◌then◌else◌, ℕ, zero, suc, ◌+◌, ◌≤◌, ◌<◌, ◌≢◌, refl, arith, Bool, true, false, if_both, none,
  some, List, [], ◌∷◌, length, ◌==◌,
}
use comet_os.Libc.Stdio.{
  Arg, word, double_word, string, Length, Step, wrote, rejected, undefined, Round, goes,
  bad_argument, Outcome, printed, unspecified, no_fuel, after, skip, find_modifier,
  length_modifiers, plain, is_signed_letter, base_of, number_step, starts_with, is_number_letter,
  argument_bits, char_step, string_step, letter_step, conversion_step, literal_run, print_c,
  percent_round, round, printf_from, printf,
}

abbrev LeavesAtMost : ℕ → Step → Type 0
LeavesAtMost n (wrote out left args) = length left ≤ n
LeavesAtMost n rejected = Unit {0}
LeavesAtMost n undefined = Unit {0}

-- A round on a format of `n` bytes and one more leaves `n` at most.
abbrev GoesOn : ℕ → Round → Type 0
GoesOn n (goes out amount left r args) = length left ≤ n
GoesOn n bad_argument = Unit {0}

literal_run-length : (format : List ℕ) → length (literal_run format).1 ≤ length format
unfolding literal_run
literal_run-length [] = omega arith
literal_run-length (c ∷ format) = ground (arith, literal_run-length format)

skip-length : (n : ℕ) (format : List ℕ) → length (skip n format) ≤ length format
unfolding skip
skip-length zero format = omega arith
skip-length (suc n) [] = omega arith
skip-length (suc n) (c ∷ format) = omega (arith, skip-length n format)

number_step-left :
    (s : Bool) (bits base : ℕ) (upper : Bool) (format : List ℕ) (args : List Arg)
    → LeavesAtMost (length format) (number_step s bits base upper format args)
unfolding number_step
number_step-left s bits base upper format [] = tt
number_step-left s bits base upper format (string t ∷ args) = tt
number_step-left s bits base upper format (word v ∷ args) =
    if_both (LeavesAtMost (length format)) (bits == 32) _ undefined (omega arith) tt
number_step-left s bits base upper format (double_word v ∷ args) =
    if_both (LeavesAtMost (length format)) (bits == 64) _ undefined (omega arith) tt

char_step-left :
    (format : List ℕ) (args : List Arg) → LeavesAtMost (length format) (char_step format args)
unfolding char_step
char_step-left format [] = tt
char_step-left format (string t ∷ args) = tt
char_step-left format (word v ∷ args) = omega arith
char_step-left format (double_word v ∷ args) = tt

string_step-left :
    (format : List ℕ) (args : List Arg) → LeavesAtMost (length format) (string_step format args)
unfolding string_step
string_step-left format [] = tt
string_step-left format (string t ∷ args) = omega arith
string_step-left format (word v ∷ args) = tt
string_step-left format (double_word v ∷ args) = tt

LeavesAtMost-mono : (n m : ℕ) (s : Step) → n ≤ m → LeavesAtMost n s → LeavesAtMost m s
LeavesAtMost-mono n m (wrote out left args) h l = omega arith
LeavesAtMost-mono n m rejected h l = tt
LeavesAtMost-mono n m undefined h l = tt

letter_step-left :
    (len : Length) (format : List ℕ) (args : List Arg)
    → LeavesAtMost (length format) (letter_step len format args)
unfolding letter_step
letter_step-left len [] args = tt
letter_step-left len (c ∷ format) args =
    let n = length format in
    let more = λ (s : Step) (h : LeavesAtMost n s). LeavesAtMost-mono n (suc n) s (omega arith) h in
    let P = LeavesAtMost (suc n) in
    let text = if c == b's' then string_step format args else rejected in
    let chars = if c == b'c' then char_step format args else text in
    if_both P (is_number_letter c) _ chars
      (elim (argument_bits (is_signed_letter c) len)
        as (λ b. P (elim b [
          | none ↦ rejected
          | some bits ↦ number_step (is_signed_letter c) bits (base_of c) (c == b'X') format args
        ])) [
          | none ↦ tt
          | some bits ↦
              more _
                (number_step-left (is_signed_letter c) bits (base_of c) (c == b'X') format args)
        ])
      (if_both P (c == b'c') (char_step format args) text (more _ (char_step-left format args)) (
        if_both P (c == b's') (string_step format args) rejected
          (more _ (string_step-left format args)) tt))

conversion_step-left :
    (format : List ℕ) (args : List Arg) → LeavesAtMost (length format) (conversion_step format args)
unfolding conversion_step
conversion_step-left format args =
    let found = find_modifier length_modifiers format plain 0 in
    LeavesAtMost-mono (length (skip found.1 format)) (length format) _ (skip-length found.1 format)
      (letter_step-left found.0 (skip found.1 format) args)

print_c-left :
    (c : ℕ) (format : List ℕ) (r : Bool) (args : List Arg)
    → GoesOn (length format) (print_c c format r args)
unfolding print_c
print_c-left c format r args = literal_run-length format

-- Of what a conversion left.
after_step-left :
    (s : Step) (format : List ℕ) (r : Bool) (args : List Arg)
    → LeavesAtMost (length format) s
    → GoesOn (length format) (elim s [
      | wrote out left args_left ↦ goes out 0 left r args_left
      | rejected ↦ print_c b'%' format true args
      | undefined ↦ bad_argument
    ])
after_step-left (wrote out left args_left) format r args h = h
after_step-left rejected format r args h = print_c-left b'%' format true args
after_step-left undefined format r args h = tt

percent_round-left :
    (format : List ℕ) (r : Bool) (args : List Arg)
    → GoesOn (length format) (percent_round format r args)
unfolding percent_round
percent_round-left format r args =
    let P = GoesOn (length format) in
    let stepped = elim (conversion_step format args) as (λ x. Round) [
      | wrote out left args_left ↦ goes out 0 left r args_left
      | rejected ↦ print_c b'%' format true args
      | undefined ↦ bad_argument
    ] in
    let known = if r then print_c b'%' format true args else stepped in
    if_both P (starts_with (b'%' ∷ []) format) (print_c b'%' (skip 1 format) r args) known
      (escaped format)
      (if_both P r (print_c b'%' format true args) stepped (print_c-left b'%' format true args) (
        after_step-left (conversion_step format args) format r args
          (conversion_step-left format args)))
  where
    escaped : (f : List ℕ) → GoesOn (length f) (print_c b'%' (skip 1 f) r args)
    escaped f = omega (arith, literal_run-length (skip 1 f), skip-length 1 f)

round-left :
    (c : ℕ) (format : List ℕ) (r : Bool) (args : List Arg)
    → GoesOn (length format) (round c format r args)
unfolding round
round-left c format r args =
    if_both (GoesOn (length format)) (c == b'%') _ _ (percent_round-left format r args)
      (print_c-left c format r args)

after-fuel : (out : List ℕ) (n : ℕ) (o : Outcome) → o ≢ no_fuel → after out n o ≢ no_fuel
unfolding after
after-fuel out n (printed rest written) h = λ e. cc
after-fuel out n unspecified h = λ e. cc
after-fuel out n no_fuel h = λ e. h refl

-- What a round leads to ends, where the loop does on every format of what it leaves.
next_ends :
    (f n : ℕ) (x : Round)
    → ((left : List ℕ) (r : Bool) (args : List Arg)
        → length left ≤ n
        → printf_from f left r args ≢ no_fuel)
    → GoesOn n x
    → elim x [
      | goes out amount left r args ↦ after out amount (printf_from f left r args)
      | bad_argument ↦ unspecified
    ]
      ≢ no_fuel
next_ends f n (goes out amount left r args) ends l =
    after-fuel out amount (printf_from f left r args) (ends left r args l)
next_ends f n bad_argument ends l = λ e. cc

printf_from_ends :
    (f : ℕ) (format : List ℕ) (r : Bool) (args : List Arg)
    → length format < f
    → printf_from f format r args ≢ no_fuel
unfolding printf_from
printf_from_ends zero format r args h = ground arith
printf_from_ends (suc f) [] r args h = λ e. cc
printf_from_ends (suc f) (c ∷ format) r args h =
    next_ends f (length format) (round c format r args)
      (λ left r2 args2 l. printf_from_ends f left r2 args2 (omega arith))
      (round-left c format r args)

-- The loop of `printf` ends for every format and every list of arguments, within one round more
-- than the format has bytes: each round takes at least one byte.
pub printf_ends : (format : List ℕ) (args : List Arg) → printf format args ≢ no_fuel
unfolding printf
printf_ends format args = printf_from_ends (length format + 1) format false args (omega arith)
