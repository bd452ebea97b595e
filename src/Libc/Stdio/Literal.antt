-- ===== src/Libc/Stdio/Literal.antt =====
-- What `printf` of libc/stdio/printf.c writes of a format's own bytes, and `puts`.
use comet_os.Base.{
  ℕ, suc, ◌+◌, ◌≡◌, ◌≢◌, refl, ap, ◌∙◌, arith, false, List, [], ◌∷◌, ◌++◌, append-nil, length, ◌==◌,
}
use mathlib.Core.Path.{ap₂}
use comet_os.Libc.Stdio.{
  goes, Arg, string, printed, literal_run, print_c, round, after, printf_from, printf, puts,
}

-- No byte is a `%`.
abbrev pub Literal : List ℕ → Type 0
Literal [] = Unit {0}
Literal (c ∷ cs) = (c ≢ b'%') × Literal cs

literal_run-Literal : (text : List ℕ) → Literal text → literal_run text ≡ (text, [])
unfolding literal_run
literal_run-Literal [] h = refl
literal_run-Literal (c ∷ text) (n, h) =
    let other : (c == b'%') ≡ false = ground arith in
    rw (literal_run, other, literal_run-Literal text h) refl

round-Literal :
    (c : ℕ) (text : List ℕ) (args : List Arg)
    → c ≢ b'%'
    → Literal text
    → round c text false args ≡ goes (c ∷ text) (length text + 1) [] false args
unfolding round
round-Literal c text args n h =
    let other : (c == b'%') ≡ false = ground arith in
    rw (round, other) (rw (print_c, literal_run-Literal text h) refl)

-- The loop on the rest of a format, which has ended.
rest_ends : (f : ℕ) (args : List Arg) → printf_from (suc f) [] false args ≡ printed [] 0
unfolding printf_from
rest_ends f args = refl

whole :
    (f : ℕ) (text : List ℕ) (args : List Arg)
    → Literal text
    → printf_from (suc (suc f)) text false args ≡ printed text (length text)
unfolding printf_from after
whole f [] args h = refl
whole f (c ∷ text) args (n, h) =
    rw (printf_from, round-Literal c text args n h)
      (ap (after (c ∷ text) (length text + 1)) (rest_ends f args)
        ∙ ap₂ (λ x y. printed x y) (append-nil (c ∷ text)) (omega arith))

string_round :
    (text : List ℕ)
    → round b'%' (b's' ∷ 10 ∷ []) false (string text ∷ []) ≡ goes text 0 (10 ∷ []) false []
unfolding round
string_round text = refl

counted :
    (text : List ℕ) (args : List Arg)
    → Literal text
    → printf_from (length text + 1) text false args ≡ printed text (length text)
unfolding printf_from
counted [] args h = refl
counted (c ∷ text) args h =
    let e : length (c ∷ text) + 1 ≡ suc (suc (length text)) = omega arith in
    ap (λ f. printf_from f (c ∷ text) false args) e ∙ whole (length text) (c ∷ text) args h

-- `printf` of a format without `%` writes the format and returns its length; `puts` writes its text
-- and a line feed, but returns 1 whatever the text is, since `printf` counts the bytes of the
-- format only.
pub printf-Literal :
    (text : List ℕ) (args : List Arg)
    → (Literal text → printf text args ≡ printed text (length text))
      × (puts text ≡ printed (text ++ 10 ∷ []) 1)
unfolding printf puts
printf-Literal text args = (λ h. counted text args h, refl)
