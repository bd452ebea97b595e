-- ===== src/Console/Keeps.antt =====
-- What a sequence of calls of `printf` and `terminal_setcolor` does to the terminal.
use comet_os.Base.{◌++◌, u8, ap, ℕ, ◌≡◌, refl, ◌∙◌, arith, List, [], ◌∷◌, some, true}
use comet_os.Libc.Stdio.{Arg, printed, printf}
use comet_os.Libc.Stdio.Forward.{forward}
use comet_os.Terminal.{Terminal, setcolor, make_color, putchar, write}
use comet_os.Terminal.Output.{putchar_color, IsValid, Keeps, putchar-Keeps}
use comet_os.Console.{color_black, Shown, colored, text, codes, show}

-- A call of `printf` that fits its arguments and writes no backspace, or one that sets the colour.
pub record Prints (format : List ℕ) (args : List Arg) : Type 0 where
  pub out : List ℕ
  pub written : ℕ
  pub made : printf format args ≡ printed out written
  pub ahead : forward out ≡ true

pub prints :
    {format : List ℕ} {args : List Arg} {out : List ℕ} {written : ℕ}
    → printf format args ≡ printed out written
    → forward out ≡ true
    → Prints format args
prints {out = out} {written = written} made ahead = record {
  out = out;
  written = written;
  made = made;
  ahead = ahead;
}

abbrev pub Forward : List Shown → Type 0
Forward [] = Unit {0}
Forward (colored color ∷ rest) = Forward rest
Forward (text format args ∷ rest) = Prints (codes format) args × Forward rest

write-Keeps :
    (cs : List ℕ) (t : Terminal)
    → IsValid t
    → forward cs ≡ true
    → Keeps t (write cs t) × ((write cs t).color ≡ t.color)
unfolding write
write-Keeps [] t v ahead = (record { valid = v; behind = λ j h. refl }, refl)
write-Keeps (c ∷ cs) t v ahead =
    let first = putchar-Keeps c t v (λ e. absurd (ground arith)) in
    let (rest, color) = write-Keeps cs (putchar c t) first.valid (ground arith) in
    (
      record { valid = rest.valid; behind = λ j h. rest.behind j h ∙ first.behind j h },
      color ∙ putchar_color c t,
    )

-- The colour that a sequence of calls leaves.
unfoldable pub last_color : List Shown → ℕ → ℕ
last_color [] color = color
last_color (colored c ∷ rest) color = last_color rest (make_color c color_black)
last_color (text format args ∷ rest) color = last_color rest color

pub show-Keeps :
    (shown : List Shown) (t : Terminal)
    → IsValid t
    → Forward shown
    → (u : Terminal) × (show shown t ≡ some u) × Keeps t u × (u.color ≡ last_color shown t.color)
unfolding show setcolor last_color
show-Keeps [] t v all = (t, refl, record { valid = v; behind = λ j h. refl }, refl)
show-Keeps (colored color ∷ rest) t v all =
    let (u, made, kept, last) =
      show-Keeps rest (setcolor (make_color color color_black) t)
        (record { row = v.row; column = v.column }) all in
    (
      u,
      made,
      record { valid = kept.valid; behind = kept.behind },
      last
          ∙ ap (last_color rest) (
              let once : u8 (make_color color color_black) ≡ make_color color color_black =
                omega arith in
              once),
    )
show-Keeps (text format args ∷ rest) t v (here, all) =
    let (first, color) = write-Keeps here.out t v here.ahead in
    let (u, made, kept, last) = show-Keeps rest (write here.out t) first.valid all in
    (
      u,
      rw (show, here.made) made,
      record { valid = kept.valid; behind = λ j h. kept.behind j h ∙ first.behind j h },
      last ∙ ap (last_color rest) color,
    )

pub Forward-append : (xs ys : List Shown) → Forward xs → Forward ys → Forward (xs ++ ys)
Forward-append [] ys h k = k
Forward-append (colored color ∷ xs) ys h k = Forward-append xs ys h k
Forward-append (text format args ∷ xs) ys (here, h) k = (here, Forward-append xs ys h k)
