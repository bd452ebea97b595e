-- ===== src/Arrays/Links.antt =====
-- Doubly linked chains in the memory of kernel/kernel/array.c, and what unlinking a node makes of one.
use comet_os.Base.{ℕ, ◌≡◌, ◌≢◌, refl, sym, ◌∙◌, List, [], ◌∷◌, ◌++◌}
use mathlib.Core.Path.{subst}
use comet_os.Arrays.{Node}
use comet_os.Arrays.Insert.{Fresh, last_of}

-- The nodes are met in this order from `at` on, and then NULL; each leads back to the one before,
-- the first to `before`.
unfoldable pub Linked : (ℕ → Node) → ℕ → ℕ → List ℕ → Type 0
Linked nodes before at [] = at ≡ 0
Linked nodes before at (x ∷ xs) =
    (at ≡ x) × (x ≢ 0) × ((nodes x).prev ≡ before) × Linked nodes x (nodes x).next xs

unfoldable pub Distinct : List ℕ → Type 0
Distinct [] = Unit {0}
Distinct (x ∷ xs) = Fresh x xs × Distinct xs

pub Fresh-append : (x : ℕ) (xs ys : List ℕ) → Fresh x (xs ++ ys) → Fresh x xs × Fresh x ys
unfolding Fresh
Fresh-append x [] ys f = (tt, f)
Fresh-append x (z ∷ xs) ys (ne, f) = let (a, b) = Fresh-append x xs ys f in ((ne, a), b)

pub Fresh-join : (x : ℕ) (xs ys : List ℕ) → Fresh x xs → Fresh x ys → Fresh x (xs ++ ys)
unfolding Fresh
Fresh-join x [] ys f g = g
Fresh-join x (z ∷ xs) ys (ne, f) g = (ne, Fresh-join x xs ys f g)

-- The links that a chain reads are those of its own nodes.
pub Linked-frame :
    (xs : List ℕ) (m n : ℕ → Node) (before at p q : ℕ)
    → ((j : ℕ) → j ≢ p → (n j).next ≡ (m j).next)
    → ((j : ℕ) → j ≢ q → (n j).prev ≡ (m j).prev)
    → Fresh p xs
    → Fresh q xs
    → Linked m before at xs
    → Linked n before at xs
unfolding Linked Fresh
Linked-frame [] m n before at p q nexts prevs fp fq l = l
Linked-frame (x ∷ xs) m n before at p q nexts prevs (np, fp) (nq, fq) (here, used, back, l) = (
  here,
  used,
  prevs x nq ∙ back,
  subst (λ z. Linked n x z xs) (sym (nexts x np))
      (Linked-frame xs m n x (m x).next p q nexts prevs fp fq l),
)

module _ (nodes : ℕ → Node) (node : ℕ) (ys : List ℕ) where
  -- The node before, and that behind, are not among the others.
  pub prev-last_of :
      (xs : List ℕ) (before at : ℕ)
      → Linked nodes before at (xs ++ node ∷ ys)
      → (nodes node).prev ≡ last_of before xs
  unfolding Linked last_of
  prev-last_of [] before at (here, used, back, l) = back
  prev-last_of (x ∷ xs) before at (here, used, back, l) = prev-last_of xs x (nodes x).next l

  pub next-Linked :
      (xs : List ℕ) (before at : ℕ)
      → Linked nodes before at (xs ++ node ∷ ys)
      → Linked nodes node (nodes node).next ys
  unfolding Linked
  next-Linked [] before at (here, used, back, l) = l
  next-Linked (x ∷ xs) before at (here, used, back, l) = next-Linked xs x (nodes x).next l

pub next_apart :
    (nodes : ℕ → Node) (x before at : ℕ) (ys : List ℕ)
    → Linked nodes before at ys
    → Fresh x ys
    → x ≢ 0
    → x ≢ at
unfolding Linked Fresh
next_apart nodes x before at [] l f nz e = nz (e ∙ l)
next_apart nodes x before at (y ∷ ys) (here, used, back, l) (ne, f) nz e = ne (sym here ∙ sym e)

pub last_of_apart : (xs : List ℕ) (x y : ℕ) → x ≢ y → Fresh y xs → last_of x xs ≢ y
unfolding last_of Fresh
last_of_apart [] x y ne f = ne
last_of_apart (z ∷ xs) x y ne (nz, f) = last_of_apart xs z y nz f

pub last_of-append : (xs ys : List ℕ) (x y : ℕ) → last_of x (xs ++ y ∷ ys) ≡ last_of y ys
unfolding last_of
last_of-append [] ys x y = refl
last_of-append (z ∷ xs) ys x y = last_of-append xs ys z y
