-- ===== src/Arrays/Refine.antt =====
-- The lists of kernel/kernel/array.c against the list of their nodes: what each operation makes of a
-- well-formed list.
use comet_os.Base.{
  append-nil, ℕ, ◌+◌, ◌<◌, ◌^◌, ◌≡◌, ◌≢◌, refl, sym, ap, ◌∙◌, arith, List, [], ◌∷◌, ◌++◌, ◌==◌,
  if◌then◌else◌,
}
use mathlib.Core.Path.{subst}
use comet_os.Arrays.{Node, Array, node_delete}
use comet_os.Arrays.Insert.{Fresh, last_of, count}
use comet_os.Arrays.Links.{
  Linked, Distinct, Fresh-append, Fresh-join, Linked-frame, prev-last_of, next-Linked, next_apart,
  last_of_apart, last_of-append,
}
use comet_os.Arrays.Delete.{Unlinked, node_delete-Unlinked}

-- A list of the nodes `xs`, none twice, linked both ways, with its ends and its number.
pub record IsArray (xs : List ℕ) (a : Array) : Type 0 where
  pub linked : Linked a.nodes 0 a.start xs
  pub distinct : Distinct xs
  pub end : a.end ≡ last_of 0 xs
  pub size : a.size ≡ count xs
  pub bounded : count xs < 2 ^ 32

Distinct-parts :
    (xs : List ℕ) (node : ℕ) (ys : List ℕ)
    → Distinct (xs ++ node ∷ ys)
    → Fresh node xs × Fresh node ys × Distinct (xs ++ ys)
unfolding Distinct Fresh
Distinct-parts [] node ys (f, d) = (tt, f, d)
Distinct-parts (x ∷ xs) node ys (f, d) =
    let (fx, fy, rest) = Distinct-parts xs node ys d in
    let (before, (ne, behind)) = Fresh-append x xs (node ∷ ys) f in
    ((λ e. ne (sym e), fx), fy, (Fresh-join x xs ys before behind, rest))

-- The start once a node behind `xs` is gone: `q`, which was behind it, if it stood first.
abbrev start_after : List ℕ → ℕ → ℕ → ℕ
start_after [] q at = q
start_after (x ∷ xs) q at = at

module _ (node : ℕ) (a b : Array) (ys : List ℕ) (u : Unlinked node a b) where
  abbrev q : ℕ
  q = (a.nodes node).next

  abbrev p : ℕ
  p = (a.nodes node).prev

  -- The nodes behind, when the one before them becomes `p`.
  behind-Linked :
      (zs : List ℕ) → Linked a.nodes node q zs → Fresh p zs → Distinct zs → Linked b.nodes p q zs
  unfolding Linked Fresh Distinct
  behind-Linked [] l fp d = l
  behind-Linked (z ∷ zs) (here, used, back, l) (np, fp) (fz, d) =
      let same : (b.nodes z).next ≡ (a.nodes z).next = u.nexts z ∙ ground arith in
      (
        here,
        used,
        u.prevs z ∙ ground arith,
        subst (λ s. Linked b.nodes z s zs) (sym same)
            (Linked-frame zs a.nodes b.nodes z (a.nodes z).next p q
              (λ j ne. u.nexts j ∙ ground arith) (λ j ne. u.prevs j ∙ ground arith) fp
              (subst (λ s. Fresh s zs) (sym here) fz) l),
      )

  -- The link of the node before: to `q` if that is the last one, and else as it was.
  next_after :
      (xs : List ℕ) (x : ℕ)
      → Linked a.nodes x (a.nodes x).next (xs ++ node ∷ ys)
      → Fresh x xs
      → (b.nodes x).next ≡ start_after xs q (a.nodes x).next
  unfolding Fresh
  next_after [] x l f =
      let back = prev-last_of a.nodes node ys [] x (a.nodes x).next l in
      let e : p ≡ x = unfold last_of in back in u.nexts x ∙ ground arith
  next_after (z ∷ xs) x l (ne, f) =
      let back = prev-last_of a.nodes node ys (z ∷ xs) x (a.nodes x).next l in
      let e : p ≡ last_of z xs = unfold last_of in back in
      let other = last_of_apart xs z x ne f in u.nexts x ∙ ground arith

  unlink-Linked :
      (xs : List ℕ) (before at : ℕ)
      → Linked a.nodes before at (xs ++ node ∷ ys)
      → Distinct (xs ++ node ∷ ys)
      → Fresh before (xs ++ node ∷ ys)
      → Linked b.nodes before (start_after xs q at) (xs ++ ys)
  unfolding Linked Fresh Distinct
  unlink-Linked [] before at (here, used, back, l) (f, d) (ne, fb) =
      subst (λ s. Linked b.nodes s q ys) back
        (behind-Linked ys l (subst (λ s. Fresh s ys) (sym back) fb) d)
  unlink-Linked (x ∷ xs) before at (here, used, back, l) (f, d) (ne, fb) =
      let (in_front, (other, behind)) = Fresh-append x xs (node ∷ ys) f in
      let apart =
        next_apart a.nodes x node q ys (next-Linked a.nodes node ys xs x (a.nodes x).next l) behind
          used in
      let rest = unlink-Linked xs x (a.nodes x).next l d f in
      (
        here,
        used,
        u.prevs x ∙ ground arith,
        subst (λ s. Linked b.nodes x s (xs ++ ys)) (sym (next_after xs x l in_front)) rest,
      )

pub Linked-Fresh :
    (xs : List ℕ) (nodes : ℕ → Node) (before at : ℕ) → Linked nodes before at xs → Fresh 0 xs
unfolding Linked Fresh
Linked-Fresh [] nodes before at l = tt
Linked-Fresh (x ∷ xs) nodes before at (here, used, back, l) =
    (used, Linked-Fresh xs nodes x (nodes x).next l)

pub count-append : (xs ys : List ℕ) → count (xs ++ ys) ≡ count xs + count ys
count-append [] ys = omega arith
count-append (x ∷ xs) ys = omega (arith, count-append xs ys)

pub node_used :
    (xs ys : List ℕ) (nodes : ℕ → Node) (before at node : ℕ)
    → Linked nodes before at (xs ++ node ∷ ys)
    → node ≢ 0
unfolding Linked
node_used [] ys nodes before at node (here, used, back, l) = used
node_used (x ∷ xs) ys nodes before at node (here, used, back, l) =
    node_used xs ys nodes x (nodes x).next node l

-- Where the list starts.
start_node :
    (xs ys : List ℕ) (nodes : ℕ → Node) (before at node : ℕ)
    → Linked nodes before at (xs ++ node ∷ ys)
    → Fresh node xs
    → (at ≡ node → last_of before xs ≡ before)
      × ((if node == at then (nodes node).next else at) ≡ start_after xs (nodes node).next at)
unfolding Linked Fresh last_of
start_node [] ys nodes before at node (here, used, back, l) f = (λ e. refl, ground arith)
start_node (x ∷ xs) ys nodes before at node (here, used, back, l) (ne, f) =
    (λ e. absurd (ne (sym here ∙ e)), ground arith)

-- Where it ends.
end_node :
    (xs ys : List ℕ) (node end p : ℕ)
    → end ≡ last_of 0 (xs ++ node ∷ ys)
    → Fresh node ys
    → p ≡ last_of 0 xs
    → (if node == end then p else end) ≡ last_of 0 (xs ++ ys)
unfolding Fresh
end_node xs [] node end p e f back =
    let at : end ≡ node = e ∙ unfold last_of in last_of-append xs [] 0 node in
    let whole = ap (last_of 0) (append-nil xs) in ground arith
end_node xs (y ∷ ys) node end p e (ne, f) back =
    let at = e ∙ last_of-append xs (y ∷ ys) 0 node in
    let at_last : end ≡ last_of y ys = unfold last_of in at in
    let same = last_of-append xs ys 0 y in let other = last_of_apart ys y node ne f in ground arith

-- `array_node_delete` of a node of the list leaves the list of the others, in their order and linked
-- both ways, frees this node, and changes no value.
pub node_delete-IsArray :
    (xs : List ℕ) (node : ℕ) (ys : List ℕ) (a : Array)
    → IsArray (xs ++ node ∷ ys) a
    → IsArray (xs ++ ys) (node_delete node a)
      × ((node_delete node a).freed ≡ node ∷ a.freed)
      × ((j : ℕ) → ((node_delete node a).nodes j).value ≡ (a.nodes j).value)
node_delete-IsArray xs node ys a is =
    let l = is.linked in
    let (f, g, d) = Distinct-parts xs node ys is.distinct in
    let used = node_used xs ys a.nodes 0 a.start node l in
    let back = prev-last_of a.nodes node ys xs 0 a.start l in
    let np = λ (e : (a.nodes node).prev ≡ node).
      last_of_apart xs 0 node (λ z. used (sym z)) f (sym back ∙ e) in
    let rest = next-Linked a.nodes node ys xs 0 a.start l in
    let nn = next_apart a.nodes node node (a.nodes node).next ys rest g used in
    let (first, begins) = start_node xs ys a.nodes 0 a.start node l f in
    let u = node_delete-Unlinked node a np (λ e. back ∙ first e) (λ e. nn (sym e)) in
    let chain =
      unlink-Linked node a (node_delete node a) ys u xs 0 a.start l is.distinct
        (Linked-Fresh (xs ++ node ∷ ys) a.nodes 0 a.start l) in
    let number = count-append xs (node ∷ ys) in
    let fewer = count-append xs ys in
    (
      record {
        linked =
            subst (λ s. Linked (node_delete node a).nodes 0 s (xs ++ ys)) (sym (u.start ∙ begins))
              chain;
        distinct = d;
        end = u.end ∙ end_node xs ys node a.end (a.nodes node).prev is.end g back;
        size = u.size ∙ omega (arith, number, fewer, is.size, is.bounded);
        bounded = omega (arith, number, fewer, is.bounded);
      },
      u.freed,
      u.values,
    )
