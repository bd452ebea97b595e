-- ===== src/Libc/Text/Tokens.antt =====
-- strspn and strpbrk of libc/string, and `lfind` of libc/stdlib/find.c.
use mathlib.Core.Path.{subst}
use native.Mathlib.Nat.{le_refl}
use comet_os.Base.{
  ==_refl, widen, ==_of_ne, ℕ, zero, suc, ◌+◌, ◌≤◌, ◌<◌, ◌≡◌, ◌≢◌, ◌⊎◌, inl, inr, some, arith, true,
  false, ap, ◌∙◌, ◌==◌, Bool-cases, if◌then◌else◌, ==_iff,
}
use native.Mathlib.Decide.{dec_lt}
use comet_os.Libc.Mem.{Bytes}
use comet_os.Libc.Text.{has_byte, span_from, strspn, break_from, strpbrk}
use comet_os.Libc.Text.Spec.{IsString, Has}

step_assoc : (s i : ℕ) → s + i + 1 ≡ s + (i + 1)
step_assoc s i = omega arith

module _ {m : Bytes} {d k : ℕ} (set : IsString m d k) (c : ℕ) where
  -- What the inner loop says of the bytes from `i` on.
  abbrev Says : ℕ → ℕ → Type 0
  Says f i =
      ((has_byte f (d + i) c m ≡ some true) × ((j : ℕ) × (j < k) × (m (d + j) ≡ c)))
      ⊎ ((has_byte f (d + i) c m ≡ some false) × ((j : ℕ) → i ≤ j → j < k → m (d + j) ≢ c))

  has_byte_from : (f i : ℕ) → i ≤ k → k < i + f → Says f i
  unfolding has_byte
  has_byte_from zero i le h = absurd (omega arith)
  has_byte_from (suc f) i le h = elim (dec_lt i k) [
    | yes lt ↦
        let full = ==_of_ne _ _ (set.full i lt) in
        elim (Bool-cases (m (d + i) == c)) [
          | inl hit ↦ inl (rw (full, hit), (i, lt, (==_iff _ _).0 hit))
          | inr miss ↦ elim (has_byte_from f (i + 1) (omega arith) (omega arith)) [
            | inl (e, found) ↦ inl (rw (full, miss, step_assoc) e, found)
            | inr (e, never) ↦ inr (
              rw (full, miss, step_assoc) e,
              widen (λ j. m (d + j) ≢ c) i k (λ g. ground arith) never,
            )
          ]
        ]
    | no end ↦ inr (at_end (omega arith), λ j lo hi. absurd (omega arith))
  ]
    where
      at_end : k ≡ i → has_byte (suc f) (d + i) c m ≡ some false
      at_end e = rw (subst (λ t. m (d + t) ≡ 0) e set.stop)

  -- The inner loop says whether the set has the byte.
  has_byte_lem :
      (fuel : ℕ)
      → k < fuel
      → ((has_byte fuel d c m ≡ some true) × Has m d k c)
        ⊎ ((has_byte fuel d c m ≡ some false) × ¬ Has m d k c)
  has_byte_lem fuel h = elim (has_byte_from fuel 0 (omega arith) (omega arith)) [
    | inl (e, found) ↦ inl (ap (λ t. has_byte fuel t c m) (omega arith) ∙ e, found)
    | inr (e, never) ↦
        inr (
          ap (λ t. has_byte fuel t c m) (omega arith) ∙ e,
          λ (j, hi, g). never j (omega arith) hi g,
        )
  ]

module _ {m : Bytes} {s n d k : ℕ} (string : IsString m s n) (set : IsString m d k) (fuel : ℕ)
    (enough : k < fuel) where
  -- From `i` on, the first index at which the string has no byte of the set, or ends.
  abbrev SpanFrom : ℕ → ℕ → Type 0
  SpanFrom i r =
      (i ≤ r)
      × (r ≤ n)
      × ((j : ℕ) → i ≤ j → j < r → Has m d k (m (s + j)))
      × ((r ≡ n) ⊎ ¬ Has m d k (m (s + r)))

  span_from_lem :
      (f i : ℕ)
      → i ≤ n
      → n < i + f
      → (r : ℕ) × (span_from fuel f (s + i) d m i ≡ some r) × SpanFrom i r
  unfolding span_from
  span_from_lem zero i le h = absurd (omega arith)
  span_from_lem (suc f) i le h = elim (dec_lt i n) [
    | yes lt ↦
        let full = ==_of_ne _ _ (string.full i lt) in
        elim (has_byte_lem set (m (s + i)) fuel enough) [
          | inl (e, found) ↦
              let (r, g, span) = span_from_lem f (i + 1) (omega arith) (omega arith) in
              (
                r,
                rw (full, e, step_assoc) g,
                (
                  omega (arith, span.0),
                  span.1,
                  widen (λ j. Has m d k (m (s + j))) i r found span.2,
                  span.3,
                ),
              )
          | inr (e, missing) ↦
              (i, rw (full, e), (le_refl i, le, λ j lo hi. absurd (omega arith), inr missing))
        ]
    | no end ↦ (
      i,
      at_stop i (omega arith),
      (le_refl i, le, λ j lo hi. absurd (omega arith), inl (omega arith)),
    )
  ]
    where
      at_stop : (i : ℕ) → n ≡ i → span_from fuel (suc f) (s + i) d m i ≡ some i
      at_stop i e = rw (subst (λ t. m (s + t) ≡ 0) e string.stop)

  break_from_lem :
      (f i : ℕ)
      → i ≤ n
      → n < i + f
      → (r : ℕ) × (break_from fuel f (s + i) d m ≡ some (if r == n then 0 else s + r))
        × (i ≤ r)
        × (r ≤ n)
        × ((j : ℕ) → i ≤ j → j < r → ¬ Has m d k (m (s + j)))
        × ((r ≡ n) ⊎ Has m d k (m (s + r)))
  unfolding break_from
  break_from_lem zero i le h = absurd (omega arith)
  break_from_lem (suc f) i le h = elim (dec_lt i n) [
    | yes lt ↦
        let full = ==_of_ne _ _ (string.full i lt) in
        elim (has_byte_lem set (m (s + i)) fuel enough) [
          | inl (e, found) ↦ (
            i,
            rw (full, e, ==_of_ne i n (omega arith)),
            le_refl i,
            le,
            λ j lo hi. absurd (omega arith),
            inr found,
          )
          | inr (e, missing) ↦
              let rest = break_from_lem f (i + 1) (omega arith) (omega arith) in
              (
                rest.0,
                rw (full, e, step_assoc) rest.1,
                omega (arith, rest.2),
                rest.3,
                widen (λ j. ¬ Has m d k (m (s + j))) i rest.0 missing rest.4,
                rest.5,
              )
        ]
    | no end ↦ (
      i,
      at_end i (omega arith),
      le_refl i,
      le,
      λ j lo hi. absurd (omega arith),
      inl (omega arith),
    )
  ]
    where
      at_end :
          (i : ℕ) → n ≡ i → break_from fuel (suc f) (s + i) d m ≡ some (if i == n then 0 else s + i)
      at_end i e = rw (subst (λ t. m (s + t) ≡ 0) e string.stop, ← e, ==_refl n)

-- The first index at which a string has no byte of the set; `n` if it has no other bytes.
pub record IsSpan (m : Bytes) (s n d k r : ℕ) : Type 0 where
  pub le : r ≤ n
  pub all : (j : ℕ) → j < r → Has m d k (m (s + j))
  pub end : (r ≡ n) ⊎ ¬ Has m d k (m (s + r))

-- `strspn` of a string and a set of bytes, with fuel above their lengths, returns the length of
-- the longest start of the string whose bytes are all in the set.
pub strspn-IsSpan :
    {m : Bytes} {s n d k : ℕ} (fuel : ℕ)
    → IsString m s n
    → IsString m d k
    → n < fuel
    → k < fuel
    → (r : ℕ) × (strspn fuel s d m ≡ some r) × IsSpan m s n d k r
unfolding strspn
strspn-IsSpan {m} {s} {d} fuel string set hn hk =
    let (r, e, span) = span_from_lem string set fuel hk fuel 0 (omega arith) (omega arith) in
    (
      r,
      ap (λ t. span_from fuel fuel t d m 0) (omega arith) ∙ e,
      record { le = span.1; all = λ j h. span.2 j (omega arith) h; end = span.3 },
    )

-- The first index at which a string has a byte of the set; `n` if it has none.
pub record IsBreak (m : Bytes) (s n d k r : ℕ) : Type 0 where
  pub le : r ≤ n
  pub none_before : (j : ℕ) → j < r → ¬ Has m d k (m (s + j))
  pub end : (r ≡ n) ⊎ Has m d k (m (s + r))

-- `strpbrk` of a string and a set of bytes, with fuel above their lengths, returns the address of
-- the first byte of the string that is in the set, and the null pointer if there is none.
pub strpbrk-IsBreak :
    {m : Bytes} {s n d k : ℕ} (fuel : ℕ)
    → IsString m s n
    → IsString m d k
    → n < fuel
    → k < fuel
    → (r : ℕ) × (strpbrk fuel s d m ≡ some (if r == n then 0 else s + r)) × IsBreak m s n d k r
unfolding strpbrk
strpbrk-IsBreak {m} {s} {d} fuel string set hn hk =
    let found = break_from_lem string set fuel hk fuel 0 (omega arith) (omega arith) in
    (
      found.0,
      ap (λ t. break_from fuel fuel t d m) (omega arith) ∙ found.1,
      record { le = found.3; none_before = λ j h. found.4 j (omega arith) h; end = found.5 },
    )
