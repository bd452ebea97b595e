-- ===== src/Libc/Text/Strtok.antt =====
-- `strtok_r` of libc/string/strtok.c: the token that it cuts off a string.
use mathlib.Core.Path.{subst}
use native.Mathlib.Decide.{dec_lt}
use comet_os.Base.{
  sym, ℕ, zero, suc, ◌+◌, ◌-◌, ◌≤◌, ◌<◌, ◌≡◌, ◌≢◌, ◌⊎◌, inl, inr, refl, some, arith, ap, ◌∙◌, ◌==◌,
  if◌then◌else◌, ==_of_ne, ==_refl,
}
use comet_os.Libc.Mem.{Bytes, write}
use comet_os.Libc.Text.{Token, find_from, lfind, cut, strtok_r}
use comet_os.Libc.Text.Spec.{IsString, Has}
use comet_os.Libc.Text.Tokens.{IsSpan, strspn-IsSpan, IsBreak, strpbrk-IsBreak}

module _ {m : Bytes} {s n : ℕ} (string : IsString m s n) where
  find_from_end : (f i : ℕ) → i ≤ n → n < i + f → find_from f s 0 m i ≡ some (s + n)
  unfolding find_from
  find_from_end zero i le h = absurd (omega arith)
  find_from_end (suc f) i le h = ground (arith, find_from_end f (i + 1), string.full i, at_end i)
    where
      at_end : (i : ℕ) → n ≡ i → m (s + i) ≡ 0
      at_end i e = subst (λ t. m (s + t) ≡ 0) e string.stop

  -- `lfind` of the zero of a string returns its address.
  lfind_end : (fuel : ℕ) → n < fuel → lfind fuel s 0 m ≡ some (s + n)
  unfolding lfind
  lfind_end fuel h = find_from_end fuel 0 (omega arith) (omega arith)

  suffix-IsString : (i : ℕ) → i ≤ n → IsString m (s + i) (n - i)
  suffix-IsString i le = record {
    full = λ j h. subst (λ t. m t ≢ 0) (omega arith) (string.full (i + j) (omega arith));
    stop = ap m (omega arith) ∙ string.stop;
  }

  -- A zero written inside a string ends it there.
  write-IsString : (t : ℕ) → t ≤ n → IsString (write (s + t) 0 m) s t
  unfolding write
  write-IsString t le = record {
    full = λ j h. rw (==_of_ne (s + j) (s + t) (omega arith)) (string.full j (omega arith));
    stop = ground arith;
  }

-- Behind `i` bytes of the set stands a token of `t` other bytes, ended by the string or by a byte
-- of the set. It is a string in the memory afterwards, which differs at most at its end; the next
-- search starts at the string's end or behind the byte that ended the token.
pub record IsToken (m : Bytes) (s n d k i t : ℕ) (r : Token) : Type 0 where
  pub token : r.token ≡ s + i
  pub skipped : (j : ℕ) → j < i → Has m d k (m (s + j))
  pub nonempty : 0 < t
  pub inside : i + t ≤ n
  pub body : (j : ℕ) → j < t → ¬ Has m d k (m (s + i + j))
  pub string : IsString r.memory (s + i) t
  pub kept : (a : ℕ) → a ≢ s + i + t → r.memory a ≡ m a
  pub next :
      ((i + t ≡ n) × (r.saveptr ≡ s + n))
      ⊎ ((i + t < n) × Has m d k (m (s + i + t)) × (r.saveptr ≡ s + i + t + 1))

-- The string has no byte outside the set: the null pointer, and nothing is written.
abbrev pub IsDone : Bytes → ℕ → ℕ → ℕ → ℕ → Token → Type 0
IsDone m s n d k r =
    (r.token ≡ 0) × (r.saveptr ≡ s + n) × (r.memory ≡ m) × ((j : ℕ) → j < n → Has m d k (m (s + j)))

module _ {m : Bytes} {s n d k i t : ℕ} (lt : i < n) (span : IsSpan m s n d k i)
    (break : IsBreak m (s + i) (n - i) d k t) where
  token_nonempty : 0 < t
  token_nonempty = elim (dec_lt 0 t) [
    | yes h ↦ h
    | no h ↦ elim break.end [
      | inl e ↦ absurd (omega arith)
      | inr has ↦ elim span.end [
        | inl e ↦ absurd (omega arith)
        | inr missing ↦
            let e : s + i + t ≡ s + i = omega arith in
            absurd (missing (subst (λ a. Has m d k (m a)) e has))
      ]
    ]
  ]

  token_stopped : t < n - i → Has m d k (m (s + i + t))
  token_stopped inner = elim break.end [ inl e ↦ absurd (omega arith) | inr has ↦ has ]

module _ {m : Bytes} {s n d k : ℕ} (fuel : ℕ) (string : IsString m s n) (set : IsString m d k)
    (hn : n < fuel) (hk : k < fuel) (ne : s ≢ 0) where
  cut-IsToken :
      (i t : ℕ)
      → i < n
      → IsSpan m s n d k i
      → IsBreak m (s + i) (n - i) d k t
      → (r : Token) × (cut fuel (s + i) (if t == n - i then 0 else s + i + t) m ≡ some r)
        × IsToken m s n d k i t r
  unfolding cut write
  cut-IsToken i t lt span break = elim (dec_lt t (n - i)) [
    | yes inner ↦ (
      record { token = s + i; saveptr = s + i + t + 1; memory = write (s + i + t) 0 m },
      rw (==_of_ne t (n - i) (omega arith), ==_of_ne (s + i + t) 0 (omega arith)),
      record {
        token = refl;
        skipped = span.all;
        nonempty = token_nonempty lt span break;
        inside = omega arith;
        body = break.none_before;
        string = write-IsString (suffix-IsString string i (omega arith)) t break.le;
        kept = λ a h. rw (==_of_ne a (s + i + t) h);
        next = inr (omega arith, token_stopped lt span break inner, refl);
      },
    )
    | no last ↦
        let e : t ≡ n - i = omega (arith, break.le) in
        (
          record { token = s + i; saveptr = s + i + (n - i); memory = m },
          rw (
            e,
            ==_refl (n - i),
            lfind_end (suffix-IsString string i (omega arith)) fuel (omega arith),
          ),
          record {
            token = refl;
            skipped = span.all;
            nonempty = token_nonempty lt span break;
            inside = omega arith;
            body = break.none_before;
            string = subst (IsString m (s + i)) (sym e) (suffix-IsString string i (omega arith));
            kept = λ a h. refl;
            next = inl (omega arith, omega arith);
          },
        )
  ]

  -- `strtok_r`, called with a string or with the null pointer and a saved string, with fuel above
  -- the lengths of the string and of the set of delimiters: it reports that no token is left, or
  -- cuts off the first one.
  pub strtok_r-IsToken :
      (str saveptr : ℕ)
      → (if str == 0 then saveptr else str) ≡ s
      → (r : Token) × (strtok_r fuel str d saveptr m ≡ some r)
        × (IsDone m s n d k r ⊎ ((i : ℕ) × (t : ℕ) × IsToken m s n d k i t r))
  unfolding strtok_r
  strtok_r-IsToken str saveptr e =
      let (i, skip, span) = strspn-IsSpan fuel string set hn hk in
      elim (dec_lt i n) [
        | yes lt ↦
            let suffix = suffix-IsString string i span.le in
            let (t, found, break) = strpbrk-IsBreak fuel suffix set (omega arith) hk in
            let (r, made, token) = cut-IsToken i t lt span break in
            (r, rw (e, skip, ==_of_ne _ _ (string.full i lt), found, made), inr (i, t, token))
        | no h ↦
            let end : i ≡ n = omega (arith, span.le) in
            (
              record { token = 0; saveptr = s + i; memory = m },
              rw (e, skip, ap (λ a. m (s + a)) end ∙ string.stop),
              inl (refl, omega arith, refl, λ j q. span.all j (omega arith)),
            )
      ]
