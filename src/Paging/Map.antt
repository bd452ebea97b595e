-- ===== src/Paging/Map.antt =====
-- Mapping, translating and unmapping a page in kernel/arch/i386/mem/paging.c.
use comet_os.Base.{
  ==_refl, ℕ, ◌/◌, ◌%◌, ◌<◌, ◌^◌, ◌≡◌, ◌≢◌, true, arith, bit, ap, ◌∙◌, sym, ==_of_ne, bit_or,
}
use comet_os.Base.Bits.{bit_or-page, bit_or-mod_two, bit_or-zero}
use comet_os.Paging.{store, entry_at, dir_get, tlb_get, phy_get, word_at, Words}

or_low : (a f : ℕ) → f < 0x1000 → bit_or a f / 0x1000 ≡ a / 0x1000
or_low a f small =
    bit_or-page a f ∙ ap (λ (t : ℕ). bit_or (a / 0x1000) t) (omega arith) ∙ bit_or-zero (a / 0x1000)

pub entry_page : (p f : ℕ) → p % 0x1000 ≡ 0 → f < 0x1000 → phy_get (bit_or (bit_or p f) 1) ≡ p
entry_page p f aligned small = omega (arith, or_low (bit_or p f) 1 (omega arith), or_low p f small)

pub entry_used : (e : ℕ) → bit (bit_or e 1) 0 ≡ true
entry_used e = ground (arith, bit_or-mod_two e 1)

-- A directory at a page of its own, whose tables stand at pages of their own.
pub record IsDirectory (pd : ℕ) (m : Words) : Type 0 where
  pub aligned : pd % 0x1000 ≡ 0
  pub in_space : pd < 2 ^ 32
  pub apart : (i : ℕ) → i < 1024 → bit (m (word_at pd i)) 0 ≡ true → phy_get (m (word_at pd i)) ≢ pd
  pub small : (i : ℕ) → i < 1024 → m (word_at pd i) < 2 ^ 32
  pub distinct :
      (i j : ℕ)
      → i < 1024
      → j < 1024
      → bit (m (word_at pd i)) 0 ≡ true
      → bit (m (word_at pd j)) 0 ≡ true
      → phy_get (m (word_at pd i)) ≡ phy_get (m (word_at pd j))
      → i ≡ j

-- Words of two tables, or two words of one, have two addresses.
table_words_apart :
    (a b i j : ℕ)
    → a % 0x1000 ≡ 0
    → b % 0x1000 ≡ 0
    → a < 2 ^ 32
    → b < 2 ^ 32
    → i < 1024
    → j < 1024
    → word_at a i ≡ word_at b j
    → (a ≡ b) × (i ≡ j)
table_words_apart a b i j ha hb sa sb hi hj e = (omega arith, omega arith)

same_page :
    (v w : ℕ)
    → v % 0x1000 ≡ 0
    → w % 0x1000 ≡ 0
    → v < 2 ^ 32
    → w < 2 ^ 32
    → dir_get v ≡ dir_get w
    → tlb_get v ≡ tlb_get w
    → v ≡ w
same_page v w hv hw sv sw d t = omega arith

-- The directory entry of `v` is in use.
abbrev pub IsPresent : ℕ → Words → ℕ → Type 0
IsPresent pd m v = bit (m (word_at pd (dir_get v))) 0 ≡ true

-- The first address of a page.
abbrev pub IsPage : ℕ → Type 0
IsPage v = (v % 0x1000 ≡ 0) × (v < 2 ^ 32)

module _ {pd : ℕ} {m : Words} (dir : IsDirectory pd m) (v : ℕ) (present : IsPresent pd m v) where
  pub entry_at-ne-directory : (i : ℕ) → i < 1024 → word_at pd i ≢ entry_at pd v m
  entry_at-ne-directory i h e = dir.apart (dir_get v) (omega arith) present (
      sym
        (table_words_apart pd (phy_get (m (word_at pd (dir_get v)))) i (tlb_get v) dir.aligned
          (omega arith) dir.in_space (omega (arith, dir.small (dir_get v) (omega arith))) h
          (omega arith) e).0)

  pub entry_at-ne :
      (w : ℕ) → IsPage v → IsPage w → v ≢ w → IsPresent pd m w → entry_at pd w m ≢ entry_at pd v m
  entry_at-ne w (hv, sv) (hw, sw) ne there e =
      let (tables, entries) =
        table_words_apart (phy_get (m (word_at pd (dir_get w))))
          (phy_get (m (word_at pd (dir_get v)))) (tlb_get w) (tlb_get v) (omega arith) (omega arith)
          (omega (arith, dir.small (dir_get w) (omega arith)))
          (omega (arith, dir.small (dir_get v) (omega arith))) (omega arith) (omega arith) e in
      ne (
        sym (
          same_page w v hw hv sw sv
            (dir.distinct (dir_get w) (dir_get v) (omega arith) (omega arith) there present tables)
            entries))

  -- A write to the table entry of `v` leaves the directory.
  module _ (x : ℕ) where
    pub store_directory :
        (i : ℕ) → i < 1024 → store (entry_at pd v m) x m (word_at pd i) ≡ m (word_at pd i)
    unfolding store
    store_directory i h = rw (==_of_ne _ _ (entry_at-ne-directory i h))

    pub store-IsDirectory : IsDirectory pd (store (entry_at pd v m) x m)
    store-IsDirectory = record {
      aligned = dir.aligned;
      in_space = dir.in_space;
      apart = λ i h. rw (store_directory i h) (dir.apart i h);
      small = λ i h. rw (store_directory i h) (dir.small i h);
      distinct = λ i j h k. rw (store_directory i h, store_directory j k) (dir.distinct i j h k);
    }

    pub entry_at-store : (w : ℕ) → entry_at pd w (store (entry_at pd v m) x m) ≡ entry_at pd w m
    entry_at-store w =
        ap (λ (t : ℕ). word_at (phy_get t) (tlb_get w)) (store_directory (dir_get w) (omega arith))

    -- The word that the table entry of `w` holds after the write.
    pub store_entry_ne :
        (w : ℕ)
        → IsPage v
        → IsPage w
        → v ≢ w
        → IsPresent pd m w
        → store (entry_at pd v m) x m (entry_at pd w (store (entry_at pd v m) x m))
          ≡ m (entry_at pd w m)
    unfolding store
    store_entry_ne w pv pw ne there =
        rw (entry_at-store w, ==_of_ne _ _ (entry_at-ne w pv pw ne there))

    pub store_entry_self :
        store (entry_at pd v m) x m (entry_at pd v (store (entry_at pd v m) x m)) ≡ x
    unfolding store
    store_entry_self = rw (entry_at-store v, ==_refl (entry_at pd v m))
