-- ===== src/Paging/Translate.antt =====
-- What `page_map` and `page_unmap` do to the translation that `page_physaddr` gives, in
-- kernel/arch/i386/mem/paging.c.
use mathlib.Core.Path.{ap₂}
use comet_os.Base.{
  inl, inr, Bool-cases, Bool-cases, ℕ, ◌<◌, ◌≡◌, refl, ◌≢◌, true, some, arith, bit, ◌∙◌, bit_or,
}
use comet_os.Paging.{
  dir_get, looked_up, Machine, Words, word_at, directory_of, entry_at, store, page_map, page_unmap,
  page_physaddr,
}
use comet_os.Paging.Map.{
  store_entry_ne, store_entry_self, IsDirectory, IsPresent, IsPage, store_directory,
  store-IsDirectory, entry_page, entry_used,
}

-- The translation through a directory of the words of a memory.
translated : ℕ → ℕ → Words → ℕ
translated pd w m = looked_up (m (word_at pd (dir_get w))) (m (entry_at pd w m)) w

module _ {pd : ℕ} {m : Words} (dir : IsDirectory pd m) (v : ℕ) (present : IsPresent pd m v)
    (x : ℕ) where
  translated_other :
      (w : ℕ)
      → IsPage v
      → IsPage w
      → v ≢ w
      → translated pd w (store (entry_at pd v m) x m) ≡ translated pd w m
  unfolding translated looked_up
  translated_other w pv pw ne =
      let same = store_directory dir v present x (dir_get w) (omega arith) in
      elim (Bool-cases (bit (m (word_at pd (dir_get w))) 0)) [
        | inl there ↦
            ap₂ (λ d t. looked_up d t w) same (store_entry_ne dir v present x w pv pw ne there)
        | inr absent ↦ rw (same, absent)
      ]

  translated_self :
      translated pd v (store (entry_at pd v m) x m) ≡ looked_up (m (word_at pd (dir_get v))) x v
  unfolding translated
  translated_self =
      ap₂ (λ d t. looked_up d t v) (store_directory dir v present x (dir_get v) (omega arith))
        (store_entry_self dir v present x)

looked_up_mapped :
    (d p flags v : ℕ)
    → bit d 0 ≡ true
    → IsPage p
    → IsPage v
    → flags < 0x1000
    → looked_up d (bit_or (bit_or p flags) 1) v ≡ p
unfolding looked_up
looked_up_mapped d p flags v there pp pv small =
    ground (arith, entry_used (bit_or p flags), entry_page p flags pp.0 small, pp.1)

looked_up_empty : (d v : ℕ) → looked_up d 0 v ≡ 0
unfolding looked_up
looked_up_empty d v = ground arith

-- What holds of a machine after a write of the table entry of `v`, `q` being where `v` now leads.
pub record Remapped (page_dir v q : ℕ) (s s' : Machine) : Type 0 where
  pub directory : IsDirectory (directory_of page_dir s') s'.memory
  pub here : page_physaddr v page_dir s' ≡ q
  pub elsewhere :
      (w : ℕ) → IsPage w → v ≢ w → page_physaddr w page_dir s' ≡ page_physaddr w page_dir s
  pub frames : s'.frames ≡ s.frames

-- Through a directory whose tables stand apart, with the table of `v` made, `page_map` of a page
-- `p` with flags below 0x1000 returns `v` and makes `v` lead to `p`; it changes the translation of
-- no other page, takes no frame, and keeps the tables apart.
pub page_map_remaps :
    (s : Machine) (page_dir v p flags : ℕ)
    → IsDirectory (directory_of page_dir s) s.memory
    → IsPresent (directory_of page_dir s) s.memory v
    → IsPage v
    → IsPage p
    → flags < 0x1000
    → (s' : Machine) × (page_map p v flags page_dir s ≡ some (v, s')) × Remapped page_dir v p s s'
unfolding page_map page_physaddr
page_map_remaps s page_dir v p flags dir present pv pp small =
    let pd = directory_of page_dir s in
    let x = bit_or (bit_or p flags) 1 in
    (
      record s { memory = store (entry_at pd v s.memory) x s.memory },
      rw (pv.0, pp.0, present) refl,
      record {
        directory = store-IsDirectory dir v present x;
        here =
            unfold translated in
            translated_self dir v present x
            ∙ looked_up_mapped (s.memory (word_at pd (dir_get v))) p flags v present pp pv small;
        elsewhere = λ w pw ne. unfold translated in translated_other dir v present x w pv pw ne;
        frames = refl;
      },
    )

-- In the same setting `page_unmap` of a page returns 1 and leaves 0 as the table entry of `v`, so that
-- the page is not present, and `v` with no translation; it changes that of no other page, frees no
-- frame, and keeps the tables apart.
pub page_unmap_remaps :
    (s : Machine) (page_dir v : ℕ)
    → IsDirectory (directory_of page_dir s) s.memory
    → IsPresent (directory_of page_dir s) s.memory v
    → IsPage v
    → (s' : Machine) × (page_unmap v page_dir s ≡ (1, s'))
      × (s'.memory (entry_at (directory_of page_dir s') v s'.memory) ≡ 0)
      × Remapped page_dir v 0 s s'
unfolding page_unmap page_physaddr
page_unmap_remaps s page_dir v dir present pv =
    let pd = directory_of page_dir s in
    (
      record s { memory = store (entry_at pd v s.memory) 0 s.memory },
      rw (pv.0, present) refl,
      store_entry_self dir v present 0,
      record {
        directory = store-IsDirectory dir v present 0;
        here =
            unfold translated in
            translated_self dir v present 0 ∙ looked_up_empty (s.memory (word_at pd (dir_get v))) v;
        elsewhere = λ w pw ne. unfold translated in translated_other dir v present 0 w pv pw ne;
        frames = refl;
      },
    )
