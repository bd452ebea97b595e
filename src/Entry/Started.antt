-- ===== src/Entry/Started.antt =====
-- The state in which `kernel_main` of kernel/kernel/kernel.c comes to its main loop.
use mathlib.Core.Path.{subst}
use comet_os.Base.{
  not, ◌/◌, ◌⊎◌, ◌&&◌, Bool, ◌≤◌, ℕ, ◌≡◌, ◌≢◌, refl, sym, ap, ◌∙◌, arith, none, some, Bool, true,
  false, ltb, ◌==◌, u32, if◌then◌else◌, Option-cases, Bool-cases, inl, inr,
}
use comet_os.Descriptors.{idt_initialize}
use comet_os.Interrupts.{irq_install_handler, isr_install_handler}
use comet_os.Keyboard.{keyboard_install}
use comet_os.Kmalloc.{Liballoc, Kernel, kmalloc, bitmap_create}
use comet_os.Heap.Create.{heap_create}
use comet_os.Paging.{Machine}
use comet_os.Paging.Start
use comet_os.Timer.{pit_install, pit_phase}
use comet_os.Libc.Text.{◌>>=◌}
use comet_os.Entry.{
  take_modules, guarded, kernel_hang, Multiboot, System, Handlers, hung, running, max_mem, early,
  paging_initialize, from_paging, mount, late, kernel_main,
}

-- Paging is on behind `paging_initialize`.
initialize-paging_state :
    (fuel kernel_pointer : ℕ) (s t : Machine)
    → Start.initialize fuel kernel_pointer s ≡ some t
    → t.paging_state ≡ 1
unfolding Start.initialize
initialize-paging_state fuel kernel_pointer s t e = ground arith

kmalloc-paging_state :
    {L : Type 0} (lib : Liballoc L) (size : ℕ) (k : Kernel L)
    → (kmalloc lib size k).1.paging_state ≡ k.paging_state
unfolding kmalloc
kmalloc-paging_state lib size k = ground arith

module _ {L : Type 0} (lib : Liballoc L) (handlers : Handlers) where
  -- `pit_install` divides by 100, and so succeeds.
  early-installs :
      (debug : Bool) (mboot : Multiboot) (s : System L)
      → (s1 : System L) × (early lib handlers debug mboot s ≡ some s1)
        × (s1.idt ≡ idt_initialize handlers.isr handlers.irq)
        × ((j : ℕ)
            → s1.cpu.irq_routines j ≡ (if j == 0 then handlers.pit_at else s.cpu.irq_routines j))
        × (s1.cpu.isr_routines ≡ s.cpu.isr_routines)
        × (s1.machine ≡ s.machine)
        × (s1.interrupts ≡ s.interrupts)
  unfolding early pit_install pit_phase
  early-installs true mboot s = (_, refl, refl, λ j. refl, refl, refl, refl)
  early-installs false mboot s = (_, refl, refl, λ j. refl, refl, refl, refl)

  -- What the start of the paging leaves, and changes.
  paging_initialize-keeps :
      (fuel mem_upper : ℕ) (words heap_words : ℕ → ℕ) (s s2 : System L)
      → paging_initialize lib handlers fuel mem_upper words heap_words s ≡ some s2
      → (s2.idt ≡ s.idt)
        × (s2.cpu ≡ isr_install_handler 14 handlers.page_fault_at s.cpu)
        × (s2.kernel.paging_state ≡ 1)
        × (s2.kernel_heap ≢ none)
        × (s2.machine.paging_state ≡ 1)
  unfolding paging_initialize
  paging_initialize-keeps fuel mem_upper words heap_words s s2 e =
      let frames = bitmap_create lib (u32 mem_upper / 4) words s.kernel in
      let k = (heap_create lib mem_upper 0 1 0 heap_words frames.kernel).2 in
      let on =
        initialize-paging_state fuel k.kernel_pointer (record s.machine { frames = frames.bitmap })
          s2.machine in
      (ground arith, ground arith, ground arith, ground arith, ground (arith, on))

  mount-keeps :
      (s b : System L)
      → mount lib handlers s ≡ some (running b)
      → (b.idt ≡ s.idt)
        × (b.cpu ≡ s.cpu)
        × (b.interrupts ≡ s.interrupts)
        × (b.fs_root ≢ none)
        × (b.kernel_heap ≡ s.kernel_heap)
        × (b.kernel.paging_state ≡ s.kernel.paging_state)
        × (b.machine ≡ s.machine)
  unfolding mount
  mount-keeps s b e = (
    ground arith,
    ground arith,
    ground arith,
    ground arith,
    ground arith,
    ground (arith, kmalloc-paging_state lib 184 s.kernel),
    ground arith,
  )

  -- What the last steps do, if they come to the main loop.
  late-keeps :
      (mboot : Multiboot) (s b : System L)
      → late lib handlers mboot s ≡ some (running b)
      → (b.idt ≡ s.idt)
        × (b.cpu ≡ keyboard_install handlers.keyboard_at s.cpu)
        × (b.interrupts ≡ true)
        × (b.fs_root ≢ none)
        × (b.kernel_heap ≡ s.kernel_heap)
        × (b.kernel.paging_state ≡ s.kernel.paging_state)
        × (b.machine ≡ s.machine)
  unfolding late
  late-keeps mboot s b e =
      let t = take_modules mboot (record s { interrupts = true }) in
      mount-keeps (record t { cpu = keyboard_install handlers.keyboard_at t.cpu }) b e

  -- What stands after the test of the memory, if the main loop is come to.
  guarded-running :
      (fuel : ℕ) (mboot : Multiboot) (words heap_words : ℕ → ℕ) (s b : System L)
      → guarded lib handlers fuel mboot words heap_words s ≡ some (running b)
      → ((u32 mboot.mem_upper ≤ max_mem) ⊎ (s.interrupts ≡ true))
        × (b.idt ≡ s.idt)
        × (b.cpu
            ≡ keyboard_install handlers.keyboard_at
                (isr_install_handler 14 handlers.page_fault_at s.cpu))
        × (b.interrupts ≡ true)
        × (b.kernel_heap ≢ none)
        × (b.fs_root ≢ none)
        × (b.kernel.paging_state ≡ 1)
        × (b.machine.paging_state ≡ 1)
  unfolding guarded from_paging
  guarded-running fuel mboot words heap_words s b e =
      elim (Bool-cases (ltb max_mem (u32 mboot.mem_upper) && not s.interrupts)) [
        | inl above ↦
            absurd
              (let hangs : some (hung (kernel_hang s)) ≡ some (running b) = rw (above) at e in cc)
        | inr within ↦
            elim (Option-cases
              (paging_initialize lib handlers fuel mboot.mem_upper words heap_words s)) [
                | inl out ↦
                    absurd (
                      let stops : none ≡ some (running b) = rw (within, from_paging, out) at e in
                      cc)
                | inr (s2, paged) ↦
                    let last : late lib handlers mboot s2 ≡ some (running b) =
                      rw (within, from_paging, paged) at e in
                    let (table2, cpu2, state2, heap2, machine2) =
                      paging_initialize-keeps fuel mboot.mem_upper words heap_words s s2 paged in
                    let (table3, cpu3, on, rooted, heap3, state3, machine3) =
                      late-keeps mboot s2 b last in
                    (
                      ground arith,
                      table3 ∙ table2,
                      cpu3 ∙ ap (keyboard_install handlers.keyboard_at) cpu2,
                      on,
                      subst (λ h. h ≢ none) (sym heap3) heap2,
                      rooted,
                      state3 ∙ state2,
                      ap (λ x. x.paging_state) machine3 ∙ machine2,
                    )
              ]
      ]

  kernel_main-early :
      (debug : Bool) (fuel : ℕ) (mboot : Multiboot) (words heap_words : ℕ → ℕ) (s s1 : System L)
      → early lib handlers debug mboot s ≡ some s1
      → kernel_main lib handlers debug fuel mboot words heap_words s
        ≡ guarded lib handlers fuel mboot words heap_words s1
  unfolding kernel_main
  kernel_main-early debug fuel mboot words heap_words s s1 made =
      ap (λ o. o >>= guarded lib handlers fuel mboot words heap_words) made

  -- Where `kernel_main` comes to its main loop, the upper memory was not above MAX_MEM or the
  -- interrupts were on at its start; the interrupt table is that of `idt_initialize`; the timer's
  -- handler stands at IRQ 0, the keyboard's at IRQ 1 and that of page faults at the exception 14, with
  -- no other handler changed; `paging_state` is 1, for the page tables and for `kmalloc`; the kernel
  -- has its heap, interrupts are let in, and the file system has a root.
  pub kernel_main-running :
      (debug : Bool) (fuel : ℕ) (mboot : Multiboot) (words heap_words : ℕ → ℕ) (s b : System L)
      → kernel_main lib handlers debug fuel mboot words heap_words s ≡ some (running b)
      → ((u32 mboot.mem_upper ≤ max_mem) ⊎ (s.interrupts ≡ true))
        × (b.idt ≡ idt_initialize handlers.isr handlers.irq)
        × ((j : ℕ)
            → b.cpu.irq_routines j ≡ (
                if j == 0
                then handlers.pit_at
                else if j == 1
                then handlers.keyboard_at
                else s.cpu.irq_routines j))
        × ((j : ℕ)
            → b.cpu.isr_routines j
              ≡ (if j == 14 then handlers.page_fault_at else s.cpu.isr_routines j))
        × (b.interrupts ≡ true)
        × (b.kernel_heap ≢ none)
        × (b.fs_root ≢ none)
        × (b.kernel.paging_state ≡ 1)
        × (b.machine.paging_state ≡ 1)
  unfolding keyboard_install isr_install_handler irq_install_handler
  kernel_main-running debug fuel mboot words heap_words s b e =
      let (s1, made, table, irqs, isrs, machine, off) = early-installs debug mboot s in
      let (small, table1, cpu1, enabled, heap1, rooted, state, paged) =
        guarded-running fuel mboot words heap_words s1 b
          (sym (kernel_main-early debug fuel mboot words heap_words s s1 made) ∙ e) in
      (
        elim small [ inl low ↦ inl low | inr on ↦ inr (sym off ∙ on) ],
        table1 ∙ table,
        λ j. ap (λ c. c.irq_routines j) cpu1 ∙ (let before = irqs j in ground arith),
        λ j. ap (λ c. c.isr_routines j) cpu1 ∙ (let before = ap (λ r. r j) isrs in ground arith),
        enabled,
        heap1,
        rooted,
        state,
        paged,
      )
