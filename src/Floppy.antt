-- ===== src/Floppy.antt =====
-- The floppy disk controller, kernel/arch/i386/fdc.c and fdc.h, which uses the DMA controllers.
-- What `malloc` and the log do is not part of the state.
pub mod Ports
pub mod Geometry
pub mod Drive
pub mod Command
pub mod Transfer
mod Tests
use comet_os.Base.{
  ℕ, zero, suc, ◌+◌, ◌-◌, ◌*◌, ◌/◌, ◌%◌, ◌^◌, bit_or, Bool, true, false, Option, none, some, leb,
  ltb, ◌==◌, ◌!=◌, ◌&&◌, ◌||◌, u8, u32, sub32, bit, if◌then◌else◌, List,
}
use comet_os.Floppy.Ports.{
  floppy_dor, floppy_msr, floppy_fifo, floppy_ctrl, fdc_cmd_specify, fdc_cmd_read_sect,
  fdc_cmd_calibrate, fdc_cmd_check_int, fdc_cmd_seek, fdc_cmd_ext_skip, fdc_cmd_ext_density,
  fdc_cmd_ext_multitrack, floppy_dor_mask_reset, floppy_dor_mask_dma, floppy_dor_mask_drive0_motor,
  floppy_dor_mask_drive1_motor, floppy_dor_mask_drive2_motor, floppy_dor_mask_drive3_motor,
  floppy_gap3_length_3_5, floppy_sector_dtl_512,
}
use comet_os.Base.Bus.{Bus, Access, outport8, inport8}
use comet_os.Dma
use mathlib.Core.Option

-- `fires` says whether the controller has raised its interrupt by a history of port accesses;
-- `floppy_irq` is then the handler that runs. `sleeps` says whether a `sleep(20)` that is called
-- behind a history returns: where fewer timer interrupts come, it does not.
pub record Floppy : Type 0 where
  pub bus : Bus
  pub current_drive : ℕ
  pub floppy_disk_irq : ℕ
  pub dma_buffer : ℕ
  pub fires : List Access → Bool
  pub sleeps : List Access → Bool

-- FDC_DMA_CHANNEL and FLOPPY_SECTORS_PER_TRACK.
abbrev pub fdc_dma_channel : ℕ
fdc_dma_channel = 2

abbrev pub sectors_per_track : ℕ
sectors_per_track = 18

-- The byte `i` of the union.
abbrev pub byte_of : ℕ → ℕ → ℕ
byte_of i l = l / 2 ^ (8 * i) % 2 ^ 8

pub set_dma : ℕ → Floppy → Floppy
set_dma addr s = record s { dma_buffer = addr }

-- The calls behind the check of `floppy_dma_initialize`.
program_dma : ℕ → ℕ → Bus → Bus
program_dma a c b =
    let b1 = Dma.reset_flipflop 1 (Dma.mask_channel fdc_dma_channel (Dma.reset 1 b)) in
    let b2 = Dma.set_address fdc_dma_channel (byte_of 0 a) (byte_of 1 a) b1 in
    let b3 = Dma.reset_flipflop 1 b2 in
    let b4 = Dma.set_count fdc_dma_channel (byte_of 0 c) (byte_of 1 c) b3 in
    Dma.unmask_all 1 (Dma.set_read fdc_dma_channel b4)

-- 0 for a buffer that the controller cannot reach in one go.
pub dma_initialize : ℕ → ℕ → Bus → ℕ × Bus
unfolding program_dma
dma_initialize buffer length b =
    let c = sub32 length 1 in
    if (buffer / 2 ^ 24 != 0) || ((c / 2 ^ 16 != 0) || (u32 (buffer % 2 ^ 16 + c) / 2 ^ 16 != 0))
    then (0, b)
    else (1, program_dma buffer c b)

pub read_status : Bus → ℕ × Bus
read_status b = inport8 floppy_msr b

pub write_dor : ℕ → Bus → Bus
write_dor val b = outport8 floppy_dor val b

-- The 500 rounds of `floppy_send_command` and `floppy_read_data`; FLOPPY_MSR_MASK_DATAREG is bit 7.
send_from : ℕ → ℕ → Bus → Bus
unfolding read_status
send_from zero cmd b = b
send_from (suc n) cmd b =
    let (status, b1) = read_status b in
    elim (bit status 7) [ true ↦ outport8 floppy_fifo cmd b1 | false ↦ send_from n cmd b1 ]

pub send_command : ℕ → Bus → Bus
send_command cmd b = send_from 500 (u8 cmd) b

read_from : ℕ → Bus → ℕ × Bus
unfolding read_status
read_from zero b = (0, b)
read_from (suc n) b =
    let (status, b1) = read_status b in
    elim (bit status 7) [ true ↦ inport8 floppy_fifo b1 | false ↦ read_from n b1 ]

pub read_data : Bus → ℕ × Bus
read_data b = read_from 500 b

pub write_ccr : ℕ → Bus → Bus
write_ccr val b = outport8 floppy_ctrl val b

pub irq : Floppy → Floppy
irq s = record s { floppy_disk_irq = 1 }

-- The interrupt runs `floppy_irq` when the controller raises it; `none` is the loop that waits for
-- ever.
pub wait_irq : Floppy → Option Floppy
unfolding irq
wait_irq s =
    let t = if s.fires s.bus.history then irq s else s in
    if t.floppy_disk_irq == 0 then none else some (record t { floppy_disk_irq = 0 })

-- The two results of `floppy_check_int`, and the ports.
pub check_int : Bus → (ℕ × ℕ) × Bus
unfolding send_command read_data
check_int b =
    let b1 = send_command fdc_cmd_check_int b in
    let (st0, b2) = read_data b1 in let (cyl, b3) = read_data b2 in ((st0, cyl), b3)

-- The switch over the drive.
motor_of : ℕ → ℕ
motor_of drive =
    if drive == 0
    then floppy_dor_mask_drive0_motor
    else if drive == 1
    then floppy_dor_mask_drive1_motor
    else if drive == 2
    then floppy_dor_mask_drive2_motor
    else if drive == 3
    then floppy_dor_mask_drive3_motor
    else 0

pub switch_motor : ℕ → Floppy → Floppy
unfolding write_dor motor_of
switch_motor b s = record s {
  bus =
      if b != 0
      then write_dor
          (bit_or (bit_or (bit_or s.current_drive (motor_of s.current_drive)) floppy_dor_mask_reset)
            floppy_dor_mask_dma)
          s.bus
      else write_dor floppy_dor_mask_reset s.bus;
}

pub control_motor : ℕ → Floppy → Option Floppy
unfolding switch_motor
control_motor b s =
    let t = switch_motor b s in
    if ltb 3 s.current_drive then some s else if s.sleeps t.bus.history then some t else none

-- `loadt << 1 | (dma==0) ? 0 : 1` is the choice on `loadt << 1 | (dma==0)`.
pub drive_data : ℕ → ℕ → ℕ → ℕ → Bus → Bus
unfolding send_command
drive_data stepr loadt unloadt dma b =
    let b1 = send_command fdc_cmd_specify b in
    let b2 = send_command (bit_or (stepr % 16 * 2 ^ 4) (unloadt % 16)) b1 in
    let test = bit_or (u32 (loadt * 2)) (if dma == 0 then 1 else 0) in
    send_command (if test != 0 then 0 else 1) b2

-- What stands behind the commands of a round of the next two loops: the wait and the check. The
-- first component is the cylinder.
settle : Floppy → Option (ℕ × Floppy)
unfolding wait_irq check_int
settle s = elim (wait_irq s) [
  | none ↦ none
  | some t ↦ let ((st0, cyl), b) = check_int t.bus in some (cyl, record t { bus = b })
]

-- The loop of `floppy_calibrate`, with `n` rounds left; -1 and -2 are their bit patterns.
calibrate_from : ℕ → ℕ → Floppy → Option (ℕ × Floppy)
unfolding settle control_motor
calibrate_from zero drive s = Option.map (λ u. (2 ^ 32 - 1, u)) (control_motor 0 s)
calibrate_from (suc n) drive s =
    elim (settle (record s { bus = send_command drive (send_command fdc_cmd_calibrate s.bus) })) [
      | none ↦ none
      | some (cyl, t) ↦ elim (cyl == 0) [
        | true ↦ Option.map (λ u. (0, u)) (control_motor 0 t)
        | false ↦ calibrate_from n drive t
      ]
    ]

pub calibrate : ℕ → Floppy → Option (ℕ × Floppy)
unfolding control_motor
calibrate drive s =
    if leb 4 drive
    then some (2 ^ 32 - 2, s)
    else elim (control_motor 1 s) [ none ↦ none | some t ↦ calibrate_from 10 drive t ]

pub disable_controller : Bus → Bus
disable_controller b = write_dor 0 b

pub enable_controller : Bus → Bus
enable_controller b = write_dor (bit_or floppy_dor_mask_reset floppy_dor_mask_dma) b

-- The results of the four checks are not used.
pub reset : Floppy → Option Floppy
unfolding wait_irq check_int calibrate
reset s = elim (wait_irq (record s { bus = enable_controller (disable_controller s.bus) })) [
  | none ↦ none
  | some t ↦
      let b = (check_int (check_int (check_int (check_int t.bus).1).1).1).1 in
      let b1 = drive_data 3 16 240 1 (write_ccr 0 b) in
      Option.map (λ (result, u). u) (calibrate t.current_drive (record t { bus = b1 }))
]

-- The nine bytes of a read: the command, the place, the size, the last sector of the track, the gap
-- and the data length.
read_command : ℕ → ℕ → ℕ → ℕ → Bus → Bus
read_command drive head track sector b =
    let b1 =
      send_command
        (bit_or (bit_or (bit_or fdc_cmd_read_sect fdc_cmd_ext_multitrack) fdc_cmd_ext_skip)
          fdc_cmd_ext_density)
        b in
    let b2 = send_command (bit_or (head * 4) drive) b1 in
    let b3 = send_command sector (send_command head (send_command track b2)) in
    let last = if leb sectors_per_track (sector + 1) then sectors_per_track else sector + 1 in
    send_command 0xff (
      send_command floppy_gap3_length_3_5
        (send_command last (send_command floppy_sector_dtl_512 b3)))

-- The seven bytes read have no use.
drain : ℕ → Bus → Bus
drain zero b = b
drain (suc n) b = drain n (read_data b).1

pub read_sector_imp : ℕ → ℕ → ℕ → Floppy → Option Floppy
unfolding wait_irq check_int read_command dma_initialize
read_sector_imp head track sector s =
    let (ok, b) = dma_initialize s.dma_buffer 512 s.bus in
    let b1 = Dma.set_read fdc_dma_channel b in
    elim (wait_irq (record s { bus = read_command s.current_drive head track sector b1 })) [
      | none ↦ none
      | some t ↦ some (record t { bus = (check_int (drain 7 t.bus)).1 })
    ]

-- The loop of `floppy_seek`, with `n` rounds left.
seek_from : ℕ → ℕ → ℕ → Floppy → Option (ℕ × Floppy)
unfolding settle
seek_from zero cyl head s = some (2 ^ 32 - 1, s)
seek_from (suc n) cyl head s =
    let b = send_command (bit_or (head * 4) s.current_drive) (send_command fdc_cmd_seek s.bus) in
    elim (settle (record s { bus = send_command cyl b })) [
      | none ↦ none
      | some (cyl0, t) ↦ elim (cyl0 == cyl) [ true ↦ some (0, t) | false ↦ seek_from n cyl head t ]
    ]

pub seek : ℕ → ℕ → Floppy → Option (ℕ × Floppy)
seek cyl head s = if leb 4 s.current_drive then some (2 ^ 32 - 1, s) else seek_from 10 cyl head s

-- The head, the track and the sector, for an `lba` that is not negative.
pub convert : ℕ → ℕ × ℕ × ℕ
convert lba = (
  lba % (sectors_per_track * 2) / sectors_per_track,
  lba / (sectors_per_track * 2),
  lba % sectors_per_track + 1,
)

specify : Floppy → Floppy
specify s = record s { bus = drive_data 13 1 0xf 1 s.bus }

-- `buffer` is what `malloc(512)` returns.
pub initialize : ℕ → Floppy → Option Floppy
unfolding reset set_dma specify
initialize buffer s = Option.map specify (reset (set_dma buffer s))

pub drive_set : ℕ → Floppy → Floppy
drive_set drive s = if ltb drive 4 then record s { current_drive = drive } else s

pub drive_get : Floppy → ℕ
drive_get s = s.current_drive

-- `floppy_read` behind its seek. The callee's parameters are bytes.
read_at : ℕ → ℕ → ℕ → ℕ × Floppy → Option (ℕ × Floppy)
unfolding read_sector_imp control_motor
read_at head track sector (result, s) =
    if result != 0 then some (0, s) else elim (read_sector_imp (u8 head) (u8 track) (u8 sector) s) [
      | none ↦ none
      | some t ↦ Option.map (λ u. (t.dma_buffer, u)) (control_motor 0 t)
    ]

pub read : ℕ → Floppy → Option (ℕ × Floppy)
unfolding convert seek read_at
read sector_lba s =
    let (head, track, sector) = convert sector_lba in
    if leb 4 s.current_drive then some (0, s) else elim (control_motor 1 s) [
      | none ↦ none
      | some t ↦ elim (seek track head t) [
        | none ↦ none
        | some found ↦ read_at head track sector found
      ]
    ]
